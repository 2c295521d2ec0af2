-- ===== src/Pipe/Read/Exact.antt =====
-- `poll_read` of src/pipe.rs agrees with its description, on every input.
use sosistab2_obfsws.Base.{
  ℕ, ◌+◌, ◌-◌, ◌≤◌, ◌<◌, ◌≡◌, refl, sym, ap, ap₂, ◌∙◌, inl, inr, Bool-cases, Option-cases, [], ◌∷◌,
  ◌++◌, arith, ltb, length, take, drop, length-append, length-take, length-drop, take_all, drop_all,
  drop-drop, drop-append_right, ltb→lt, ltb→le, lt→ltb, le→ltb,
}
use sosistab2_obfsws.Base.Words.{Bytes}
use sosistab2_obfsws.Base.Slices.{done, checked_sub-done, read_slice-done, write_slice-done}
use sosistab2_obfsws.Io.{pending}
use sosistab2_obfsws.Channel.{Channel}
use sosistab2_obfsws.Pipe.{ObfsWsPipe, Shared, poll_read}
use sosistab2_obfsws.Pipe.Read.{serve, read_reference}
use sosistab2_obfsws.Pipe.Read.Place.{answer, channel_none, channel_some}

length_zero : (xs : Bytes) → length xs ≤ 0 → xs ≡ []
length_zero [] h = refl
length_zero (x ∷ xs) h = absurd (omega arith)

zero_add : (n : ℕ) → 0 + n ≡ n
zero_add n = omega arith

module _ {C : Channel Bytes} where
  module _ (p : ObfsWsPipe) (s : Shared C) (buf : Bytes) where
    -- What is written in front of the buffer leaves its length and its end as they were.
    refilled :
        (t : Shared C) (msg : Bytes)
        → length p.recv_buf ≤ length buf
        → done (
            serve
              (record p { recv_buf = [] })
              t
              (p.recv_buf ++ drop (length p.recv_buf) buf)
              (p.recv_buf ++ msg))
          ≡ done (serve p t buf (p.recv_buf ++ msg))
    refilled t msg k =
        let same : length (p.recv_buf ++ drop (length p.recv_buf) buf) ≡ length buf = omega (
          arith,
          length-append p.recv_buf (drop (length p.recv_buf) buf),
          length-drop (length p.recv_buf) buf,
        ) in
        answer t p.peer_url (omega arith)
          (ap₂ ◌++◌ (ap (λ k. take k (p.recv_buf ++ msg)) same) (
            drop-append_right p.recv_buf (drop (length p.recv_buf) buf) (length (p.recv_buf ++ msg))
              (length msg) (length-append p.recv_buf msg)
            ∙ drop-drop (length p.recv_buf) (length msg) (length (p.recv_buf ++ msg)) buf
                (length-append p.recv_buf msg)))
          (ap (λ k. drop k (p.recv_buf ++ msg)) same)

    -- Nothing held: the message alone is served.
    read_empty : p.recv_buf ≡ [] → poll_read p s buf ≡ done (read_reference p s buf)
    unfolding poll_read
    read_empty e =
        rw
          (
            le→ltb 0 (length p.recv_buf) (omega (arith, ap length e)),
            le→ltb (length buf) (length p.recv_buf) (omega (arith, ap length e)),
          )
          (elim (Option-cases (C.try_recv s.recv_chan)) [
            | inl no_msg ↦
                rw (channel_none p s buf 0 no_msg, no_msg)
                  (λ i. done (record {
                    poll = pending;
                    buf = sym e i ++ drop (length (sym e i)) buf;
                    pipe = record { recv_buf = e i; peer_url = p.peer_url };
                    shared = s;
                  }))
            | inr ((msg, chan), got) ↦ rw got (
                channel_some p s [] buf msg chan e got
                ∙ ap (λ (r : Bytes). done (serve p (record s { recv_chan = chan }) buf (r ++ msg)))
                    (sym e))
          ])

    -- More held than the buffer takes: no message is asked for.
    read_held : length buf < length p.recv_buf → poll_read p s buf ≡ done (read_reference p s buf)
    unfolding poll_read
    read_held h =
        rw
          (
            lt→ltb 0 (length p.recv_buf) (omega arith),
            checked_sub-done (length buf) 0 (omega arith),
            lt→ltb (length buf - 0) (length p.recv_buf) (omega arith),
            read_slice-done p.recv_buf 0 (length buf) (omega arith) (omega arith),
            write_slice-done buf 0 (length buf) (take (length buf - 0) p.recv_buf) (omega arith)
                (omega arith) (omega (arith, length-take (length buf - 0) p.recv_buf)),
            read_slice-done p.recv_buf (length buf) (length p.recv_buf) (omega arith) (omega arith),
            lt→ltb (length buf) (length p.recv_buf) h,
          )
          (answer s p.peer_url (omega arith)
            (rw
              (
                drop_all (length buf) buf (omega arith),
                drop_all (length p.recv_buf) buf (omega arith),
              )
              (ap (λ k. take k p.recv_buf ++ []) (omega arith)))
            (take_all (length p.recv_buf - length buf) (drop (length buf) p.recv_buf)
              (omega (arith, length-drop (length buf) p.recv_buf))))

    -- What is held fits and goes out first, whether or not a message follows.
    read_drained :
        0 < length p.recv_buf
        → length p.recv_buf ≤ length buf
        → poll_read p s buf ≡ done (read_reference p s buf)
    unfolding poll_read
    read_drained h k =
        rw
          (
            lt→ltb 0 (length p.recv_buf) h,
            checked_sub-done (length buf) 0 (omega arith),
            le→ltb (length buf - 0) (length p.recv_buf) (omega arith),
            write_slice-done buf 0 (length p.recv_buf) p.recv_buf (omega arith) k (omega arith),
            le→ltb (length buf) (length p.recv_buf) k,
          )
          (elim (Option-cases (C.try_recv s.recv_chan)) [
            | inl no_msg ↦ rw (channel_none _ s _ _ no_msg, no_msg)
            | inr ((msg, chan), got) ↦
                rw (got, zero_add (length p.recv_buf))
                  (channel_some (record p { recv_buf = [] }) s p.recv_buf
                      (drop (length p.recv_buf) buf) msg chan refl got
                    ∙ refilled (record s { recv_chan = chan }) msg k)
          ])

    -- `poll_read` never panics, and does what `read_reference` says: it serves the bytes that the
    -- handle holds, followed (unless they alone are more than the buffer takes) by the channel's
    -- oldest message, keeps what the buffer does not take, and is pending where they fit and no
    -- message waits.
    pub poll_read_lem : poll_read p s buf ≡ done (read_reference p s buf)
    poll_read_lem = elim (Bool-cases (ltb (length buf) (length p.recv_buf))) [
      | inl more ↦ read_held (ltb→lt (length buf) (length p.recv_buf) more)
      | inr fits ↦ elim (Bool-cases (ltb 0 (length p.recv_buf))) [
        | inl some_held ↦
            read_drained (ltb→lt 0 (length p.recv_buf) some_held)
              (ltb→le (length buf) (length p.recv_buf) fits)
        | inr none_held ↦
            read_empty (length_zero p.recv_buf (ltb→le 0 (length p.recv_buf) none_held))
      ]
    ]
