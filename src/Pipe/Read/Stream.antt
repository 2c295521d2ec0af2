-- ===== src/Pipe/Read/Stream.antt =====
-- What a reader of src/pipe.rs sees: the bytes of the messages, in order.
use native.Mathlib.Decide.{dec_le}
use mathlib.Core.Path.{subst}
use sosistab2_obfsws.Base.{
  ℕ, ◌≤◌, ◌≡◌, refl, sym, ap, ◌∙◌, min, inl, inr, Bool-cases, Option-cases, some, ◌++◌, arith, ltb,
  length, take, drop, length-append, length-take, length-drop, drop_all, append-nil, append_assoc,
  take-append_right, drop-append_right, take-append-drop, concat,
}
use sosistab2_obfsws.Base.Words.{Bytes}
use sosistab2_obfsws.Base.Slices.{done, done-injective}
use sosistab2_obfsws.Io.{ErrorKind, Poll, Result, ok, ready, pending}
use sosistab2_obfsws.Channel.{Channel, try_recv-some}
use sosistab2_obfsws.Pipe.{ObfsWsPipe, Shared, ReadOut, poll_read}
use sosistab2_obfsws.Pipe.Read.{serve, read_reference}
use sosistab2_obfsws.Pipe.Read.Exact.{poll_read_lem}

-- Past what was written the buffer is as it was, whether it was filled or not.
past_written : (n b : ℕ) (buf : Bytes) → n ≡ min (length buf) b → drop b buf ≡ drop n buf
past_written n b buf e = elim (dec_le b (length buf)) [
  | yes h ↦ ap (λ k. drop k buf) (omega arith)
  | no h ↦ drop_all b buf (omega arith) ∙ sym (drop_all n buf (omega arith))
]

ready_ok-injective :
    {m n : ℕ} → ◌≡◌ {A = Poll (Result ErrorKind ℕ)} (ready (ok m)) (ready (ok n)) → m ≡ n
ready_ok-injective e = ground arith

module _ {C : Channel Bytes} where
  -- The bytes that a handle has still to give out.
  abbrev pub unread : ObfsWsPipe → Shared C → Bytes
  unread p s = p.recv_buf ++ concat (C.view s.recv_chan).items

  -- What a poll that gave `n` bytes into `buf` must leave.
  pub record Delivers (p : ObfsWsPipe) (s : Shared C) (buf : Bytes) (n : ℕ) (out : ReadOut C)
      : Type 0 where
    pub in_order : take n out.buf ++ unread out.pipe out.shared ≡ unread p s
    pub fits : n ≤ length buf
    pub rest_kept : drop n out.buf ≡ drop n buf
    pub length_kept : length out.buf ≡ length buf

  serve-Delivers :
      (p : ObfsWsPipe) (s t : Shared C) (buf bytes : Bytes)
      → bytes ++ concat (C.view t.recv_chan).items ≡ unread p s
      → Delivers p s buf (min (length buf) (length bytes)) (serve p t buf bytes)
  serve-Delivers p s t buf bytes e = record {
    in_order =
        rw
          (
            take-append_right written (drop (length bytes) buf) n 0 (omega (arith, count)),
            append-nil written,
            ← append_assoc written (drop (length buf) bytes) (concat (C.view t.recv_chan).items),
            take-append-drop (length buf) bytes,
          )
          e;
    fits = omega arith;
    rest_kept =
        drop-append_right written (drop (length bytes) buf) n 0 (omega (arith, count))
        ∙ past_written n (length bytes) buf refl;
    length_kept = omega (
      arith,
      count,
      length-append written (drop (length bytes) buf),
      length-drop (length bytes) buf,
    );
  }
    where
      written : Bytes
      written = take (length buf) bytes

      n : ℕ
      n = min (length buf) (length bytes)

      count : length written ≡ n
      count = length-take (length buf) bytes

  -- The message that `try_recv` gives was the first of the unread ones.
  next_unread :
      (p : ObfsWsPipe) (s : Shared C) (msg : Bytes) (chan : C.Chan)
      → C.try_recv s.recv_chan ≡ some (msg, chan)
      → (p.recv_buf ++ msg) ++ concat (C.view chan).items ≡ unread p s
  next_unread p s msg chan got =
      rw ((try_recv-some C s.recv_chan got).0)
        (append_assoc p.recv_buf msg (concat (C.view chan).items))

  reference-Delivers :
      (p : ObfsWsPipe) (s : Shared C) (buf : Bytes) (n : ℕ)
      → (read_reference p s buf).poll ≡ ready (ok n)
      → Delivers p s buf n (read_reference p s buf)
  reference-Delivers p s buf n h = elim (Bool-cases (ltb (length buf) (length p.recv_buf))) [
    | inl more ↦ rw more (
        subst (λ (k : ℕ). Delivers p s buf k (serve p s buf p.recv_buf))
          (ready_ok-injective (rw more at h)) (serve-Delivers p s s buf p.recv_buf refl))
    | inr fits ↦ elim (Option-cases (C.try_recv s.recv_chan)) [
      | inl no_msg ↦ never (rw (fits, no_msg) at h)
      | inr ((msg, chan), got) ↦
          rw (fits, got)
            (subst
              (λ (k : ℕ).
                Delivers p s buf k
                  (serve p (record s { recv_chan = chan }) buf (p.recv_buf ++ msg)))
              (ready_ok-injective (rw (fits, got) at h))
              (serve-Delivers p s (record s { recv_chan = chan }) buf (p.recv_buf ++ msg)
                (next_unread p s msg chan got)))
    ]
  ]
    where
      never :
          ◌≡◌ {A = Poll (Result ErrorKind ℕ)} pending (ready (ok n))
          → Delivers p s buf n (read_reference p s buf)
      never e = cc

  -- A poll that answers `n` has put the next `n` unread bytes at the front of the buffer, in order
  -- and with none left out or repeated: with what is unread afterwards they make up what was unread
  -- before. It wrote no further than `n`, and `n` is at most the buffer's length.
  pub poll_read-Delivers :
      (p : ObfsWsPipe) (s : Shared C) (buf : Bytes) (n : ℕ) (out : ReadOut C)
      → poll_read p s buf ≡ done out
      → out.poll ≡ ready (ok n)
      → Delivers p s buf n out
  poll_read-Delivers p s buf n out h e =
      subst (λ (o : ReadOut C). Delivers p s buf n o) same
        (reference-Delivers p s buf n (ap (λ (o : ReadOut C). o.poll) same ∙ e))
    where
      same : read_reference p s buf ≡ out
      same = done-injective (sym (poll_read_lem p s buf) ∙ h)
