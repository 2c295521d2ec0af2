-- ===== src/Pipe/Read/Pending.antt =====
-- When `poll_read` of src/pipe.rs is pending, what such a poll costs, and whole messages.
use sosistab2_obfsws.Base.{
  ℕ, ◌≤◌, ◌≡◌, ◌≢◌, ◌↔◌, refl, sym, ap, ◌∙◌, min, inl, inr, Bool-cases, Option-cases, List, [], ◌∷◌,
  ◌++◌, arith, ltb, length, drop, take_all, drop_all, append-nil, concat, ltb→le, le→ltb,
}
use sosistab2_obfsws.Base.Words.{Bytes}
use sosistab2_obfsws.Base.Slices.{done, done-injective}
use sosistab2_obfsws.Io.{ErrorKind, Poll, Result, ok, ready, pending}
use sosistab2_obfsws.Channel.{Channel, try_recv-none, try_recv_empty, try_recv_cons}
use sosistab2_obfsws.Pipe.{ObfsWsPipe, Shared, ReadOut, poll_read}
use sosistab2_obfsws.Pipe.Read.{serve, starve, read_reference}
use sosistab2_obfsws.Pipe.Read.Exact.{poll_read_lem}
use sosistab2_obfsws.Pipe.Read.Stream.{unread}

module _ {C : Channel Bytes} where
  pub starved :
      (p : ObfsWsPipe) (s : Shared C) (buf : Bytes)
      → (read_reference p s buf).poll ≡ pending
      → (length p.recv_buf ≤ length buf) × ((C.view s.recv_chan).items ≡ [])
  starved p s buf e = elim (Bool-cases (ltb (length buf) (length p.recv_buf))) [
    | inl more ↦ never (min (length buf) (length p.recv_buf)) (rw more at e)
    | inr fits ↦ elim (Option-cases (C.try_recv s.recv_chan)) [
      | inl no_msg ↦
          (ltb→le (length buf) (length p.recv_buf) fits, try_recv-none C s.recv_chan no_msg)
      | inr ((msg, chan), got) ↦
          never (min (length buf) (length (p.recv_buf ++ msg))) (rw (fits, got) at e)
    ]
  ]
    where
      never :
          (n : ℕ)
          → ◌≡◌ {A = Poll (Result ErrorKind ℕ)} (ready (ok n)) pending
          → (length p.recv_buf ≤ length buf) × ((C.view s.recv_chan).items ≡ [])
      never n e = cc

  pub starve_lem :
      (p : ObfsWsPipe) (s : Shared C) (buf : Bytes)
      → length p.recv_buf ≤ length buf
      → (C.view s.recv_chan).items ≡ []
      → read_reference p s buf ≡ starve p s buf
  starve_lem p s buf fits empty =
      rw (le→ltb (length buf) (length p.recv_buf) fits, try_recv_empty C s.recv_chan empty)

  waits :
      (p : ObfsWsPipe) (s : Shared C) (buf : Bytes)
      → (length p.recv_buf ≤ length buf) × ((C.view s.recv_chan).items ≡ [])
      → (read_reference p s buf).poll ≡ pending
  waits p s buf h = ap (λ (o : ReadOut C). o.poll) (starve_lem p s buf h.0 h.1)

  -- A pending poll of a handle that holds nothing changes nothing.
  pub poll_read-idle :
      (p : ObfsWsPipe) (s : Shared C) (buf : Bytes) (out : ReadOut C)
      → poll_read p s buf ≡ done out
      → out.poll ≡ pending
      → p.recv_buf ≡ []
      → unread out.pipe out.shared ≡ unread p s
  poll_read-idle p s buf out h pend none_held =
      let same = done-injective (sym (poll_read_lem p s buf) ∙ h) in
      let (fits, empty) = starved p s buf (ap (λ (o : ReadOut C). o.poll) same ∙ pend) in
      rw (← same, starve_lem p s buf fits empty)
        (ap (λ (r : Bytes). r ++ concat (C.view s.recv_chan).items) (sym none_held))

  -- A poll is pending exactly where the handle's bytes fit into the buffer and no message waits.
  pub poll_read-pending_iff :
      (p : ObfsWsPipe) (s : Shared C) (buf : Bytes) (out : ReadOut C)
      → poll_read p s buf ≡ done out
      → (out.poll ≡ pending)
        ↔ ((length p.recv_buf ≤ length buf) × ((C.view s.recv_chan).items ≡ []))
  poll_read-pending_iff p s buf out h =
      rw (← done-injective (sym (poll_read_lem p s buf) ∙ h)) (starved p s buf, waits p s buf)

  -- A defect: where the handle holds bytes that fit into the buffer and no message waits, the poll
  -- is pending, so the caller is told of no byte, and nothing is left unread, though before the poll
  -- something was.
  pub poll_read_loses :
      (p : ObfsWsPipe) (s : Shared C) (buf : Bytes)
      → p.recv_buf ≢ []
      → length p.recv_buf ≤ length buf
      → (C.view s.recv_chan).items ≡ []
      → (out : ReadOut C) × (poll_read p s buf ≡ done out)
        × (out.poll ≡ pending)
        × (unread p s ≢ [])
        × (unread out.pipe out.shared ≡ [])
  poll_read_loses p s buf held fits empty = (
    starve p s buf,
    poll_read_lem p s buf ∙ ap done (starve_lem p s buf fits empty),
    refl,
    λ e. held (sym (all_held ∙ append-nil p.recv_buf) ∙ e),
    ap concat empty,
  )
    where
      all_held : unread p s ≡ p.recv_buf ++ []
      all_held = ap (λ (q : List Bytes). p.recv_buf ++ concat q) empty

  -- Where the handle holds nothing and the buffer takes the oldest message whole, one poll gives
  -- that message and nothing else: the boundaries of the messages are kept.
  pub poll_read-whole_message :
      (p : ObfsWsPipe) (s : Shared C) (buf msg : Bytes) (rest : List Bytes)
      → p.recv_buf ≡ []
      → (C.view s.recv_chan).items ≡ msg ∷ rest
      → length msg ≤ length buf
      → (out : ReadOut C) × (poll_read p s buf ≡ done out)
        × (out.poll ≡ ready (ok (length msg)))
        × (out.buf ≡ msg ++ drop (length msg) buf)
        × (out.pipe.recv_buf ≡ [])
        × ((C.view out.shared.recv_chan).items ≡ rest)
  poll_read-whole_message p s buf msg rest none_held next fits =
      let (chan, got, left) = try_recv_cons C s.recv_chan next in
      let after : Shared C = record s { recv_chan = chan } in
      (
        serve p after buf msg,
        poll_read_lem p s buf
            ∙ rw (le→ltb (length buf) (length p.recv_buf) (omega (arith, ap length none_held)), got)
                (ap (λ (r : Bytes). done (serve p after buf (r ++ msg))) none_held),
        ap (λ (n : ℕ). ready (ok n)) (omega arith),
        ap (λ (w : Bytes). w ++ drop (length msg) buf) (take_all (length buf) msg fits),
        drop_all (length buf) msg fits,
        left,
      )
