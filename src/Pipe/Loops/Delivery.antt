-- ===== src/Pipe/Loops/Delivery.antt =====
-- The way in of src/pipe.rs: the websocket, `recv_loop`, the channel, `poll_read`.
use sosistab2_obfsws.Base.{
  ℕ, ◌≢◌, ◌≡◌, refl, sym, ap, ◌∙◌, inl, inr, Bool, Option-cases, List, [], ◌∷◌, ◌++◌, arith,
  append-nil, append_assoc, concat, concat-append, take-length-append, drop, take, length,
}
use sosistab2_obfsws.Base.Words.{Bytes}
use sosistab2_obfsws.Base.Slices.{done-injective, done}
use sosistab2_obfsws.Io.{Text, ErrorKind, Poll, Result, ok, err, ready, pending}
use sosistab2_obfsws.Channel.{Channel, Queue, try_send-some}
use sosistab2_obfsws.Pipe.{
  channel_capacity, new, Shared, ObfsWsPipe, ReadOut, poll_write, poll_close, poll_read,
}
use sosistab2_obfsws.Pipe.Read.Exact.{poll_read_lem}
use sosistab2_obfsws.Pipe.Loops.{
  Session, SendLoop, writing, RecvLoop, forwarding, Incoming, binary, receiving, finish, send_step,
  recv_step, write_step, read_step, drop_step, close_step, Event, writes, reads, closes, drops,
  sends, receives, step, run, start, written_by,
}
use sosistab2_obfsws.Pipe.Read.{read_reference}
use sosistab2_obfsws.Pipe.Read.Pending.{starved, starve_lem}
use sosistab2_obfsws.Pipe.Read.Stream.{unread, poll_read-Delivers}

regroup : (a b c d : Bytes) → a ++ ((b ++ c) ++ d) ≡ (a ++ b) ++ (c ++ d)
regroup a b c d = simp append_assoc

module _ {C : Channel Bytes} where
  written_by-ready :
      (p : ObfsWsPipe) (out : ReadOut C) (n : ℕ)
      → out.poll ≡ ready (ok n)
      → written_by p out ≡ take n out.buf
  written_by-ready p out n e = ground arith

  written_by-pending :
      (p : ObfsWsPipe) (out : ReadOut C)
      → out.poll ≡ pending
      → written_by p out ≡ take (length p.recv_buf) out.buf
  written_by-pending p out e = ground arith

  no_error :
      (p : ObfsWsPipe) (s : Shared C) (buf : Bytes) (k : ErrorKind)
      → (read_reference p s buf).poll ≢ ready (err k)
  no_error p s buf k e = ground arith

  -- What a poll writes and what is unread afterwards make up what was unread before.
  accounts :
      (p : ObfsWsPipe) (s : Shared C) (buf : Bytes) (out : ReadOut C)
      (a : Poll (Result ErrorKind ℕ))
      → poll_read p s buf ≡ done out
      → out.poll ≡ a
      → written_by p out ++ unread out.pipe out.shared ≡ unread p s
  accounts p s buf out (ready (ok n)) h e =
      ap (λ (w : Bytes). w ++ unread out.pipe out.shared) (written_by-ready p out n e)
      ∙ (poll_read-Delivers p s buf n out h e).in_order
  accounts p s buf out (ready (err k)) h e = absurd (
      no_error p s buf k
        (ap (λ (o : ReadOut C). o.poll) (done-injective (sym (poll_read_lem p s buf) ∙ h)) ∙ e))
  accounts p s buf out pending h e =
      let same = done-injective (sym (poll_read_lem p s buf) ∙ h) in
      let (fits, empty) = starved p s buf (ap (λ (o : ReadOut C). o.poll) same ∙ e) in
      ap (λ (w : Bytes). w ++ unread out.pipe out.shared) (written_by-pending p out e)
      ∙ rw (← same, starve_lem p s buf fits empty)
          (ap (λ (w : Bytes). w ++ concat (C.view s.recv_chan).items)
            (take-length-append p.recv_buf (drop (length p.recv_buf) buf)))

  -- Every byte that the websocket gave has been written into a reader's buffer, is unread or is in
  -- the loop's hands.
  abbrev pub InLane : Session C → Type 0
  InLane t =
      concat t.arrived ≡ t.written ++ (unread t.pipe t.shared ++ concat (receiving t.receiver))

  finish-InLane : (t : Session C) → InLane t → InLane (finish t)
  unfolding finish
  finish-InLane t h = ground (arith, C.view-close t.shared.recv_chan)

  send_step-InLane :
      (t : Session C) (sink_ok : Bool) (s : SendLoop)
      → t.sender ≡ s
      → InLane t
      → InLane (send_step t sink_ok)
  unfolding send_step
  send_step-InLane t sink_ok SendLoop.testing e h = ground (arith, finish-InLane t h)
  send_step-InLane t sink_ok SendLoop.waiting e h = ground (arith, finish-InLane t h)
  send_step-InLane t sink_ok (writing msg) e h = ground (arith, finish-InLane t h)
  send_step-InLane t sink_ok (SendLoop.gone lost) e h = ground (arith)

  recv_step-InLane :
      (t : Session C) (ev : Incoming) (s : RecvLoop)
      → t.receiver ≡ s
      → InLane t
      → InLane (recv_step t ev)
  unfolding recv_step
  recv_step-InLane t ev RecvLoop.testing e h = ground (arith, finish-InLane t h)
  recv_step-InLane t (binary msg) RecvLoop.waiting e h = ground (
    arith,
    concat-append t.arrived (msg ∷ []),
    append-nil msg,
    append-nil (unread t.pipe t.shared),
    append_assoc t.written (unread t.pipe t.shared) msg,
  )
  recv_step-InLane t ev RecvLoop.waiting e h = ground (arith, finish-InLane t h)
  recv_step-InLane t ev (forwarding msg) e h =
      elim (Option-cases (C.try_send t.shared.recv_chan msg)) [
        | inl no_room ↦ ground (arith, finish-InLane t h)
        | inr (chan, sent) ↦ ground (
          arith,
          try_send-some C t.shared.recv_chan msg sent,
          concat-append (C.view t.shared.recv_chan).items (msg ∷ []),
          append-nil msg,
          append-nil (t.pipe.recv_buf ++ (concat (C.view t.shared.recv_chan).items ++ msg)),
          append_assoc t.pipe.recv_buf (concat (C.view t.shared.recv_chan).items) msg,
        )
      ]
  recv_step-InLane t ev (RecvLoop.gone lost) e h = ground (arith)

  read_step-InLane : (t : Session C) (buf : Bytes) → InLane t → InLane (read_step t buf)
  unfolding read_step
  read_step-InLane t buf h =
      let out = read_reference t.pipe t.shared buf in
      rw (poll_read_lem t.pipe t.shared buf, read_step)
        (h
          ∙ ap (λ (u : Bytes). t.written ++ (u ++ concat (receiving t.receiver)))
              (sym (
                accounts t.pipe t.shared buf out out.poll (poll_read_lem t.pipe t.shared buf) refl))
          ∙ regroup t.written (written_by t.pipe out) (unread out.pipe out.shared)
              (concat (receiving t.receiver)))

  write_step-InLane : (t : Session C) (msg : Bytes) → InLane t → InLane (write_step t msg)
  unfolding write_step poll_write
  write_step-InLane t msg h = elim (Option-cases (C.try_send t.shared.send_chan msg)) [
    | inl refused ↦ ground arith
    | inr (chan, taken) ↦ ground arith
  ]

  step-InLane : (t : Session C) (e : Event) → InLane t → InLane (step t e)
  unfolding step close_step drop_step poll_close
  step-InLane t (writes msg) h = write_step-InLane t msg h
  step-InLane t (reads buf) h = read_step-InLane t buf h
  step-InLane t closes h = h
  step-InLane t drops h = ground (arith, C.view-close t.shared.recv_chan)
  step-InLane t (sends sink_ok) h = send_step-InLane t sink_ok t.sender refl h
  step-InLane t (receives ev) h = recv_step-InLane t ev t.receiver refl h

  run-InLane : (t : Session C) (es : List Event) → InLane t → InLane (run t es)
  unfolding run
  run-InLane t [] h = h
  run-InLane t (e ∷ es) h = run-InLane (step t e) es (step-InLane t e h)

start-InLane :
    (C : Channel Bytes) (peer_url peer_metadata : Text) → InLane (start C peer_url peer_metadata)
unfolding start new
start-InLane C peer_url peer_metadata =
    sym (ap (λ (q : Queue Bytes). concat q.items ++ []) (C.view-bounded channel_capacity))

-- Whatever the order of the calls and of the loops' steps: the bytes of the binary messages that
-- the websocket gave are those that the polls wrote into their callers' buffers, then those that the
-- handle and the channel still hold, then those in `recv_loop`'s hands. So a reader gets the bytes
-- in order, with none left out, repeated or made up, where no poll that wrote bytes is pending.
pub run_delivers_in_order :
    (C : Channel Bytes) (peer_url peer_metadata : Text) (es : List Event)
    → let t = run (start C peer_url peer_metadata) es in
      concat t.arrived ≡ t.written ++ (unread t.pipe t.shared ++ concat (receiving t.receiver))
run_delivers_in_order C peer_url peer_metadata es =
    run-InLane (start C peer_url peer_metadata) es (start-InLane C peer_url peer_metadata)
