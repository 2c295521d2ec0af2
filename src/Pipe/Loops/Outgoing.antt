-- ===== src/Pipe/Loops/Outgoing.antt =====
-- The way out of src/pipe.rs: `poll_write`, the channel, `send_loop`, the websocket.
use sosistab2_obfsws.Base.{
  ◌≡◌, refl, sym, ap, inl, inr, Bool, Option-cases, List, [], ◌∷◌, ◌++◌, arith, append_assoc,
}
use sosistab2_obfsws.Base.Words.{Bytes}
use sosistab2_obfsws.Io.{Text}
use sosistab2_obfsws.Channel.{Channel, Queue, try_send-some, try_send-none, try_recv-some}
use sosistab2_obfsws.Pipe.{channel_capacity, new, Shared, poll_write, poll_close}
use sosistab2_obfsws.Pipe.Read.Exact.{poll_read_lem}
use sosistab2_obfsws.Pipe.Loops.{
  Session, SendLoop, writing, RecvLoop, forwarding, Incoming, sending, finish, send_step, recv_step,
  write_step, read_step, drop_step, close_step, Event, writes, reads, closes, drops, sends,
  receives, step, run, start,
}

module _ {C : Channel Bytes} where
  -- The messages that wait to be sent.
  abbrev pub outbox : Shared C → List Bytes
  outbox s = (C.view s.send_chan).items

  -- Every message that the handle gave in has been sent, is in the loop's hands or waits.
  abbrev pub OutLane : Session C → Type 0
  OutLane t = t.accepted ≡ t.sent ++ (sending t.sender ++ outbox t.shared)

  finish-OutLane : (t : Session C) → OutLane t → OutLane (finish t)
  unfolding finish
  finish-OutLane t h = ground (arith, C.view-close t.shared.send_chan)

  send_step-OutLane :
      (t : Session C) (ok : Bool) (s : SendLoop)
      → t.sender ≡ s
      → OutLane t
      → OutLane (send_step t ok)
  unfolding send_step
  send_step-OutLane t ok SendLoop.testing e h = ground (arith, finish-OutLane t h)
  send_step-OutLane t ok SendLoop.waiting e h =
      elim (Option-cases (C.try_recv t.shared.send_chan)) [
        | inl no_msg ↦ ground (arith, finish-OutLane t h)
        | inr ((msg, chan), got) ↦ ground (arith, try_recv-some C t.shared.send_chan got)
      ]
  send_step-OutLane t ok (writing msg) e h =
      ground (arith, append_assoc t.sent (msg ∷ []) (outbox t.shared), finish-OutLane t h)
  send_step-OutLane t ok (SendLoop.gone lost) e h = ground (arith)

  recv_step-OutLane :
      (t : Session C) (ev : Incoming) (s : RecvLoop)
      → t.receiver ≡ s
      → OutLane t
      → OutLane (recv_step t ev)
  unfolding recv_step
  recv_step-OutLane t ev RecvLoop.testing e h = ground (arith, finish-OutLane t h)
  recv_step-OutLane t ev RecvLoop.waiting e h = ground (arith, finish-OutLane t h)
  recv_step-OutLane t ev (forwarding msg) e h = ground (arith, finish-OutLane t h)
  recv_step-OutLane t ev (RecvLoop.gone lost) e h = ground (arith)

  write_step-OutLane : (t : Session C) (msg : Bytes) → OutLane t → OutLane (write_step t msg)
  unfolding write_step poll_write
  write_step-OutLane t msg h = elim (Option-cases (C.try_send t.shared.send_chan msg)) [
    | inl refused ↦ ground (arith, try_send-none C t.shared.send_chan msg refused)
    | inr (chan, taken) ↦ ground (
      arith,
      try_send-some C t.shared.send_chan msg taken,
      append_assoc t.sent (sending t.sender ++ outbox t.shared) (msg ∷ []),
      append_assoc (sending t.sender) (outbox t.shared) (msg ∷ []),
    )
  ]

  -- A poll of the reader leaves the store, but for the channel that it reads.
  read_step-OutLane : (t : Session C) (buf : Bytes) → OutLane t → OutLane (read_step t buf)
  unfolding read_step
  read_step-OutLane t buf h = rw (poll_read_lem t.pipe t.shared buf, read_step) (ground arith)

  step-OutLane : (t : Session C) (e : Event) → OutLane t → OutLane (step t e)
  unfolding step close_step drop_step poll_close
  step-OutLane t (writes msg) h = write_step-OutLane t msg h
  step-OutLane t (reads buf) h = read_step-OutLane t buf h
  step-OutLane t closes h = h
  step-OutLane t drops h = ground (arith, C.view-close t.shared.send_chan)
  step-OutLane t (sends ok) h = send_step-OutLane t ok t.sender refl h
  step-OutLane t (receives ev) h = recv_step-OutLane t ev t.receiver refl h

  run-OutLane : (t : Session C) (es : List Event) → OutLane t → OutLane (run t es)
  unfolding run
  run-OutLane t [] h = h
  run-OutLane t (e ∷ es) h = run-OutLane (step t e) es (step-OutLane t e h)

start-OutLane :
    (C : Channel Bytes) (peer_url peer_metadata : Text) → OutLane (start C peer_url peer_metadata)
unfolding start new
start-OutLane C peer_url peer_metadata =
    sym (ap (λ (q : Queue Bytes). q.items) (C.view-bounded channel_capacity))

-- Whatever the order of the calls and of the loops' steps: the messages that `poll_write` put into
-- the channel are those that the websocket took, then the one in `send_loop`'s hands, then those
-- that wait. So what goes over the websocket is in order, with nothing left out, repeated or made
-- up.
pub run_sends_in_order :
    (C : Channel Bytes) (peer_url peer_metadata : Text) (es : List Event)
    → let t = run (start C peer_url peer_metadata) es in
      t.accepted ≡ t.sent ++ (sending t.sender ++ outbox t.shared)
run_sends_in_order C peer_url peer_metadata es =
    run-OutLane (start C peer_url peer_metadata) es (start-OutLane C peer_url peer_metadata)
