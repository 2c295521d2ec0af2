-- ===== src/Pipe/Loops/Closing.antt =====
-- What the `closed` flag of src/pipe.rs does to a session, and the bounds of its channels.
use sosistab2_obfsws.Base.{
  ◌≡◌, refl, Bool, true, List, [], ◌∷◌, arith, ℕ, ◌+◌, ◌≤◌, length, length-append,
}
use sosistab2_obfsws.Base.Words.{Bytes}
use sosistab2_obfsws.Channel.{Channel}
use sosistab2_obfsws.Pipe.{poll_write, poll_close}
use sosistab2_obfsws.Pipe.Read.Exact.{poll_read_lem}
use sosistab2_obfsws.Pipe.Loops.{
  Session, SendLoop, writing, RecvLoop, forwarding, Incoming, send_step, recv_step, write_step,
  read_step, drop_step, close_step, Event, writes, reads, closes, drops, sends, receives, step, run,
}

-- What `send_loop` can still send once the flag is set: it reads the flag only between messages.
abbrev budget : SendLoop → ℕ
budget SendLoop.testing = 0
budget SendLoop.waiting = 1
budget (writing msg) = 1
budget (SendLoop.gone lost) = 0

budget-le : (s : SendLoop) → budget s ≤ 1
budget-le SendLoop.testing = omega arith
budget-le SendLoop.waiting = omega arith
budget-le (writing msg) = omega arith
budget-le (SendLoop.gone lost) = omega arith

module _ {C : Channel Bytes} where
  -- With the flag set: it stays set, and what was sent with what can still be sent does not grow.
  record Winding (t u : Session C) : Type 0 where
    closed : u.shared.closed ≡ true
    spent : length u.sent + budget u.sender ≤ length t.sent + budget t.sender

  send_step-Winding :
      (t : Session C) (sink_ok : Bool) (s : SendLoop)
      → t.sender ≡ s
      → t.shared.closed ≡ true
      → Winding t (send_step t sink_ok)
  unfolding send_step
  send_step-Winding t sink_ok SendLoop.testing e h = ground arith
  send_step-Winding t sink_ok SendLoop.waiting e h = ground arith
  send_step-Winding t sink_ok (writing msg) e h = ground (arith, length-append t.sent (msg ∷ []))
  send_step-Winding t sink_ok (SendLoop.gone lost) e h = ground arith

  recv_step-Winding :
      (t : Session C) (ev : Incoming) (s : RecvLoop)
      → t.receiver ≡ s
      → t.shared.closed ≡ true
      → Winding t (recv_step t ev)
  unfolding recv_step
  recv_step-Winding t ev RecvLoop.testing e h = ground arith
  recv_step-Winding t ev RecvLoop.waiting e h = ground arith
  recv_step-Winding t ev (forwarding msg) e h = ground arith
  recv_step-Winding t ev (RecvLoop.gone lost) e h = ground arith

  step-Winding : (t : Session C) (e : Event) → t.shared.closed ≡ true → Winding t (step t e)
  unfolding step write_step read_step close_step drop_step poll_close poll_write
  step-Winding t (writes msg) h = ground arith
  step-Winding t (reads buf) h = rw (poll_read_lem t.pipe t.shared buf, read_step) (ground arith)
  step-Winding t closes h = ground arith
  step-Winding t drops h = ground arith
  step-Winding t (sends sink_ok) h = send_step-Winding t sink_ok t.sender refl h
  step-Winding t (receives ev) h = recv_step-Winding t ev t.receiver refl h

  run-Winding : (t : Session C) (es : List Event) → t.shared.closed ≡ true → Winding t (run t es)
  unfolding run
  run-Winding t [] h = ground arith
  run-Winding t (e ∷ es) h =
      let first = step-Winding t e h in
      let rest = run-Winding (step t e) es first.closed in
      record { closed = rest.closed; spent = omega arith }

  -- Once the `closed` flag is set, no call and no step of a loop clears it, and at most one more
  -- message goes over the websocket.
  pub run_after_close :
      (t : Session C) (es : List Event)
      → t.shared.closed ≡ true
      → ((run t es).shared.closed ≡ true) × (length (run t es).sent ≤ length t.sent + 1)
  run_after_close t es h =
      let w = run-Winding t es h in (w.closed, omega (arith, budget-le t.sender))
