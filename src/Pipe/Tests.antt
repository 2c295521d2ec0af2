-- ===== src/Pipe/Tests.antt =====
-- Runs of the pipe of src/pipe.rs on concrete data, and its theorems at concrete inputs.
use sosistab2_obfsws.Base.{
  ◌≡◌, ◌≢◌, ◌↔◌, ◌≤◌, refl, true, false, some, List, [], ◌∷◌, ◌++◌, arith, length, concat,
}
use sosistab2_obfsws.Base.Words.{Bytes}
use sosistab2_obfsws.Base.Slices.{done, checked_sub, read_slice, write_slice}
use sosistab2_obfsws.Io.{ok, ready, pending, codes}
use sosistab2_obfsws.Channel.{Channel, Queue, queue_channel}
use sosistab2_obfsws.Pipe.{
  ObfsWsPipe, Shared, ReadOut, new, poll_write, poll_close, poll_read, remote_addr,
}
use sosistab2_obfsws.Pipe.Read.{starve}
use sosistab2_obfsws.Pipe.Read.Exact.{poll_read_lem}
use sosistab2_obfsws.Pipe.Read.Stream.{unread}
use sosistab2_obfsws.Pipe.Read.Pending.{poll_read-pending_iff, poll_read_loses}
use sosistab2_obfsws.Pipe.Read.Session.{Reads, stop, arrive, given}
use sosistab2_obfsws.Pipe.Write.{Wrote, poll_write_lem, remote_addr-new}
use sosistab2_obfsws.Pipe.Loops.{
  Session, SendLoop, RecvLoop, Event, writes, reads, closes, sends, receives, binary, sending,
  receiving, start, run, step, write_step, send_step, recv_step, read_step, close_step,
}
use sosistab2_obfsws.Pipe.Loops.Outgoing.{outbox, run_sends_in_order}
use sosistab2_obfsws.Pipe.Loops.Delivery.{run_delivers_in_order}
use sosistab2_obfsws.Pipe.Loops.Closing.{run_after_close}
use sosistab2_obfsws.Pipe.Loops.Progress.{sending_steps, run_sends_all}

abbrev C : Channel Bytes
C = queue_channel Bytes

abbrev queue : List Bytes → Queue Bytes
queue items = record { items = items; capacity = 3; closed = false }

abbrev store : List Bytes → List Bytes → Shared C
store out inn = record { send_chan = queue out; recv_chan = queue inn; closed = false }

abbrev holding : Bytes → ObfsWsPipe
holding bytes = record { recv_buf = bytes; peer_url = codes "ws://a#b" }

abbrev blank : Bytes
blank = 0 ∷ 0 ∷ 0 ∷ 0 ∷ []

-- Two bytes held and a message of three: four are given, one is kept.
abbrev mixed : ReadOut C
mixed = record {
  poll = ready (ok 4);
  buf = 1 ∷ 2 ∷ 3 ∷ 4 ∷ [];
  pipe = holding (5 ∷ []);
  shared = store [] [];
}

poll_read-mixed :
    poll_read (holding (1 ∷ 2 ∷ [])) (store [] ((3 ∷ 4 ∷ 5 ∷ []) ∷ [])) blank ≡ done mixed
unfolding poll_read checked_sub read_slice write_slice
poll_read-mixed = refl

poll_read_lem_example :
    poll_read (holding (1 ∷ 2 ∷ [])) (store [] ((3 ∷ 4 ∷ 5 ∷ []) ∷ [])) blank ≡ done mixed
poll_read_lem_example =
    poll_read_lem (holding (1 ∷ 2 ∷ [])) (store [] ((3 ∷ 4 ∷ 5 ∷ []) ∷ [])) blank

-- One byte held, and nothing in the channel.
starved_poll :
    poll_read (holding (7 ∷ [])) (store [] []) blank
    ≡ done (starve (holding (7 ∷ [])) (store [] []) blank)
unfolding poll_read checked_sub read_slice write_slice
starved_poll = refl

poll_read-pending_iff_example :
    ((starve (holding (7 ∷ [])) (store [] []) blank).poll ≡ pending)
    ↔ ((1 ≤ 4) × (◌≡◌ {A = List Bytes} [] []))
poll_read-pending_iff_example =
    poll_read-pending_iff (holding (7 ∷ [])) (store [] []) blank
      (starve (holding (7 ∷ [])) (store [] []) blank) starved_poll

cons≢nil : ◌≢◌ {A = Bytes} (7 ∷ []) []
cons≢nil e = cc

poll_read_loses_example :
    (out : ReadOut C) × (poll_read (holding (7 ∷ [])) (store [] []) blank ≡ done out)
    × (out.poll ≡ pending)
    × (unread (holding (7 ∷ [])) (store [] []) ≢ [])
    × (unread out.pipe out.shared ≡ [])
poll_read_loses_example =
    poll_read_loses (holding (7 ∷ [])) (store [] []) blank cons≢nil (omega arith) refl

-- A message arrives, and a poll gives it and four bytes in all.
one_read :
    Reads {C = C}
      (holding (5 ∷ []))
      (store [] [])
      (holding (1 ∷ 2 ∷ []))
      (store [] [])
      ((3 ∷ 4 ∷ 5 ∷ []) ∷ [])
      ((1 ∷ 2 ∷ 3 ∷ 4 ∷ []) ∷ [])
one_read =
    arrive (3 ∷ 4 ∷ 5 ∷ []) (queue ((3 ∷ 4 ∷ 5 ∷ []) ∷ [])) refl
      (given blank 4 mixed poll_read-mixed refl (stop refl refl))

poll_write_lem_example :
    ((poll_write (store [] []) (8 ∷ 9 ∷ [])).0 ≡ ready (ok 2))
    × Wrote (store [] []) (poll_write (store [] []) (8 ∷ 9 ∷ [])).1 (8 ∷ 9 ∷ [])
poll_write_lem_example = poll_write_lem (store [] []) (8 ∷ 9 ∷ [])

abbrev full : List Bytes
full = (1 ∷ []) ∷ (2 ∷ []) ∷ (3 ∷ []) ∷ []

remote_addr-new_example :
    let (p, s) = new C (codes "ws://a") (codes "b") in
    (remote_addr p s ≡ some (codes "ws://a#b"))
    × (p.recv_buf ≡ [])
    × ((C.view s.send_chan).items ≡ [])
    × ((C.view s.recv_chan).items ≡ [])
remote_addr-new_example = remote_addr-new C (codes "ws://a") (codes "b")

-- Two writes, of which one is sent; a message comes in, is read, and the pipe is closed.
abbrev history : List Event
history =
    writes (1 ∷ 2 ∷ [])
    ∷ writes (3 ∷ [])
    ∷ sends true
    ∷ sends true
    ∷ sends true
    ∷ receives (binary [])
    ∷ receives (binary (6 ∷ 7 ∷ []))
    ∷ receives (binary [])
    ∷ reads (0 ∷ [])
    ∷ sends true
    ∷ sends true
    ∷ closes
    ∷ []

abbrev begun : Session C
begun = start C [] []

run-history :
    let t = run begun history in
    (t.sent ≡ (1 ∷ 2 ∷ []) ∷ [])
    × (outbox t.shared ≡ [])
    × (sending t.sender ≡ (3 ∷ []) ∷ [])
    × (t.written ≡ 6 ∷ [])
unfolding run step start new write_step send_step recv_step read_step close_step poll_write
    poll_read poll_close checked_sub read_slice write_slice
run-history = (refl, refl, refl, refl)

run_sends_in_order_example :
    let t = run begun history in t.accepted ≡ t.sent ++ (sending t.sender ++ outbox t.shared)
run_sends_in_order_example = run_sends_in_order C [] [] history

run_delivers_in_order_example :
    let t = run begun history in
    concat t.arrived ≡ t.written ++ (unread t.pipe t.shared ++ concat (receiving t.receiver))
run_delivers_in_order_example = run_delivers_in_order C [] [] history

abbrev closed_begun : Session C
closed_begun = record {
  pipe = holding [];
  shared = record (store full []) { closed = true };
  sender = SendLoop.waiting;
  receiver = RecvLoop.waiting;
  accepted = full;
  sent = [];
  arrived = [];
  written = [];
}

run_after_close_example :
    ((run closed_begun (sending_steps 9)).shared.closed ≡ true)
    × (length (run closed_begun (sending_steps 9)).sent ≤ 1)
run_after_close_example = run_after_close closed_begun (sending_steps 9) refl

-- A pipe whose `send_loop` has one message in its hands, and three that wait.
abbrev open_begun : Session C
open_begun = record closed_begun { shared = store full []; sender = SendLoop.writing (9 ∷ []) }

run_sends_all_example :
    let u = run open_begun (sending_steps 11) in (u.sent ≡ (9 ∷ []) ∷ full) × (outbox u.shared ≡ [])
run_sends_all_example = run_sends_all open_begun 11 tt refl (omega arith)
