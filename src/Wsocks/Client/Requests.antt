-- ===== src/Wsocks/Client/Requests.antt =====
-- The requests of `client` in src/bin.todo/wsocks.rs: the tasks of the two front ends put them into one
-- channel, `request_fut` takes them out and spawns a task for each, and this task's answer goes back
-- over the channel that came with the request. Those channels are numbered in the order of the requests.
pub mod Marks
pub mod Answered
pub mod Placed
pub mod Accounted
mod Tests
use sosistab2_obfsws.Base.{
  ℕ, ◌+◌, Bool, Option, none, some, List, [], ◌∷◌, ◌++◌, ◌==◌, if◌then◌else◌,
}
use sosistab2_obfsws.Base.Choice.{pick, or_kept, put}
use sosistab2_obfsws.Io.{Result, ok, err}
use sosistab2_obfsws.Channel.{Channel}
use sosistab2_obfsws.Wsocks.Protocol.{Protocol}
use sosistab2_obfsws.Wsocks.Request.{RequestError}

module _ (Answer : Type 0) (Q : Channel (Protocol × ℕ)) (R : Channel Answer) where
  -- `req_rx`, the requests whose tasks run, the channels for answers, the answers that front ends have
  -- received, and how many tasks have ended. `asked` has the requests by the number of their channel.
  pub record Asking : Type 0 where
    pub queue : Q.Chan
    pub running : List (Protocol × ℕ)
    pub asked : ℕ → Option Protocol
    pub next : ℕ
    pub resp : ℕ → R.Chan
    pub received : List (ℕ × Answer)
    pub ended : ℕ

-- A front end asks; `request_fut` goes round its loop; the k-th of the tasks that run ends; a front end
-- looks for its answer.
pub data Event : Type 0 where
  asks : Protocol → Event
  spawns : Event
  ends : ℕ → Event
  takes : ℕ → Event

module _ {Answer : Type 0} (R : Channel Answer) where
  -- The end of a task: its answer is sent, if it has one, and `resp` goes with it.
  unfoldable pub answered : Result RequestError Answer → R.Chan → R.Chan
  answered (ok a) chan = R.close (or_kept chan (R.try_send chan a))
  answered (err e) chan = R.close chan

module _ {Answer : Type 0} {Q : Channel (Protocol × ℕ)} {R : Channel Answer} where
  unfoldable pub start : Q.Chan → Asking Answer Q R
  start queue = record {
    queue = queue;
    running = [];
    asked = λ i. none;
    next = 0;
    resp = λ i. R.bounded 1;
    received = [];
    ended = 0;
  }

  -- `req_tx.send((req, conn, resp_tx))`, with a new channel for the answer.
  unfoldable pub sent : Protocol → Option Q.Chan → Asking Answer Q R → Asking Answer Q R
  sent req none s = s
  sent req (some queue) s = record s {
    queue = queue;
    asked = put s.next (some req) s.asked;
    resp = put s.next (R.bounded 1) s.resp;
    next = s.next + 1;
  }

  -- `req_rx.recv()`, and the task that is spawned.
  unfoldable pub spawned : Option ((Protocol × ℕ) × Q.Chan) → Asking Answer Q R → Asking Answer Q R
  spawned none s = s
  spawned (some (t, queue)) s = record s { queue = queue; running = s.running ++ t ∷ [] }

  -- What a front end gets of `resp_rx.recv()`.
  unfoldable pub taken : ℕ → Option (Answer × R.Chan) → Asking Answer Q R → Asking Answer Q R
  taken i none s = s
  taken i (some (a, chan)) s = record s {
    resp = put i chan s.resp;
    received = s.received ++ (i, a) ∷ [];
  }

module _ {Answer : Type 0} {Q : Channel (Protocol × ℕ)} {R : Channel Answer}
    (serve : Protocol × ℕ → Result RequestError Answer) where
  -- `serve` is what the task of a request ends with, for the channel of that number.
  unfoldable pub finished :
      Option ((Protocol × ℕ) × List (Protocol × ℕ)) → Asking Answer Q R → Asking Answer Q R
  finished none s = s
  finished (some (t, rest)) s = record s {
    running = rest;
    resp = put t.1 (answered R (serve t) (s.resp t.1)) s.resp;
    ended = s.ended + 1;
  }

  unfoldable pub step : Event → Asking Answer Q R → Asking Answer Q R
  step (asks req) s = sent req (Q.try_send s.queue (req, s.next)) s
  step spawns s = spawned (Q.try_recv s.queue) s
  step (ends k) s = finished (pick k s.running) s
  step (takes i) s = taken i (R.try_recv (s.resp i)) s

  unfoldable pub run : List Event → Asking Answer Q R → Asking Answer Q R
  run [] s = s
  run (e ∷ es) s = run es (step e s)
