-- ===== src/Wsocks/Server/Life.antt =====
-- `server_session_loop` of src/bin.todo/wsocks.rs as a whole: the manager of the session's pipes, the
-- loop that accepts streams, and the tasks that forward their traffic, which share one channel for
-- the session's end.
pub mod Signal
pub mod Ends
mod Tests
use sosistab2_obfsws.Base.{ℕ, ◌+◌, Bool, true, false, Option, none, some, List, [], ◌∷◌, ◌++◌}
use sosistab2_obfsws.Base.Slices.{Exec, done, panic}
use sosistab2_obfsws.Io.{ErrorKind, Result, ok, err}
use sosistab2_obfsws.Channel.{Channel}
use sosistab2_obfsws.Wsocks.Forward.{check_deadline}
use sosistab2_obfsws.Wsocks.Server.Deadline.{
  deadline_capacity, Manager, Meets, Round, sleeps, broken, sending, notify, manager_round,
}

-- How the loop that accepts ends.
pub data SessionError : Type 0 where
  deadline_reached : SessionError
  accept_failed : ErrorKind → SessionError

-- Where `pipemgr_fut` is: in its rounds, waiting to send its message, over after it has sent that, or
-- gone by a panic.
pub data Phase : Type 0 where
  rounds waits_to_send over crashed : Phase

module _ (Pipe Stream : Type 0) (D : Channel (Unit {0})) where
  -- The manager holds the channel. `spawned` are the streams whose tasks were spawned, and `stopped`
  -- counts the tests for the deadline by which forwarding tasks have ended.
  pub record Session : Type 0 where
    pub manager : Manager Pipe D
    pub phase : Phase
    pub spawned : List Stream
    pub ended : Option SessionError
    pub stopped : ℕ

-- The server adds a pipe; the manager goes on; the accepting loop makes a pass, with what
-- `accept_conn` gives in 5 seconds; a forwarding task tests for the deadline; the last receiver goes.
pub data Event (Pipe Stream : Type 0) : Type 0 where
  adds_pipe : Pipe → Event Pipe Stream
  manages : Meets Pipe → Event Pipe Stream
  passes : Option (Result ErrorKind Stream) → Event Pipe Stream
  forward_tests : Event Pipe Stream
  deserted : Event Pipe Stream

module _ {Pipe Stream : Type 0} {D : Channel (Unit {0})} where
  unfoldable pub start : ℕ → Session Pipe Stream D
  start now = record {
    manager = record { pipes = []; last_alive = now; deadline = D.bounded deadline_capacity };
    phase = rounds;
    spawned = [];
    ended = none;
    stopped = 0;
  }

  -- The channel that the tasks and the manager share.
  abbrev pub on_channel : D.Chan → Session Pipe Stream D → Session Pipe Stream D
  on_channel chan s = record s { manager = record s.manager { deadline = chan } }

  -- What a round leaves; the end of `pipemgr_fut`, by a panic or not, drops the only sender.
  unfoldable pub managed :
      Exec (Round (Manager Pipe D)) → Session Pipe Stream D → Session Pipe Stream D
  managed panic s = on_channel (D.close s.manager.deadline) (record s { phase = crashed })
  managed (done (sleeps m)) s = record s { manager = m }
  managed (done (broken m)) s = record s {
    phase = over;
    manager = record m { deadline = D.close m.deadline };
  }
  managed (done (sending m)) s = record s { phase = waits_to_send; manager = m }

  unfoldable pub manage : Phase → Meets Pipe → Session Pipe Stream D → Session Pipe Stream D
  manage rounds m s = managed (manager_round m s.manager) s
  manage waits_to_send m s = managed (notify s.manager) s
  manage over m s = s
  manage crashed m s = s

  -- After `accept_conn`: an error ends the loop, a stream gets its task, and at a timeout the loop
  -- goes on.
  unfoldable pub accepted :
      Option (Result ErrorKind Stream) → Session Pipe Stream D → Session Pipe Stream D
  accepted none s = s
  accepted (some (err k)) s = record s { ended = some (accept_failed k) }
  accepted (some (ok stream)) s = record s { spawned = s.spawned ++ stream ∷ [] }

  -- What a test has given, and the channel after it.
  unfoldable pub tested :
      Session Pipe Stream D
      → (Session Pipe Stream D → Session Pipe Stream D)
      → (Session Pipe Stream D → Session Pipe Stream D)
      → Bool × Option D.Chan
      → Session Pipe Stream D
  tested s seen unseen (true, some chan) = seen (on_channel chan s)
  tested s seen unseen (true, none) = seen s
  tested s seen unseen (false, rx) = unseen s

  -- A pass of the loop that accepts, if it still runs.
  unfoldable pub pass :
      Option SessionError
      → Option (Result ErrorKind Stream)
      → Session Pipe Stream D
      → Session Pipe Stream D
  pass (some e) r s = s
  pass none r s =
      tested s (λ t. record t { ended = some deadline_reached }) (accepted r)
        (check_deadline D (some s.manager.deadline))

  -- The channel closes with its last receiver, which is not before the accepting loop has ended.
  unfoldable pub desert : Option SessionError → Session Pipe Stream D → Session Pipe Stream D
  desert none s = s
  desert (some e) s = on_channel (D.close s.manager.deadline) s

  unfoldable pub step : Event Pipe Stream → Session Pipe Stream D → Session Pipe Stream D
  step (adds_pipe pipe) s = record s {
    manager = record s.manager { pipes = s.manager.pipes ++ pipe ∷ [] };
  }
  step (manages m) s = manage s.phase m s
  step (passes r) s = pass s.ended r s
  step forward_tests s =
      tested s (λ t. record t { stopped = t.stopped + 1 }) (λ t. t)
        (check_deadline D (some s.manager.deadline))
  step deserted s = desert s.ended s

  unfoldable pub run : List (Event Pipe Stream) → Session Pipe Stream D → Session Pipe Stream D
  run [] s = s
  run (e ∷ es) s = run es (step e s)
