-- ===== src/Listener/Run.antt =====
-- A listener of src/listener.rs at work: `pipe_accept_loop`, the tasks that it spawns, and the calls
-- of `accept`, in any order. A pipe is its handle here. The loops that `new` spawns for it run meanwhile,
-- on the store and the channels to which the handle refers (Pipe/Loops); a pipe that waits may be closed
-- or hold messages by then.
pub mod Named
mod Tests
use sosistab2_obfsws.Base.{ℕ, zero, suc, Bool, true, false, Option, none, some, List, [], ◌∷◌, ◌++◌}
use sosistab2_obfsws.Base.Choice.{pick}
use sosistab2_obfsws.Base.Words.{Bytes}
use sosistab2_obfsws.Base.Slices.{Exec, done, panic}
use sosistab2_obfsws.Base64.{Base64}
use sosistab2_obfsws.Io.{ErrorKind, Result, ok, err, Poll, ready, pending, Text}
use sosistab2_obfsws.Channel.{Channel}
use sosistab2_obfsws.Pipe.{ObfsWsPipe}
use sosistab2_obfsws.Listener.{
  Http, Upgrade, TaskEnd, failed, delivered, waits, pipes_capacity, serve_connection, accept,
}

-- A connection that `socket.accept` gives and whose task runs to its end, or until it waits for
-- room; a waiting task that tries again; a call of `accept`.
pub data Event (Conn : Type 0) : Type 0 where
  connects : Conn → Event Conn
  resumes : ℕ → Event Conn
  accepts_one : Event Conn

module _ (P : Channel ObfsWsPipe) where
  -- The listener's channel, the pipes whose tasks wait for room there, and the pipes that `accept`
  -- has given.
  pub record Listening : Type 0 where
    pub pipes : P.Chan
    pub waiting : List ObfsWsPipe
    pub accepted : List ObfsWsPipe

module _ {P : Channel ObfsWsPipe} where
  -- `from`
  unfoldable pub start : Listening P
  start = record { pipes = P.bounded pipes_capacity; waiting = []; accepted = [] }

  -- The end of a task; one that panics has no other effect.
  unfoldable pub ended : Exec (TaskEnd ObfsWsPipe P.Chan) → Listening P → Listening P
  ended panic s = s
  ended (done failed) s = s
  ended (done (delivered chan)) s = record s { pipes = chan }
  ended (done (waits pipe)) s = record s { waiting = s.waiting ++ pipe ∷ [] }

  -- A waiting task tries again; it ends with an error where the channel is closed.
  unfoldable pub retried : List ObfsWsPipe → Option P.Chan → Bool → Listening P → Listening P
  retried rest (some chan) closed s = record s { pipes = chan; waiting = rest }
  retried rest none true s = record s { waiting = rest }
  retried rest none false s = s

  unfoldable pub resumed : Option (ObfsWsPipe × List ObfsWsPipe) → Listening P → Listening P
  resumed none s = s
  resumed (some t) s = retried t.1 (P.try_send s.pipes t.0) (P.view s.pipes).closed s

  unfoldable pub given : Poll (Result ErrorKind ObfsWsPipe) × P.Chan → Listening P → Listening P
  given (ready (ok pipe), chan) s = record s { pipes = chan; accepted = s.accepted ++ pipe ∷ [] }
  given (ready (err k), chan) s = record s { pipes = chan }
  given (pending, chan) s = record s { pipes = chan }

module _ (B : Base64) (H : Http) (M : Channel Text) (C : Channel Bytes) (P : Channel ObfsWsPipe)
    (U : Upgrade H M.Chan) where
  unfoldable pub step : Event U.Conn → Listening P → Listening P
  step (connects conn) s = ended (serve_connection B H M C P U s.pipes conn) s
  step (resumes k) s = resumed (pick k s.waiting) s
  step accepts_one s = given (accept P s.pipes) s

  unfoldable pub run : List (Event U.Conn) → Listening P → Listening P
  run [] s = s
  run (e ∷ es) s = run es (step e s)
