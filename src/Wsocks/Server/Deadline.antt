-- ===== src/Wsocks/Server/Deadline.antt =====
-- The life of a session in `server_session_loop` of src/bin.todo/wsocks.rs: the manager of its pipes,
-- which sends one message at the session's end, and those who test for that message.
pub mod Quiet
pub mod Silent
mod Tests
use sosistab2_obfsws.Base.{
  ℕ, zero, suc, ◌+◌, ◌-◌, ◌*◌, Bool, true, false, Option, none, some, List, [], ◌∷◌, ◌++◌, length,
  ltb, if◌then◌else◌,
}
use sosistab2_obfsws.Base.Slices.{Exec, done, panic}
use sosistab2_obfsws.Channel.{Channel}
use sosistab2_obfsws.Wsocks.Forward.{check_deadline}
use sosistab2_obfsws.Wsocks.Mux.{retain}

-- `smol::channel::bounded(1)`
abbrev pub deadline_capacity : ℕ
deadline_capacity = 1

-- 100 seconds, in nanoseconds
abbrev pub silence : ℕ
silence = 100_000_000_000

module _ (Pipe : Type 0) (D : Channel (Unit {0})) where
  -- What `pipemgr_fut` keeps: the multiplexer's pipes, `last_alive` in nanoseconds, and the sender.
  pub record Manager : Type 0 where
    pub pipes : List Pipe
    pub last_alive : ℕ
    pub deadline : D.Chan

-- What a round meets: the pipes that the listener has added since the round before, which pipes still
-- have an address, and the clock's values at the two places where it is read.
pub record Meets (Pipe : Type 0) : Type 0 where
  pub added : List Pipe
  pub alive : Pipe → Bool
  pub now : ℕ
  pub later : ℕ

-- How a round of the manager ends.
pub data Round (M : Type 0) : Type 0 where
  sleeps : M → Round M
  broken : M → Round M
  sending : M → Round M

module _ {Pipe : Type 0} {D : Channel (Unit {0})} where
  -- `retain`, and `last_alive`, which is set where a pipe is left.
  unfoldable pub refresh : Meets Pipe → Manager Pipe D → Manager Pipe D
  refresh m s =
      let pipes = retain m.alive (s.pipes ++ m.added) in
      record s { pipes = pipes; last_alive = if ltb 0 (length pipes) then m.now else s.last_alive }

  -- After `try_send`: where the channel takes nothing, `send` panics if no receiver is left, and
  -- waits otherwise.
  unfoldable pub after_send : Manager Pipe D → Option D.Chan → Bool → Exec (Round (Manager Pipe D))
  after_send s (some chan) closed = done (broken (record s { deadline = chan }))
  after_send s none true = panic
  after_send s none false = done (sending s)

  -- `deadline_tx.send(()).await.unwrap()`
  unfoldable pub notify : Manager Pipe D → Exec (Round (Manager Pipe D))
  notify s = after_send s (D.try_send s.deadline tt) (D.view s.deadline).closed

  -- The end of a round, by whether the silence has lasted too long.
  unfoldable pub timed : Bool → Manager Pipe D → Exec (Round (Manager Pipe D))
  timed true s = notify s
  timed false s = done (sleeps s)

  unfoldable pub manager_round : Meets Pipe → Manager Pipe D → Exec (Round (Manager Pipe D))
  manager_round m s = timed (ltb silence (m.later - (refresh m s).last_alive)) (refresh m s)

  abbrev pub then_rounds :
      Exec (Round (Manager Pipe D))
      → (Manager Pipe D → Exec (Round (Manager Pipe D)))
      → Exec (Round (Manager Pipe D))
  then_rounds panic next = panic
  then_rounds (done (sleeps s)) next = next s
  then_rounds (done (broken s)) next = done (broken s)
  then_rounds (done (sending s)) next = done (sending s)

  -- Rounds of `pipemgr_fut`, until one leaves the loop.
  unfoldable pub manager_rounds : List (Meets Pipe) → Manager Pipe D → Exec (Round (Manager Pipe D))
  manager_rounds [] s = done (sleeps s)
  manager_rounds (m ∷ ms) s = then_rounds (manager_round m s) (manager_rounds ms)

-- Tests for the deadline, by whichever receivers, on the channel that they share: how many of them
-- have seen it, and the channel.
unfoldable pub checks : (D : Channel (Unit {0})) → ℕ → Option D.Chan → ℕ × Option D.Chan
checks D zero rx = (0, rx)
checks D (suc n) rx =
    let t = check_deadline D rx in
    let rest = checks D n t.1 in ((if t.0 then 1 else 0) + rest.0, rest.1)
