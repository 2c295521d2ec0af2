-- ===== src/Examples/Second.antt =====
-- `obfsws_test_2` of examples/obfsws-test-2.rs: its measuring loop, which nothing ends but a failed
-- read, and the task that sends a few bytes after each pause.
pub mod Runs
pub mod Races
use sosistab2_obfsws.Base.{ℕ, ◌+◌, ◌-◌, Bool, true, false, List, [], ◌∷◌, leb, if◌then◌else◌}
use sosistab2_obfsws.Base.Slices.{Exec, done, panic, ◌>>=◌}
use sosistab2_obfsws.Channel.{Channel}
use sosistab2_obfsws.Io.{ErrorKind, Result, ok, err}
use sosistab2_obfsws.Examples.Meter.{
  Floats, Meter, Meets, interval, start, restart, take_read, ticked, print, notify,
}

module _ (X : Floats) (D : Channel (Unit {0})) where
  -- What `recv_fut` holds.
  pub record Measuring : Type 0 where
    pub meter : Meter X
    pub allow_send_notify : D.Chan

module _ {X : Floats} {D : Channel (Unit {0})} where
  -- `allow_send_notify` has room for one message.
  unfoldable pub starts : ℕ → Measuring X D
  starts now = record { meter = start now; allow_send_notify = D.bounded 1 }

  -- A round of `recv_fut`.
  unfoldable pub round : Meets → Measuring X D → Exec (Measuring X D)
  round r s =
      let m = ticked s.meter in
      (do
        m' ← if leb interval (r.tested - m.time_anchor) then restart r (print r m) else done m
        m'' ← take_read r.read m'
        done (record { meter = m''; allow_send_notify = notify D r.read s.allow_send_notify }))

-- A round of `recv_fut`, or one of `send_fut`, with what its write gives after the pause.
pub data Turn : Type 0 where
  receives : Meets → Turn
  sends : Result ErrorKind (Unit {0}) → Turn

module _ (X : Floats) (D : Channel (Unit {0})) where
  -- Both tasks, raced; `written` counts the messages that were written.
  pub record Racing : Type 0 where
    pub measuring : Measuring X D
    pub written : ℕ

module _ {X : Floats} {D : Channel (Unit {0})} where
  unfoldable pub begun : ℕ → Racing X D
  begun now = record { measuring = starts now; written = 0 }

  -- After the write, which is unwrapped.
  unfoldable pub wrote : Result ErrorKind (Unit {0}) → Racing X D → Exec (Racing X D)
  wrote (ok _) s = done (record s { written = s.written + 1 })
  wrote (err k) s = panic

  unfoldable pub turn : Turn → Racing X D → Exec (Racing X D)
  turn (receives r) s = do m ← round r s.measuring; done (record s { measuring = m })
  turn (sends result) s = wrote result s

  -- Neither task leaves its loop, so that the race goes on.
  unfoldable pub race : List Turn → Racing X D → Exec (Racing X D)
  race [] s = done s
  race (t ∷ ts) s = do s' ← turn t s; race ts s'
