-- ===== src/Examples/First.antt =====
-- `obfsws_test_1` of examples/obfsws-test-1.rs: its measuring loop, which ends where too few rounds read
-- anything or nothing has come for long, and the task that sends, one message after each that has come
-- back.
pub mod After
pub mod Paced
use sosistab2_obfsws.Base.{
  ℕ, ◌+◌, ◌-◌, Bool, true, false, Option, none, some, List, [], ◌∷◌, leb, if◌then◌else◌,
}
use sosistab2_obfsws.Base.Slices.{Exec, done, panic, ◌>>=◌}
use sosistab2_obfsws.Channel.{Channel}
use sosistab2_obfsws.Io.{ErrorKind, Result, ok, err}
use sosistab2_obfsws.Examples.Meter.{
  Floats, Meter, Meets, interval, start, rate, restart, take_read, ticked, print, notify,
}

-- A round leaves the loop, or not.
pub data Next (S : Type 0) : Type 0 where
  breaks goes_on : S → Next S

module _ (X : Floats) (D : Channel (Unit {0})) where
  -- What `recv_fut` holds; `last` is the clock's value after the last read.
  pub record Measuring : Type 0 where
    pub meter : Meter X
    pub last : ℕ
    pub allow_send_notify : D.Chan

-- `last`, which is set where something was read.
unfoldable pub last_of : Option (Result ErrorKind ℕ) → ℕ → ℕ → ℕ
last_of none arrived last = last
last_of (some read) arrived last = arrived

-- Where `send_fut` is: before its write, or waiting for a message.
pub data Phase : Type 0 where
  writes waits : Phase

module _ (X : Floats) (D : Channel (Unit {0})) where
  -- Both tasks, raced; `written` counts the messages that were written.
  pub record Racing : Type 0 where
    pub measuring : Measuring X D
    pub phase : Phase
    pub written : ℕ
    pub ended : Bool

module _ {X : Floats} {D : Channel (Unit {0})} where
  unfoldable pub starts : ℕ → Racing X D
  starts now = record {
    measuring = record { meter = start now; last = now; allow_send_notify = D.bounded 1 };
    phase = writes;
    written = 0;
    ended = false;
  }

  -- The read at a round's end.
  unfoldable pub read_on : Meets → Measuring X D → Exec (Next (Measuring X D))
  read_on r s = do
    m ← take_read r.read s.meter
    done (
        goes_on (record {
          meter = m;
          last = last_of r.read r.arrived s.last;
          allow_send_notify = notify D r.read s.allow_send_notify;
        }))

  -- Whether the rate is too low, and whether nothing has come for too long.
  abbrev pub too_low : Measuring X D → Bool
  too_low s = X.lt (rate s.meter) (X.from_u128 90)

  abbrev pub too_long : Meets → Measuring X D → Bool
  too_long r s = X.lt (X.from_u128 15) (X.as_secs (r.checked - s.last))

  -- The end of an interval, after its report.
  unfoldable pub judge : Meets → Measuring X D → Exec (Next (Measuring X D))
  judge r s =
      if too_low s
      then done (breaks s)
      else (if too_long r s
          then done (breaks s)
          else restart r s.meter >>= λ m. read_on r (record s { meter = m }))

  -- A round of `recv_fut`.
  unfoldable pub round : Meets → Measuring X D → Exec (Next (Measuring X D))
  round r s =
      let m = ticked s.meter in
      if leb interval (r.tested - m.time_anchor)
      then judge r (record s { meter = print r m })
      else read_on r (record s { meter = m })

  -- After the write of `send_fut`, which it unwraps.
  unfoldable pub wrote : Result ErrorKind (Unit {0}) → Racing X D → Exec (Racing X D)
  wrote (ok _) s = done (record s { phase = waits; written = s.written + 1 })
  wrote (err k) s = panic

  -- `allow_send.recv()`, which waits where there is no message.
  unfoldable pub woken : Option (Unit {0} × D.Chan) → Racing X D → Exec (Racing X D)
  woken none s = done s
  woken (some (_, chan)) s =
      done
        (record s { phase = writes; measuring = record s.measuring { allow_send_notify = chan } })

  -- A step of `send_fut`, with what its write gives.
  unfoldable pub send_step : Phase → Result ErrorKind (Unit {0}) → Racing X D → Exec (Racing X D)
  send_step writes result s = wrote result s
  send_step waits result s = woken (D.try_recv s.measuring.allow_send_notify) s

  -- The race ends with `recv_fut`, which alone leaves its loop.
  unfoldable pub recv_step : Exec (Next (Measuring X D)) → Racing X D → Exec (Racing X D)
  recv_step panic s = panic
  recv_step (done (breaks m)) s = done (record s { measuring = m; ended = true })
  recv_step (done (goes_on m)) s = done (record s { measuring = m })

-- A round of `recv_fut`, or a step of `send_fut`.
pub data Turn : Type 0 where
  receives : Meets → Turn
  sends : Result ErrorKind (Unit {0}) → Turn

module _ {X : Floats} {D : Channel (Unit {0})} where
  unfoldable pub turn : Turn → Racing X D → Exec (Racing X D)
  turn (receives r) s = recv_step (round r s.measuring) s
  turn (sends result) s = send_step s.phase result s

  -- The state where the race has ended, else what follows.
  abbrev pub unless : Bool → Racing X D → Exec (Racing X D) → Exec (Racing X D)
  unless true s next = done s
  unless false s next = next

  unfoldable pub race : List Turn → Racing X D → Exec (Racing X D)
  race [] s = done s
  race (t ∷ ts) s = unless s.ended s (turn t s >>= race ts)
