-- ===== src/Examples/Meter.antt =====
-- What `recv_fut` of examples/obfsws-test-1.rs and examples/obfsws-test-2.rs counts and prints: the
-- bytes, rounds and reads, and the unit of the speed.
pub mod Units
pub mod Counted
use sosistab2_obfsws.Base.{
  ℕ, suc, ◌+◌, ◌-◌, Bool, true, false, Option, none, some, List, [], ◌∷◌, ◌++◌, ltb, leb,
  if◌then◌else◌,
}
use sosistab2_obfsws.Base.Choice.{or_kept}
use sosistab2_obfsws.Base.Slices.{Exec, done, panic, ◌>>=◌}
use sosistab2_obfsws.Channel.{Channel}
use sosistab2_obfsws.Io.{ErrorKind, Result, ok, err, Text, text_eq, codes}

-- `f64`: the conversions of a `u128`, and of a duration in nanoseconds to seconds, and the operations.
-- Nothing is assumed of them.
pub record Floats : Type 1 where
  pub F64 : Type 0
  pub from_u128 : ℕ → F64
  pub as_secs : ℕ → F64
  pub mul : F64 → F64 → F64
  pub div : F64 → F64 → F64
  pub lt : F64 → F64 → Bool

-- `Duration::from_secs(2)`, in nanoseconds
abbrev pub interval : ℕ
interval = 2_000_000_000

-- What a round meets: the clock's values, in nanoseconds, at the test for the interval, at the two
-- speeds, at the test of the silence, when the interval begins again, and after the read; and what the
-- read gives in the interval, if anything.
pub record Meets : Type 0 where
  pub tested : ℕ
  pub measured : ℕ
  pub anchored : ℕ
  pub checked : ℕ
  pub restarted : ℕ
  pub arrived : ℕ
  pub read : Option (Result ErrorKind ℕ)

module _ (X : Floats) where
  -- A factor and its name.
  pub record Scale : Type 0 where
    pub factor : X.F64
    pub name : Text

  -- What is printed after an interval.
  pub record Report : Type 0 where
    pub ticks : ℕ
    pub rate : X.F64
    pub total_speed : X.F64
    pub speed : X.F64
    pub unit : Text

  pub record Meter : Type 0 where
    pub total_recv_bytes : ℕ
    pub recv_bytes : ℕ
    pub start_time : ℕ
    pub time_anchor : ℕ
    pub unit : Scale
    pub ticks : ℕ
    pub recvs : ℕ
    pub printed : List Report

module _ {X : Floats} where
  abbrev pub byte : Scale X
  byte = record { factor = X.from_u128 1; name = codes "byte" }

  abbrev pub kib : Scale X
  kib = record { factor = X.from_u128 1024; name = codes "KiB" }

  abbrev pub mib : Scale X
  mib = record { factor = X.mul (X.from_u128 1024) (X.from_u128 1024); name = codes "MiB" }

  abbrev pub gib : Scale X
  gib = record {
    factor = X.mul (X.mul (X.from_u128 1024) (X.from_u128 1024)) (X.from_u128 1024);
    name = codes "GiB";
  }

  -- The match on the name, where the speed is high; no other name is expected.
  unfoldable pub larger : Text → Exec (Scale X)
  larger name =
      if text_eq name (codes "byte")
      then done kib
      else (if text_eq name (codes "KiB")
          then done mib
          else (if text_eq name (codes "MiB")
              then done gib
              else (if text_eq name (codes "GiB") then done gib else panic)))

  -- The match where it is low.
  unfoldable pub smaller : Text → Exec (Scale X)
  smaller name =
      if text_eq name (codes "byte")
      then done byte
      else (if text_eq name (codes "KiB")
          then done byte
          else (if text_eq name (codes "MiB")
              then done kib
              else (if text_eq name (codes "GiB") then done mib else panic)))

  unfoldable pub adapt : X.F64 → Scale X → Exec (Scale X)
  adapt speed unit =
      if X.lt (X.from_u128 2000) speed
      then larger unit.name
      else (if X.lt speed (X.from_u128 1) then smaller unit.name else done unit)

  unfoldable pub start : ℕ → Meter X
  start now = record {
    total_recv_bytes = 0;
    recv_bytes = 0;
    start_time = now;
    time_anchor = now;
    unit = kib;
    ticks = 0;
    recvs = 0;
    printed = [];
  }

  unfoldable pub rate : Meter X → X.F64
  rate m =
      if ltb 0 m.recvs
      then X.div (X.from_u128 100) (X.div (X.from_u128 m.ticks) (X.from_u128 m.recvs))
      else X.from_u128 0

  unfoldable pub speed : Meets → Meter X → X.F64
  speed r m =
      X.div (X.div (X.from_u128 m.recv_bytes) m.unit.factor)
        (X.as_secs (r.anchored - m.time_anchor))

  unfoldable pub report : Meets → Meter X → Report X
  report r m = record {
    ticks = m.ticks;
    rate = rate m;
    total_speed =
        X.div (X.div (X.from_u128 m.total_recv_bytes) m.unit.factor)
          (X.as_secs (r.measured - m.start_time));
    speed = speed r m;
    unit = m.unit.name;
  }

  -- The end of an interval, after its report.
  unfoldable pub restart : Meets → Meter X → Exec (Meter X)
  restart r m = do
    unit ← adapt (speed r m) m.unit
    done (record m { unit = unit; recv_bytes = 0; time_anchor = r.restarted })

  -- A read of so many bytes.
  unfoldable pub received : ℕ → Meter X → Meter X
  received size m = record m {
    recvs = m.recvs + 1;
    recv_bytes = m.recv_bytes + size;
    total_recv_bytes = m.total_recv_bytes + size;
  }

  -- What a round does with its read; an error is unwrapped.
  unfoldable pub take_read : Option (Result ErrorKind ℕ) → Meter X → Exec (Meter X)
  take_read none m = done m
  take_read (some (err k)) m = panic
  take_read (some (ok size)) m = done (received size m)

  -- `ticks += 1`
  abbrev pub ticked : Meter X → Meter X
  ticked m = record m { ticks = m.ticks + 1 }

  -- `println!`
  abbrev pub print : Meets → Meter X → Meter X
  print r m = record m { printed = m.printed ++ report r m ∷ [] }

module _ (D : Channel (Unit {0})) where
  -- `allow_send_notify.try_send(())` after a read, whose result is not looked at.
  unfoldable pub notify : Option (Result ErrorKind ℕ) → D.Chan → D.Chan
  notify (some (ok size)) chan = or_kept chan (D.try_send chan tt)
  notify _ chan = chan
