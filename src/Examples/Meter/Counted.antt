-- ===== src/Examples/Meter/Counted.antt =====
-- The counts of examples/obfsws-test-1.rs and examples/obfsws-test-2.rs, step by step.
use sosistab2_obfsws.Base.{
  ℕ, ◌+◌, ◌≤◌, ◌≡◌, refl, ap, ◌∙◌, Bool, true, false, Option, none, some, arith,
}
use sosistab2_obfsws.Base.Slices.{done, panic}
use sosistab2_obfsws.Io.{ErrorKind, Result, ok, err}
use sosistab2_obfsws.Examples.Meter.{
  Floats, Meter, Meets, adapt, speed, restart, received, take_read,
}
use sosistab2_obfsws.Examples.Meter.Units.{IsUnit, adapt-IsNear}

-- A read that gave an error, one that gave anything, and its bytes.
abbrev pub failed : Option (Result ErrorKind ℕ) → Bool
failed (some (err k)) = true
failed _ = false

abbrev pub came : Option (Result ErrorKind ℕ) → ℕ
came none = 0
came (some read) = 1

abbrev pub size_of : Option (Result ErrorKind ℕ) → ℕ
size_of (some (ok size)) = size
size_of _ = 0

module _ {X : Floats} where
  -- What lies between two states of the counts, but for the rounds.
  pub record Moved (came size : ℕ) (m m' : Meter X) : Type 0 where
    pub total : m'.total_recv_bytes ≡ m.total_recv_bytes + size
    pub recvs : m'.recvs ≡ m.recvs + came
    pub ticks : m'.ticks ≡ m.ticks
    pub bounded : m.recv_bytes ≤ m.total_recv_bytes → m'.recv_bytes ≤ m'.total_recv_bytes
    pub unit : IsUnit m'.unit

  pub restart-Moved :
      (r : Meets) (m : Meter X)
      → IsUnit m.unit
      → (m' : Meter X) × (restart r m ≡ done m') × Moved 0 0 m m'
  unfolding restart
  restart-Moved r m u =
      let (unit, adapted, near) = adapt-IsNear (speed r m) u.size in
      (
        record m { unit = unit; recv_bytes = 0; time_anchor = r.restarted },
        rw (ap (adapt (speed r m)) u.named ∙ adapted) refl,
        record {
          total = omega arith;
          recvs = omega arith;
          ticks = refl;
          bounded = λ h. omega arith;
          unit = record { size = near.next; named = near.named };
        },
      )

  pub take_read-Moved :
      (read : Option (Result ErrorKind ℕ)) (m : Meter X)
      → IsUnit m.unit
      → failed read ≡ false
      → (m' : Meter X) × (take_read read m ≡ done m') × Moved (came read) (size_of read) m m'
  unfolding take_read received
  take_read-Moved none m u h = (
    m,
    refl,
    record { total = omega arith; recvs = omega arith; ticks = refl; bounded = λ h. h; unit = u },
  )
  take_read-Moved (some (err k)) m u h = cc
  take_read-Moved (some (ok size)) m u h = (
    received size m,
    refl,
    record { total = refl; recvs = refl; ticks = refl; bounded = λ h. omega arith; unit = u },
  )

  pub Moved-trans :
      {c s c' s' : ℕ} {m m' m'' : Meter X}
      → Moved c s m m'
      → Moved c' s' m' m''
      → Moved (c + c') (s + s') m m''
  Moved-trans a b = record {
    total = omega (arith, a.total, b.total);
    recvs = omega (arith, a.recvs, b.recvs);
    ticks = b.ticks ∙ a.ticks;
    bounded = λ h. b.bounded (a.bounded h);
    unit = b.unit;
  }

  pub take_read-fails :
      (read : Option (Result ErrorKind ℕ)) (m : Meter X)
      → failed read ≡ true
      → take_read read m ≡ panic
  unfolding take_read
  take_read-fails none m h = cc
  take_read-fails (some (err k)) m h = refl
  take_read-fails (some (ok size)) m h = cc
