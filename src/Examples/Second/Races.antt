-- ===== src/Examples/Second/Races.antt =====
-- Any turns of the two tasks of examples/obfsws-test-2.rs: when they panic, and what they count.
use sosistab2_obfsws.Base.{
  ℕ, ◌+◌, ◌≡◌, ◌⊎◌, refl, Bool, Bool-cases, inl, inr, true, false, ◌||◌, List, [], ◌∷◌, arith,
}
use sosistab2_obfsws.Base.Slices.{done, panic}
use sosistab2_obfsws.Channel.{Channel}
use sosistab2_obfsws.Io.{ok, err}
use sosistab2_obfsws.Examples.Meter.{Floats, start}
use sosistab2_obfsws.Examples.Meter.Units.{IsUnit}
use sosistab2_obfsws.Examples.Meter.Counted.{failed, came, size_of}
use sosistab2_obfsws.Examples.Second.{
  starts, Turn, receives, sends, Racing, begun, wrote, turn, race,
}
use sosistab2_obfsws.Examples.Second.Runs.{round-Moved, round-fails, start-IsUnit}

-- A turn whose read or whose write fails, the reads that give something, and the writes.
abbrev pub fails : Turn → Bool
fails (receives r) = failed r.read
fails (sends (ok _)) = false
fails (sends (err k)) = true

abbrev pub any_fails : List Turn → Bool
any_fails [] = false
any_fails (t ∷ ts) = fails t || any_fails ts

abbrev pub reads_of : Turn → ℕ
reads_of (receives r) = came r.read
reads_of (sends result) = 0

abbrev pub bytes_of : Turn → ℕ
bytes_of (receives r) = size_of r.read
bytes_of (sends result) = 0

abbrev pub writes_of : Turn → ℕ
writes_of (receives r) = 0
writes_of (sends result) = 1

abbrev pub total : (Turn → ℕ) → List Turn → ℕ
total f [] = 0
total f (t ∷ ts) = f t + total f ts

module _ {X : Floats} {D : Channel (Unit {0})} where
  -- What turns have counted beside what was counted before.
  pub record Counted (recvs bytes written : ℕ) (s s' : Racing X D) : Type 0 where
    pub recvs_counted : s'.measuring.meter.recvs ≡ s.measuring.meter.recvs + recvs
    pub bytes_counted :
        s'.measuring.meter.total_recv_bytes ≡ s.measuring.meter.total_recv_bytes + bytes
    pub writes_counted : s'.written ≡ s.written + written
    pub unit : IsUnit s'.measuring.meter.unit

  turn-Counted :
      (t : Turn) (s : Racing X D)
      → IsUnit s.measuring.meter.unit
      → fails t ≡ false
      → (s' : Racing X D) × (turn t s ≡ done s')
        × Counted (reads_of t) (bytes_of t) (writes_of t) s s'
  unfolding turn wrote
  turn-Counted (receives r) s u h =
      let (m, went, moved) = round-Moved r s.measuring u h in
      (
        record s { measuring = m },
        rw went refl,
        record {
          recvs_counted = moved.recvs;
          bytes_counted = moved.total;
          writes_counted = omega arith;
          unit = moved.unit;
        },
      )
  turn-Counted (sends (ok _)) s u h = (
    record s { written = s.written + 1 },
    refl,
    record {
      recvs_counted = omega arith;
      bytes_counted = omega arith;
      writes_counted = refl;
      unit = u;
    },
  )
  turn-Counted (sends (err k)) s u h = cc

  turn-panics :
      (t : Turn) (s : Racing X D)
      → IsUnit s.measuring.meter.unit
      → fails t ≡ true
      → turn t s ≡ panic
  unfolding turn wrote
  turn-panics (receives r) s u h = rw (round-fails r s.measuring u h)
  turn-panics (sends (ok _)) s u h = cc
  turn-panics (sends (err k)) s u h = refl

  race-kept :
      (ts : List Turn) (s : Racing X D)
      → IsUnit s.measuring.meter.unit
      → any_fails ts ≡ false
      → (s' : Racing X D) × (race ts s ≡ done s')
        × Counted (total reads_of ts) (total bytes_of ts) (total writes_of ts) s s'
  unfolding race
  race-kept [] s u h = (
    s,
    refl,
    record {
      recvs_counted = omega arith;
      bytes_counted = omega arith;
      writes_counted = omega arith;
      unit = u;
    },
  )
  race-kept (t ∷ ts) s u h =
      let (s₁, went, c) = turn-Counted t s u (ground arith) in
      let (s', rest, d) = race-kept ts s₁ c.unit (ground arith) in
      (
        s',
        rw went rest,
        record {
          recvs_counted = omega (arith, c.recvs_counted, d.recvs_counted);
          bytes_counted = omega (arith, c.bytes_counted, d.bytes_counted);
          writes_counted = omega (arith, c.writes_counted, d.writes_counted);
          unit = d.unit;
        },
      )

  race-fails :
      (ts : List Turn) (s : Racing X D)
      → IsUnit s.measuring.meter.unit
      → any_fails ts ≡ true
      → race ts s ≡ panic
  unfolding race
  race-fails [] s u h = cc
  race-fails (t ∷ ts) s u h = elim (Bool-cases (fails t)) [
    | inl bad ↦ rw (turn-panics t s u bad)
    | inr good ↦
        let (s₁, went, c) = turn-Counted t s u good in
        rw went (race-fails ts s₁ c.unit (ground arith))
  ]

module _ (X : Floats) (D : Channel (Unit {0})) where
  -- Whatever turns the two tasks take: the race panics where a read or a write fails, and not at the
  -- two matches on the unit's name, whatever the speeds are; and where none fails it goes on, and has
  -- counted the reads that gave something, their bytes and the writes.
  pub race_lem :
      (ts : List Turn) (now : ℕ)
      → ((any_fails ts ≡ true) × (race ts (begun {X = X} {D = D} now) ≡ panic))
        ⊎ ((any_fails ts ≡ false)
            × ((s : Racing X D) × (race ts (begun now) ≡ done s)
                × (s.measuring.meter.recvs ≡ total reads_of ts)
                × (s.measuring.meter.total_recv_bytes ≡ total bytes_of ts)
                × (s.written ≡ total writes_of ts)))
  unfolding begun starts start
  race_lem ts now = elim (Bool-cases (any_fails ts)) [
    | inl bad ↦ inl (bad, race-fails ts (begun now) (start-IsUnit X D now) bad)
    | inr good ↦
        let (s, went, c) = race-kept ts (begun now) (start-IsUnit X D now) good in
        inr (
          good,
          (
            s,
            went,
            omega (arith, c.recvs_counted),
            omega (arith, c.bytes_counted),
            omega (arith, c.writes_counted),
          ),
        )
  ]
