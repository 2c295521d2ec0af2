-- ===== src/Examples/Second/Runs.antt =====
-- A round of the measuring loop of examples/obfsws-test-2.rs: what it counts, and when it panics.
use sosistab2_obfsws.Base.{
  ℕ, ◌-◌, ◌≡◌, refl, ◌∙◌, Bool-cases, inl, inr, true, false, arith, leb, if◌then◌else◌,
}
use sosistab2_obfsws.Base.Slices.{done, panic}
use sosistab2_obfsws.Channel.{Channel}
use sosistab2_obfsws.Examples.Meter.{
  Floats, Meter, Meets, interval, start, restart, ticked, print, notify,
}
use sosistab2_obfsws.Examples.Meter.Units.{kb, IsUnit}
use sosistab2_obfsws.Examples.Meter.Counted.{
  failed, came, size_of, Moved, restart-Moved, take_read-Moved, take_read-fails,
}
use sosistab2_obfsws.Examples.Second.{Measuring, starts, round}

module _ {X : Floats} where
  -- The first half of a round.
  at_interval :
      (r : Meets) (m : Meter X)
      → IsUnit m.unit
      → (m' : Meter X) × ((if leb interval (r.tested - m.time_anchor)
            then restart r (print r m)
            else done m)
          ≡ done m')
        × Moved 0 0 m m'
  at_interval r m u = elim (Bool-cases (leb interval (r.tested - m.time_anchor))) [
    | inl due ↦
        let (m', went, moved) = restart-Moved r (print r m) u in
        (
          m',
          rw due went,
          record {
            total = moved.total;
            recvs = moved.recvs;
            ticks = moved.ticks;
            bounded = moved.bounded;
            unit = moved.unit;
          },
        )
    | inr early ↦ (
      m,
      rw early,
      record { total = omega arith; recvs = omega arith; ticks = refl; bounded = λ h. h; unit = u },
    )
  ]

module _ {X : Floats} {D : Channel (Unit {0})} where
  pub round-Moved :
      (r : Meets) (s : Measuring X D)
      → IsUnit s.meter.unit
      → failed r.read ≡ false
      → (s' : Measuring X D) × (round r s ≡ done s')
        × Moved (came r.read) (size_of r.read) (ticked s.meter) s'.meter
  unfolding round
  round-Moved r s u h =
      let (m', went, moved) = at_interval r (ticked s.meter) u in
      let (m'', took, more) = take_read-Moved r.read m' moved.unit h in
      (
        record { meter = m''; allow_send_notify = notify D r.read s.allow_send_notify },
        rw (went, took) refl,
        record {
          total = omega (arith, moved.total, more.total);
          recvs = omega (arith, moved.recvs, more.recvs);
          ticks = more.ticks ∙ moved.ticks;
          bounded = λ h. more.bounded (moved.bounded h);
          unit = more.unit;
        },
      )

  pub round-fails :
      (r : Meets) (s : Measuring X D)
      → IsUnit s.meter.unit
      → failed r.read ≡ true
      → round r s ≡ panic
  unfolding round
  round-fails r s u h =
      let (m', went, moved) = at_interval r (ticked s.meter) u in
      rw (went, take_read-fails r.read m' h)

module _ (X : Floats) (D : Channel (Unit {0})) where
  pub start-IsUnit : (now : ℕ) → IsUnit (starts {X = X} {D = D} now).meter.unit
  unfolding starts start
  start-IsUnit now = record { size = kb; named = refl }
