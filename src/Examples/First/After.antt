-- ===== src/Examples/First/After.antt =====
-- What a round of the measuring loop of examples/obfsws-test-1.rs does to the count of its reads and to
-- the messages for the task that sends.
use mathlib.Core.Path.{subst}
use sosistab2_obfsws.Base.{
  ℕ, ◌+◌, ◌-◌, ◌≡◌, refl, ap, sym, ◌∙◌, Bool-cases, inl, inr, Option, none, some, arith, leb,
}
use sosistab2_obfsws.Base.Slices.{Exec, done, panic, ◌>>=◌, done-injective}
use sosistab2_obfsws.Channel.{Channel}
use sosistab2_obfsws.Io.{ErrorKind, Result, ok, err}
use sosistab2_obfsws.Examples.Meter.{
  Floats, Meter, Meets, interval, adapt, speed, restart, received, take_read, ticked, print, notify,
}
use sosistab2_obfsws.Examples.Meter.Counted.{came}
use sosistab2_obfsws.Examples.First.{
  Next, breaks, goes_on, Measuring, read_on, too_low, too_long, judge, round,
}

pub bind-done {ℓ κ} :
    {A : Type ℓ} {B : Type κ} (m : Exec A) (f : A → Exec B) {b : B}
    → (m >>= f) ≡ done b
    → (a : A) × (m ≡ done a) × (f a ≡ done b)
bind-done (done a) f h = (a, refl, h)
bind-done panic f h = cc

module _ {X : Floats} where
  restart-recvs : (r : Meets) (m m' : Meter X) → restart r m ≡ done m' → m'.recvs ≡ m.recvs
  unfolding restart
  restart-recvs r m m' e =
      let (unit, _, same) = bind-done (adapt (speed r m) m.unit) _ e in
      ap (λ (n : Meter X). n.recvs) (sym (done-injective same))

  take_read-recvs :
      (read : Option (Result ErrorKind ℕ)) (m m' : Meter X)
      → take_read read m ≡ done m'
      → m'.recvs ≡ m.recvs + came read
  unfolding take_read received
  take_read-recvs none m m' e =
      omega (arith, ap (λ (n : Meter X). n.recvs) (sym (done-injective e)))
  take_read-recvs (some (err k)) m m' e = cc
  take_read-recvs (some (ok size)) m m' e = ap (λ (n : Meter X). n.recvs) (sym (done-injective e))

module _ {X : Floats} {D : Channel (Unit {0})} where
  -- What a round does to the reads and to the channel.
  abbrev pub After : Meets → Measuring X D → Next (Measuring X D) → Type 0
  After r s (breaks s') =
      (s'.meter.recvs ≡ s.meter.recvs) × (s'.allow_send_notify ≡ s.allow_send_notify)
  After r s (goes_on s') =
      (s'.meter.recvs ≡ s.meter.recvs + came r.read)
      × (s'.allow_send_notify ≡ notify D r.read s.allow_send_notify)

  read_on-After :
      (r : Meets) (s : Measuring X D) (n : Next (Measuring X D))
      → read_on r s ≡ done n
      → After r s n
  unfolding read_on
  read_on-After r s n e =
      let (m, took, same) = bind-done (take_read r.read s.meter) _ e in
      subst (After r s) (done-injective same) (take_read-recvs r.read s.meter m took, refl)

  -- Other counts leave that alone.
  After-meter :
      (r : Meets) (s : Measuring X D) (m : Meter X) (n : Next (Measuring X D))
      → m.recvs ≡ s.meter.recvs
      → After r (record s { meter = m }) n
      → After r s n
  After-meter r s m (breaks t) h a = (a.0 ∙ h, a.1)
  After-meter r s m (goes_on t) h a = (omega (arith, a.0, h), a.1)

  judge-After :
      (r : Meets) (s : Measuring X D) (n : Next (Measuring X D)) → judge r s ≡ done n → After r s n
  unfolding judge
  judge-After r s n e = elim (Bool-cases (too_low s)) [
    | inl low ↦ subst (After r s) (done-injective (rw low at e)) (refl, refl)
    | inr fast ↦ elim (Bool-cases (too_long r s)) [
      | inl long ↦ subst (After r s) (done-injective (rw (fast, long) at e)) (refl, refl)
      | inr short ↦
          let (m, restarted, went) = bind-done (restart r s.meter) _ (rw (fast, short) at e) in
          After-meter r s m n (restart-recvs r s.meter m restarted)
            (read_on-After r (record s { meter = m }) n went)
    ]
  ]

  pub round-After :
      (r : Meets) (s : Measuring X D) (n : Next (Measuring X D)) → round r s ≡ done n → After r s n
  unfolding round
  round-After r s n e = elim (Bool-cases (leb interval (r.tested - s.meter.time_anchor))) [
    | inl due ↦
        After-meter r s (print r (ticked s.meter)) n refl
          (judge-After r (record s { meter = print r (ticked s.meter) }) n (rw due at e))
    | inr early ↦
        After-meter r s (ticked s.meter) n refl
          (read_on-After r (record s { meter = ticked s.meter }) n (rw early at e))
  ]
