-- ===== src/Examples/Meter/Units.antt =====
-- The units of examples/obfsws-test-1.rs and examples/obfsws-test-2.rs.
use sosistab2_obfsws.Base.{ℕ, ◌+◌, ◌≤◌, ◌≡◌, refl, Bool-cases, inl, inr, arith}
use sosistab2_obfsws.Base.Slices.{done}
use sosistab2_obfsws.Examples.Meter.{Floats, Scale, byte, kib, mib, gib, larger, smaller, adapt}

pub data Size : Type 0 where
  b kb mb gb : Size

-- Their order.
abbrev pub power : Size → ℕ
power b = 0
power kb = 1
power mb = 2
power gb = 3

module _ {X : Floats} where
  abbrev pub scale : Size → Scale X
  scale b = byte
  scale kb = kib
  scale mb = mib
  scale gb = gib

  -- One of the four.
  pub record IsUnit (u : Scale X) : Type 0 where
    pub size : Size
    pub named : u ≡ scale size

  -- One of the four, and at most one step from another.
  pub record IsNear (size : Size) (u : Scale X) : Type 0 where
    pub next : Size
    pub named : u ≡ scale next
    pub up : power next ≤ power size + 1
    pub down : power size ≤ power next + 1

  larger-scale : (z : Size) → (u : Scale X) × (larger {X = X} (scale z).name ≡ done u) × IsNear z u
  unfolding larger
  larger-scale b =
      (kib, refl, record { next = kb; named = refl; up = omega arith; down = omega arith })
  larger-scale kb =
      (mib, refl, record { next = mb; named = refl; up = omega arith; down = omega arith })
  larger-scale mb =
      (gib, refl, record { next = gb; named = refl; up = omega arith; down = omega arith })
  larger-scale gb =
      (gib, refl, record { next = gb; named = refl; up = omega arith; down = omega arith })

  smaller-scale :
      (z : Size) → (u : Scale X) × (smaller {X = X} (scale z).name ≡ done u) × IsNear z u
  unfolding smaller
  smaller-scale b =
      (byte, refl, record { next = b; named = refl; up = omega arith; down = omega arith })
  smaller-scale kb =
      (byte, refl, record { next = b; named = refl; up = omega arith; down = omega arith })
  smaller-scale mb =
      (kib, refl, record { next = kb; named = refl; up = omega arith; down = omega arith })
  smaller-scale gb =
      (mib, refl, record { next = mb; named = refl; up = omega arith; down = omega arith })

  -- Whatever the speed, the match on one of the four units does not panic, and gives one of them at
  -- most one step away.
  pub adapt-IsNear :
      (v : X.F64) (z : Size) → (u : Scale X) × (adapt v (scale z) ≡ done u) × IsNear z u
  unfolding adapt
  adapt-IsNear v z = elim (Bool-cases (X.lt (X.from_u128 2000) v)) [
    | inl high ↦ rw high (larger-scale z)
    | inr not_high ↦ elim (Bool-cases (X.lt v (X.from_u128 1))) [
      | inl low ↦ rw (not_high, low) (smaller-scale z)
      | inr between ↦
          rw (not_high, between)
            (scale z, refl, record { next = z; named = refl; up = omega arith; down = omega arith })
    ]
  ]
