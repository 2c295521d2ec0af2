-- ===== src/Base/Slices.antt =====
-- Rust's slices, with the panics of their operations as a value.
use Prim.Native.Nat.{ℕ, ◌-◌, ◌≤◌}
use mathlib.Core.Path.{◌≡◌, ap}
use mathlib.Core.Bool.{◌&&◌}
use mathlib.Core.List.{List, ◌++◌}
use native.Mathlib.Omega.{arith}
use sosistab2_obfsws.Base.Tests.{leb, ◌==◌, if◌then◌else◌, le→leb, eq→==}
use sosistab2_obfsws.Base.Lists.{length, take, drop}

-- A computation that may panic.
pub data Exec {ℓ} (A : Type ℓ) : Type ℓ where
  done : A → Exec A
  panic : Exec A

infixl 5 ◌>>=◌
abbrev pub ◌>>=◌ {ℓ κ} : {A : Type ℓ} {B : Type κ} → Exec A → (A → Exec B) → Exec B
done a >>= f = f a
panic >>= f = panic

done_get {ℓ} : {A : Type ℓ} → A → Exec A → A
done_get a (done b) = b
done_get a panic = a

pub done-injective {ℓ} : {A : Type ℓ} {a b : A} → done a ≡ done b → a ≡ b
unfolding done_get
done-injective {a} e = ap (done_get a) e

-- `a - b` on usize, which panics below zero (the crate sets `overflow-checks = true`).
unfoldable pub checked_sub : ℕ → ℕ → Exec ℕ
checked_sub a b = if leb b a then done (a - b) else panic

pub checked_sub-done : (a b : ℕ) → b ≤ a → checked_sub a b ≡ done (a - b)
unfolding checked_sub
checked_sub-done a b h = ground arith

module _ {ℓ} {A : Type ℓ} where
  -- `&xs[a..b]`
  unfoldable pub read_slice : List A → ℕ → ℕ → Exec (List A)
  read_slice xs a b =
      if leb a b && leb b (length xs) then done (take (b - a) (drop a xs)) else panic

  -- `xs[a..b].copy_from_slice(src)`, which also wants the two lengths equal.
  unfoldable pub write_slice : List A → ℕ → ℕ → List A → Exec (List A)
  write_slice xs a b src =
      if leb a b && leb b (length xs) && b - a == length src
      then done (take a xs ++ (src ++ drop b xs))
      else panic

  pub read_slice-done :
      (xs : List A) (a b : ℕ)
      → a ≤ b
      → b ≤ length xs
      → read_slice xs a b ≡ done (take (b - a) (drop a xs))
  unfolding read_slice
  read_slice-done xs a b h k = rw (le→leb a b h, le→leb b (length xs) k)

  pub write_slice-done :
      (xs : List A) (a b : ℕ) (src : List A)
      → a ≤ b
      → b ≤ length xs
      → b - a ≡ length src
      → write_slice xs a b src ≡ done (take a xs ++ (src ++ drop b xs))
  unfolding write_slice
  write_slice-done xs a b src h k e =
      rw (le→leb a b h, le→leb b (length xs) k, eq→== (b - a) (length src) e)
