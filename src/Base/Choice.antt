-- ===== src/Base/Choice.antt =====
-- Some element of a list, and the others.
use mathlib.Core.Path.{◌≡◌, subst}
use mathlib.Core.Logic.{inl, inr}
use mathlib.Core.Option.{Option, none, some, some-injective}
use mathlib.Core.List.{List, [], ◌∷◌, ◌++◌}
use Prim.Native.Nat.{ℕ, zero, suc, ◌+◌}
use native.Mathlib.Omega.{arith}
use sosistab2_obfsws.Base.Tests.{Option-cases, ◌==◌, if◌then◌else◌}
use sosistab2_obfsws.Base.Lists.{length}

-- The k-th of a list, and the others.
abbrev pub pick {ℓ} : {A : Type ℓ} → ℕ → List A → Option (A × List A)
pick k [] = none
pick zero (x ∷ xs) = some (x, xs)
pick (suc k) (x ∷ xs) = elim (pick k xs) [ none ↦ none | some t ↦ some (t.0, x ∷ t.1) ]

-- What holds of every element.
abbrev pub All {ℓ κ} : {A : Type ℓ} → (A → Type κ) → List A → Type κ
All Q [] = Unit
All Q (x ∷ xs) = Q x × All Q xs

module _ {A : Type 0} (Q : A → Type 0) where
  pub All-snoc : (xs : List A) (x : A) → All Q xs → Q x → All Q (xs ++ x ∷ [])
  All-snoc [] x h q = (q, tt)
  All-snoc (y ∷ ys) x h q = (h.0, All-snoc ys x h.1 q)

  -- The k-th of a list, and the others, are among its elements.
  pub All-pick :
      (k : ℕ) (xs : List A) (t : A × List A) → All Q xs → pick k xs ≡ some t → Q t.0 × All Q t.1
  All-pick k [] t h e = cc
  All-pick zero (x ∷ xs) t h e =
      subst (λ (u : A × List A). Q u.0 × All Q u.1) (some-injective _ _ e) h
  All-pick (suc k) (x ∷ xs) t h e = elim (Option-cases (pick k xs)) [
    | inl missing ↦ absurd (nothing (rw missing at e))
    | inr (u, found) ↦
        let (q, rest) = All-pick k xs u h.1 found in
        subst (λ (v : A × List A). Q v.0 × All Q v.1) (some-injective _ _ (rw found at e))
          (q, (h.0, rest))
  ]
    where
      nothing : none ≡ some t → ⊥
      nothing f = cc

-- It is one of them.
pub length-pick {ℓ} :
    {A : Type ℓ} (k : ℕ) (xs : List A) (t : A × List A)
    → pick k xs ≡ some t
    → length xs ≡ length t.1 + 1
length-pick k [] t e = cc
length-pick zero (x ∷ xs) t e = omega (arith, length_of e)
  where
    length_of : some (x, xs) ≡ some t → length xs ≡ length t.1
    length_of e = λ i. length (some-injective _ _ e i).1
length-pick {A} (suc k) (x ∷ xs) t e = elim (Option-cases (pick k xs)) [
  | inl missing ↦ absurd (nothing (rw missing at e))
  | inr (u, found) ↦
      omega (arith, length-pick k xs u found, longer u (some-injective _ _ (rw found at e)))
]
  where
    nothing : none ≡ some t → ⊥
    nothing f = cc

    longer : (u : A × List A) → (u.0, x ∷ u.1) ≡ t → suc (length u.1) ≡ length t.1
    longer u h = λ i. length (h i).1

pub All-map {ℓ κ μ} :
    {A : Type ℓ} {P : A → Type κ} {Q : A → Type μ} (xs : List A)
    → ((x : A) → P x → Q x)
    → All P xs
    → All Q xs
All-map [] f h = tt
All-map (x ∷ xs) f h = (f x h.0, All-map xs f h.1)

-- A value that may be replaced.
abbrev pub or_kept {ℓ} : {A : Type ℓ} → A → Option A → A
or_kept a none = a
or_kept a (some b) = b

-- A function changed at one number.
abbrev pub put {ℓ} : {A : Type ℓ} → ℕ → A → (ℕ → A) → ℕ → A
put i a f j = if j == i then a else f j
