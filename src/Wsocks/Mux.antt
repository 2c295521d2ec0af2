-- ===== src/Wsocks/Mux.antt =====
-- What both sides of src/bin.todo/wsocks.rs do to the pipes of a multiplexer.
use sosistab2_obfsws.Base.{
  ◌≤◌, ◌≡◌, refl, ap, Bool, true, List, [], ◌∷◌, arith, length, if◌then◌else◌,
}

module _ {ℓ} {A : Type ℓ} where
  -- `retain`: the pipes that still have an address.
  unfoldable pub retain : (A → Bool) → List A → List A
  retain alive [] = []
  retain alive (p ∷ ps) = let rest = retain alive ps in if alive p then p ∷ rest else rest

  pub length-retain : (alive : A → Bool) (ps : List A) → length (retain alive ps) ≤ length ps
  unfolding retain
  length-retain alive [] = omega arith
  length-retain alive (p ∷ ps) = ground (arith, length-retain alive ps)

  pub retain_all :
      (alive : A → Bool) (ps : List A) → ((p : A) → alive p ≡ true) → retain alive ps ≡ ps
  unfolding retain
  retain_all alive [] h = refl
  retain_all alive (p ∷ ps) h = rw (h p) (ap (◌∷◌ p) (retain_all alive ps h))
