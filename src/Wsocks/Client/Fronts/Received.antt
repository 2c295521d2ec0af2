-- ===== src/Wsocks/Client/Fronts/Received.antt =====
-- What a front end of src/bin.todo/wsocks.rs receives of its answer's channel.
use sosistab2_obfsws.Base.{
  ℕ, ◌≡◌, ◌≢◌, ◌⊎◌, refl, ap, sym, ◌∙◌, Bool-cases, inl, inr, Option, none, some, List, [], ◌∷◌,
  ◌==◌, true, false, ==→eq, eq→==,
}
use sosistab2_obfsws.Base.Choice.{put}
use sosistab2_obfsws.Io.{Result, ok, err}
use sosistab2_obfsws.Channel.{Queue, fresh}
use sosistab2_obfsws.Wsocks.Request.{RequestError}
use sosistab2_obfsws.Wsocks.Client.Fronts.Shapes.{answer_of}
use sosistab2_obfsws.Wsocks.Client.Fronts.Places.{answers}

pub put-cases {ℓ} :
    {A : Type ℓ} (i j : ℕ) (x y : A) (f : ℕ → A)
    → put j x f i ≡ y
    → ((i ≡ j) × (x ≡ y)) ⊎ ((i ≢ j) × (f i ≡ y))
put-cases i j x y f e = elim (Bool-cases (i == j)) [
  | inl same ↦ inl (==→eq i j same, rw same at e)
  | inr differ ↦ inr (λ eq. absurd (both (sym (eq→== i j eq) ∙ differ)), rw differ at e)
]
  where
    both : true ≡ false → ⊥
    both h = cc

module _ {Answer : Type 0} where
  -- What is received of a channel that is new or was left by a task.
  pub received-some :
      (r : Result RequestError Answer) (q : Queue Answer) (a : Answer) (rest : List Answer)
      → (q ≡ fresh 1) ⊎ (q ≡ answers r)
      → q.items ≡ a ∷ rest
      → answer_of r ≡ some a
  received-some r q a rest (inl new) e =
      absurd (nothing (sym (ap (λ (p : Queue Answer). p.items) new) ∙ e))
    where
      nothing : ◌≡◌ {A = List Answer} [] (a ∷ rest) → ⊥
      nothing h = cc
  received-some (ok b) q a rest (inr left) e =
      ap first (sym (ap (λ (p : Queue Answer). p.items) left) ∙ e)
    where
      first : List Answer → Option Answer
      first [] = none
      first (x ∷ xs) = some x
  received-some (err k) q a rest (inr left) e =
      absurd (nothing (sym (ap (λ (p : Queue Answer). p.items) left) ∙ e))
    where
      nothing : ◌≡◌ {A = List Answer} [] (a ∷ rest) → ⊥
      nothing h = cc

  pub received-none :
      (r : Result RequestError Answer) (q : Queue Answer)
      → (q ≡ fresh 1) ⊎ (q ≡ answers r)
      → q.items ≡ []
      → q.closed ≡ true
      → answer_of r ≡ none
  received-none r q (inl new) e shut =
      absurd (apart (sym (ap (λ (p : Queue Answer). p.closed) new) ∙ shut))
    where
      apart : false ≡ true → ⊥
      apart h = cc
  received-none (ok b) q (inr left) e shut =
      absurd (nothing (sym (ap (λ (p : Queue Answer). p.items) left) ∙ e))
    where
      nothing : b ∷ [] ≡ [] → ⊥
      nothing h = cc
  received-none (err k) q (inr left) e shut = refl
