-- ===== src/Wsocks/Client/Requests/Marks.antt =====
-- The requests of src/bin.todo/wsocks.rs by their numbers, and their answers.
use mathlib.Core.Path.{subst}
use sosistab2_obfsws.Base.{
  ℕ, ◌≡◌, ◌≢◌, refl, ap, sym, ◌∙◌, Option-cases, inl, inr, Option, none, some, eq→==, ne→==,
}
use sosistab2_obfsws.Base.Choice.{put, or_kept, All, All-snoc}
use sosistab2_obfsws.Io.{Result, ok, err}
use sosistab2_obfsws.Channel.{Channel, Queue, try_send-some}
use sosistab2_obfsws.Wsocks.Protocol.{Protocol}
use sosistab2_obfsws.Wsocks.Request.{RequestError}
use sosistab2_obfsws.Wsocks.Client.Requests.{answered}

module _ {ℓ} {A : Type ℓ} where
  pub put-same : (i : ℕ) (a : A) (f : ℕ → A) → put i a f i ≡ a
  put-same i a f = rw (eq→== i i refl)

  pub put-other : (i j : ℕ) (a : A) (f : ℕ → A) → j ≢ i → put i a f j ≡ f j
  put-other i j a f h = rw (ne→== j i h)

module _ {Answer : Type 0} (serve : Protocol × ℕ → Result RequestError Answer) where
  -- A request is that of its number.
  abbrev pub IsAsked : (ℕ → Option Protocol) → Protocol × ℕ → Type 0
  IsAsked asked t = asked t.1 ≡ some t.0

  -- An answer is what the task of the request of that number has ended with.
  abbrev pub IsAnswer : (ℕ → Option Protocol) → ℕ → Answer → Type 0
  IsAnswer asked i a = (req : Protocol) × (asked i ≡ some req) × (serve (req, i) ≡ ok a)

  -- A request with a new number changes none of this.
  module _ (asked : ℕ → Option Protocol) (next : ℕ) (new : asked next ≡ none) (req : Protocol) where
    kept : (j : ℕ) (r : Protocol) → asked j ≡ some r → put next (some req) asked j ≡ some r
    kept j r e = put-other next j (some req) asked (λ same. apart (sym e ∙ ap asked same ∙ new)) ∙ e
      where
        apart : some r ≡ none → ⊥
        apart h = cc

    pub kept-Asked : (t : Protocol × ℕ) → IsAsked asked t → IsAsked (put next (some req) asked) t
    kept-Asked t e = kept t.1 t.0 e

    pub kept-Answer :
        (i : ℕ) (a : Answer) → IsAnswer asked i a → IsAnswer (put next (some req) asked) i a
    kept-Answer i a (r, e, h) = (r, kept i r e, h)

module _ {Answer : Type 0} (R : Channel Answer)
    (serve : Protocol × ℕ → Result RequestError Answer) where
  pub answered-All :
      (asked : ℕ → Option Protocol) (t : Protocol × ℕ) (r : Result RequestError Answer)
      (chan : R.Chan)
      → IsAsked serve asked t
      → serve t ≡ r
      → All (IsAnswer serve asked t.1) (R.view chan).items
      → All (IsAnswer serve asked t.1) (R.view (answered R r chan)).items
  unfolding answered
  answered-All asked t (err e) chan is_asked ends_so h =
      subst (λ (q : Queue Answer). All (IsAnswer serve asked t.1) q.items) (sym (R.view-close chan))
        h
  answered-All asked t (ok a) chan is_asked ends_so h = elim (Option-cases (R.try_send chan a)) [
    | inl refused ↦
        subst (λ (q : Queue Answer). All (IsAnswer serve asked t.1) q.items)
          (sym (R.view-close (or_kept chan (R.try_send chan a)))) (rw refused h)
    | inr (chan', went) ↦
        subst (λ (q : Queue Answer). All (IsAnswer serve asked t.1) q.items)
          (sym (R.view-close (or_kept chan (R.try_send chan a))))
          (rw went (
            subst (λ (q : Queue Answer). All (IsAnswer serve asked t.1) q.items)
              (sym (try_send-some R chan a went).1)
              (All-snoc (IsAnswer serve asked t.1) (R.view chan).items a h
                (t.0, is_asked, ends_so))))
  ]
