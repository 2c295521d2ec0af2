-- ===== src/Wsocks/Client/Fronts/Places.antt =====
-- How many requests of src/bin.todo/wsocks.rs have a number, and what is left for an answer.
use mathlib.Core.Option.{some-injective}
use sosistab2_obfsws.Base.{
  ℕ, zero, suc, ◌+◌, ◌≡◌, ap, sym, ◌∙◌, Option-cases, inl, inr, none, some, List, [], ◌∷◌, ◌++◌,
  arith, ◌==◌, true, false, if◌then◌else◌,
}
use sosistab2_obfsws.Base.Choice.{pick}
use sosistab2_obfsws.Io.{Result, ok, err}
use sosistab2_obfsws.Channel.{
  Channel, Queue, fresh, accepts, try_send-some, try_send-none, try_recv-some,
}
use sosistab2_obfsws.Wsocks.Protocol.{Protocol}
use sosistab2_obfsws.Wsocks.Request.{RequestError}
use sosistab2_obfsws.Wsocks.Client.Requests.{Asking, answered, sent, spawned, finished}

-- Whether a request has a number, and how many have it.
abbrev pub one : ℕ → Protocol × ℕ → ℕ
one i t = if t.1 == i then 1 else 0

abbrev pub count : ℕ → List (Protocol × ℕ) → ℕ
count i [] = 0
count i (t ∷ ts) = one i t + count i ts

pub one-same : (i : ℕ) (t : Protocol × ℕ) → t.1 == i ≡ true → one i t ≡ 1
one-same i t e = rw e

pub one-other : (i : ℕ) (t : Protocol × ℕ) → t.1 == i ≡ false → one i t ≡ 0
one-other i t e = rw e

count-snoc :
    (i : ℕ) (ts : List (Protocol × ℕ)) (t : Protocol × ℕ)
    → count i (ts ++ t ∷ []) ≡ count i ts + one i t
count-snoc i [] t = omega arith
count-snoc i (u ∷ ts) t = omega (arith, count-snoc i ts t)

count-pick :
    (i k : ℕ) (ts : List (Protocol × ℕ)) (u : (Protocol × ℕ) × List (Protocol × ℕ))
    → pick k ts ≡ some u
    → count i ts ≡ one i u.0 + count i u.1
count-pick i k [] u e = cc
count-pick i zero (t ∷ ts) u e =
    ap (λ (v : (Protocol × ℕ) × List (Protocol × ℕ)). one i v.0 + count i v.1)
      (some-injective _ _ e)
count-pick i (suc k) (t ∷ ts) u e = elim (Option-cases (pick k ts)) [
  | inl missing ↦ absurd (nothing (rw missing at e))
  | inr (v, found) ↦
      ap (λ n. one i t + n) (count-pick i k ts v found)
      ∙ swap (one i t) (one i v.0) (count i v.1)
      ∙ ap (λ (v : (Protocol × ℕ) × List (Protocol × ℕ)). one i v.0 + count i v.1)
          (some-injective _ _ (rw found at e))
]
  where
    nothing : none ≡ some u → ⊥
    nothing f = cc

    swap : (a b c : ℕ) → a + (b + c) ≡ b + (a + c)
    swap a b c = omega arith

module _ {Answer : Type 0} where
  -- The channel that a task leaves for its answer.
  abbrev pub answers : Result RequestError Answer → Queue Answer
  answers (ok a) = record (fresh 1) { items = a ∷ []; closed = true }
  answers (err e) = record (fresh 1) { closed = true }

  pub answered_lem :
      (R : Channel Answer) (r : Result RequestError Answer) (chan : R.Chan)
      → R.view chan ≡ fresh 1
      → R.view (answered R r chan) ≡ answers r
  unfolding answered
  answered_lem R (err e) chan h =
      R.view-close chan ∙ ap (λ (q : Queue Answer). record q { closed = true }) h
  answered_lem R (ok a) chan h = elim (Option-cases (R.try_send chan a)) [
    | inl refused ↦ absurd (apart (sym (ap accepts h) ∙ try_send-none R chan a refused))
    | inr (chan', went) ↦
        rw (answered, went)
          (R.view-close chan'
            ∙ ap (λ (q : Queue Answer). record q { closed = true })
                ((try_send-some R chan a went).1
                  ∙ ap (λ (q : Queue Answer). record q { items = q.items ++ a ∷ [] }) h))
  ]
    where
      apart : true ≡ false → ⊥
      apart e = cc

module _ {Answer : Type 0} {Q : Channel (Protocol × ℕ)} {R : Channel Answer} where
  -- The requests of a number that wait or are served.
  abbrev pub places : ℕ → Asking Answer Q R → ℕ
  places i a = count i (Q.view a.queue).items + count i a.running

  pub sent-places :
      (req : Protocol) (queue : Q.Chan) (a : Asking Answer Q R) (i : ℕ)
      → Q.try_send a.queue (req, a.next) ≡ some queue
      → places i (sent req (some queue) a) ≡ places i a + one i (req, a.next)
  unfolding sent
  sent-places req queue a i e = omega (
    arith,
    ap (λ (q : Queue (Protocol × ℕ)). count i q.items) (try_send-some Q a.queue (req, a.next) e).1,
    count-snoc i (Q.view a.queue).items (req, a.next),
  )

  pub spawned-places :
      (t : Protocol × ℕ) (queue : Q.Chan) (a : Asking Answer Q R) (i : ℕ)
      → Q.try_recv a.queue ≡ some (t, queue)
      → places i (spawned (some (t, queue)) a) ≡ places i a
  unfolding spawned
  spawned-places t queue a i e =
      omega (arith, ap (count i) (try_recv-some Q a.queue e).0, count-snoc i a.running t)

module _ {Answer : Type 0} {Q : Channel (Protocol × ℕ)} {R : Channel Answer}
    (serve : Protocol × ℕ → Result RequestError Answer) where
  pub finished-places :
      (k i : ℕ) (u : (Protocol × ℕ) × List (Protocol × ℕ)) (a : Asking Answer Q R)
      → pick k a.running ≡ some u
      → places i a ≡ one i u.0 + places i (finished serve (some u) a)
  unfolding finished
  finished-places k i u a e = omega (arith, count-pick i k a.running u e)
