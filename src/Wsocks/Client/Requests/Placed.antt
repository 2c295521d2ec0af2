-- ===== src/Wsocks/Client/Requests/Placed.antt =====
-- Where each request of src/bin.todo/wsocks.rs and its answer are, by the request's number.
use mathlib.Core.Path.{subst}
use sosistab2_obfsws.Base.{
  ℕ, ◌≤◌, ◌≡◌, ◌≢◌, ◌⊎◌, refl, ap, sym, ◌∙◌, Bool-cases, inl, inr, Option, none, some, List, [],
  ◌∷◌, ◌++◌, arith, ◌==◌, ==→eq, eq→==, ne→==, true, false, if◌then◌else◌,
}
use sosistab2_obfsws.Base.Choice.{pick}
use sosistab2_obfsws.Io.{Result, ok}
use sosistab2_obfsws.Channel.{Channel, fresh}
use sosistab2_obfsws.Wsocks.Protocol.{Protocol}
use sosistab2_obfsws.Wsocks.Request.{RequestError}
use sosistab2_obfsws.Wsocks.Client.Requests.{Asking, answered, sent, spawned, finished}
use sosistab2_obfsws.Wsocks.Client.Requests.Marks.{put-other}
use sosistab2_obfsws.Wsocks.Client.Requests.Answered.{IsSorted}
use sosistab2_obfsws.Wsocks.Client.Fronts.Places.{
  answers, places, one-other, sent-places, spawned-places, finished-places, one-same,
}
use sosistab2_obfsws.Wsocks.Client.Fronts.Stands.{Stands, sent-Stands, sent-others, finished-Stands}

module _ {Answer : Type 0} where
  -- The answers that front ends have received for a number.
  abbrev pub received_of : ℕ → List (ℕ × Answer) → List Answer
  received_of i [] = []
  received_of i (t ∷ ts) = let rest = received_of i ts in if t.0 == i then t.1 ∷ rest else rest

  pub received_of-snoc :
      (i : ℕ) (a : Answer) (ts : List (ℕ × Answer))
      → received_of i (ts ++ (i, a) ∷ []) ≡ received_of i ts ++ a ∷ []
  received_of-snoc i a [] = rw (eq→== i i refl) refl
  received_of-snoc i a (t ∷ ts) = elim (Bool-cases (t.0 == i)) [
    | inl same ↦ rw same (ap (◌∷◌ t.1) (received_of-snoc i a ts))
    | inr differ ↦ rw differ (received_of-snoc i a ts)
  ]

  pub received_of-other :
      (i j : ℕ) (a : Answer) (ts : List (ℕ × Answer))
      → j ≢ i
      → received_of j (ts ++ (i, a) ∷ []) ≡ received_of j ts
  received_of-other i j a [] differ = rw (ne→== i j (λ e. differ (sym e))) refl
  received_of-other i j a (t ∷ ts) differ = elim (Bool-cases (t.0 == j)) [
    | inl same ↦ rw same (ap (◌∷◌ t.1) (received_of-other i j a ts differ))
    | inr apart ↦ rw apart (received_of-other i j a ts differ)
  ]

module _ {Answer : Type 0} {Q : Channel (Protocol × ℕ)} {R : Channel Answer}
    (serve : Protocol × ℕ → Result RequestError Answer) where
  -- Where the request of a number is. Either the number is not given yet, and there is nothing of it; or
  -- the request waits or is served, once, and nothing has been answered; or its task has ended, and what
  -- that gave, an answer or none, is all that waits for the front end, which has received nothing; or its
  -- front end has received its answer, that one alone, and the channel is empty and closed.
  pub data Placed (i : ℕ) (a : Asking Answer Q R) : Type 0 where
    unused :
        a.next ≤ i
        → a.asked i ≡ none
        → places i a ≡ 0
        → R.view (a.resp i) ≡ fresh 1
        → received_of i a.received ≡ []
        → Placed i a
    pending :
        (req : Protocol)
        → a.asked i ≡ some req
        → places i a ≡ 1
        → R.view (a.resp i) ≡ fresh 1
        → received_of i a.received ≡ []
        → Placed i a
    left :
        (req : Protocol)
        → a.asked i ≡ some req
        → places i a ≡ 0
        → R.view (a.resp i) ≡ answers (serve (req, i))
        → received_of i a.received ≡ []
        → Placed i a
    received :
        (req : Protocol) (x : Answer)
        → a.asked i ≡ some req
        → places i a ≡ 0
        → R.view (a.resp i) ≡ record (fresh 1) { closed = true }
        → serve (req, i) ≡ ok x
        → received_of i a.received ≡ x ∷ []
        → Placed i a

  stands-Placed :
      (i : ℕ) (req : Protocol) (a : Asking Answer Q R)
      → Stands serve i req a
      → received_of i a.received ≡ []
      → Placed i a
  stands-Placed i req a (asked, inl (once, new)) nothing = pending req asked once new nothing
  stands-Placed i req a (asked, inr (gone, kept)) nothing = left req asked gone kept nothing

  pub sent-Placed :
      (req : Protocol) (o : Option Q.Chan) (a : Asking Answer Q R) (i : ℕ)
      → Q.try_send a.queue (req, a.next) ≡ o
      → IsSorted serve a
      → Placed i a
      → Placed i (sent req o a)
  unfolding sent
  sent-Placed req none a i e s h = h
  sent-Placed req (some queue) a i e s h = go h (Bool-cases (i == a.next))
    where
      known : {r : Protocol} → a.asked i ≡ some r → i == a.next ≡ true → ⊥
      known f same = apart (sym f ∙ s.fresh i (omega (arith, ==→eq i a.next same)))
        where
          apart : {r : Protocol} → some r ≡ none → ⊥
          apart f = cc

      away : i == a.next ≡ false → i ≢ a.next
      away differ same = apart (sym (eq→== i a.next same) ∙ differ)
        where
          apart : true ≡ false → ⊥
          apart f = cc

      go :
          Placed i a
          → (i == a.next ≡ true) ⊎ (i == a.next ≡ false)
          → Placed i (sent req (some queue) a)
      go (unused after f gone new nothing) (inl same) =
          let eq = ==→eq i a.next same in
          stands-Placed i req (sent req (some queue) a)
            (subst (λ j. Stands serve j req (sent req (some queue) a)) (sym eq)
              (sent-Stands serve req queue a e (ap (λ j. places j a) (sym eq) ∙ gone)))
            nothing
      go (unused after f gone new nothing) (inr differ) =
          unused (omega (arith, after, away differ))
            (put-other a.next i (some req) a.asked (away differ) ∙ f)
            (sent-places req queue a i e
              ∙ omega (
                arith,
                gone,
                one-other i (req, a.next) (ne→== a.next i (λ same. away differ (sym same))),
              ))
            (ap R.view (put-other a.next i (R.bounded 1) a.resp (away differ)) ∙ new) nothing
      go (pending r f once new nothing) (inl same) = absurd (known f same)
      go (pending r f once new nothing) (inr differ) =
          stands-Placed i r (sent req (some queue) a)
            (sent-others serve req r queue a i e (away differ) (f, inl (once, new))) nothing
      go (left r f gone kept nothing) (inl same) = absurd (known f same)
      go (left r f gone kept nothing) (inr differ) =
          stands-Placed i r (sent req (some queue) a)
            (sent-others serve req r queue a i e (away differ) (f, inr (gone, kept))) nothing
      go (received r x f gone empty served one_only) (inl same) = absurd (known f same)
      go (received r x f gone empty served one_only) (inr differ) =
          received r x (put-other a.next i (some req) a.asked (away differ) ∙ f)
            (sent-places req queue a i e
              ∙ omega (
                arith,
                gone,
                one-other i (req, a.next) (ne→== a.next i (λ same. away differ (sym same))),
              ))
            (ap R.view (put-other a.next i (R.bounded 1) a.resp (away differ)) ∙ empty) served
            one_only

  pub spawned-Placed :
      (o : Option ((Protocol × ℕ) × Q.Chan)) (a : Asking Answer Q R) (i : ℕ)
      → Q.try_recv a.queue ≡ o
      → Placed i a
      → Placed i (spawned o a)
  unfolding spawned
  spawned-Placed none a i e h = h
  spawned-Placed (some (t, queue)) a i e (unused after f gone new nothing) =
      unused after f (spawned-places t queue a i e ∙ gone) new nothing
  spawned-Placed (some (t, queue)) a i e (pending r f once new nothing) =
      pending r f (spawned-places t queue a i e ∙ once) new nothing
  spawned-Placed (some (t, queue)) a i e (left r f gone kept nothing) =
      left r f (spawned-places t queue a i e ∙ gone) kept nothing
  spawned-Placed (some (t, queue)) a i e (received r x f gone empty served one_only) =
      received r x f (spawned-places t queue a i e ∙ gone) empty served one_only

  -- The task of a number that no request has does not end.
  finished-elsewhere :
      (k i : ℕ) (t : Protocol × ℕ) (rest : List (Protocol × ℕ)) (a : Asking Answer Q R)
      → pick k a.running ≡ some (t, rest)
      → places i a ≡ 0
      → (i ≢ t.1) × (places i (finished serve (some (t, rest)) a) ≡ 0)
  finished-elsewhere k i t rest a e gone =
      let moved = finished-places serve k i (t, rest) a e in
      (
        λ same. omega (arith, moved, gone, one-same i t (eq→== t.1 i (sym same))),
        omega (arith, moved, gone),
      )

  pub finished-Placed :
      (k : ℕ) (o : Option ((Protocol × ℕ) × List (Protocol × ℕ))) (a : Asking Answer Q R) (i : ℕ)
      → pick k a.running ≡ o
      → IsSorted serve a
      → Placed i a
      → Placed i (finished serve o a)
  unfolding finished
  finished-Placed k none a i e s h = h
  finished-Placed k (some (t, rest)) a i e s (unused after f gone new nothing) =
      let (differ, stays) = finished-elsewhere k i t rest a e gone in
      unused after f stays
        (ap R.view (put-other t.1 i (answered R (serve t) (a.resp t.1)) a.resp differ) ∙ new)
        nothing
  finished-Placed k (some (t, rest)) a i e s (pending r f once new nothing) =
      stands-Placed i r (finished serve (some (t, rest)) a)
        (finished-Stands serve k (some (t, rest)) a i r e s.running (f, inl (once, new))) nothing
  finished-Placed k (some (t, rest)) a i e s (left r f gone kept nothing) =
      stands-Placed i r (finished serve (some (t, rest)) a)
        (finished-Stands serve k (some (t, rest)) a i r e s.running (f, inr (gone, kept))) nothing
  finished-Placed k (some (t, rest)) a i e s (received r x f gone empty served one_only) =
      let (differ, stays) = finished-elsewhere k i t rest a e gone in
      received r x f stays
        (ap R.view (put-other t.1 i (answered R (serve t) (a.resp t.1)) a.resp differ) ∙ empty)
        served one_only
