-- ===== src/Wsocks/Client/Requests/Accounted.antt =====
-- Each request of src/bin.todo/wsocks.rs is in one place, whatever happens.
use mathlib.Core.Path.{subst}
use sosistab2_obfsws.Base.{
  ℕ, ◌≡◌, ◌≢◌, ◌⊎◌, refl, ap, sym, ◌∙◌, Bool-cases, inl, inr, Option, none, some, List, [], ◌∷◌,
  ◌++◌, arith, ◌==◌, ==→eq, eq→==, true, false,
}
use sosistab2_obfsws.Base.Choice.{put}
use sosistab2_obfsws.Io.{Result, ok, err}
use sosistab2_obfsws.Channel.{Channel, Queue, fresh, try_recv-some}
use sosistab2_obfsws.Wsocks.Protocol.{Protocol}
use sosistab2_obfsws.Wsocks.Request.{RequestError}
use sosistab2_obfsws.Wsocks.Client.Requests.{
  Asking, Event, asks, spawns, ends, takes, start, taken, step, run,
}
use sosistab2_obfsws.Wsocks.Client.Requests.Marks.{put-same, put-other}
use sosistab2_obfsws.Wsocks.Client.Requests.Answered.{IsSorted, step-IsSorted, run-IsSorted}
use sosistab2_obfsws.Wsocks.Client.Fronts.Places.{count, answers}
use sosistab2_obfsws.Wsocks.Client.Requests.Placed.{
  received_of, received_of-snoc, received_of-other, Placed, unused, pending, left, received,
  sent-Placed, spawned-Placed, finished-Placed,
}

module _ {Answer : Type 0} where
  holds_none :
      (R : Channel Answer) (c : R.Chan) (x : Answer) (rest : List Answer)
      → (R.view c).items ≡ []
      → (R.view c).items ≡ x ∷ rest
      → ⊥
  holds_none R c x rest e f = apart (sym e ∙ f)
    where
      apart : ◌≡◌ {A = List Answer} [] (x ∷ rest) → ⊥
      apart h = cc

  -- What is taken of the channel that a task has left.
  left-taken :
      (R : Channel Answer) (r : Result RequestError Answer) (c chan : R.Chan) (x : Answer)
      → R.view c ≡ answers r
      → R.try_recv c ≡ some (x, chan)
      → (r ≡ ok x) × (R.view chan ≡ record (fresh 1) { closed = true })
  left-taken R (err e) c chan x h got =
      absurd (holds_none R c x _ (ap (λ (q : Queue Answer). q.items) h) (try_recv-some R c got).0)
  left-taken R (ok b) c chan x h got =
      let (items, view) = try_recv-some R c got in
      let both = sym (ap (λ (q : Queue Answer). q.items) h) ∙ items in
      (
        ap ok (ap (head b) both),
        view
            ∙ ap (λ (q : Queue Answer). record q { items = (R.view chan).items }) h
            ∙ ap (λ (l : List Answer). record (fresh 1) { items = l; closed = true })
                (sym (ap tail both)),
      )
    where
      head : Answer → List Answer → Answer
      head d [] = d
      head d (y ∷ ys) = y

      tail : List Answer → List Answer
      tail [] = []
      tail (y ∷ ys) = ys

module _ {Answer : Type 0} {Q : Channel (Protocol × ℕ)} {R : Channel Answer}
    (serve : Protocol × ℕ → Result RequestError Answer) where
  taken-other :
      (i j : ℕ) (x : Answer) (chan : R.Chan) (a : Asking Answer Q R)
      → j ≢ i
      → Placed serve j a
      → Placed serve j (taken i (some (x, chan)) a)
  unfolding taken
  taken-other i j x chan a differ h = go h
    where
      view : R.view (put i chan a.resp j) ≡ R.view (a.resp j)
      view = ap R.view (put-other i j chan a.resp differ)

      kept : received_of j (a.received ++ (i, x) ∷ []) ≡ received_of j a.received
      kept = received_of-other i j x a.received differ

      go : Placed serve j a → Placed serve j (taken i (some (x, chan)) a)
      go (unused after f gone new nothing) = unused after f gone (view ∙ new) (kept ∙ nothing)
      go (pending r f once new nothing) = pending r f once (view ∙ new) (kept ∙ nothing)
      go (left r f gone was nothing) = left r f gone (view ∙ was) (kept ∙ nothing)
      go (received r y f gone empty served one_only) =
          received r y f gone (view ∙ empty) served (kept ∙ one_only)

  taken-own :
      (i : ℕ) (x : Answer) (chan : R.Chan) (a : Asking Answer Q R)
      → R.try_recv (a.resp i) ≡ some (x, chan)
      → Placed serve i a
      → Placed serve i (taken i (some (x, chan)) a)
  unfolding taken
  taken-own i x chan a e (unused after f gone new nothing) = absurd (
      holds_none R (a.resp i) x _ (ap (λ (q : Queue Answer). q.items) new)
        (try_recv-some R (a.resp i) e).0)
  taken-own i x chan a e (pending r f once new nothing) = absurd (
      holds_none R (a.resp i) x _ (ap (λ (q : Queue Answer). q.items) new)
        (try_recv-some R (a.resp i) e).0)
  taken-own i x chan a e (left r f gone was nothing) =
      let (served, empty) = left-taken R (serve (r, i)) (a.resp i) chan x was e in
      received r x f gone (ap R.view (put-same i chan a.resp) ∙ empty) served
        (received_of-snoc i x a.received ∙ ap (λ (l : List Answer). l ++ x ∷ []) nothing)
  taken-own i x chan a e (received r y f gone empty served one_only) = absurd (
      holds_none R (a.resp i) x _ (ap (λ (q : Queue Answer). q.items) empty)
        (try_recv-some R (a.resp i) e).0)

  taken-Placed :
      (i j : ℕ) (o : Option (Answer × R.Chan)) (a : Asking Answer Q R)
      → R.try_recv (a.resp i) ≡ o
      → Placed serve j a
      → Placed serve j (taken i o a)
  unfolding taken
  taken-Placed i j none a e h = h
  taken-Placed i j (some (x, chan)) a e h = go (Bool-cases (j == i))
    where
      go : (j == i ≡ true) ⊎ (j == i ≡ false) → Placed serve j (taken i (some (x, chan)) a)
      go (inl same) =
          let eq = ==→eq j i same in
          subst (λ n. Placed serve n (taken i (some (x, chan)) a)) (sym eq)
            (taken-own i x chan a e (subst (λ n. Placed serve n a) eq h))
      go (inr differ) = taken-other i j x chan a (λ same. apart (sym (eq→== j i same) ∙ differ)) h
        where
          apart : true ≡ false → ⊥
          apart f = cc

  step-Placed :
      (e : Event) (j : ℕ) (a : Asking Answer Q R)
      → IsSorted serve a
      → Placed serve j a
      → Placed serve j (step serve e a)
  unfolding step
  step-Placed (asks req) j a s h = sent-Placed serve req _ a j refl s h
  step-Placed spawns j a s h = spawned-Placed serve _ a j refl h
  step-Placed (ends k) j a s h = finished-Placed serve k _ a j refl s h
  step-Placed (takes i) j a s h = taken-Placed i j _ a refl h

  run-kept :
      (es : List Event) (j : ℕ) (a : Asking Answer Q R)
      → IsSorted serve a
      → Placed serve j a
      → Placed serve j (run serve es a)
  unfolding run
  run-kept [] j a s h = h
  run-kept (e ∷ es) j a s h =
      run-kept es j (step serve e a) (step-IsSorted serve e a s) (step-Placed e j a s h)

module _ {Answer : Type 0} (Q : Channel (Protocol × ℕ)) (R : Channel Answer)
    (serve : Protocol × ℕ → Result RequestError Answer) where
  -- From an empty channel, whatever the front ends ask, in whatever order the requests are taken, their
  -- tasks end and the front ends look for their answers, each number is in one of four places. It is not
  -- given yet, and there is nothing of it. Or its request waits or is served, at one place in all, and
  -- its answer's channel is new and nothing has been received. Or it is at no place any more, and its
  -- channel is closed and holds what its own task ended with, one answer or none, and nothing has been
  -- received. Or it is at no place, its channel is closed and empty, and its front end has received the
  -- answer that its own task ended with, once, and no other.
  pub run-Placed :
      (es : List Event) (queue : Q.Chan) (i : ℕ)
      → (Q.view queue).items ≡ []
      → Placed {R = R} serve i (run serve es (start {Q = Q} queue))
  unfolding start run
  run-Placed es queue i empty =
      run-kept serve es i (start queue) (run-IsSorted Q R serve [] queue empty)
        (unused (omega arith) refl (omega (arith, ap (count i) empty)) (R.view-bounded 1) refl)
