-- ===== src/Wsocks/Client/Requests/Answered.antt =====
-- Whose answers the front ends of src/bin.todo/wsocks.rs get.
use mathlib.Core.Path.{subst}
use sosistab2_obfsws.Base.{
  ℕ, ◌+◌, ◌≤◌, ◌≡◌, refl, ap, sym, ◌∙◌, Bool-cases, inl, inr, Option, none, some, List, [], ◌∷◌,
  arith, length, length-append, ◌==◌, ==→eq,
}
use sosistab2_obfsws.Base.Choice.{pick, put, All, All-snoc, All-pick, All-map, length-pick}
use sosistab2_obfsws.Io.{Result}
use sosistab2_obfsws.Channel.{Channel, Queue, try_send-some, try_recv-some}
use sosistab2_obfsws.Wsocks.Protocol.{Protocol}
use sosistab2_obfsws.Wsocks.Request.{RequestError}
use sosistab2_obfsws.Wsocks.Client.Requests.{
  Asking, Event, asks, spawns, ends, takes, answered, start, sent, spawned, taken, finished, step,
  run,
}
use sosistab2_obfsws.Wsocks.Client.Requests.Marks.{
  put-same, put-other, IsAsked, IsAnswer, kept-Asked, kept-Answer, answered-All,
}

module _ {Answer : Type 0} {Q : Channel (Protocol × ℕ)} {R : Channel Answer}
    (serve : Protocol × ℕ → Result RequestError Answer) where
  -- Every request that waits or is served is that of its number; every answer, in its channel or with
  -- the front end, is that of its number; and the counts of the requests add up.
  pub record IsSorted (s : Asking Answer Q R) : Type 0 where
    pub queued : All (IsAsked serve s.asked) (Q.view s.queue).items
    pub running : All (IsAsked serve s.asked) s.running
    pub waiting : (i : ℕ) → All (IsAnswer serve s.asked i) (R.view (s.resp i)).items
    pub received : All (λ (t : ℕ × Answer). IsAnswer serve s.asked t.0 t.1) s.received
    pub fresh : (i : ℕ) → s.next ≤ i → s.asked i ≡ none
    pub counted : length (Q.view s.queue).items + length s.running + s.ended ≡ s.next

  pub sent-IsSorted :
      (req : Protocol) (o : Option Q.Chan) (s : Asking Answer Q R)
      → IsSorted s
      → Q.try_send s.queue (req, s.next) ≡ o
      → IsSorted (sent req o s)
  unfolding sent
  sent-IsSorted req none s h e = h
  sent-IsSorted req (some queue) s h e =
      let new : s.asked s.next ≡ none = h.fresh s.next (omega arith) in
      let items =
        ap (λ (q : Queue (Protocol × ℕ)). q.items) (try_send-some Q s.queue (req, s.next) e).1 in
      let asked : ℕ → Option Protocol = put s.next (some req) s.asked in
      record {
        queued = subst (All (IsAsked serve asked)) (sym items) (
            All-snoc (IsAsked serve asked) (Q.view s.queue).items (req, s.next)
              (All-map _ (kept-Asked serve s.asked s.next new req) h.queued)
              (put-same s.next (some req) s.asked));
        running = All-map _ (kept-Asked serve s.asked s.next new req) h.running;
        waiting = λ i. elim (Bool-cases (i == s.next)) [
          | inl same ↦ rw same (
              subst (λ (q : Queue Answer). All (IsAnswer serve asked i) q.items)
                (sym (R.view-bounded 1)) tt)
          | inr differ ↦
              rw differ (All-map _ (kept-Answer serve s.asked s.next new req i) (h.waiting i))
        ];
        received =
            All-map _ (λ (t : ℕ × Answer). kept-Answer serve s.asked s.next new req t.0 t.1)
              h.received;
        fresh = λ i later.
            put-other s.next i (some req) s.asked (λ same. omega (arith, later, same))
            ∙ h.fresh i (omega (arith, later));
        counted = omega (
          arith,
          ap length items,
          length-append (Q.view s.queue).items ((req, s.next) ∷ []),
          h.counted,
        );
      }

  spawned-IsSorted :
      (o : Option ((Protocol × ℕ) × Q.Chan)) (s : Asking Answer Q R)
      → IsSorted s
      → Q.try_recv s.queue ≡ o
      → IsSorted (spawned o s)
  unfolding spawned
  spawned-IsSorted none s h e = h
  spawned-IsSorted (some (t, queue)) s h e =
      let items = (try_recv-some Q s.queue e).0 in
      let both = subst (All (IsAsked serve s.asked)) items h.queued in
      record {
        queued = both.1;
        running = All-snoc (IsAsked serve s.asked) s.running t h.running both.0;
        waiting = h.waiting;
        received = h.received;
        fresh = h.fresh;
        counted = omega (arith, ap length items, length-append s.running (t ∷ []), h.counted);
      }

  finished-IsSorted :
      (k : ℕ) (o : Option ((Protocol × ℕ) × List (Protocol × ℕ))) (s : Asking Answer Q R)
      → IsSorted s
      → pick k s.running ≡ o
      → IsSorted (finished serve o s)
  unfolding finished
  finished-IsSorted k none s h e = h
  finished-IsSorted k (some (t, rest)) s h e =
      let (of_t, others) = All-pick (IsAsked serve s.asked) k s.running (t, rest) h.running e in
      record {
        queued = h.queued;
        running = others;
        waiting = λ i. elim (Bool-cases (i == t.1)) [
          | inl same ↦ rw same (
              subst
                (λ j.
                  All (IsAnswer serve s.asked j) (R.view (answered R (serve t) (s.resp t.1))).items)
                (sym (==→eq i t.1 same))
                (answered-All R serve s.asked t (serve t) (s.resp t.1) of_t refl (h.waiting t.1)))
          | inr differ ↦ rw differ (h.waiting i)
        ];
        received = h.received;
        fresh = h.fresh;
        counted = omega (arith, length-pick k s.running (t, rest) e, h.counted);
      }

  pub taken-IsSorted :
      (i : ℕ) (o : Option (Answer × R.Chan)) (s : Asking Answer Q R)
      → IsSorted s
      → R.try_recv (s.resp i) ≡ o
      → IsSorted (taken i o s)
  unfolding taken
  taken-IsSorted i none s h e = h
  taken-IsSorted i (some (a, chan)) s h e =
      let both =
        subst (All (IsAnswer serve s.asked i)) (try_recv-some R (s.resp i) e).0 (h.waiting i) in
      record {
        queued = h.queued;
        running = h.running;
        waiting = λ j. elim (Bool-cases (j == i)) [
          | inl same ↦ rw same (
              subst (λ n. All (IsAnswer serve s.asked n) (R.view chan).items) (sym (==→eq j i same))
                both.1)
          | inr differ ↦ rw differ (h.waiting j)
        ];
        received =
            All-snoc (λ (t : ℕ × Answer). IsAnswer serve s.asked t.0 t.1) s.received (i, a)
              h.received both.0;
        fresh = h.fresh;
        counted = h.counted;
      }

  pub step-IsSorted : (e : Event) (s : Asking Answer Q R) → IsSorted s → IsSorted (step serve e s)
  unfolding step
  step-IsSorted (asks req) s h = sent-IsSorted req _ s h refl
  step-IsSorted spawns s h = spawned-IsSorted _ s h refl
  step-IsSorted (ends k) s h = finished-IsSorted k _ s h refl
  step-IsSorted (takes i) s h = taken-IsSorted i _ s h refl

  run-kept : (es : List Event) (s : Asking Answer Q R) → IsSorted s → IsSorted (run serve es s)
  unfolding run
  run-kept [] s h = h
  run-kept (e ∷ es) s h = run-kept es (step serve e s) (step-IsSorted e s h)

module _ {Answer : Type 0} (Q : Channel (Protocol × ℕ)) (R : Channel Answer)
    (serve : Protocol × ℕ → Result RequestError Answer) where
  -- Whatever the front ends ask, in whatever order the requests are taken, their tasks end and the
  -- front ends look for their answers: every answer that a front end has got, or that waits for it, is
  -- what the task of its own request has ended with; and as many requests as have been sent wait in the
  -- channel, are served, or have been served.
  pub run-IsSorted :
      (es : List Event) (queue : Q.Chan)
      → (Q.view queue).items ≡ []
      → IsSorted {R = R} serve (run serve es (start {Q = Q} queue))
  unfolding start
  run-IsSorted es queue empty = run-kept serve es (start queue) (record {
    queued = subst (All (IsAsked serve (λ i. none))) (sym empty) tt;
    running = tt;
    waiting = λ i.
        subst (λ (q : Queue Answer). All (IsAnswer serve (λ i. none) i) q.items)
          (sym (R.view-bounded 1)) tt;
    received = tt;
    fresh = λ i later. refl;
    counted = omega (arith, ap length empty);
  })
