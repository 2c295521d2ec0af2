-- ===== src/Wsocks/Client/Fronts/Own.antt =====
-- The tasks of the front ends of src/bin.todo/wsocks.rs, step by step: each goes on with the answer to its
-- own request.
use mathlib.Core.Path.{subst}
use mathlib.Core.Option.{some-injective}
use sosistab2_obfsws.Base.{
  ℕ, ◌≤◌, ◌≡◌, refl, ap, sym, ◌∙◌, Bool-cases, inl, inr, Option, none, some, List, [], ◌∷◌, arith,
}
use sosistab2_obfsws.Base.Choice.{All, All-snoc}
use sosistab2_obfsws.Io.{Result, err}
use sosistab2_obfsws.Channel.{Channel, try_recv-some, try_recv-none}
use sosistab2_obfsws.Wsocks.Protocol.{Protocol}
use sosistab2_obfsws.Wsocks.Request.{RequestError}
use sosistab2_obfsws.Wsocks.Client.Requests
use sosistab2_obfsws.Wsocks.Client.Requests.{Asking, sent, spawned, taken, finished}
use sosistab2_obfsws.Wsocks.Client.Requests.Answered.{
  IsSorted, sent-IsSorted, taken-IsSorted, step-IsSorted,
}
use sosistab2_obfsws.Wsocks.Client.Fronts.{
  Task, stops, wants, Asked, nothing, unsent, numbered, Fronts, Happening, arrives, spawns, ends,
  resumes, queued, arrived, tell, got, looks, happens, happen,
}
use sosistab2_obfsws.Wsocks.Client.Fronts.Shapes.{answer_of, outcome}
use sosistab2_obfsws.Wsocks.Client.Fronts.Places.{places}
use sosistab2_obfsws.Wsocks.Client.Fronts.Stands.{
  Stands, sent-Stands, sent-others, sent-later, spawned-Stands, spawned-later, finished-Stands,
  finished-later, taken-later, taken-others, view_of,
}
use sosistab2_obfsws.Wsocks.Client.Fronts.Received.{put-cases, received-some, received-none}

module _ {Conn Answer Out : Type 0} (task_of : Conn → Task Answer Out)
    (serve : Protocol × ℕ → Result RequestError Answer) where
  -- A task that has asked nothing ends as it does on its own whatever the answer is, one whose request
  -- was not sent as it does on its own with any error for an answer, and one that has asked as it does on
  -- its own with what the task of its request ends with.
  abbrev pub IsOwn : Asked × (Conn × Out) → Type 0
  IsOwn (nothing, (c, o)) =
      (answer : Protocol → Result RequestError Answer) → o ≡ outcome answer (task_of c)
  IsOwn (unsent, (c, o)) = (e : RequestError) → o ≡ outcome (λ req. err e) (task_of c)
  IsOwn (numbered i, (c, o)) = o ≡ outcome (λ req. serve (req, i)) (task_of c)

module _ {Conn Answer Out : Type 0} {Q : Channel (Protocol × ℕ)} {R : Channel Answer}
    (task_of : Conn → Task Answer Out) (serve : Protocol × ℕ → Result RequestError Answer) where
  pub record IsAlone (s : Fronts Conn Answer Out Q R) : Type 0 where
    pub sorted : IsSorted serve s.asking
    pub later : (i : ℕ) → s.asking.next ≤ i → places i s.asking ≡ 0
    pub stand :
        (i : ℕ) (t : Conn × Protocol × (Option Answer → Out))
        → s.waiting i ≡ some t
        → Stands serve i t.1 s.asking × (task_of t.0 ≡ wants t.1 t.2)
    pub own : All (IsOwn task_of serve) s.told

  queued-IsAlone :
      (c : Conn) (req : Protocol) (k : Option Answer → Out) (o : Option Q.Chan)
      (s : Fronts Conn Answer Out Q R)
      → IsAlone s
      → task_of c ≡ wants req k
      → Q.try_send s.asking.queue (req, s.asking.next) ≡ o
      → IsAlone (queued c req k o s)
  unfolding queued sent
  queued-IsAlone c req k none s h asks e = elim (Bool-cases (Q.view s.asking.queue).closed) [
    | inl shut ↦ rw shut (record {
      sorted = h.sorted;
      later = h.later;
      stand = h.stand;
      own =
          All-snoc (IsOwn task_of serve) s.told (unsent, (c, k none)) h.own
            (λ f. ap (outcome (λ r. err f)) (sym asks));
    })
    | inr full ↦ rw full h
  ]
  queued-IsAlone c req k (some queue) s h asks e = record {
    sorted = sent-IsSorted serve req (some queue) s.asking h.sorted e;
    later = sent-later serve req queue s.asking e h.later;
    stand = λ i t w. elim (put-cases i s.asking.next (some (c, req, k)) (some t) s.waiting w) [
      | inl (same, new) ↦
          subst
            (λ (u : Conn × Protocol × (Option Answer → Out)).
              Stands serve i u.1 (sent req (some queue) s.asking) × (task_of u.0 ≡ wants u.1 u.2))
            (some-injective _ _ new)
            (
              subst (λ j. Stands serve j req (sent req (some queue) s.asking)) (sym same)
                  (sent-Stands serve req queue s.asking e (h.later s.asking.next (omega arith))),
              asks,
            )
      | inr (differ, old) ↦
          let (stands, has_asked) = h.stand i t old in
          (sent-others serve req t.1 queue s.asking i e differ stands, has_asked)
    ];
    own = h.own;
  }

  -- A task that is told its answer.
  tell-IsAlone :
      (i : ℕ) (t : Conn × Protocol × (Option Answer → Out)) (a : Option Answer)
      (s : Fronts Conn Answer Out Q R)
      → IsAlone s
      → task_of t.0 ≡ wants t.1 t.2
      → answer_of (serve (t.1, i)) ≡ a
      → IsAlone (tell i t a s)
  tell-IsAlone i (c, req, k) a s h asks e = record {
    sorted = h.sorted;
    later = h.later;
    stand = λ j t w. elim (put-cases j i none (some t) s.waiting w) [
      | inl (same, removed) ↦ absurd (missing removed)
      | inr (differ, old) ↦ h.stand j t old
    ];
    own =
        All-snoc (IsOwn task_of serve) s.told (numbered i, (c, k a)) h.own
          (ap k (sym e) ∙ ap (outcome (λ r. serve (r, i))) (sym asks));
  }
    where
      missing : {u : Conn × Protocol × (Option Answer → Out)} → none ≡ some u → ⊥
      missing f = cc

  got-IsAlone :
      (i : ℕ) (t : Conn × Protocol × (Option Answer → Out)) (o : Option (Answer × R.Chan))
      (s : Fronts Conn Answer Out Q R)
      → IsAlone s
      → s.waiting i ≡ some t
      → R.try_recv (s.asking.resp i) ≡ o
      → IsAlone (got i t o s)
  unfolding got
  got-IsAlone i t none s h w e = elim (Bool-cases (R.view (s.asking.resp i)).closed) [
    | inl shut ↦ rw shut (
        let ((_, stands), asks) = h.stand i t w in
        tell-IsAlone i t none s h asks (
          received-none (serve (t.1, i)) (R.view (s.asking.resp i))
            (view_of serve i t.1 s.asking stands) (try_recv-none R (s.asking.resp i) e) shut))
    | inr unshut ↦ rw unshut h
  ]
  got-IsAlone i (c, req, k) (some (a, chan)) s h w e =
      let ((_, stands), asks) = h.stand i (c, req, k) w in
      let answered =
        received-some (serve (req, i)) (R.view (s.asking.resp i)) a _
          (view_of serve i req s.asking stands) (try_recv-some R (s.asking.resp i) e).0 in
      record {
        sorted = taken-IsSorted serve i (some (a, chan)) s.asking h.sorted e;
        later = taken-later serve i a chan s.asking h.later;
        stand = λ j t w'. elim (put-cases j i none (some t) s.waiting w') [
          | inl (same, removed) ↦ absurd (missing removed)
          | inr (differ, old) ↦
              let (stands', has_asked) = h.stand j t old in
              (taken-others serve i j a chan t.1 s.asking differ stands', has_asked)
        ];
        own =
            All-snoc (IsOwn task_of serve) s.told (numbered i, (c, k (some a))) h.own
              (ap k (sym answered) ∙ ap (outcome (λ r. serve (r, i))) (sym asks));
      }
    where
      missing : {u : Conn × Protocol × (Option Answer → Out)} → none ≡ some u → ⊥
      missing f = cc

  arrived-IsAlone :
      (c : Conn) (t : Task Answer Out) (s : Fronts Conn Answer Out Q R)
      → IsAlone s
      → task_of c ≡ t
      → IsAlone (arrived c t s)
  unfolding arrived
  arrived-IsAlone c (stops o) s h e = record {
    sorted = h.sorted;
    later = h.later;
    stand = h.stand;
    own =
        All-snoc (IsOwn task_of serve) s.told (nothing, (c, o)) h.own
          (λ answer. ap (outcome answer) (sym e));
  }
  arrived-IsAlone c (wants req k) s h e = queued-IsAlone c req k _ s h e refl

  looks-IsAlone :
      (i : ℕ) (o : Option (Conn × Protocol × (Option Answer → Out)))
      (s : Fronts Conn Answer Out Q R)
      → IsAlone s
      → s.waiting i ≡ o
      → IsAlone (looks i o s)
  unfolding looks
  looks-IsAlone i none s h w = h
  looks-IsAlone i (some t) s h w = got-IsAlone i t _ s h w refl

  happens-IsAlone :
      (e : Happening Conn) (s : Fronts Conn Answer Out Q R)
      → IsAlone s
      → IsAlone (happens task_of serve e s)
  unfolding happens Requests.step
  happens-IsAlone (arrives c) s h = arrived-IsAlone c _ s h refl
  happens-IsAlone spawns s h = record {
    sorted = step-IsSorted serve Requests.spawns s.asking h.sorted;
    later = spawned-later serve _ s.asking refl h.later;
    stand = λ i t w.
        let (stands, asked) = h.stand i t w in
        (spawned-Stands serve _ s.asking i t.1 refl stands, asked);
    own = h.own;
  }
  happens-IsAlone (ends k) s h = record {
    sorted = step-IsSorted serve (Requests.ends k) s.asking h.sorted;
    later = finished-later serve k _ s.asking refl h.later;
    stand = λ i t w.
        let (stands, asked) = h.stand i t w in
        (finished-Stands serve k _ s.asking i t.1 refl h.sorted.running stands, asked);
    own = h.own;
  }
  happens-IsAlone (resumes i) s h = looks-IsAlone i _ s h refl

  pub happen-IsAlone :
      (es : List (Happening Conn)) (s : Fronts Conn Answer Out Q R)
      → IsAlone s
      → IsAlone (happen task_of serve es s)
  unfolding happen
  happen-IsAlone [] s h = h
  happen-IsAlone (e ∷ es) s h =
      happen-IsAlone es (happens task_of serve e s) (happens-IsAlone e s h)
