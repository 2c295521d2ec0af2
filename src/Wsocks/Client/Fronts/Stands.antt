-- ===== src/Wsocks/Client/Fronts/Stands.antt =====
-- Where each request of src/bin.todo/wsocks.rs stands: in the channel, with its task, or answered.
use mathlib.Core.Option.{some-injective}
use sosistab2_obfsws.Base.{
  ℕ, ◌+◌, ◌≤◌, ◌≡◌, ◌≢◌, ◌⊎◌, refl, ap, ap₂, sym, ◌∙◌, Bool-cases, inl, inr, Option, none, some,
  List, arith, ◌==◌, true, false, ==→eq, eq→==, ne→==,
}
use sosistab2_obfsws.Base.Choice.{pick, put, All, All-pick}
use sosistab2_obfsws.Io.{Result}
use sosistab2_obfsws.Channel.{Channel, fresh}
use sosistab2_obfsws.Wsocks.Protocol.{Protocol}
use sosistab2_obfsws.Wsocks.Request.{RequestError}
use sosistab2_obfsws.Wsocks.Client.Requests.{Asking, answered, sent, spawned, taken, finished}
use sosistab2_obfsws.Wsocks.Client.Requests.Marks.{put-same, put-other, IsAsked}
use sosistab2_obfsws.Wsocks.Client.Fronts.Places.{
  one-same, one-other, answers, answered_lem, places, sent-places, spawned-places, finished-places,
}

module _ {Answer : Type 0} {Q : Channel (Protocol × ℕ)} {R : Channel Answer}
    (serve : Protocol × ℕ → Result RequestError Answer) where
  -- A request either waits or is served, once, and its answer's channel is new; or it does neither,
  -- and this channel has what its task has ended with.
  abbrev pub Stands : ℕ → Protocol → Asking Answer Q R → Type 0
  Stands i req a =
      (a.asked i ≡ some req)
      × (((places i a ≡ 1) × (R.view (a.resp i) ≡ fresh 1))
          ⊎ ((places i a ≡ 0) × (R.view (a.resp i) ≡ answers (serve (req, i)))))

  -- A new request stands, and the others as they did.
  pub sent-Stands :
      (req : Protocol) (queue : Q.Chan) (a : Asking Answer Q R)
      → Q.try_send a.queue (req, a.next) ≡ some queue
      → places a.next a ≡ 0
      → Stands a.next req (sent req (some queue) a)
  unfolding sent
  sent-Stands req queue a e new = (
    put-same a.next (some req) a.asked,
    inl (
      sent-places req queue a a.next e
          ∙ omega (arith, new, one-same a.next (req, a.next) (eq→== a.next a.next refl)),
      ap R.view (put-same a.next (R.bounded 1) a.resp) ∙ R.view-bounded 1,
    ),
  )

  pub sent-others :
      (req r : Protocol) (queue : Q.Chan) (a : Asking Answer Q R) (i : ℕ)
      → Q.try_send a.queue (req, a.next) ≡ some queue
      → i ≢ a.next
      → Stands i r a
      → Stands i r (sent req (some queue) a)
  unfolding sent
  sent-others req r queue a i e differ (asked, h) =
      let same : places i (sent req (some queue) a) ≡ places i a =
        sent-places req queue a i e
        ∙ omega (arith, one-other i (req, a.next) (ne→== a.next i (λ h. differ (sym h)))) in
      let chan = ap R.view (put-other a.next i (R.bounded 1) a.resp differ) in
      (
        put-other a.next i (some req) a.asked differ ∙ asked,
        elim h [
          | inl (once, new) ↦ inl (same ∙ once, chan ∙ new)
          | inr (none_left, left) ↦ inr (same ∙ none_left, chan ∙ left)
        ],
      )

  pub spawned-Stands :
      (o : Option ((Protocol × ℕ) × Q.Chan)) (a : Asking Answer Q R) (i : ℕ) (r : Protocol)
      → Q.try_recv a.queue ≡ o
      → Stands i r a
      → Stands i r (spawned o a)
  unfolding spawned
  spawned-Stands none a i r e h = h
  spawned-Stands (some (t, queue)) a i r e (asked, h) =
      let same = spawned-places t queue a i e in
      (
        asked,
        elim h [
          | inl (once, new) ↦ inl (same ∙ once, new)
          | inr (none_left, left) ↦ inr (same ∙ none_left, left)
        ],
      )

  -- The request whose task ends is answered.
  pub finished-Stands :
      (k : ℕ) (o : Option ((Protocol × ℕ) × List (Protocol × ℕ))) (a : Asking Answer Q R) (i : ℕ)
      (r : Protocol)
      → pick k a.running ≡ o
      → All (IsAsked serve a.asked) a.running
      → Stands i r a
      → Stands i r (finished serve o a)
  unfolding finished
  finished-Stands k none a i r e all_asked h = h
  finished-Stands k (some (t, rest)) a i r e all_asked (asked, h) =
      let moved = finished-places serve k i (t, rest) a e in
      elim (Bool-cases (t.1 == i)) [
        | inl same ↦ elim h [
          | inl (once, new) ↦
              let eq : t.1 ≡ i = ==→eq t.1 i same in
              let of_t = (All-pick (IsAsked serve a.asked) k a.running (t, rest) all_asked e).0 in
              let own : t ≡ (r, i) =
                ap₂ (λ x y. (x, y)) (some-injective _ _ (sym of_t ∙ ap a.asked eq ∙ asked)) eq in
              (
                asked,
                inr (
                  omega (arith, moved, once, one-same i t same),
                  ap (λ n. R.view (put t.1 (answered R (serve t) (a.resp t.1)) a.resp n)) (sym eq)
                      ∙ ap R.view (put-same t.1 (answered R (serve t) (a.resp t.1)) a.resp)
                      ∙ answered_lem R (serve t) (a.resp t.1) (ap (λ n. R.view (a.resp n)) eq ∙ new)
                      ∙ ap (λ u. answers (serve u)) own,
                ),
              )
          | inr (none_left, left) ↦ absurd (omega (arith, moved, none_left, one-same i t same))
        ]
        | inr differ ↦
            let stays : places i (finished serve (some (t, rest)) a) ≡ places i a =
              omega (arith, moved, one-other i t differ) in
            let chan = ap R.view (
              put-other t.1 i (answered R (serve t) (a.resp t.1)) a.resp
                (λ eq. absurd (both (sym (eq→== t.1 i (sym eq)) ∙ differ)))) in
            (
              asked,
              elim h [
                | inl (once, new) ↦ inl (stays ∙ once, chan ∙ new)
                | inr (none_left, left) ↦ inr (stays ∙ none_left, chan ∙ left)
              ],
            )
      ]
    where
      both : true ≡ false → ⊥
      both f = cc

  -- No request has a number that is not given yet.
  pub sent-later :
      (req : Protocol) (queue : Q.Chan) (a : Asking Answer Q R)
      → Q.try_send a.queue (req, a.next) ≡ some queue
      → ((i : ℕ) → a.next ≤ i → places i a ≡ 0)
      → (i : ℕ) → a.next + 1 ≤ i
      → places i (sent req (some queue) a) ≡ 0
  sent-later req queue a e h i after =
      sent-places req queue a i e
      ∙ omega (
        arith,
        h i (omega (arith, after)),
        one-other i (req, a.next) (ne→== a.next i (λ same. omega (arith, same, after))),
      )

  pub spawned-later :
      (o : Option ((Protocol × ℕ) × Q.Chan)) (a : Asking Answer Q R)
      → Q.try_recv a.queue ≡ o
      → ((i : ℕ) → a.next ≤ i → places i a ≡ 0)
      → (i : ℕ) → (spawned o a).next ≤ i
      → places i (spawned o a) ≡ 0
  unfolding spawned
  spawned-later none a e h i after = h i after
  spawned-later (some (t, queue)) a e h i after = spawned-places t queue a i e ∙ h i after

  pub finished-later :
      (k : ℕ) (o : Option ((Protocol × ℕ) × List (Protocol × ℕ))) (a : Asking Answer Q R)
      → pick k a.running ≡ o
      → ((i : ℕ) → a.next ≤ i → places i a ≡ 0)
      → (i : ℕ) → (finished serve o a).next ≤ i
      → places i (finished serve o a) ≡ 0
  unfolding finished
  finished-later k none a e h i after = h i after
  finished-later k (some u) a e h i after =
      omega (arith, finished-places serve k i u a e, h i after)

  -- An answer that is taken concerns its own number alone.
  pub taken-later :
      (i : ℕ) (x : Answer) (chan : R.Chan) (a : Asking Answer Q R)
      → ((j : ℕ) → a.next ≤ j → places j a ≡ 0)
      → (j : ℕ) → (taken {Q = Q} {R = R} i (some (x, chan)) a).next ≤ j
      → places j (taken i (some (x, chan)) a) ≡ 0
  unfolding taken
  taken-later i x chan a h = h

  pub taken-others :
      (i j : ℕ) (x : Answer) (chan : R.Chan) (r : Protocol) (a : Asking Answer Q R)
      → j ≢ i
      → Stands j r a
      → Stands j r (taken i (some (x, chan)) a)
  unfolding taken
  taken-others i j x chan r a differ (asked, h) =
      let same = ap R.view (put-other i j chan a.resp differ) in
      (
        asked,
        elim h [
          | inl (once, new) ↦ inl (once, same ∙ new)
          | inr (none_left, left) ↦ inr (none_left, same ∙ left)
        ],
      )

  -- The channel of a request that stands.
  pub view_of :
      (i : ℕ) (r : Protocol) (a : Asking Answer Q R)
      → ((places i a ≡ 1) × (R.view (a.resp i) ≡ fresh 1))
        ⊎ ((places i a ≡ 0) × (R.view (a.resp i) ≡ answers (serve (r, i))))
      → (R.view (a.resp i) ≡ fresh 1) ⊎ (R.view (a.resp i) ≡ answers (serve (r, i)))
  view_of i r a (inl h) = inl h.1
  view_of i r a (inr h) = inr h.1
