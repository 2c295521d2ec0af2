-- ===== src/Channel.antt =====
-- What src/pipe.rs, src/listener.rs and src/bin.todo/wsocks.rs rely on of the crate
-- `smol::channel`, which is not part of the repository: a bounded first-in-first-out queue,
-- reached through an interface that says how each operation acts on the waiting messages.
use mathlib.Core.Option
use sosistab2_obfsws.Base.{
  ℕ, ◌≡◌, refl, sym, ap, ◌∙◌, Bool, true, false, not, ◌&&◌, Option, none, some, List, [], ◌∷◌, ◌++◌,
  arith, ltb, if◌then◌else◌, length,
}

-- What can be seen of a channel: the messages waiting, oldest first, the capacity, and whether one
-- side has gone.
pub record Queue {ℓ} (A : Type ℓ) : Type ℓ where
  pub items : List A
  pub capacity : ℕ
  pub closed : Bool

module _ {ℓ} {A : Type ℓ} where
  abbrev pub fresh : ℕ → Queue A
  fresh n = record { items = []; capacity = n; closed = false }

  -- There is room for a message, and somebody who could take it.
  abbrev pub accepts : Queue A → Bool
  accepts q = not q.closed && ltb (length q.items) q.capacity

  abbrev pub push : Queue A → A → Option (Queue A)
  push q a = if accepts q then some (record q { items = q.items ++ a ∷ [] }) else none

  abbrev pub uncons : Queue A → List A → Option (A × Queue A)
  uncons q [] = none
  uncons q (a ∷ rest) = some (a, record q { items = rest })

  -- Messages that wait are received also after the senders have gone.
  abbrev pub pop : Queue A → Option (A × Queue A)
  pop q = uncons q q.items

-- `try_send` gives `none` for both of its errors (full, closed), `try_recv` for both of its own
-- (empty, closed).
pub record Channel (A : Type 0) : Type 1 where
  pub Chan : Type 0
  pub view : Chan → Queue A
  pub bounded : ℕ → Chan
  pub try_send : Chan → A → Option Chan
  pub try_recv : Chan → Option (A × Chan)
  pub close : Chan → Chan
  pub view-bounded : (n : ℕ) → view (bounded n) ≡ fresh n
  pub view-try_send : (c : Chan) (a : A) → Option.map view (try_send c a) ≡ push (view c) a
  pub view-try_recv :
      (c : Chan) → Option.map (λ (t : A × Chan). (t.0, view t.1)) (try_recv c) ≡ pop (view c)
  pub view-close : (c : Chan) → view (close c) ≡ record (view c) { closed = true }

push_lem {ℓ} :
    {A : Type ℓ} (q : Queue A) (a : A) {q' : Queue A}
    → push q a ≡ some q'
    → (accepts q ≡ true) × (q' ≡ record q { items = q.items ++ a ∷ [] })
push_lem q a h = ground arith

uncons_lem {ℓ} :
    {A : Type ℓ} (q : Queue A) (xs : List A) {a : A} {q' : Queue A}
    → uncons q xs ≡ some (a, q')
    → (xs ≡ a ∷ q'.items) × (q' ≡ record q { items = q'.items })
uncons_lem q [] h = cc
uncons_lem q (x ∷ xs) h = ground arith

uncons-none {ℓ} : {A : Type ℓ} (q : Queue A) (xs : List A) → uncons q xs ≡ none → xs ≡ []
uncons-none q [] h = refl
uncons-none q (x ∷ xs) h = cc

module _ {A : Type 0} (C : Channel A) where
  -- A message that is accepted joins the end, and nothing else changes.
  pub try_send-some :
      (c : C.Chan) (a : A) {c' : C.Chan}
      → C.try_send c a ≡ some c'
      → (accepts (C.view c) ≡ true)
        × (C.view c' ≡ record (C.view c) { items = (C.view c).items ++ a ∷ [] })
  try_send-some c a {c'} h =
      push_lem (C.view c) a (sym (C.view-try_send c a) ∙ ap (Option.map C.view) h)

  -- Only a full or closed channel refuses one.
  pub try_send-none : (c : C.Chan) (a : A) → C.try_send c a ≡ none → accepts (C.view c) ≡ false
  try_send-none c a h = refused (sym (C.view-try_send c a) ∙ ap (Option.map C.view) h)
    where
      refused : push (C.view c) a ≡ none → accepts (C.view c) ≡ false
      refused e = ground arith

  -- The oldest message is received, and nothing else changes.
  pub try_recv-some :
      (c : C.Chan) {a : A} {c' : C.Chan}
      → C.try_recv c ≡ some (a, c')
      → ((C.view c).items ≡ a ∷ (C.view c').items)
        × (C.view c' ≡ record (C.view c) { items = (C.view c').items })
  try_recv-some c h =
      uncons_lem (C.view c) (C.view c).items
        (sym (C.view-try_recv c) ∙ ap (Option.map (λ (t : A × C.Chan). (t.0, C.view t.1))) h)

  -- Only an empty channel gives none.
  pub try_recv-none : (c : C.Chan) → C.try_recv c ≡ none → (C.view c).items ≡ []
  try_recv-none c h =
      uncons-none (C.view c) (C.view c).items
        (sym (C.view-try_recv c) ∙ ap (Option.map (λ (t : A × C.Chan). (t.0, C.view t.1))) h)

map-none {ℓ κ} :
    {A : Type ℓ} {B : Type κ} (f : A → B) (o : Option A) → Option.map f o ≡ none → o ≡ none
map-none f none e = refl
map-none f (some a) e = cc

map-some {ℓ κ} :
    {A : Type ℓ} {B : Type κ} (f : A → B) (o : Option A) {b : B}
    → Option.map f o ≡ some b
    → (a : A) × (o ≡ some a) × (f a ≡ b)
map-some f none e = cc
map-some f (some a) e = (a, refl, ground arith)

module _ {A : Type 0} (C : Channel A) where
  -- An empty channel gives nothing.
  pub try_recv_empty : (c : C.Chan) → (C.view c).items ≡ [] → C.try_recv c ≡ none
  try_recv_empty c e = map-none _ (C.try_recv c) (C.view-try_recv c ∙ ap (uncons (C.view c)) e)

  -- One with messages gives the oldest.
  pub try_recv_cons :
      (c : C.Chan) {a : A} {rest : List A}
      → (C.view c).items ≡ a ∷ rest
      → (c' : C.Chan) × (C.try_recv c ≡ some (a, c')) × ((C.view c').items ≡ rest)
  try_recv_cons c {a} {rest} e =
      let (t, got, same) =
        map-some _ (C.try_recv c) (C.view-try_recv c ∙ ap (uncons (C.view c)) e) in
      (t.1, got ∙ ap some (λ i. (first same i, t.1)), ap (λ (u : A × Queue A). u.1.items) same)
    where
      first :
          {t : A × C.Chan}
          → ◌≡◌ {A = A × Queue A} (t.0, C.view t.1) (a, record (C.view c) { items = rest })
          → t.0 ≡ a
      first e = ap (λ (u : A × Queue A). u.0) e

  -- An open channel with room takes a message.
  pub try_send_room :
      (c : C.Chan) (a : A)
      → accepts (C.view c) ≡ true
      → (c' : C.Chan) × (C.try_send c a ≡ some c')
        × (C.view c' ≡ record (C.view c) { items = (C.view c).items ++ a ∷ [] })
  try_send_room c a h = map-some C.view (C.try_send c a) (C.view-try_send c a ∙ (rw h))

  -- A closed or full one does not.
  pub try_send_refused : (c : C.Chan) (a : A) → accepts (C.view c) ≡ false → C.try_send c a ≡ none
  try_send_refused c a h = map-none C.view (C.try_send c a) (C.view-try_send c a ∙ (rw h))

pub map_id {ℓ} : {A : Type ℓ} (o : Option A) → Option.map (λ a. a) o ≡ o
map_id none = refl
map_id (some a) = refl

-- A channel that is its own view, for runs on concrete data.
abbrev pub queue_channel : (A : Type 0) → Channel A
queue_channel A = record {
  Chan = Queue A;
  view = λ q. q;
  bounded = fresh;
  try_send = push;
  try_recv = pop;
  close = λ q. record q { closed = true };
  view-bounded = λ n. refl;
  view-try_send = λ c a. map_id (push c a);
  view-try_recv = λ c. map_id (pop c);
  view-close = λ c. refl;
}
