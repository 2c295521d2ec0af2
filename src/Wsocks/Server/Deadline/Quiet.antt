-- ===== src/Wsocks/Server/Deadline/Quiet.antt =====
-- When a session of src/bin.todo/wsocks.rs ends, and who learns of it.
use sosistab2_obfsws.Base.{
  ℕ, zero, suc, ◌+◌, ◌-◌, ◌≤◌, ◌<◌, ◌≡◌, refl, ap, Bool, Bool-cases, inl, inr, true, false, Option,
  none, some, List, [], ◌∷◌, ◌++◌, arith, length, ltb, ltb→lt, lt→ltb,
}
use sosistab2_obfsws.Base.Slices.{Exec, done, panic}
use sosistab2_obfsws.Channel.{Channel, accepts, try_recv_cons, try_recv_empty, try_send_room}
use sosistab2_obfsws.Wsocks.Forward.{deadline_seen, check_deadline}
use sosistab2_obfsws.Wsocks.Mux.{retain}
use sosistab2_obfsws.Wsocks.Server.Deadline.{
  silence, Manager, Meets, Round, sleeps, broken, sending, refresh, after_send, notify, timed,
  manager_round, then_rounds, manager_rounds, checks,
}

module _ (D : Channel (Unit {0})) where
  check_deadline_empty :
      (c : D.Chan) → (D.view c).items ≡ [] → check_deadline D (some c) ≡ (false, some c)
  unfolding check_deadline
  check_deadline_empty c empty = ap (deadline_seen D c) (try_recv_empty D c empty)

  check_deadline_waits :
      (c : D.Chan)
      → (D.view c).items ≡ tt ∷ []
      → (c' : D.Chan) × (check_deadline D (some c) ≡ (true, some c')) × ((D.view c').items ≡ [])
  unfolding check_deadline
  check_deadline_waits c waits =
      let (c', got, left) = try_recv_cons D c waits in (c', ap (deadline_seen D c) got, left)

  checks-none : (n : ℕ) (c : D.Chan) → (D.view c).items ≡ [] → (checks D n (some c)).0 ≡ 0
  unfolding checks
  checks-none zero c empty = refl
  checks-none (suc n) c empty =
      rw (check_deadline_empty c empty) (omega (arith, checks-none n c empty))

  -- Where the one message of a session's end waits, exactly one of the tests that follow sees it,
  -- however many tasks share the channel.
  pub checks-one :
      (n : ℕ) (c : D.Chan) → (D.view c).items ≡ tt ∷ [] → (checks D (suc n) (some c)).0 ≡ 1
  unfolding checks
  checks-one n c waits =
      let (c', seen, left) = check_deadline_waits c waits in
      rw seen (omega (arith, checks-none n c' left))

-- The clock's values of a run do not go back.
abbrev pub Ordered : {Pipe : Type 0} → ℕ → List (Meets Pipe) → Type 0
Ordered t [] = Unit {0}
Ordered t (m ∷ ms) = (t ≤ m.now) × ((m.now ≤ m.later) × Ordered m.later ms)

module _ {Pipe : Type 0} {D : Channel (Unit {0})} where
  refresh-last_alive :
      (m : Meets Pipe) (s : Manager Pipe D)
      → s.last_alive ≤ m.now
      → (s.last_alive ≤ (refresh m s).last_alive) × ((refresh m s).last_alive ≤ m.now)
  unfolding refresh
  refresh-last_alive m s h =
      elim (Bool-cases (ltb 0 (length (retain m.alive (s.pipes ++ m.added))))) [
        | inl some_left ↦ rw some_left (h, omega arith)
        | inr none_left ↦ rw none_left (omega arith, h)
      ]

  state_of : Exec (Round (Manager Pipe D)) → Manager Pipe D → Manager Pipe D
  state_of (done (sleeps s)) other = s
  state_of _ other = other

  after_send-sleeps :
      (s s' : Manager Pipe D) (o : Option D.Chan) (closed : Bool)
      → after_send s o closed ≡ done (sleeps s')
      → s ≡ s'
  unfolding after_send
  after_send-sleeps s s' (some chan) closed e = cc
  after_send-sleeps s s' none true e = cc
  after_send-sleeps s s' none false e = cc

  timed-sleeps : (late : Bool) (s s' : Manager Pipe D) → timed late s ≡ done (sleeps s') → s ≡ s'
  unfolding timed notify state_of
  timed-sleeps true s s' e = after_send-sleeps s s' _ _ e
  timed-sleeps false s s' e = ap (λ r. state_of r s) e

  timed-broken : (late : Bool) (s t : Manager Pipe D) → timed late s ≡ done (broken t) → late ≡ true
  unfolding timed
  timed-broken true s t e = refl
  timed-broken false s t e = cc

  -- A round that sleeps has refreshed and no more.
  pub sleeps-refresh :
      (m : Meets Pipe) (s s' : Manager Pipe D)
      → manager_round m s ≡ done (sleeps s')
      → refresh m s ≡ s'
  unfolding manager_round
  sleeps-refresh m s s' e = timed-sleeps _ (refresh m s) s' e

  broken-late :
      (m : Meets Pipe) (s t : Manager Pipe D)
      → manager_round m s ≡ done (broken t)
      → (refresh m s).last_alive + silence < m.later
  unfolding manager_round
  broken-late m s t e = omega (
    arith,
    ltb→lt silence (m.later - (refresh m s).last_alive) (timed-broken _ (refresh m s) t e),
  )

  -- The rounds that sleep come first in a run that sleeps.
  then_rounds-sleeps :
      (r : Exec (Round (Manager Pipe D))) (next : Manager Pipe D → Exec (Round (Manager Pipe D)))
      (s' : Manager Pipe D)
      → then_rounds r next ≡ done (sleeps s')
      → (s : Manager Pipe D) × (r ≡ done (sleeps s)) × (next s ≡ done (sleeps s'))
  then_rounds-sleeps panic next s' e = cc
  then_rounds-sleeps (done (sleeps s)) next s' e = (s, refl, e)
  then_rounds-sleeps (done (broken s)) next s' e = cc
  then_rounds-sleeps (done (sending s)) next s' e = cc

  -- Rounds that sleep never set `last_alive` back.
  sleeps-last_alive :
      (ms : List (Meets Pipe)) (m : Meets Pipe) (t : ℕ) (s s' : Manager Pipe D)
      → Ordered t (ms ++ m ∷ [])
      → s.last_alive ≤ t
      → manager_rounds ms s ≡ done (sleeps s')
      → (s.last_alive ≤ s'.last_alive) × (s'.last_alive ≤ m.now)
  unfolding manager_rounds state_of
  sleeps-last_alive [] m t s s' order h e =
      let same : s ≡ s' = ap (λ r. state_of r s) e in
      rw⁻¹ same (omega arith, omega (arith, order.0))
  sleeps-last_alive (m₁ ∷ ms) m t s s' order h e =
      let (s₁, first, rest) = then_rounds-sleeps _ (manager_rounds ms) s' e in
      let same : refresh m₁ s ≡ s₁ = sleeps-refresh m₁ s s₁ first in
      let (up, in_time) = refresh-last_alive m₁ s (omega (arith, order.0)) in
      let at : (refresh m₁ s).last_alive ≡ s₁.last_alive = ap (λ u. u.last_alive) same in
      let (more, last) =
        sleeps-last_alive ms m m₁.later s₁ s' order.1.1 (omega (arith, in_time, order.1.0, at))
          rest in
      (omega (arith, up, at, more), last)

  -- Where a round of a session's manager has found a pipe with an address, and the rounds after it
  -- have slept, a later round ends the session only if more than 100 seconds lie between the two, by
  -- a clock that does not go back.
  pub manager_round-patient :
      (m₁ m : Meets Pipe) (ms : List (Meets Pipe)) (s s₁ s' t : Manager Pipe D)
      → Ordered s.last_alive (m₁ ∷ ms ++ m ∷ [])
      → 0 < length (refresh m₁ s).pipes
      → manager_round m₁ s ≡ done (sleeps s₁)
      → manager_rounds ms s₁ ≡ done (sleeps s')
      → manager_round m s' ≡ done (broken t)
      → m₁.now + silence < m.later
  unfolding refresh
  manager_round-patient m₁ m ms s s₁ s' t order found slept more ended =
      let now : (refresh m₁ s).last_alive ≡ m₁.now =
        rw (lt→ltb 0 (length (retain m₁.alive (s.pipes ++ m₁.added))) found) in
      let same : (refresh m₁ s).last_alive ≡ s₁.last_alive =
        ap (λ u. u.last_alive) (sleeps-refresh m₁ s s₁ slept) in
      let (up, in_time) =
        sleeps-last_alive ms m m₁.later s₁ s' order.1.1 (omega (arith, now, same, order.1.0))
          more in
      let (up', _) = refresh-last_alive m s' in_time in
      omega (arith, now, same, up, up', broken-late m s' t ended)

  -- A round that finds no pipe, more than the silence after the last one that did, ends the session, and
  -- the message waits in the channel, if that has room.
  pub manager_round-ends :
      (m : Meets Pipe) (s : Manager Pipe D)
      → retain m.alive (s.pipes ++ m.added) ≡ []
      → s.last_alive + silence < m.later
      → accepts (D.view s.deadline) ≡ true
      → (t : Manager Pipe D) × (manager_round m s ≡ done (broken t))
        × ((D.view t.deadline).items ≡ (D.view s.deadline).items ++ tt ∷ [])
  unfolding manager_round timed notify after_send refresh
  manager_round-ends m s gone late room =
      let (chan, sent, view) = try_send_room D s.deadline tt room in
      (
        record { pipes = []; last_alive = s.last_alive; deadline = chan },
        rw (gone, lt→ltb silence (m.later - s.last_alive) (omega (arith, late)), sent) refl,
        ap (λ q. q.items) view,
      )
