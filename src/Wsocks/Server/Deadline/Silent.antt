-- ===== src/Wsocks/Server/Deadline/Silent.antt =====
-- A session of src/bin.todo/wsocks.rs to which no pipe comes back ends, and in which round.
use sosistab2_obfsws.Base.{
  ◌+◌, ◌-◌, ◌≤◌, ◌<◌, ◌≡◌, refl, Bool-cases, inl, inr, true, false, List, [], ◌∷◌, ◌++◌, arith,
  length, ltb, ltb→lt, lt→ltb, Bool,
}
use sosistab2_obfsws.Base.Slices.{done}
use sosistab2_obfsws.Base.Choice.{All}
use sosistab2_obfsws.Channel.{Channel, accepts}
use sosistab2_obfsws.Wsocks.Mux.{retain}
use sosistab2_obfsws.Wsocks.Server.Deadline.{
  silence, Manager, Meets, sleeps, broken, refresh, timed, manager_round, manager_rounds,
}
use sosistab2_obfsws.Wsocks.Server.Deadline.Quiet.{sleeps-refresh, manager_round-ends}

-- A round in which no pipe has an address.
abbrev pub IsDeserted : {Pipe : Type 0} → Meets Pipe → Type 0
IsDeserted {Pipe} m = (p : Pipe) → m.alive p ≡ false

retain_none :
    {A : Type 0} (alive : A → Bool) (ps : List A)
    → ((p : A) → alive p ≡ false)
    → retain alive ps ≡ []
unfolding retain
retain_none alive [] h = refl
retain_none alive (p ∷ ps) h = rw (h p) (retain_none alive ps h)

module _ {Pipe : Type 0} {D : Channel (Unit {0})} where
  deserted-sleeps :
      (m : Meets Pipe) (s : Manager Pipe D)
      → IsDeserted m
      → m.later ≤ s.last_alive + silence
      → manager_round m s ≡ done (sleeps (record s { pipes = [] }))
  unfolding manager_round timed refresh
  deserted-sleeps m s deserted in_time = elim (Bool-cases (ltb silence (m.later - s.last_alive))) [
    | inl late ↦ absurd (omega (arith, ltb→lt silence (m.later - s.last_alive) late, in_time))
    | inr early ↦ rw (retain_none m.alive (s.pipes ++ m.added) deserted, early) refl
  ]

  -- How a run ends whose last round is the first one after the silence.
  abbrev Ends : List (Meets Pipe) → Meets Pipe → Manager Pipe D → Manager Pipe D → Type 0
  Ends ms m s from =
      ((s' : Manager Pipe D) × (manager_rounds ms s ≡ done (sleeps s')))
      × ((t : Manager Pipe D) × (manager_rounds (ms ++ m ∷ []) s ≡ done (broken t))
          × ((D.view t.deadline).items ≡ (D.view from.deadline).items ++ tt ∷ []))

  deserted-Ends :
      (ms : List (Meets Pipe)) (m : Meets Pipe) (s : Manager Pipe D)
      → IsDeserted m
      → All (λ (m' : Meets Pipe). IsDeserted m' × (m'.later ≤ s.last_alive + silence)) ms
      → s.last_alive + silence < m.later
      → accepts (D.view s.deadline) ≡ true
      → Ends ms m s s
  unfolding manager_rounds
  deserted-Ends [] m s deserted before late room =
      let (t, went, message) =
        manager_round-ends m s (retain_none m.alive (s.pipes ++ m.added) deserted) late room in
      ((s, refl), (t, rw went refl, message))
  deserted-Ends (m₁ ∷ ms) m s deserted ((deserted₁, in_time), before) late room =
      let slept = deserted-sleeps m₁ s deserted₁ in_time in
      let ((s', first), (t, whole, message)) =
        deserted-Ends ms m (record s { pipes = [] }) deserted before late room in
      ((s', rw slept first), (t, rw slept whole, message))

  -- A round of a session's manager has found a pipe with an address, and has slept; in no later round
  -- does a pipe have one, whichever the listener has added before it, and the channel has room. Then
  -- every later round that looks at the clock at most 100 seconds after that round found its pipe goes
  -- to sleep, and the first that looks at it later ends the loop, with the session's message put into
  -- the channel.
  pub manager_rounds-end :
      (m₁ m : Meets Pipe) (ms : List (Meets Pipe)) (s s₁ : Manager Pipe D)
      → 0 < length (refresh m₁ s).pipes
      → manager_round m₁ s ≡ done (sleeps s₁)
      → IsDeserted m
      → All (λ (m' : Meets Pipe). IsDeserted m' × (m'.later ≤ m₁.now + 100_000_000_000)) ms
      → m₁.now + 100_000_000_000 < m.later
      → accepts (D.view s.deadline) ≡ true
      → ((s' : Manager Pipe D) × (manager_rounds ms s₁ ≡ done (sleeps s')))
        × ((t : Manager Pipe D) × (manager_rounds (ms ++ m ∷ []) s₁ ≡ done (broken t))
            × ((D.view t.deadline).items ≡ (D.view s.deadline).items ++ tt ∷ []))
  unfolding refresh
  manager_rounds-end m₁ m ms s s₁ found slept deserted before late room =
      let now : (refresh m₁ s).last_alive ≡ m₁.now =
        rw (lt→ltb 0 (length (retain m₁.alive (s.pipes ++ m₁.added))) found) in
      rw⁻¹ (sleeps-refresh m₁ s s₁ slept)
        (deserted-Ends ms m (refresh m₁ s) deserted (rw now before) (rw now late) room)
