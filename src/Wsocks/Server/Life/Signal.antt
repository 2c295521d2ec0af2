-- ===== src/Wsocks/Server/Life/Signal.antt =====
-- Who learns of a session's end in src/bin.todo/wsocks.rs, in any order of what its tasks do.
use mathlib.Core.Path.{subst}
use sosistab2_obfsws.Base.{
  ℕ, ◌+◌, ◌≡◌, refl, sym, ap, ◌∙◌, Bool, true, false, Option, none, some, Option-cases, inl, inr,
  List, [], ◌∷◌, arith, length, length-append,
}
use sosistab2_obfsws.Base.Slices.{Exec, done, panic}
use sosistab2_obfsws.Io.{ErrorKind, Result, ok, err}
use sosistab2_obfsws.Channel.{Channel, Queue, try_send-some, try_recv-some}
use sosistab2_obfsws.Wsocks.Forward.{deadline_seen, check_deadline}
use sosistab2_obfsws.Wsocks.Server.Deadline.{
  deadline_capacity, Manager, Meets, Round, sleeps, broken, sending, refresh, after_send, notify,
  timed, manager_round,
}
use sosistab2_obfsws.Wsocks.Server.Life.{
  SessionError, deadline_reached, Phase, rounds, waits_to_send, over, crashed, Session, Event,
  adds_pipe, manages, passes, forward_tests, deserted, start, managed, manage, accepted, tested,
  pass, desert, step, run,
}

-- Whether the accepting loop has ended by the message.
abbrev pub by_deadline : Option SessionError → ℕ
by_deadline (some deadline_reached) = 1
by_deadline _ = 0

-- How many messages the manager has sent.
abbrev pub sent : Phase → ℕ
sent over = 1
sent _ = 0

module _ (D : Channel (Unit {0})) where
  -- The messages that wait in a channel.
  abbrev pub waiting : D.Chan → ℕ
  waiting chan = length (D.view chan).items

  waiting-close : (chan : D.Chan) → waiting (D.close chan) ≡ waiting chan
  waiting-close chan = ap (λ (q : Queue (Unit {0})). length q.items) (D.view-close chan)

  -- A test takes at most the one message that it sees.
  Tested : D.Chan → Bool × Option D.Chan → Type 0
  Tested chan (true, some chan') = waiting chan ≡ waiting chan' + 1
  Tested chan (true, none) = ⊥
  Tested chan (false, rx) = Unit

  check_deadline-Tested : (chan : D.Chan) → Tested chan (check_deadline D (some chan))
  unfolding check_deadline Tested
  check_deadline-Tested chan = elim (Option-cases (D.try_recv chan)) [
    | inl nothing ↦ subst (λ o. Tested chan (deadline_seen D chan o)) (sym nothing) tt
    | inr (t, got) ↦
        subst (λ o. Tested chan (deadline_seen D chan o)) (sym got)
          (omega (arith, ap length (try_recv-some D chan got).0))
  ]

module _ {Pipe : Type 0} {D : Channel (Unit {0})} where
  -- What a round of the manager does to the channel.
  After : Manager Pipe D → Exec (Round (Manager Pipe D)) → Type 0
  After s panic = Unit
  After s (done (sleeps m)) = waiting D m.deadline ≡ waiting D s.deadline
  After s (done (broken m)) = waiting D m.deadline ≡ waiting D s.deadline + 1
  After s (done (sending m)) = waiting D m.deadline ≡ waiting D s.deadline

  after_send-After :
      (s : Manager Pipe D) (o : Option D.Chan) (closed : Bool)
      → D.try_send s.deadline tt ≡ o
      → After s (after_send s o closed)
  unfolding After after_send
  after_send-After s (some chan) closed e =
      ap (λ (q : Queue (Unit {0})). length q.items) (try_send-some D s.deadline tt e).1
      ∙ length-append (D.view s.deadline).items (tt ∷ [])
  after_send-After s none true e = tt
  after_send-After s none false e = refl

  notify-After : (s : Manager Pipe D) → After s (notify s)
  unfolding notify
  notify-After s = after_send-After s _ (D.view s.deadline).closed refl

  timed-After : (late : Bool) (s : Manager Pipe D) → After s (timed late s)
  unfolding timed After
  timed-After true s = notify-After s
  timed-After false s = refl

  manager_round-After : (m : Meets Pipe) (s : Manager Pipe D) → After s (manager_round m s)
  unfolding manager_round refresh After
  manager_round-After m s = timed-After _ (refresh m s)

module _ {Pipe Stream : Type 0} {D : Channel (Unit {0})} where
  -- The message waits, or one of its receivers has ended by it, exactly where it has been sent.
  abbrev pub IsSignalled : Session Pipe Stream D → Type 0
  IsSignalled s = by_deadline s.ended + s.stopped + waiting D s.manager.deadline ≡ sent s.phase

  managed-IsSignalled :
      (r : Exec (Round (Manager Pipe D))) (s : Session Pipe Stream D)
      → After s.manager r
      → sent s.phase ≡ 0
      → by_deadline s.ended + s.stopped + waiting D s.manager.deadline ≡ 0
      → IsSignalled (managed r s)
  unfolding managed After
  managed-IsSignalled panic s after unsent h = omega (arith, waiting-close D s.manager.deadline)
  managed-IsSignalled (done (sleeps m)) s after unsent h = omega arith
  managed-IsSignalled (done (broken m)) s after unsent h = omega (arith, waiting-close D m.deadline)
  managed-IsSignalled (done (sending m)) s after unsent h = omega arith

  manage-IsSignalled :
      (phase : Phase) (m : Meets Pipe) (s : Session Pipe Stream D)
      → s.phase ≡ phase
      → IsSignalled s
      → IsSignalled (manage phase m s)
  unfolding manage
  manage-IsSignalled rounds m s e h =
      managed-IsSignalled _ s (manager_round-After m s.manager) (ap sent e)
        (subst (λ p. by_deadline s.ended + s.stopped + waiting D s.manager.deadline ≡ sent p) e h)
  manage-IsSignalled waits_to_send m s e h =
      managed-IsSignalled _ s (notify-After s.manager) (ap sent e)
        (subst (λ p. by_deadline s.ended + s.stopped + waiting D s.manager.deadline ≡ sent p) e h)
  manage-IsSignalled over m s e h = h
  manage-IsSignalled crashed m s e h = h

  accepted-IsSignalled :
      (r : Option (Result ErrorKind Stream)) (s : Session Pipe Stream D)
      → s.ended ≡ none
      → IsSignalled s
      → IsSignalled (accepted r s)
  unfolding accepted
  accepted-IsSignalled none s none_yet h = h
  accepted-IsSignalled (some (err k)) s none_yet h = omega (arith, ap by_deadline none_yet)
  accepted-IsSignalled (some (ok stream)) s none_yet h = h

  pass-IsSignalled :
      (r : Option (Result ErrorKind Stream)) (s : Session Pipe Stream D) (t : Bool × Option D.Chan)
      → s.ended ≡ none
      → Tested D s.manager.deadline t
      → IsSignalled s
      → IsSignalled (tested s (λ u. record u { ended = some deadline_reached }) (accepted r) t)
  unfolding tested Tested
  pass-IsSignalled r s (true, some chan) none_yet took h = omega (arith, ap by_deadline none_yet)
  pass-IsSignalled r s (true, none) none_yet took h = absurd took
  pass-IsSignalled r s (false, rx) none_yet took h = accepted-IsSignalled r s none_yet h

  forward-IsSignalled :
      (s : Session Pipe Stream D) (t : Bool × Option D.Chan)
      → Tested D s.manager.deadline t
      → IsSignalled s
      → IsSignalled (tested s (λ u. record u { stopped = u.stopped + 1 }) (λ u. u) t)
  unfolding tested Tested
  forward-IsSignalled s (true, some chan) took h = omega arith
  forward-IsSignalled s (true, none) took h = absurd took
  forward-IsSignalled s (false, rx) took h = h

  desert-IsSignalled :
      (o : Option SessionError) (s : Session Pipe Stream D)
      → IsSignalled s
      → IsSignalled (desert o s)
  unfolding desert
  desert-IsSignalled none s h = h
  desert-IsSignalled (some e) s h = omega (arith, waiting-close D s.manager.deadline)

  passed-IsSignalled :
      (o : Option SessionError) (r : Option (Result ErrorKind Stream)) (s : Session Pipe Stream D)
      → s.ended ≡ o
      → IsSignalled s
      → IsSignalled (pass o r s)
  unfolding pass
  passed-IsSignalled (some e) r s same h = h
  passed-IsSignalled none r s same h =
      pass-IsSignalled r s _ same (check_deadline-Tested D s.manager.deadline) h

  step-IsSignalled :
      (e : Event Pipe Stream) (s : Session Pipe Stream D) → IsSignalled s → IsSignalled (step e s)
  unfolding step
  step-IsSignalled (adds_pipe pipe) s h = h
  step-IsSignalled (manages m) s h = manage-IsSignalled s.phase m s refl h
  step-IsSignalled (passes r) s h = passed-IsSignalled s.ended r s refl h
  step-IsSignalled forward_tests s h =
      forward-IsSignalled s _ (check_deadline-Tested D s.manager.deadline) h
  step-IsSignalled deserted s h = desert-IsSignalled s.ended s h

  pub run-kept :
      (es : List (Event Pipe Stream)) (s : Session Pipe Stream D)
      → IsSignalled s
      → IsSignalled (run es s)
  unfolding run
  run-kept [] s h = h
  run-kept (e ∷ es) s h = run-kept es (step e s) (step-IsSignalled e s h)

module _ (Pipe Stream : Type 0) (D : Channel (Unit {0})) where
  -- After any events since the session began: where the manager has left its rounds by sending the
  -- message of the session's end, either this message waits in the channel, or it has ended the
  -- accepting loop, or it has ended one forwarding task, and exactly one of these; where the manager
  -- has not sent it, the message does not wait and has ended nothing.
  pub run-IsSignalled :
      (es : List (Event Pipe Stream)) (now : ℕ)
      → IsSignalled (run es (start {Pipe = Pipe} {Stream = Stream} {D = D} now))
  unfolding start
  run-IsSignalled es now = run-kept es (start now) (
      omega
        (arith, ap (λ (q : Queue (Unit {0})). length q.items) (D.view-bounded deadline_capacity)))
