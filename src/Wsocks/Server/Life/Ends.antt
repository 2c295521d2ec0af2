-- ===== src/Wsocks/Server/Life/Ends.antt =====
-- What becomes of a session of src/bin.todo/wsocks.rs once one of its tasks has taken the message of its
-- end.
use sosistab2_obfsws.Base.{
  ℕ, ◌+◌, ◌≤◌, ◌<◌, ◌≡◌, ◌≢◌, refl, Bool, true, false, Option, none, some, List, [], ◌∷◌, arith,
}
use sosistab2_obfsws.Base.Slices.{Exec, done, panic}
use sosistab2_obfsws.Io.{ErrorKind, Result, ok, err}
use sosistab2_obfsws.Channel.{Channel}
use sosistab2_obfsws.Wsocks.Server.Deadline.{Manager, Meets, Round, sleeps, broken, sending}
use sosistab2_obfsws.Wsocks.Server.Life.{
  SessionError, deadline_reached, accept_failed, Phase, rounds, waits_to_send, over, crashed,
  Session, Event, adds_pipe, manages, passes, forward_tests, deserted, start, on_channel, managed,
  manage, accepted, tested, pass, desert, step, run,
}
use sosistab2_obfsws.Wsocks.Server.Life.Signal.{by_deadline, sent, run-kept, run-IsSignalled}

module _ {Pipe Stream : Type 0} {D : Channel (Unit {0})} where
  managed-stopped :
      (r : Exec (Round (Manager Pipe D))) (s : Session Pipe Stream D)
      → (managed r s).stopped ≡ s.stopped
  unfolding managed
  managed-stopped panic s = refl
  managed-stopped (done (sleeps m)) s = refl
  managed-stopped (done (broken m)) s = refl
  managed-stopped (done (sending m)) s = refl

  manage-stopped :
      (phase : Phase) (m : Meets Pipe) (s : Session Pipe Stream D)
      → (manage phase m s).stopped ≡ s.stopped
  unfolding manage
  manage-stopped rounds m s = managed-stopped _ s
  manage-stopped waits_to_send m s = managed-stopped _ s
  manage-stopped over m s = refl
  manage-stopped crashed m s = refl

  tested-stopped :
      (s : Session Pipe Stream D) (seen unseen : Session Pipe Stream D → Session Pipe Stream D)
      (t : Bool × Option D.Chan)
      → ((u : Session Pipe Stream D) → u.stopped ≤ (seen u).stopped)
      → ((u : Session Pipe Stream D) → u.stopped ≤ (unseen u).stopped)
      → s.stopped ≤ (tested s seen unseen t).stopped
  unfolding tested
  tested-stopped s seen unseen (true, some chan) f g = f (on_channel chan s)
  tested-stopped s seen unseen (true, none) f g = f s
  tested-stopped s seen unseen (false, rx) f g = g s

  accepted-stopped :
      (r : Option (Result ErrorKind Stream)) (s : Session Pipe Stream D)
      → s.stopped ≤ (accepted r s).stopped
  unfolding accepted
  accepted-stopped none s = omega arith
  accepted-stopped (some (err k)) s = omega arith
  accepted-stopped (some (ok stream)) s = omega arith

  pass-stopped :
      (o : Option SessionError) (r : Option (Result ErrorKind Stream)) (s : Session Pipe Stream D)
      → s.stopped ≤ (pass o r s).stopped
  unfolding pass
  pass-stopped (some e) r s = omega arith
  pass-stopped none r s = tested-stopped s _ _ _ (λ u. omega arith) (accepted-stopped r)

  desert-stopped :
      (o : Option SessionError) (s : Session Pipe Stream D) → (desert o s).stopped ≡ s.stopped
  unfolding desert
  desert-stopped none s = refl
  desert-stopped (some e) s = refl

  step-stopped :
      (e : Event Pipe Stream) (s : Session Pipe Stream D) → s.stopped ≤ (step e s).stopped
  unfolding step
  step-stopped (adds_pipe pipe) s = omega arith
  step-stopped (manages m) s = omega (arith, manage-stopped s.phase m s)
  step-stopped (passes r) s = pass-stopped s.ended r s
  step-stopped forward_tests s = tested-stopped s _ _ _ (λ u. omega arith) (λ u. omega arith)
  step-stopped deserted s = omega (arith, desert-stopped s.ended s)

  run-stopped :
      (es : List (Event Pipe Stream)) (s : Session Pipe Stream D) → s.stopped ≤ (run es s).stopped
  unfolding run
  run-stopped [] s = omega arith
  run-stopped (e ∷ es) s = omega (arith, step-stopped e s, run-stopped es (step e s))

never_both :
    (o : Option SessionError) (stopped : ℕ)
    → by_deadline o + stopped ≤ 1
    → 0 < stopped
    → o ≢ some deadline_reached
never_both (some deadline_reached) stopped h h' = absurd (omega arith)
never_both (some (accept_failed k)) stopped h h' = λ e. cc
never_both none stopped h h' = λ e. cc

module _ (Pipe Stream : Type 0) (D : Channel (Unit {0})) where
  -- Where a forwarding task of a session has ended by the deadline, the loop that accepts streams
  -- never does, whatever comes after.
  pub run-never_ends :
      (es later : List (Event Pipe Stream)) (now : ℕ)
      → 0 < (run es (start {Pipe = Pipe} {Stream = Stream} {D = D} now)).stopped
      → (run later (run es (start {Pipe = Pipe} {Stream = Stream} {D = D} now))).ended
        ≢ some deadline_reached
  run-never_ends es later now stops =
      let s = run es (start now) in
      let t = run later s in
      let h = run-kept later s (run-IsSignalled Pipe Stream D es now) in
      never_both t.ended t.stopped (omega (arith, h, sent-one t.phase))
        (omega (arith, stops, run-stopped later s))
    where
      sent-one : (p : Phase) → sent p ≤ 1
      sent-one rounds = omega arith
      sent-one waits_to_send = omega arith
      sent-one over = omega arith
      sent-one crashed = omega arith
