-- ===== src/Examples/First/Paced.antt =====
-- How the two tasks of examples/obfsws-test-1.rs keep pace.
use mathlib.Core.Path.{subst}
use sosistab2_obfsws.Base.{
  ℕ, ◌+◌, ◌≤◌, ◌≡◌, refl, ap, ◌⊎◌, Bool, Option-cases, inl, inr, true, false, Option, none, some,
  List, [], ◌∷◌, arith, length, length-append,
}
use sosistab2_obfsws.Base.Slices.{Exec, done, panic, done-injective}
use sosistab2_obfsws.Channel.{Channel, Queue, try_send-some, try_recv-some}
use sosistab2_obfsws.Io.{ErrorKind, Result, ok, err}
use sosistab2_obfsws.Examples.Meter.{Floats, Meets, start, notify}
use sosistab2_obfsws.Examples.Meter.Counted.{came}
use sosistab2_obfsws.Examples.First.{
  Next, breaks, goes_on, Measuring, Phase, writes, waits, Racing, starts, round, wrote, woken,
  send_step, recv_step, Turn, receives, sends, turn, unless, race,
}
use sosistab2_obfsws.Examples.First.After.{bind-done, round-After}

-- What `send_fut` may have written beyond the reads.
abbrev pub owed : Phase → ℕ
owed writes = 0
owed waits = 1

owed-le : (phase : Phase) → owed phase ≤ 1
owed-le writes = omega arith
owed-le waits = omega arith

module _ (D : Channel (Unit {0})) where
  -- The messages that wait in a channel.
  abbrev pub waiting : D.Chan → ℕ
  waiting chan = length (D.view chan).items

  notify-le :
      (read : Option (Result ErrorKind ℕ)) (chan : D.Chan)
      → waiting (notify D read chan) ≤ waiting chan + came read
  unfolding notify
  notify-le none chan = omega arith
  notify-le (some (err k)) chan = omega arith
  notify-le (some (ok size)) chan = elim (Option-cases (D.try_send chan tt)) [
    | inl refused ↦ rw refused (omega arith)
    | inr (chan', sent) ↦ rw sent (
        omega (
          arith,
          ap (λ (q : Queue (Unit {0})). length q.items) (try_send-some D chan tt sent).1,
          length-append (D.view chan).items (tt ∷ []),
        ))
  ]

module _ {X : Floats} {D : Channel (Unit {0})} where
  -- Every message but the first that was written stands for a read, and so does every message that
  -- waits in the channel.
  abbrev pub IsPaced : Racing X D → Type 0
  IsPaced s =
      s.written + waiting D s.measuring.allow_send_notify ≤ s.measuring.meter.recvs + owed s.phase

  recv_step-IsPaced :
      (r : Meets) (s s' : Racing X D) (e : Exec (Next (Measuring X D)))
      → IsPaced s
      → round r s.measuring ≡ e
      → recv_step e s ≡ done s'
      → IsPaced s'
  unfolding recv_step
  recv_step-IsPaced r s s' panic h same went = cc
  recv_step-IsPaced r s s' (done (breaks m)) h same went =
      let (recvs, chan) = round-After r s.measuring (breaks m) same in
      subst IsPaced (done-injective went) (omega (arith, recvs, ap (waiting D) chan))
  recv_step-IsPaced r s s' (done (goes_on m)) h same went =
      let (recvs, chan) = round-After r s.measuring (goes_on m) same in
      subst IsPaced (done-injective went) (
        omega (arith, recvs, ap (waiting D) chan, notify-le D r.read s.measuring.allow_send_notify))

  wrote-IsPaced :
      (result : Result ErrorKind (Unit {0})) (s s' : Racing X D)
      → IsPaced s
      → s.phase ≡ writes
      → wrote result s ≡ done s'
      → IsPaced s'
  unfolding wrote
  wrote-IsPaced (ok _) s s' h same went =
      subst IsPaced (done-injective went) (omega (arith, ap owed same))
  wrote-IsPaced (err k) s s' h same went = cc

  woken-IsPaced :
      (o : Option (Unit {0} × D.Chan)) (s s' : Racing X D)
      → IsPaced s
      → s.phase ≡ waits
      → D.try_recv s.measuring.allow_send_notify ≡ o
      → woken o s ≡ done s'
      → IsPaced s'
  unfolding woken
  woken-IsPaced none s s' h same got went = subst IsPaced (done-injective went) h
  woken-IsPaced (some (_, chan)) s s' h same got went =
      subst IsPaced (done-injective went) (
        omega
          (arith, ap owed same, ap length (try_recv-some D s.measuring.allow_send_notify got).0))

  send_step-IsPaced :
      (phase : Phase) (result : Result ErrorKind (Unit {0})) (s s' : Racing X D)
      → IsPaced s
      → s.phase ≡ phase
      → send_step phase result s ≡ done s'
      → IsPaced s'
  unfolding send_step
  send_step-IsPaced writes result s s' h same went = wrote-IsPaced result s s' h same went
  send_step-IsPaced waits result s s' h same went = woken-IsPaced _ s s' h same refl went

  turn-IsPaced : (t : Turn) (s s' : Racing X D) → IsPaced s → turn t s ≡ done s' → IsPaced s'
  unfolding turn
  turn-IsPaced (receives r) s s' h went = recv_step-IsPaced r s s' _ h refl went
  turn-IsPaced (sends result) s s' h went = send_step-IsPaced s.phase result s s' h refl went

  unless-done :
      (b : Bool) (s : Racing X D) (next : Exec (Racing X D)) (s' : Racing X D)
      → unless b s next ≡ done s'
      → (s ≡ s') ⊎ (next ≡ done s')
  unless-done true s next s' e = inl (done-injective e)
  unless-done false s next s' e = inr e

  race-kept : (ts : List Turn) (s s' : Racing X D) → IsPaced s → race ts s ≡ done s' → IsPaced s'
  unfolding race
  race-kept [] s s' h went = subst IsPaced (done-injective went) h
  race-kept (t ∷ ts) s s' h went = elim (unless-done s.ended s _ s' went) [
    | inl over ↦ subst IsPaced over h
    | inr running ↦
        let (s₁, first, rest) = bind-done (turn t s) (race ts) running in
        race-kept ts s₁ s' (turn-IsPaced t s s₁ h first) rest
  ]

module _ (X : Floats) (D : Channel (Unit {0})) where
  -- After any turns of the two tasks that do not panic: `send_fut` has written at most one message
  -- more than the reads that have given something, and the message that waits for it comes from a
  -- read for which it has not written yet.
  pub race-IsPaced :
      (ts : List Turn) (now : ℕ) (s : Racing X D)
      → race ts (starts now) ≡ done s
      → IsPaced s × (s.written ≤ s.measuring.meter.recvs + 1)
  unfolding starts start
  race-IsPaced ts now s went =
      let h : IsPaced s =
        race-kept ts (starts now) s
          (omega (arith, ap (λ (q : Queue (Unit {0})). length q.items) (D.view-bounded 1))) went in
      (h, omega (arith, owed-le s.phase))
