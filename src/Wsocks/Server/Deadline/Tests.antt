-- ===== src/Wsocks/Server/Deadline/Tests.antt =====
-- The end of a session of src/bin.todo/wsocks.rs at concrete inputs.
use sosistab2_obfsws.Base.{ℕ, ◌+◌, ◌≡◌, ◌<◌, refl, true, false, [], ◌∷◌, arith}
use sosistab2_obfsws.Base.Slices.{done}
use sosistab2_obfsws.Channel.{Channel, Queue, fresh, queue_channel}
use sosistab2_obfsws.Wsocks.Mux.{retain}
use sosistab2_obfsws.Wsocks.Server.Deadline.{
  silence, deadline_capacity, Manager, Meets, sleeps, broken, refresh, after_send, notify, timed,
  manager_round, manager_rounds,
}
use sosistab2_obfsws.Wsocks.Server.Deadline.Quiet.{manager_round-patient}
use sosistab2_obfsws.Wsocks.Server.Deadline.Silent.{manager_rounds-end}

abbrev deadlines : Channel (Unit {0})
deadlines = queue_channel (Unit {0})

-- The one message of a session's end.
abbrev ended : Queue (Unit {0})
ended = record (fresh deadline_capacity) { items = tt ∷ [] }

-- A session with one pipe, at the clock's 5.
abbrev one_pipe : Manager ℕ deadlines
one_pipe = record { pipes = 7 ∷ []; last_alive = 5; deadline = fresh deadline_capacity }

abbrev no_pipe : ℕ → Manager ℕ deadlines
no_pipe last = record { pipes = []; last_alive = last; deadline = fresh deadline_capacity }

abbrev found : Meets ℕ
found = record { added = []; alive = λ p. true; now = 9; later = 10 }

abbrev gone : ℕ → Meets ℕ
gone t = record { added = 8 ∷ []; alive = λ p. false; now = t; later = t }

abbrev after_end : Manager ℕ deadlines
after_end = record (no_pipe 9) { deadline = ended }

manager_round-patient_example : 9 + silence < 100_000_000_020
unfolding refresh retain manager_round manager_rounds timed notify after_send
manager_round-patient_example =
    manager_round-patient found (gone 100_000_000_020) (gone 50 ∷ []) one_pipe
      (record one_pipe { last_alive = 9 }) (no_pipe 9) after_end
      (
        (omega arith),
        ((omega arith), ((omega arith), ((omega arith), ((omega arith), ((omega arith), tt))))),
      )
      (omega arith) refl refl refl

-- The silence has lasted 100 seconds in the second round without a pipe, and longer in the third.
manager_rounds-end_example :
    ((s' : Manager ℕ deadlines) × (manager_rounds
          (gone 50 ∷ gone 100_000_000_009 ∷ [])
          (record one_pipe { last_alive = 9 })
        ≡ done (sleeps s')))
    × ((t : Manager ℕ deadlines) × (manager_rounds
            (gone 50 ∷ gone 100_000_000_009 ∷ gone 100_000_000_010 ∷ [])
            (record one_pipe { last_alive = 9 })
          ≡ done (broken t))
        × (t.deadline.items ≡ tt ∷ []))
unfolding refresh retain manager_round timed
manager_rounds-end_example =
    manager_rounds-end found (gone 100_000_000_010) (gone 50 ∷ gone 100_000_000_009 ∷ []) one_pipe
      (record one_pipe { last_alive = 9 }) (omega arith) refl (λ p. refl)
      (((λ p. refl), omega arith), (((λ p. refl), omega arith), tt)) (omega arith) refl
