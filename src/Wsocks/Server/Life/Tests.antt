-- ===== src/Wsocks/Server/Life/Tests.antt =====
-- A session of src/bin.todo/wsocks.rs that a forwarding task leaves running.
use sosistab2_obfsws.Base.{ℕ, ◌≡◌, ◌≢◌, refl, none, some, false, List, [], ◌∷◌, ◌++◌, arith}
use sosistab2_obfsws.Io.{ok}
use sosistab2_obfsws.Channel.{Channel, queue_channel}
use sosistab2_obfsws.Wsocks.Forward.{check_deadline}
use sosistab2_obfsws.Wsocks.Mux.{retain}
use sosistab2_obfsws.Wsocks.Server.Deadline.{refresh, timed, notify, after_send, manager_round}
use sosistab2_obfsws.Wsocks.Server.Life.{
  deadline_reached, Event, adds_pipe, manages, passes, forward_tests, start, managed, manage,
  accepted, tested, pass, step, run,
}
use sosistab2_obfsws.Wsocks.Server.Life.Signal.{IsSignalled, run-IsSignalled}
use sosistab2_obfsws.Wsocks.Server.Life.Ends.{run-never_ends}

abbrev deadlines : Channel (Unit {0})
deadlines = queue_channel (Unit {0})

-- A stream is accepted, the one pipe goes, 101 seconds pass, and the stream's task tests first.
abbrev silent : List (Event ℕ ℕ)
silent =
    adds_pipe 7
    ∷ passes (some (ok 5))
    ∷ manages (record { added = []; alive = λ p. false; now = 0; later = 101_000_000_000 })
    ∷ forward_tests
    ∷ []

abbrev passes_on : List (Event ℕ ℕ)
passes_on = passes none ∷ passes (some (ok 6)) ∷ []

run-IsSignalled_example :
    IsSignalled (run (silent ++ passes_on) (start {Pipe = ℕ} {Stream = ℕ} {D = deadlines} 0))
run-IsSignalled_example = run-IsSignalled ℕ ℕ deadlines (silent ++ passes_on) 0

stops : (run silent (start {Pipe = ℕ} {Stream = ℕ} {D = deadlines} 0)).stopped ≡ 1
unfolding run step start managed manage accepted tested pass check_deadline manager_round timed
    notify after_send refresh retain
stops = refl

run-never_ends_example :
    (run passes_on (run silent (start {Pipe = ℕ} {Stream = ℕ} {D = deadlines} 0))).ended
    ≢ some deadline_reached
run-never_ends_example = run-never_ends ℕ ℕ deadlines silent passes_on 0 (omega (arith, stops))
