-- ===== src/Listener/Run/Tests.antt =====
-- A listener of src/listener.rs through a few events.
use sosistab2_obfsws.Base.{zero, ◌≡◌, refl, none, some, [], ◌∷◌}
use sosistab2_obfsws.Base64.Sample.{sample_base64}
use sosistab2_obfsws.Channel.{fresh}
use sosistab2_obfsws.Pipe.{new}
use sosistab2_obfsws.Listener.{pipe_get_metadata, serve_connection, accept}
use sosistab2_obfsws.Listener.Sample.{sample_http, M, C, P, sample_upgrade, key}
use sosistab2_obfsws.Listener.Run.{
  connects, resumes, accepts_one, start, ended, resumed, given, step, run,
}
use sosistab2_obfsws.Listener.Run.Named.{AllNamed, run-AllNamed}

-- A peer with a key, one without, two calls of `accept`, and no task that waits.
run_events :
    run sample_base64 sample_http M C P sample_upgrade
      (connects (some key) ∷ connects none ∷ accepts_one ∷ accepts_one ∷ resumes zero ∷ [])
      start
    ≡ record { pipes = fresh 1000; waiting = []; accepted = (new C [] key).0 ∷ [] }
unfolding run step start ended resumed given serve_connection accept new pipe_get_metadata
run_events = refl

run-AllNamed_example : AllNamed sample_base64 sample_http M C P sample_upgrade (
    run sample_base64 sample_http M C P sample_upgrade
      (connects (some key) ∷ connects none ∷ accepts_one ∷ [])
      start)
run-AllNamed_example =
    run-AllNamed sample_base64 sample_http M C P sample_upgrade
      (connects (some key) ∷ connects none ∷ accepts_one ∷ [])
