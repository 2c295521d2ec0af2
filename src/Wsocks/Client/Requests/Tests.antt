-- ===== src/Wsocks/Client/Requests/Tests.antt =====
-- Two requests of src/bin.todo/wsocks.rs whose tasks end in the other order.
use sosistab2_obfsws.Base.{ℕ, zero, suc, ◌≡◌, refl, List, [], ◌∷◌}
use sosistab2_obfsws.Io.{Result, ok, err, codes}
use sosistab2_obfsws.Channel.{Channel, queue_channel, fresh}
use sosistab2_obfsws.Wsocks.Protocol.{Protocol, tcp_connect}
use sosistab2_obfsws.Wsocks.Request.{RequestError, unexpected_frame}
use sosistab2_obfsws.Wsocks.Client.Requests.{
  Event, asks, spawns, ends, takes, start, sent, spawned, answered, taken, finished, step, run,
}
use sosistab2_obfsws.Wsocks.Client.Requests.Placed.{Placed}
use sosistab2_obfsws.Wsocks.Client.Requests.Accounted.{run-Placed}

abbrev requests : Channel (Protocol × ℕ)
requests = queue_channel (Protocol × ℕ)

abbrev answers : Channel ℕ
answers = queue_channel ℕ

-- The task of a connection ends with its port.
abbrev port_of : Protocol × ℕ → Result RequestError ℕ
port_of (tcp_connect dst port, i) = ok port
port_of _ = err unexpected_frame

abbrev both : List Event
both =
    asks (tcp_connect (codes "a") 80)
    ∷ asks (tcp_connect (codes "b") 443)
    ∷ spawns
    ∷ spawns
    ∷ ends (suc zero)
    ∷ takes 1
    ∷ ends zero
    ∷ takes 0
    ∷ []

received-both :
    (run {Q = requests} {R = answers} port_of both (start (fresh 9))).received
    ≡ (1, 443) ∷ (0, 80) ∷ []
unfolding run step start sent spawned answered taken finished
received-both = refl

run-Placed_example :
    Placed {Q = requests} {R = answers} port_of 1 (run port_of both (start (fresh 9)))
run-Placed_example = run-Placed requests answers port_of both (fresh 9) 1 refl
