-- ===== src/Wsocks/Client/Fronts/Tests.antt =====
-- A SOCKS connection and an HTTP connection of src/bin.todo/wsocks.rs at once.
use sosistab2_obfsws.Base.{ℕ, zero, suc, ◌≡◌, refl, List, [], ◌∷◌}
use sosistab2_obfsws.Base.Choice.{All}
use sosistab2_obfsws.Base.Slices.{done}
use sosistab2_obfsws.Io.{Result, ok, err, codes}
use sosistab2_obfsws.Transport.{Wire}
use sosistab2_obfsws.Channel.{Channel, queue_channel, fresh}
use sosistab2_obfsws.Wsocks.Protocol.{OfferError, Protocol, tcp_connect}
use sosistab2_obfsws.Wsocks.Request.{RequestError, unexpected_frame}
use sosistab2_obfsws.Wsocks.Errors.Sample.{sample_socks}
use sosistab2_obfsws.Wsocks.Client.Proxy.{forwards}
use sosistab2_obfsws.Wsocks.Client.Socks.{read_wanted, wanted, grant, settle}
use sosistab2_obfsws.Wsocks.Client.Socks.Sample.{sample_server, client}
use sosistab2_obfsws.Wsocks.Client.Http.{established, establish}
use sosistab2_obfsws.Wsocks.Client.Http.Sample.{sample_http}
use sosistab2_obfsws.Wsocks.Client.Requests
use sosistab2_obfsws.Wsocks.Client.Requests.{sent, spawned, answered, taken, finished}
use sosistab2_obfsws.Wsocks.Client.Fronts.{
  Connection, to_socks, to_http, settled, has_wanted, socks_front, tunnelled, has_url, has_decoded,
  http_front, front, Happening, arrives, spawns, ends, resumes, opens, queued, arrived, got, looks,
  happens, happen, numbered,
}
use sosistab2_obfsws.Wsocks.Client.Fronts.Alone.{IsAsAlone, happen-IsAsAlone}

abbrev requests : Channel (Protocol × ℕ)
requests = queue_channel (Protocol × ℕ)

abbrev offers : Channel (Result OfferError ℕ × ℕ)
offers = queue_channel (Result OfferError ℕ × ℕ)

-- The task of a request ends with its port for the id, and its number for the stream.
abbrev serve : Protocol × ℕ → Result RequestError (Result OfferError ℕ × ℕ)
serve (tcp_connect dst port, i) = ok (ok port, i)
serve _ = err unexpected_frame

abbrev browser : Wire
browser = record { input = codes "CONNECT"; output = [] }

-- The tasks of the requests end in the other order.
abbrev crossing : List (Happening (Connection Wire Wire))
crossing =
    arrives (to_socks client)
    ∷ arrives (to_http browser)
    ∷ spawns
    ∷ spawns
    ∷ resumes 0
    ∷ ends (suc zero)
    ∷ resumes 1
    ∷ ends zero
    ∷ resumes 0
    ∷ []

told-crossing :
    (happen {Q = requests} {R = offers}
      (front sample_socks sample_server sample_http ℕ)
      serve
      crossing
      (opens (fresh 9))).told
    ≡ (
      numbered 1,
      (
        to_http browser,
        to_http (done (ok (forwards 443 (record { input = []; output = established }) 1))),
      ),
    )
      ∷ (
        numbered 0,
        (
          to_socks client,
          to_socks (ok (forwards 81 (record { input = []; output = 5 ∷ 0 ∷ 0 ∷ 81 ∷ [] }) 0)),
        ),
      )
      ∷ []
unfolding happen happens arrived queued looks got opens front socks_front has_wanted settled
    http_front has_decoded has_url tunnelled wanted read_wanted settle grant establish
    Requests.start Requests.step sent spawned answered taken finished
told-crossing = refl

happen-IsAsAlone_example :
    All
      (IsAsAlone sample_socks sample_server sample_http ℕ serve)
      (happen {Q = requests} {R = offers}
        (front sample_socks sample_server sample_http ℕ)
        serve
        crossing
        (opens (fresh 9))).told
happen-IsAsAlone_example =
    happen-IsAsAlone sample_socks sample_server sample_http ℕ requests offers serve crossing
      (fresh 9) refl
