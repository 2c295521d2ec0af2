-- ===== src/Wsocks/Client/Socks/Tests.antt =====
-- The SOCKS proxy of src/bin.todo/wsocks.rs at concrete inputs.
use sosistab2_obfsws.Base.{ℕ, ◌≡◌, refl, true, [], ◌∷◌, ◌++◌, arith, replicate}
use sosistab2_obfsws.Base.Words.{Bytes, to_be_bytes}
use sosistab2_obfsws.Base.Slices.{done}
use sosistab2_obfsws.Io.{connection_reset, Result, ok, err}
use sosistab2_obfsws.Transport.{Wire, wire}
use sosistab2_obfsws.Wsocks.Protocol.{
  connection_refused, OfferError, unable_connect, Protocol, tcp_connect, frame_from,
}
use sosistab2_obfsws.Wsocks.Frame.{send}
use sosistab2_obfsws.Wsocks.Frame.Sample.{sample_bincode}
use sosistab2_obfsws.Wsocks.Errors.{from_io, to_v5}
use sosistab2_obfsws.Wsocks.Errors.Sample.{sample_socks}
use sosistab2_obfsws.Wsocks.Request.{
  Net, RequestError, request, await_offer, offer_for, end_of, serve_request,
}
use sosistab2_obfsws.Wsocks.Client.Proxy.{ProxyEnd, forwards, refused}
use sosistab2_obfsws.Wsocks.Client.Socks.{
  v5, Wanted, read_wanted, wanted, grant, deny, settle, socks_task,
}
use sosistab2_obfsws.Wsocks.Client.Socks.Told.{Told, socks_served}
use sosistab2_obfsws.Wsocks.Client.Socks.Sample.{sample_server, client}

abbrev after_request : Wire
after_request = record { input = []; output = 5 ∷ 0 ∷ [] }

abbrev hi : ℕ → Wanted
hi port = record { version = v5; dst = 104 ∷ 105 ∷ []; port = port }

abbrev offers : Protocol → Result RequestError (Result OfferError ℕ × ℕ)
offers req = ok (ok 7, 3)

socks_task-runs :
    socks_task sample_socks sample_server ℕ offers client
    ≡ ok (forwards 7 (record { input = []; output = 5 ∷ 0 ∷ 0 ∷ 81 ∷ [] }) 3)
unfolding socks_task wanted read_wanted settle grant
socks_task-runs = refl

socks_task-v4 :
    socks_task sample_socks sample_server ℕ
      (λ req. ok (err (unable_connect connection_refused), 3))
      (record { input = 4 ∷ 81 ∷ 104 ∷ []; output = [] })
    ≡ ok (refused (record { input = []; output = 91 ∷ 0 ∷ [] }))
unfolding socks_task wanted read_wanted settle deny sosistab2_obfsws.Wsocks.Errors.to_v4
socks_task-v4 = refl

-- Every connection is reset.
abbrev closed_net : Net
closed_net = record { Tcp = ℕ; connect = λ dst port. err connection_reset; debug = λ k. [] }

abbrev asked : Bytes
asked = 0 ∷ 39 ∷ replicate 33 0 ++ 1 ∷ 81 ∷ 2 ∷ 104 ∷ 105 ∷ 0 ∷ []

abbrev stream : Bytes → Wire
stream bytes = record { input = bytes; output = [] }

wanted-hi : wanted sample_socks sample_server client ≡ ok (hi 81, after_request)
unfolding wanted read_wanted
wanted-hi = refl

asked-sent :
    request sample_bincode wire 1 (tcp_connect (104 ∷ 105 ∷ []) 81) (stream [])
    ≡ ok (record { input = []; output = asked })
unfolding request send frame_from to_be_bytes
asked-sent = refl

socks_served_example :
    (d' : Wire) × (reply : Bytes) × (serve_request sample_bincode wire closed_net true 1 5
        (stream asked)
      ≡ done (end_of sample_bincode wire closed_net true 5 (err connection_reset) d'))
    × (d'.output ≡ reply)
    × ((c₁ : Wire) (rest' : Bytes) (end : ProxyEnd Wire Wire)
        → c₁.input ≡ reply ++ rest'
        → socks_task sample_socks sample_server Wire
            (λ req. await_offer sample_bincode wire c₁)
            client
          ≡ ok end
        → Told sample_socks sample_server closed_net true 5
            (err connection_reset)
            after_request
            end)
unfolding offer_for send frame_from from_io
socks_served_example =
    socks_served sample_bincode wire sample_socks sample_server closed_net true 1 1 5 (hi 81) client
      after_request (stream []) (record { input = []; output = asked }) (stream asked) asked [] refl
      wanted-hi (omega arith) (omega arith) asked-sent refl refl (λ d₁. (_, refl))
