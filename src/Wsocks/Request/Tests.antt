-- ===== src/Wsocks/Request/Tests.antt =====
-- A request and its answer in src/bin.todo/wsocks.rs at concrete inputs.
use sosistab2_obfsws.Base.{ℕ, ◌≡◌, refl, true, [], ◌∷◌, ◌++◌, arith, ◌==◌, if◌then◌else◌, replicate}
use sosistab2_obfsws.Base.Words.{Bytes, to_be_bytes}
use sosistab2_obfsws.Base.Slices.{done}
use sosistab2_obfsws.Io.{connection_reset, ok, err}
use sosistab2_obfsws.Transport.{Wire, wire}
use sosistab2_obfsws.Wsocks.Protocol.{connection_refused, unable_connect, tcp_connect, frame_from}
use sosistab2_obfsws.Wsocks.Frame.{send}
use sosistab2_obfsws.Wsocks.Frame.Sample.{sample_bincode}
use sosistab2_obfsws.Wsocks.Errors.{from_io}
use sosistab2_obfsws.Wsocks.Request.{
  Net, forwards, refuses, request, await_offer, offer_for, end_of, serve_request,
}
use sosistab2_obfsws.Wsocks.Request.Served.{request_served}

-- A network where port 80 alone is open; a connection is its port.
abbrev sample_net : Net
sample_net = record {
  Tcp = ℕ;
  connect = λ dst port. if port == 80 then ok port else err connection_reset;
  debug = λ k. [];
}

abbrev stream : Bytes → Wire
stream bytes = record { input = bytes; output = [] }

-- A request for the port, with a destination of two letters and a padding of one byte.
abbrev asked : ℕ → Bytes
asked port = 0 ∷ 39 ∷ replicate 33 0 ++ 1 ∷ port ∷ 2 ∷ 104 ∷ 105 ∷ 0 ∷ []

request-sent :
    request sample_bincode wire 1 (tcp_connect (104 ∷ 105 ∷ []) 80) (stream [])
    ≡ ok (record { input = []; output = asked 80 })
unfolding request send frame_from to_be_bytes
request-sent = refl

request_served_example :
    (d' : Wire) × (reply : Bytes) × (serve_request sample_bincode wire sample_net true 1 5
        (stream (asked 80 ++ 9 ∷ []))
      ≡ done (forwards 5 80 d'))
    × (d'.input ≡ 9 ∷ [])
    × (d'.output ≡ reply)
    × ((c₁ : Wire) (rest' : Bytes)
        → c₁.input ≡ reply ++ rest'
        → (c₂ : Wire) × (await_offer sample_bincode wire c₁ ≡ ok (ok 5, c₂)) × (c₂.input ≡ rest'))
unfolding offer_for end_of send frame_from
request_served_example =
    request_served sample_bincode wire sample_net true 1 1 5 80 (104 ∷ 105 ∷ []) (stream [])
      (record { input = []; output = asked 80 }) (stream (asked 80 ++ 9 ∷ [])) (asked 80) (9 ∷ [])
      (omega arith) (omega arith) request-sent refl refl (λ d₁. (_, refl))

request-refused_sent :
    request sample_bincode wire 1 (tcp_connect (104 ∷ 105 ∷ []) 81) (stream [])
    ≡ ok (record { input = []; output = asked 81 })
unfolding request send frame_from to_be_bytes
request-refused_sent = refl

request-refused :
    (d' : Wire) × (reply : Bytes) × (serve_request sample_bincode wire sample_net true 1 5
        (stream (asked 81))
      ≡ done (refuses d'))
    × (d'.input ≡ [])
    × (d'.output ≡ reply)
    × ((c₁ : Wire) (rest' : Bytes)
        → c₁.input ≡ reply ++ rest'
        → (c₂ : Wire) × (await_offer sample_bincode wire c₁
            ≡ ok (err (unable_connect connection_refused), c₂))
          × (c₂.input ≡ rest'))
unfolding offer_for end_of send frame_from from_io
request-refused =
    request_served sample_bincode wire sample_net true 1 1 5 81 (104 ∷ 105 ∷ []) (stream [])
      (record { input = []; output = asked 81 }) (stream (asked 81)) (asked 81) [] (omega arith)
      (omega arith) request-refused_sent refl refl (λ d₁. (_, refl))
