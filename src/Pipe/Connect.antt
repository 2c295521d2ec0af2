-- ===== src/Pipe/Connect.antt =====
-- `ObfsWsPipe::connect` of src/pipe.rs: the address that is dialled, the request, and the pipe.
pub mod Address
pub mod Dialled
mod Tests
use sosistab2_obfsws.Base.{
  ℕ, zero, suc, ◌+◌, ◌/◌, ◌%◌, ◌^◌, ◌<◌, ◌≡◌, Bool, true, false, ◌&&◌, Option, none, some, List, [],
  ◌∷◌, ◌++◌, ltb, ◌==◌, if◌then◌else◌,
}
use sosistab2_obfsws.Base.Words.{Bytes}
use sosistab2_obfsws.Io.{ErrorKind, Result, ok, err, ◌>>=◌, Text, text_eq, codes}
use sosistab2_obfsws.Channel.{Channel}
use sosistab2_obfsws.Pipe.{ObfsWsPipe, Shared, new}

-- What `connect` takes of the crates `http`, `async_std` and `async_tungstenite`: a parsed address
-- and its parts, the request's builder, TCP connections, and the websocket handshake. A port that an
-- address names is a 16-bit number.
pub record WsClient : Type 1 where
  pub Uri : Type 0
  pub Request : Type 0
  pub TcpStream : Type 0
  pub Ws : Type 0
  pub parse : Text → Option Uri
  pub host : Uri → Option Text
  pub port_u16 : Uri → Option ℕ
  pub scheme_str : Uri → Option Text
  pub to_string : Uri → Text
  pub build : Text → Uri → List (Text × Text) → Option Request
  pub tcp_connect : Text → Result ErrorKind TcpStream
  pub set_nodelay : TcpStream → Result ErrorKind TcpStream
  pub client_async_tls : Request → TcpStream → Option Ws
  pub port_u16-lt : (uri : Uri) {port : ℕ} → port_u16 uri ≡ some port → port < 2 ^ 16

pub data ConnectError : Type 0 where
  bad_url no_host bad_request handshake_failed : ConnectError
  io : ErrorKind → ConnectError

abbrev pub or_connect {ℓ} : {A : Type ℓ} → Option A → ConnectError → Result ConnectError A
or_connect none e = err e
or_connect (some a) e = ok a

abbrev pub or_io {ℓ} : {A : Type ℓ} → Result ErrorKind A → Result ConnectError A
or_io (ok a) = ok a
or_io (err k) = err (io k)

-- `to_string` of a `u16`; five digits are enough.
unfoldable pub decimal : ℕ → ℕ → Text
decimal zero n = []
decimal (suc fuel) n =
    let rest = decimal fuel (n / 10) in
    if ltb n 10 then (48 + n) ∷ [] else rest ++ (48 + n % 10) ∷ []

abbrev pub port_digits : ℕ
port_digits = 5

-- The port of a scheme, where the address names none.
unfoldable pub default_port : Option Text → Option ℕ
default_port none = none
default_port (some scheme) =
    if text_eq scheme (codes "ws")
    then some 80
    else if text_eq scheme (codes "wss")
    then some 443
    else none

unfoldable pub effective_port : Option ℕ → Option Text → Option ℕ
effective_port (some port) scheme = some port
effective_port none scheme = default_port scheme

unfoldable pub with_port : Text → Option ℕ → Text
with_port host none = host
with_port host (some port) = host ++ codes ":" ++ decimal port_digits port

abbrev pub user_agent : Text
user_agent =
    codes
      "Mozilla/5.0 (Windows NT 10.0; Win64; x64) AppleWebKit/537.36 (KHTML, like Gecko) Chrome/120.0.0.0 Safari/537.36 Edg/120.0.0.0"

-- The headers of the request, in order.
unfoldable pub headers : Text → Text → List (Text × Text)
headers host metadata =
    (codes "Host", host)
    ∷ (codes "User-Agent", user_agent)
    ∷ (codes "Connection", codes "Upgrade")
    ∷ (codes "Upgrade", codes "websocket")
    ∷ (codes "Sec-Websocket-Version", codes "13")
    ∷ (codes "Sec-Websocket-Key", metadata)
    ∷ []

module _ (W : WsClient) where
  unfoldable pub address : W.Uri → Text → Text
  address uri host = with_port host (effective_port (W.port_u16 uri) (W.scheme_str uri))

module _ (W : WsClient) (C : Channel Bytes) where
  -- The calls of `connect`, in order, on an address that was parsed and has a host.
  unfoldable pub dial : W.Uri → Text → Text → Result ConnectError (ObfsWsPipe × Shared C)
  dial uri host peer_metadata = do
    req ←
        or_connect (W.build (codes "GET") uri (headers (address W uri host) peer_metadata))
          bad_request
    socket ← or_io (W.tcp_connect (address W uri host))
    socket' ← or_io (W.set_nodelay socket)
    inner ← or_connect (W.client_async_tls req socket') handshake_failed
    ok (new C (W.to_string uri) peer_metadata)

  unfoldable pub connect : Text → Text → Result ConnectError (ObfsWsPipe × Shared C)
  unfolding dial
  connect peer_url peer_metadata = do
    uri ← or_connect (W.parse peer_url) bad_url
    host ← or_connect (W.host uri) no_host
    dial uri host peer_metadata
