-- ===== src/Wsocks/Client/Http.antt =====
-- The task of `http_fut` in src/bin.todo/wsocks.rs: one connection to the local HTTP proxy, up to the
-- forwarding of its traffic.
pub mod Handled
pub mod Sample
mod Tests
use sosistab2_obfsws.Base.{ℕ, ◌≡◌, Bool, Option, none, some, List, [], ◌∷◌, ◌++◌, if◌then◌else◌}
use sosistab2_obfsws.Base.Words.{Bytes}
use sosistab2_obfsws.Base.Slices.{Exec, done, panic}
use sosistab2_obfsws.Io.{ErrorKind, Result, ok, err, Text, text_eq, codes, ◌>>=◌}
use sosistab2_obfsws.Wsocks.Protocol.{OfferError, Protocol, tcp_connect}
use sosistab2_obfsws.Wsocks.Request.{RequestError}
use sosistab2_obfsws.Wsocks.Client.Proxy.{
  ProxyError, bad_request, no_answer, ProxyEnd, forwards, refused, or_proxy,
}

-- What the task takes of `async_h1::server::decode` and the request that it gives, and of the TCP
-- connection, on which a write adds its bytes and a close none.
pub record HttpServer : Type 1 where
  pub Conn : Type 0
  pub Request : Type 0
  pub outgoing : Conn → Bytes
  pub decode : Conn → Result ErrorKind (Option (Request × Conn))
  pub method : Request → Text
  pub host_str : Request → Option Text
  pub port_or_known_default : Request → Option ℕ
  pub write_all : Conn → Bytes → Result ErrorKind Conn
  pub close : Conn → Result ErrorKind Conn
  pub write_all-ok :
      (c : Conn) (bytes : Bytes) {c' : Conn}
      → write_all c bytes ≡ ok c'
      → outgoing c' ≡ outgoing c ++ bytes
  pub close-ok : (c : Conn) {c' : Conn} → close c ≡ ok c' → outgoing c' ≡ outgoing c

-- The two answers, with their line ends.
abbrev pub established : Bytes
established = codes "HTTP/1.0 200 Connection established" ++ (13 ∷ 10 ∷ 13 ∷ 10 ∷ [])

abbrev pub unsupported : Bytes
unsupported = codes "HTTP/1.0 400 unsupported non-CONNECT request" ++ (13 ∷ 10 ∷ 13 ∷ 10 ∷ [])

module _ (H : HttpServer) (Stream : Type 0) where
  -- A method other than CONNECT.
  unfoldable pub reject : H.Conn → Result ProxyError (ProxyEnd H.Conn Stream)
  reject conn = do
    conn' ← or_proxy (H.write_all conn unsupported)
    conn'' ← or_proxy (H.close conn')
    ok (refused conn'')

  unfoldable pub establish : ℕ → H.Conn → Stream → Result ProxyError (ProxyEnd H.Conn Stream)
  establish id conn relconn = do
    conn' ← or_proxy (H.write_all conn established)
    ok (forwards id conn' relconn)

  -- The match on the offer; `todo!()` panics.
  unfoldable pub tunnel :
      H.Conn
      → Result RequestError (Result OfferError ℕ × Stream)
      → Exec (Result ProxyError (ProxyEnd H.Conn Stream))
  tunnel conn (err e) = done (err no_answer)
  tunnel conn (ok (ok id, relconn)) = done (establish id conn relconn)
  tunnel conn (ok (err e, relconn)) = panic

module _ (H : HttpServer) (Stream : Type 0)
    (answer : Protocol → Result RequestError (Result OfferError ℕ × Stream)) where
  -- CONNECT, by the host and the port of its URL; `answer` is what the request's task ends with.
  unfoldable pub ask :
      H.Conn → Option Text → Option ℕ → Exec (Result ProxyError (ProxyEnd H.Conn Stream))
  ask conn none port = done (err bad_request)
  ask conn (some dst) none = done (err bad_request)
  ask conn (some dst) (some port) = tunnel H Stream conn (answer (tcp_connect dst port))

  -- The match on the method.
  unfoldable pub handle_request :
      H.Request → H.Conn → Exec (Result ProxyError (ProxyEnd H.Conn Stream))
  handle_request req conn =
      if text_eq (H.method req) (codes "CONNECT")
      then ask conn (H.host_str req) (H.port_or_known_default req)
      else done (reject H Stream conn)

  -- What follows `decode`, whose error and whose end without a request panic.
  unfoldable pub decoded :
      Result ErrorKind (Option (H.Request × H.Conn))
      → Exec (Result ProxyError (ProxyEnd H.Conn Stream))
  decoded (err k) = panic
  decoded (ok none) = panic
  decoded (ok (some (req, conn))) = handle_request req conn

  unfoldable pub http_task : H.Conn → Exec (Result ProxyError (ProxyEnd H.Conn Stream))
  http_task conn = decoded (H.decode conn)
