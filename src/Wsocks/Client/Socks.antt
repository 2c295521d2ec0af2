-- ===== src/Wsocks/Client/Socks.antt =====
-- The task of `socks_fut` in src/bin.todo/wsocks.rs: one connection to the local SOCKS proxy, up to the
-- forwarding of its traffic.
pub mod Answered
pub mod Told
pub mod Sample
mod Tests
use sosistab2_obfsws.Base.{ℕ, ◌≡◌, Option, List, [], ◌∷◌, ◌++◌}
use sosistab2_obfsws.Base.Words.{Bytes}
use sosistab2_obfsws.Io.{ErrorKind, Result, ok, err, Text, ◌>>=◌}
use sosistab2_obfsws.Wsocks.Protocol.{
  NetworkError, OfferError, unable_connect, Protocol, tcp_connect,
}
use sosistab2_obfsws.Wsocks.Request.{RequestError}
use sosistab2_obfsws.Wsocks.Client.Proxy.{
  ProxyError, ProxyEnd, forwards, refused, or_proxy, or_answer,
}
use sosistab2_obfsws.Wsocks.Errors.{Socks, to_v4, to_v5}

-- `SocksVersion`, `SocksV4Host` and `SocksV5Host`
pub data SocksVersion : Type 0 where
  v4 v5 : SocksVersion

pub data SocksV4Host : Type 0 where
  ip : Bytes → SocksV4Host
  domain : Bytes → SocksV4Host

pub data SocksV5Host : Type 0 where
  ipv4 : Bytes → SocksV5Host
  ipv6 : Bytes → SocksV5Host
  domain : Bytes → SocksV5Host

-- What the task takes from the SOCKS crate: the reads of a handshake and a request, and the writes,
-- each of which adds the bytes of one message. Beside them, the standard library's texts.
pub record SocksServer (S : Socks) : Type 1 where
  pub Conn : Type 0
  pub outgoing : Conn → Bytes
  pub read_version : Conn → Result ErrorKind (SocksVersion × Conn)
  pub v4_read_request : Conn → Result ErrorKind ((SocksV4Host × ℕ) × Conn)
  pub v5_read_handshake : Conn → Result ErrorKind Conn
  pub v5_write_no_auth : Conn → Result ErrorKind Conn
  pub v5_read_request : Conn → Result ErrorKind ((SocksV5Host × ℕ) × Conn)
  pub v4_write_status : Conn → S.SocksV4RequestStatus → Bytes → ℕ → Result ErrorKind Conn
  pub v5_write_status : Conn → S.SocksV5RequestStatus → SocksV5Host → ℕ → Result ErrorKind Conn
  pub ipv4_text : Bytes → Text
  pub ipv6_text : Bytes → Text
  pub from_utf8_lossy : Bytes → Text
  pub as_bytes : Text → Bytes
  pub v4_status : S.SocksV4RequestStatus → Bytes → ℕ → Bytes
  pub v5_status : S.SocksV5RequestStatus → SocksV5Host → ℕ → Bytes
  pub v4_write_status-ok :
      (c : Conn) (status : S.SocksV4RequestStatus) (host : Bytes) (port : ℕ) {c' : Conn}
      → v4_write_status c status host port ≡ ok c'
      → outgoing c' ≡ outgoing c ++ v4_status status host port
  pub v5_write_status-ok :
      (c : Conn) (status : S.SocksV5RequestStatus) (host : SocksV5Host) (port : ℕ) {c' : Conn}
      → v5_write_status c status host port ≡ ok c'
      → outgoing c' ≡ outgoing c ++ v5_status status host port

-- What a client has asked for.
pub record Wanted : Type 0 where
  pub version : SocksVersion
  pub dst : Text
  pub port : ℕ

module _ (S : Socks) (C : SocksServer S) where
  abbrev pub v4_dst : SocksV4Host → Text
  v4_dst (ip ip4) = C.ipv4_text ip4
  v4_dst (SocksV4Host.domain name) = C.from_utf8_lossy name

  abbrev pub v5_dst : SocksV5Host → Text
  v5_dst (ipv4 ip4) = C.ipv4_text ip4
  v5_dst (ipv6 ip6) = C.ipv6_text ip6
  v5_dst (SocksV5Host.domain name) = C.from_utf8_lossy name

  -- The match on the version.
  unfoldable pub read_wanted : SocksVersion → C.Conn → Result ProxyError (Wanted × C.Conn)
  read_wanted v4 conn = do
    ((host, port), conn₁) ← or_proxy (C.v4_read_request conn)
    ok (record { version = v4; dst = v4_dst host; port = port }, conn₁)
  read_wanted v5 conn = do
    conn₁ ← or_proxy (C.v5_read_handshake conn)
    conn₂ ← or_proxy (C.v5_write_no_auth conn₁)
    ((host, port), conn₃) ← or_proxy (C.v5_read_request conn₂)
    ok (record { version = v5; dst = v5_dst host; port = port }, conn₃)

  unfoldable pub wanted : C.Conn → Result ProxyError (Wanted × C.Conn)
  wanted conn = do (version, conn₁) ← or_proxy (C.read_version conn); read_wanted version conn₁

  -- The status of a connection that was made.
  unfoldable pub grant : SocksVersion → Wanted → C.Conn → Result ErrorKind C.Conn
  grant v4 w conn = C.v4_write_status conn S.granted (0 ∷ 1 ∷ 1 ∷ 1 ∷ []) w.port
  grant v5 w conn =
      C.v5_write_status conn S.v5_success (SocksV5Host.domain (C.as_bytes w.dst)) w.port

  -- The status of one that was not.
  unfoldable pub deny : SocksVersion → NetworkError → C.Conn → Result ErrorKind C.Conn
  deny v4 e conn = C.v4_write_status conn (to_v4 S e) (0 ∷ 0 ∷ 0 ∷ 0 ∷ []) 0
  deny v5 e conn = C.v5_write_status conn (to_v5 S e) (ipv4 (0 ∷ 0 ∷ 0 ∷ 0 ∷ [])) 0

module _ (S : Socks) (C : SocksServer S) (Stream : Type 0) where
  -- The match on the offer.
  unfoldable pub settle :
      Wanted → Result OfferError ℕ → C.Conn → Stream → Result ProxyError (ProxyEnd C.Conn Stream)
  settle w (ok id) conn relconn = do
    conn' ← or_proxy (grant S C w.version w conn)
    ok (forwards id conn' relconn)
  settle w (err (unable_connect e)) conn relconn = do
    conn' ← or_proxy (deny S C w.version e conn)
    ok (refused conn')

  -- The task. `answer` is what the request's task ends with.
  unfoldable pub socks_task :
      (Protocol → Result RequestError (Result OfferError ℕ × Stream))
      → C.Conn
      → Result ProxyError (ProxyEnd C.Conn Stream)
  socks_task answer conn = do
    (w, conn₁) ← wanted S C conn
    (offer, relconn) ← or_answer (answer (tcp_connect w.dst w.port))
    settle w offer conn₁ relconn
