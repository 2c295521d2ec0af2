-- ===== src/Wsocks/Client/Socks/Answered.antt =====
-- What the SOCKS proxy of src/bin.todo/wsocks.rs has done where its task ends well.
use sosistab2_obfsws.Base.{ℕ, ◌≡◌, sym, [], ◌∷◌, ◌++◌}
use sosistab2_obfsws.Base.Words.{Bytes}
use sosistab2_obfsws.Io.{Result, ok, err, ok-injective, bind-succeeds}
use sosistab2_obfsws.Wsocks.Protocol.{
  NetworkError, OfferError, unable_connect, Protocol, tcp_connect,
}
use sosistab2_obfsws.Wsocks.Request.{RequestError}
use sosistab2_obfsws.Wsocks.Errors.{Socks, to_v4, to_v5}
use sosistab2_obfsws.Wsocks.Client.Proxy.{
  ProxyEnd, forwards, refused, or_proxy, or_answer, or_proxy-ok, or_answer-ok,
}
use sosistab2_obfsws.Wsocks.Client.Socks.{
  SocksVersion, v4, v5, SocksV5Host, ipv4, SocksServer, Wanted, wanted, grant, deny, settle,
  socks_task,
}

module _ (S : Socks) (C : SocksServer S) where
  -- The one message that tells a client of its connection.
  abbrev pub granted_message : SocksVersion → Wanted → Bytes
  granted_message v4 w = C.v4_status S.granted (0 ∷ 1 ∷ 1 ∷ 1 ∷ []) w.port
  granted_message v5 w = C.v5_status S.v5_success (SocksV5Host.domain (C.as_bytes w.dst)) w.port

  -- The one that tells it of an error.
  abbrev pub denied_message : SocksVersion → NetworkError → Bytes
  denied_message v4 e = C.v4_status (to_v4 S e) (0 ∷ 0 ∷ 0 ∷ 0 ∷ []) 0
  denied_message v5 e = C.v5_status (to_v5 S e) (ipv4 (0 ∷ 0 ∷ 0 ∷ 0 ∷ [])) 0

  grant-wrote :
      (v : SocksVersion) (w : Wanted) (c : C.Conn) {c' : C.Conn}
      → grant S C v w c ≡ ok c'
      → C.outgoing c' ≡ C.outgoing c ++ granted_message v w
  unfolding grant
  grant-wrote v4 w c h = C.v4_write_status-ok c S.granted _ w.port h
  grant-wrote v5 w c h = C.v5_write_status-ok c S.v5_success _ w.port h

  deny-wrote :
      (v : SocksVersion) (e : NetworkError) (c : C.Conn) {c' : C.Conn}
      → deny S C v e c ≡ ok c'
      → C.outgoing c' ≡ C.outgoing c ++ denied_message v e
  unfolding deny
  deny-wrote v4 e c h = C.v4_write_status-ok c (to_v4 S e) _ 0 h
  deny-wrote v5 e c h = C.v5_write_status-ok c (to_v5 S e) _ 0 h

module _ (S : Socks) (C : SocksServer S) {Stream : Type 0} where
  -- An offer is settled: with its id, or with its error.
  abbrev pub Settled :
      Wanted → Result OfferError ℕ → C.Conn → Stream → ProxyEnd C.Conn Stream → Type 0
  Settled w (ok id) c relconn end =
      (c' : C.Conn) × (end ≡ forwards id c' relconn)
      × (C.outgoing c' ≡ C.outgoing c ++ granted_message S C w.version w)
  Settled w (err (unable_connect e)) c relconn end =
      (c' : C.Conn) × (end ≡ refused c')
      × (C.outgoing c' ≡ C.outgoing c ++ denied_message S C w.version e)

  settle-Settled :
      (w : Wanted) (offer : Result OfferError ℕ) (c : C.Conn) (relconn : Stream)
      (end : ProxyEnd C.Conn Stream)
      → settle S C Stream w offer c relconn ≡ ok end
      → Settled w offer c relconn end
  unfolding settle
  settle-Settled w (ok id) c relconn end went =
      let (c', wrote, same) = bind-succeeds (or_proxy (grant S C w.version w c)) _ went in
      (c', sym (ok-injective same), grant-wrote S C w.version w c (or_proxy-ok _ wrote))
  settle-Settled w (err (unable_connect e)) c relconn end went =
      let (c', wrote, same) = bind-succeeds (or_proxy (deny S C w.version e c)) _ went in
      (c', sym (ok-injective same), deny-wrote S C w.version e c (or_proxy-ok _ wrote))

  -- What a task that ends well has done.
  pub record Answered (answer : Protocol → Result RequestError (Result OfferError ℕ × Stream))
      (conn : C.Conn) (end : ProxyEnd C.Conn Stream) : Type 0 where
    pub w : Wanted
    pub conn₁ : C.Conn
    pub offer : Result OfferError ℕ
    pub relconn : Stream
    pub asked : wanted S C conn ≡ ok (w, conn₁)
    pub offered : answer (tcp_connect w.dst w.port) ≡ ok (offer, relconn)
    pub settled : Settled w offer conn₁ relconn end

  -- Where the task of a SOCKS connection ends well, it has asked for the destination and the port of
  -- the client's request, and has written exactly one status after that: the one of a success,
  -- with the forwarding of this stream under the offered id to follow, or the one of the offer's
  -- error, with no forwarding.
  pub socks_task-Answered :
      (answer : Protocol → Result RequestError (Result OfferError ℕ × Stream)) (conn : C.Conn)
      (end : ProxyEnd C.Conn Stream)
      → socks_task S C Stream answer conn ≡ ok end
      → Answered answer conn end
  unfolding socks_task
  socks_task-Answered answer conn end went =
      let ((w, conn₁), asked, went₁) = bind-succeeds (wanted S C conn) _ went in
      let ((offer, relconn), offered, went₂) =
        bind-succeeds (or_answer (answer (tcp_connect w.dst w.port))) _ went₁ in
      record {
        w = w;
        conn₁ = conn₁;
        offer = offer;
        relconn = relconn;
        asked = asked;
        offered = or_answer-ok _ offered;
        settled = settle-Settled w offer conn₁ relconn end went₂;
      }
