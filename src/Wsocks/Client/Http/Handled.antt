-- ===== src/Wsocks/Client/Http/Handled.antt =====
-- What the HTTP proxy of src/bin.todo/wsocks.rs does with a request.
use sosistab2_obfsws.Base.{
  ℕ, ◌≡◌, ◌↔◌, ◌⊎◌, refl, sym, ◌∙◌, Bool, Bool-cases, inl, inr, true, false, Option, none, some,
  ◌++◌,
}
use sosistab2_obfsws.Base.Slices.{done, panic, done-injective}
use sosistab2_obfsws.Io.{Result, ok, err, ok-injective, bind-succeeds, Text, text_eq, codes}
use sosistab2_obfsws.Wsocks.Protocol.{OfferError, Protocol, tcp_connect}
use sosistab2_obfsws.Wsocks.Request.{RequestError}
use sosistab2_obfsws.Wsocks.Client.Proxy.{ProxyEnd, forwards, refused, or_proxy, or_proxy-ok}
use sosistab2_obfsws.Wsocks.Client.Http.{
  HttpServer, established, unsupported, reject, establish, tunnel, ask, handle_request, decoded,
  http_task,
}

module _ (H : HttpServer) {Stream : Type 0} where
  reject-wrote :
      (conn : H.Conn) (end : ProxyEnd H.Conn Stream)
      → reject H Stream conn ≡ ok end
      → (c' : H.Conn) × (end ≡ refused c') × (H.outgoing c' ≡ H.outgoing conn ++ unsupported)
  unfolding reject
  reject-wrote conn end went =
      let (c₁, wrote, went₁) = bind-succeeds (or_proxy (H.write_all conn unsupported)) _ went in
      let (c₂, closed, went₂) = bind-succeeds (or_proxy (H.close c₁)) _ went₁ in
      (
        c₂,
        sym (ok-injective went₂),
        H.close-ok c₁ (or_proxy-ok _ closed)
            ∙ H.write_all-ok conn unsupported (or_proxy-ok _ wrote),
      )

  establish-wrote :
      (id : ℕ) (conn : H.Conn) (relconn : Stream) (end : ProxyEnd H.Conn Stream)
      → establish H Stream id conn relconn ≡ ok end
      → (c' : H.Conn) × (end ≡ forwards id c' relconn)
        × (H.outgoing c' ≡ H.outgoing conn ++ established)
  unfolding establish
  establish-wrote id conn relconn end went =
      let (c₁, wrote, went₁) = bind-succeeds (or_proxy (H.write_all conn established)) _ went in
      (c₁, sym (ok-injective went₁), H.write_all-ok conn established (or_proxy-ok _ wrote))

  -- A CONNECT that was served.
  pub record Tunnelled (answer : Protocol → Result RequestError (Result OfferError ℕ × Stream))
      (req : H.Request) (conn : H.Conn) (end : ProxyEnd H.Conn Stream) : Type 0 where
    pub dst : Text
    pub port : ℕ
    pub id : ℕ
    pub relconn : Stream
    pub conn' : H.Conn
    pub has_host : H.host_str req ≡ some dst
    pub has_port : H.port_or_known_default req ≡ some port
    pub offered : answer (tcp_connect dst port) ≡ ok (ok id, relconn)
    pub forwarded : end ≡ forwards id conn' relconn
    pub wrote : H.outgoing conn' ≡ H.outgoing conn ++ established

  -- A request of another method, which was turned down.
  abbrev pub Rejected : H.Conn → ProxyEnd H.Conn Stream → Type 0
  Rejected conn end =
      (c' : H.Conn) × (end ≡ refused c') × (H.outgoing c' ≡ H.outgoing conn ++ unsupported)

module _ (H : HttpServer) {Stream : Type 0}
    (answer : Protocol → Result RequestError (Result OfferError ℕ × Stream)) where
  abbrev is_connect : H.Request → Bool
  is_connect req = text_eq (H.method req) (codes "CONNECT")

  tunnel-ok :
      (conn : H.Conn) (r : Result RequestError (Result OfferError ℕ × Stream))
      (end : ProxyEnd H.Conn Stream)
      → tunnel H Stream conn r ≡ done (ok end)
      → (id : ℕ) × (relconn : Stream) × (r ≡ ok (ok id, relconn))
        × (establish H Stream id conn relconn ≡ ok end)
  unfolding tunnel
  tunnel-ok conn (err e) end went = cc
  tunnel-ok conn (ok (ok id, relconn)) end went = (id, relconn, refl, done-injective went)
  tunnel-ok conn (ok (err e, relconn)) end went = cc

  ask-Tunnelled :
      (req : H.Request) (conn : H.Conn) (host : Option Text) (port : Option ℕ)
      (end : ProxyEnd H.Conn Stream)
      → H.host_str req ≡ host
      → H.port_or_known_default req ≡ port
      → ask H Stream answer conn host port ≡ done (ok end)
      → Tunnelled H answer req conn end
  unfolding ask
  ask-Tunnelled req conn none port end h p went = cc
  ask-Tunnelled req conn (some dst) none end h p went = cc
  ask-Tunnelled req conn (some dst) (some port) end h p went =
      let (id, relconn, offered, went') = tunnel-ok conn _ end went in
      let (conn', forwarded, wrote) = establish-wrote H id conn relconn end went' in
      record {
        dst = dst;
        port = port;
        id = id;
        relconn = relconn;
        conn' = conn';
        has_host = h;
        has_port = p;
        offered = offered;
        forwarded = forwarded;
        wrote = wrote;
      }

  -- Where the task of an HTTP connection ends well, it has either served a CONNECT, which asked for
  -- the host and the port of the request's URL, was told of its connection by exactly one answer, and
  -- is forwarded under the offered id; or turned down a request of another method by exactly one
  -- answer of status 400, with nothing asked of the server.
  pub http_task-Handled :
      (conn conn₁ : H.Conn) (req : H.Request) (end : ProxyEnd H.Conn Stream)
      → H.decode conn ≡ ok (some (req, conn₁))
      → http_task H Stream answer conn ≡ done (ok end)
      → ((is_connect req ≡ true) × Tunnelled H answer req conn₁ end)
        ⊎ ((is_connect req ≡ false) × Rejected H conn₁ end)
  unfolding http_task decoded handle_request
  http_task-Handled conn conn₁ req end d went = elim (Bool-cases (is_connect req)) [
    | inl connects ↦
        inl (connects, ask-Tunnelled req conn₁ _ _ end refl refl (rw (d, connects) at went))
    | inr other ↦ inr (other, reject-wrote H conn₁ end (done-injective (rw (d, other) at went)))
  ]

  tunnel-panics :
      (conn : H.Conn) (r : Result RequestError (Result OfferError ℕ × Stream))
      → (tunnel H Stream conn r ≡ panic)
        ↔ ((e : OfferError) × (relconn : Stream) × (r ≡ ok (err e, relconn)))
  unfolding tunnel
  tunnel-panics conn (err e) = (λ h. cc, λ h. cc h.2)
  tunnel-panics conn (ok (ok id, relconn)) = (λ h. cc, λ h. cc h.2)
  tunnel-panics conn (ok (err e, relconn)) = (λ h. (e, relconn, refl), λ h. refl)

  -- On a CONNECT whose URL has a host and a port, the task panics exactly where the server's answer
  -- is that it could not connect: the client of the proxy is then told nothing.
  pub http_task-panics_iff :
      (conn conn₁ : H.Conn) (req : H.Request) (dst : Text) (port : ℕ)
      → H.decode conn ≡ ok (some (req, conn₁))
      → is_connect req ≡ true
      → H.host_str req ≡ some dst
      → H.port_or_known_default req ≡ some port
      → (http_task H Stream answer conn ≡ panic) ↔ (
          (e : OfferError) × (relconn : Stream) × (answer (tcp_connect dst port)
            ≡ ok (err e, relconn)))
  unfolding http_task decoded handle_request ask
  http_task-panics_iff conn conn₁ req dst port d connects h p =
      rw (d, connects, h, p) (tunnel-panics conn₁ (answer (tcp_connect dst port)))
