-- ===== src/Wsocks/Client/Socks/Told.antt =====
-- The SOCKS proxy, the request over a stream and the server of src/bin.todo/wsocks.rs, put together.
use mathlib.Core.Path.{subst}
use sosistab2_obfsws.Base.{ℕ, ◌^◌, ◌<◌, ◌≡◌, sym, ◌∙◌, Bool, [], ◌∷◌, ◌++◌}
use sosistab2_obfsws.Base.Words.{Bytes}
use sosistab2_obfsws.Base.Slices.{done}
use sosistab2_obfsws.Io.{ErrorKind, Result, ok, err, ok-injective}
use sosistab2_obfsws.Transport.{Transport}
use sosistab2_obfsws.Wsocks.Protocol.{OfferError, tcp_connect, tcp_offer, frame_from}
use sosistab2_obfsws.Wsocks.Frame.{Bincode, send}
use sosistab2_obfsws.Wsocks.Errors.{Socks, from_io, to_v5, reply_of, reply-from_io}
use sosistab2_obfsws.Wsocks.Request.{Net, request, await_offer, offer_for, end_of, serve_request}
use sosistab2_obfsws.Wsocks.Request.Served.{offer_to, request_served}
use sosistab2_obfsws.Wsocks.Client.Proxy.{ProxyEnd, forwards, refused}
use sosistab2_obfsws.Wsocks.Client.Socks.{v5, SocksV5Host, SocksServer, Wanted, wanted, socks_task}
use sosistab2_obfsws.Wsocks.Client.Socks.Answered.{Settled, socks_task-Answered}

module _ (S : Socks) (C : SocksServer S) (N : Net) (more : Bool) where
  -- A status with this reply field was written.
  pub record Status (code : ℕ) (c c' : C.Conn) : Type 0 where
    pub status : S.SocksV5RequestStatus
    pub host : SocksV5Host
    pub port : ℕ
    pub wrote : C.outgoing c' ≡ C.outgoing c ++ C.v5_status status host port
    pub means : S.reply status ≡ code

  -- What a client of version 5 is told of the server's connection, and what follows.
  abbrev pub Told :
      {Stream : Type 0} → ℕ → Result ErrorKind N.Tcp → C.Conn → ProxyEnd C.Conn Stream → Type 0
  Told {Stream} id (ok tcp) c end =
      (c' : C.Conn) × (relconn : Stream) × (end ≡ forwards id c' relconn) × Status 0 c c'
  Told id (err k) c end = (c' : C.Conn) × (end ≡ refused c') × Status (reply_of more k) c c'

module _ (B : Bincode) (T : Transport) (S : Socks) (C : SocksServer S) (N : Net) (more : Bool) where
  Settled-Told :
      (w : Wanted) (id : ℕ) (r : Result ErrorKind N.Tcp) (c : C.Conn) (relconn : T.Conn)
      (end : ProxyEnd C.Conn T.Conn)
      → w.version ≡ v5
      → Settled S C w (offer_for B T N more id r) c relconn end
      → Told S C N more id r c end
  unfolding offer_for
  Settled-Told w id (ok tcp) c relconn end five (c', same, wrote) = (
    c',
    relconn,
    same,
    record {
      status = S.v5_success;
      host = SocksV5Host.domain (C.as_bytes w.dst);
      port = w.port;
      wrote = wrote ∙ (rw five);
      means = S.reply-success;
    },
  )
  Settled-Told w id (err k) c relconn end five (c', same, wrote) = (
    c',
    same,
    record {
      status = to_v5 S (from_io more k (N.debug k));
      host = SocksV5Host.ipv4 (0 ∷ 0 ∷ 0 ∷ 0 ∷ []);
      port = 0;
      wrote = wrote ∙ (rw five);
      means = reply-from_io S more k (N.debug k);
    },
  )

  -- A client of version 5 asks the proxy for a destination, and the proxy's request goes over a
  -- stream to a server that takes it and whose stream takes the answer. The server connects to that
  -- destination, and writes one answer. A task of the proxy that reads this answer and ends well has
  -- told the client the truth: a status of success, with the forwarding to follow under the server's
  -- id, where the server's connection was made, and else the reply of RFC 1928 for the kind of its
  -- error, with no forwarding.
  pub socks_served :
      (m n id : ℕ) (w : Wanted) (conn conn₁ : C.Conn) (c c' d : T.Conn) (sent rest : Bytes)
      → w.version ≡ v5
      → wanted S C conn ≡ ok (w, conn₁)
      → w.port < 2 ^ 16
      → id < 2 ^ 128
      → request B T m (tcp_connect w.dst w.port) c ≡ ok c'
      → T.outgoing c' ≡ T.outgoing c ++ sent
      → T.incoming d ≡ sent ++ rest
      → ((d₁ : T.Conn)
          → (d₂ : T.Conn) × (send B T
                (frame_from n (tcp_offer (offer_to B T N more id w.dst w.port)))
                d₁
              ≡ ok d₂))
      → (d' : T.Conn) × (reply : Bytes) × (serve_request B T N more n id d
          ≡ done (end_of B T N more id (N.connect w.dst w.port) d'))
        × (T.outgoing d' ≡ T.outgoing d ++ reply)
        × ((c₁ : T.Conn) (rest' : Bytes) (end : ProxyEnd C.Conn T.Conn)
            → T.incoming c₁ ≡ reply ++ rest'
            → socks_task S C T.Conn (λ req. await_offer B T c₁) conn ≡ ok end
            → Told S C N more id (N.connect w.dst w.port) conn₁ end)
  socks_served m n id w conn conn₁ c c' d sent rest five asks port_fits id_fits asked wrote front
        takes =
      let (d', reply, served, left, replied, hears) =
        request_served B T N more m n id w.port w.dst c c' d sent rest port_fits id_fits asked wrote
          front takes in
      (
        d',
        reply,
        served,
        replied,
        λ c₁ rest' end front' went.
            let a = socks_task-Answered S C (λ req. await_offer B T c₁) conn end went in
            let (c₂, heard, _) = hears c₁ rest' front' in
            let p : ◌≡◌ {A = Wanted × C.Conn} (a.w, a.conn₁) (w, conn₁) =
              ok-injective (sym a.asked ∙ asks) in
            let q : ◌≡◌ {A = Result OfferError ℕ × T.Conn} (a.offer, a.relconn)
                (offer_to B T N more id w.dst w.port, c₂) =
              ok-injective (sym a.offered ∙ heard) in
            Settled-Told w id (N.connect w.dst w.port) conn₁ c₂ end five (
              subst
                (λ (t : (Wanted × C.Conn) × (Result OfferError ℕ × T.Conn)).
                  Settled S C t.0.0 t.1.0 t.0.1 t.1.1 end)
                (λ i. (p i, q i)) a.settled),
      )
