-- ===== src/Wsocks/Request/Served.antt =====
-- The client's request and the server's answer in src/bin.todo/wsocks.rs, put together.
use sosistab2_obfsws.Base.{ℕ, ◌^◌, ◌<◌, ◌≡◌, ap, ◌∙◌, Bool, ◌++◌, arith}
use sosistab2_obfsws.Base.Words.{Bytes}
use sosistab2_obfsws.Base.Slices.{done}
use sosistab2_obfsws.Io.{ErrorKind, Result, ok, err, Text}
use sosistab2_obfsws.Transport.{Transport}
use sosistab2_obfsws.Wsocks.Protocol.{OfferError, tcp_connect, tcp_offer, frame_from, FitsProtocol}
use sosistab2_obfsws.Wsocks.Frame.{Bincode, FrameError, send, recv}
use sosistab2_obfsws.Wsocks.Frame.RoundTrip.{encoded, send-SentFrame, recv-encoded, recv-send}
use sosistab2_obfsws.Wsocks.Request.{
  Net, or_request, request, offered, await_offer, offer_for, end_of, replied, answer, serve_frame,
  serve_request,
}

module _ (B : Bincode) (T : Transport) where
  or_request-ok : {A : Type 0} (r : Result FrameError A) {a : A} → or_request r ≡ ok a → r ≡ ok a
  or_request-ok (ok b) e = ground arith
  or_request-ok (err k) e = cc

  await_offer-got :
      (offer : Result OfferError ℕ) (n : ℕ) (c d : T.Conn)
      → recv B T c ≡ ok (frame_from n (tcp_offer offer), d)
      → await_offer B T c ≡ ok (offer, d)
  unfolding await_offer offered frame_from
  await_offer-got offer n c d got = rw got

module _ (B : Bincode) (T : Transport) (N : Net) (more : Bool) where
  FitsOffer :
      (id : ℕ) (r : Result ErrorKind N.Tcp)
      → id < 2 ^ 128
      → FitsProtocol (tcp_offer (offer_for B T N more id r))
  unfolding offer_for
  FitsOffer id (ok conn) h = h
  FitsOffer id (err k) h = tt

  abbrev pub offer_to : ℕ → Text → ℕ → Result OfferError ℕ
  offer_to id dst port = offer_for B T N more id (N.connect dst port)

  serve-got :
      (m n id port : ℕ) (dst : Text) (d d₁ d₂ : T.Conn)
      → recv B T d ≡ ok (frame_from m (tcp_connect dst port), d₁)
      → send B T (frame_from n (tcp_offer (offer_to id dst port))) d₁ ≡ ok d₂
      → serve_request B T N more n id d ≡ done (end_of B T N more id (N.connect dst port) d₂)
  unfolding serve_request serve_frame answer replied frame_from
  serve-got m n id port dst d d₁ d₂ got sent = rw (got, sent)

  -- A request that the client could send, to a server whose stream takes the answer. The server
  -- connects to the destination asked for, and forwards with the drawn id where that succeeded. It
  -- has read the request and no more, and has written one answer. A client that reads this answer
  -- gets that id, or the network error for the kind of error of the connection, and nothing else of
  -- the stream.
  pub request_served :
      (m n id port : ℕ) (dst : Text) (c c' d : T.Conn) (sent rest : Bytes)
      → port < 2 ^ 16
      → id < 2 ^ 128
      → request B T m (tcp_connect dst port) c ≡ ok c'
      → T.outgoing c' ≡ T.outgoing c ++ sent
      → T.incoming d ≡ sent ++ rest
      → ((d₁ : T.Conn)
          → (d₂ : T.Conn) × (send B T (frame_from n (tcp_offer (offer_to id dst port))) d₁ ≡ ok d₂))
      → (d' : T.Conn) × (reply : Bytes) × (serve_request B T N more n id d
          ≡ done (end_of B T N more id (N.connect dst port) d'))
        × (T.incoming d' ≡ rest)
        × (T.outgoing d' ≡ T.outgoing d ++ reply)
        × ((c₁ : T.Conn) (rest' : Bytes)
            → T.incoming c₁ ≡ reply ++ rest'
            → (c₂ : T.Conn) × (await_offer B T c₁ ≡ ok (offer_to id dst port, c₂))
              × (T.incoming c₂ ≡ rest'))
  unfolding request frame_from
  request_served m n id port dst c c' d sent rest port_fits id_fits asked wrote front takes =
      let (d₁, got, left, kept) =
        recv-send B T (frame_from m (tcp_connect dst port)) c c' d sent rest port_fits
          (or_request-ok B T _ asked) wrote front in
      let (d₂, gave) = takes d₁ in
      let f = send-SentFrame B T (frame_from n (tcp_offer (offer_to id dst port))) d₁ gave in
      let (written, still) = T.write_all-ok d₁ (encoded f.buf) f.writes in
      (
        d₂,
        encoded f.buf,
        serve-got m n id port dst d d₁ d₂ got gave,
        still ∙ left,
        written ∙ ap (λ (w : Bytes). w ++ encoded f.buf) kept,
        λ c₁ rest' front'.
            let (c₂, got', left', _) =
              recv-encoded B T (frame_from n (tcp_offer (offer_to id dst port))) f.buf rest' c₁
                f.small
                (B.deserialize-serialize _ f.buf (FitsOffer id (N.connect dst port) id_fits)
                  f.encodes)
                front' in
            (c₂, await_offer-got B T (offer_to id dst port) n c₁ c₂ got', left'),
      )
