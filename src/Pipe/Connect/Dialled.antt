-- ===== src/Pipe/Connect/Dialled.antt =====
-- What `ObfsWsPipe::connect` of src/pipe.rs has done where it succeeds.
use sosistab2_obfsws.Base.{
  sym, ap, List, false, if◌then◌else◌, ◌≡◌, refl, Option, none, some, [], ◌∷◌, ◌++◌, arith,
}
use sosistab2_obfsws.Base.Words.{Bytes}
use sosistab2_obfsws.Io.{
  ErrorKind, Result, ok, err, ok-injective, bind-succeeds, Text, text_eq, codes,
}
use sosistab2_obfsws.Channel.{Channel}
use sosistab2_obfsws.Pipe.{ObfsWsPipe, Shared, new}
use sosistab2_obfsws.Pipe.Connect.{
  WsClient, ConnectError, or_connect, or_io, headers, address, dial, connect,
}
use sosistab2_obfsws.Pipe.Connect.Address.{Dials, address-Dials}

-- The value of a header, by its name.
abbrev value_of : Text → List (Text × Text) → Option Text
value_of name [] = none
value_of name ((n, v) ∷ hs) = let rest = value_of name hs in if text_eq n name then some v else rest

module _ {A : Type 0} where
  or_connect-ok : (o : Option A) (e : ConnectError) {a : A} → or_connect o e ≡ ok a → o ≡ some a
  or_connect-ok none e h = cc
  or_connect-ok (some b) e h = ground arith

  or_io-ok : (r : Result ErrorKind A) {a : A} → or_io r ≡ ok a → r ≡ ok a
  or_io-ok (ok b) h = ground arith
  or_io-ok (err k) h = cc

module _ (W : WsClient) (C : Channel Bytes) where
  -- What a call of `connect` has done; the headers are those that RFC 6455 wants of a client.
  pub record Connected (peer_url peer_metadata : Text) (r : ObfsWsPipe × Shared C) : Type 0 where
    pub uri : W.Uri
    pub host : Text
    pub addr : Text
    pub hs : List (Text × Text)
    pub req : W.Request
    pub socket : W.TcpStream
    pub socket' : W.TcpStream
    pub inner : W.Ws
    pub parsed : W.parse peer_url ≡ some uri
    pub has_host : W.host uri ≡ some host
    pub dials : Dials W uri host addr
    pub names_host : value_of (codes "Host") hs ≡ some addr
    pub has_key : value_of (codes "Sec-Websocket-Key") hs ≡ some peer_metadata
    pub connection : value_of (codes "Connection") hs ≡ some (codes "Upgrade")
    pub upgrade : value_of (codes "Upgrade") hs ≡ some (codes "websocket")
    pub version : value_of (codes "Sec-Websocket-Version") hs ≡ some (codes "13")
    pub built : W.build (codes "GET") uri hs ≡ some req
    pub dialled : W.tcp_connect addr ≡ ok socket
    pub undelayed : W.set_nodelay socket ≡ ok socket'
    pub upgraded : W.client_async_tls req socket' ≡ some inner
    pub url : r.0.peer_url ≡ W.to_string uri ++ codes "#" ++ peer_metadata
    pub nothing_held : r.0.recv_buf ≡ []
    pub not_closed : r.1.closed ≡ false

  -- Where `connect` succeeds it has parsed the URL and dialled one address: the URL's host, with the
  -- port that the URL names in decimal digits, else with 80 for ws and 443 for wss, else alone. It has
  -- sent over that connection a GET request whose header Host is this address, whose Sec-Websocket-Key
  -- is the metadata, and which asks for an upgrade to a websocket of version 13. The pipe is open and
  -- holds no bytes, and its URL is the text of the parsed one, `#` and the metadata.
  pub connect-Connected :
      (peer_url peer_metadata : Text) (r : ObfsWsPipe × Shared C)
      → connect W C peer_url peer_metadata ≡ ok r
      → Connected peer_url peer_metadata r
  unfolding connect dial headers new address
  connect-Connected peer_url peer_metadata r went =
      let (uri, parsed, went₁) = bind-succeeds (or_connect (W.parse peer_url) _) _ went in
      let (host, has_host, went₂) = bind-succeeds (or_connect (W.host uri) _) _ went₁ in
      let (req, built, went₃) = bind-succeeds (or_connect (W.build _ uri _) _) _ went₂ in
      let (socket, dialled, went₄) = bind-succeeds (or_io (W.tcp_connect _)) _ went₃ in
      let (socket', undelayed, went₅) = bind-succeeds (or_io (W.set_nodelay socket)) _ went₄ in
      let (inner, upgraded, went₆) =
        bind-succeeds (or_connect (W.client_async_tls req socket') _) _ went₅ in
      let made = ok-injective went₆ in
      record {
        uri = uri;
        host = host;
        addr = address W uri host;
        hs = headers (address W uri host) peer_metadata;
        req = req;
        socket = socket;
        socket' = socket';
        inner = inner;
        parsed = or_connect-ok _ _ parsed;
        has_host = or_connect-ok _ _ has_host;
        dials = address-Dials W uri host _ refl;
        names_host = refl;
        has_key = refl;
        connection = refl;
        upgrade = refl;
        version = refl;
        built = or_connect-ok _ _ built;
        dialled = or_io-ok _ dialled;
        undelayed = or_io-ok _ undelayed;
        upgraded = or_connect-ok _ _ upgraded;
        url = ap (λ (u : ObfsWsPipe × Shared C). u.0.peer_url) (sym made);
        nothing_held = ap (λ (u : ObfsWsPipe × Shared C). u.0.recv_buf) (sym made);
        not_closed = ap (λ (u : ObfsWsPipe × Shared C). u.1.closed) (sym made);
      }
