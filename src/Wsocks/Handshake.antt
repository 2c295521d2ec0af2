-- ===== src/Wsocks/Handshake.antt =====
-- The way of a client's session id through the system: from `Etag::generate` of src/bin.todo/wsocks.rs
-- through the callback of src/listener.rs to the server's session table.
pub mod Sample
mod Tests
use mathlib.Core.Path.{subst}
use mathlib.Core.Option.{some-injective}
use sosistab2_obfsws.Base.{◌≡◌, sym, ap, ◌∙◌, true, some, [], ◌∷◌, ◌++◌, length}
use sosistab2_obfsws.Base.Words.{Bytes}
use sosistab2_obfsws.Base.Slices.{done, done-injective}
use sosistab2_obfsws.Base64.{Base64, AreBytes}
use sosistab2_obfsws.Io.{ok, ok-injective, Text, codes}
use sosistab2_obfsws.Channel.{Channel, accepts}
use sosistab2_obfsws.Listener.{Http, pipe_get_metadata}
use sosistab2_obfsws.Listener.Handshake.{metadata-accepts}
use sosistab2_obfsws.Wsocks.Etag.{Crypto, Etag, etag_new, calc_hash, generate, etag_from}
use sosistab2_obfsws.Wsocks.Etag.Session.{etag_from-generate}
use sosistab2_obfsws.Wsocks.Info.{Build, Value, string, get, find}
use sosistab2_obfsws.Wsocks.Start.{Keys, or_hex, hex2bytes, hex2key, server_info, client_etag}
use sosistab2_obfsws.Wsocks.Server.Sessions.{Server, Pipes, server_round}
use sosistab2_obfsws.Wsocks.Server.Sessions.Table.{IsTable}
use sosistab2_obfsws.Wsocks.Server.Sessions.Refinement.{join, sessions, server_round-refines}

module _ (K : Crypto) (B : Base64) (H : Http) (M : Channel Text) (P : Pipes) (pk : K.MuxPublic)
    (random : Bytes) (now : K.SystemTime) (now' : K.Instant) where
  -- A client that generates a key from its id, with a nonce of 8 bytes, and asks with it for a
  -- websocket: the listener lets the request through and takes the key, if there is room for it; and
  -- a server that is then given the pipe which has this key for its metadata, in a round in which no
  -- session ends while the listener waits, puts it into the session of the client's id, and changes
  -- no other session. Neither side panics.
  pub generated_key_joins :
      (nonce : Bytes) (key : Text) (req : H.Request) (res : H.Response) (md_tx : M.Chan)
      (pipe : P.Pipe) (s : Server P.Pipe)
      → length nonce ≡ 8
      → AreBytes nonce
      → generate K B (etag_new K pk random now now') nonce ≡ done key
      → H.key_header req ≡ some key
      → accepts (M.view md_tx) ≡ true
      → P.peer_metadata pipe ≡ key
      → IsTable s
      → (md_tx' : M.Chan) × (t : Server P.Pipe) × (pipe_get_metadata B H M req res md_tx
          ≡ done (ok res, md_tx'))
        × ((M.view md_tx').items ≡ (M.view md_tx).items ++ key ∷ [])
        × (server_round K B P pk (ok pipe) s ≡ done (ok t))
        × IsTable t
        × (sessions t ≡ join (calc_hash K (etag_new K pk random now now')) pipe (sessions s))
  generated_key_joins nonce key req res md_tx pipe s eight are_bytes made header room of_pipe
        table =
      let (key', code, made', decodes, sixteen, read) =
        etag_from-generate K B pk random nonce now now' eight are_bytes in
      let same : key' ≡ key = done-injective (sym made' ∙ made) in
      let (md_tx', let_through, sent) =
        metadata-accepts B H M req res md_tx key code room header (ap B.decode (sym same) ∙ decodes)
          sixteen in
      let (t, round, still, joins) =
        server_round-refines K B P pk pipe (calc_hash K (etag_new K pk random now now')) s table
          (ap (etag_from K B pk) (of_pipe ∙ sym same) ∙ read) in
      (md_tx', t, let_through, sent, round, still, joins)

module _ (K : Crypto) (X : Keys K) (V : Build) (pk : K.MuxPublic) where
  -- The text that a server has printed for its public key is decoded to the bytes of that key.
  pub hex2key-printed :
      (listen h : Text)
      → get (server_info K X V pk listen) (codes "public_key" ∷ []) ≡ some (string h)
      → hex2key K X h ≡ ok (K.as_bytes pk)
  unfolding server_info get find hex2key hex2bytes
  hex2key-printed listen h printed =
      let same : X.encode (K.as_bytes pk) ≡ h = string-injective (some-injective _ _ printed) in
      let decodes : X.decode_to_slice h 32 ≡ some (K.as_bytes pk) =
        subst (λ t. X.decode_to_slice t 32 ≡ some (K.as_bytes pk)) same
          (subst (λ n. X.decode_to_slice (X.encode (K.as_bytes pk)) n ≡ some (K.as_bytes pk))
            (X.length-as_bytes pk) (X.decode-encode (K.as_bytes pk) (X.as_bytes-AreBytes pk))) in
      ap or_hex decodes
    where
      text_of : Value → Text
      text_of (string t) = t
      text_of _ = []

      string-injective : {t u : Text} → string t ≡ string u → t ≡ u
      string-injective e = ap text_of e

  -- A client that is given the key which a server has printed makes its id with the server's key.
  pub client_etag-printed :
      (listen h : Text) (random : Bytes) (now : K.SystemTime) (now' : K.Instant)
      → get (server_info K X V pk listen) (codes "public_key" ∷ []) ≡ some (string h)
      → client_etag K X h random now now' ≡ ok (etag_new K pk random now now')
  unfolding client_etag
  client_etag-printed listen h random now now' printed =
      rw (hex2key-printed listen h printed)
        (ap (λ k. ok (etag_new K k random now now')) (X.from_bytes-as_bytes pk))

module _ (K : Crypto) (X : Keys K) (V : Build) (B : Base64) (H : Http) (M : Channel Text)
    (P : Pipes) (pk : K.MuxPublic) where
  -- A server prints its information, and a client is given the public key that stands there. The
  -- client generates a key from its id, with a nonce of 8 bytes, and asks with it for a websocket: the
  -- listener lets the request through and takes the key, if there is room for it; and the server that
  -- is then given the pipe which has this key for its metadata, in a round in which no session ends
  -- while the listener waits, puts it into the session of the client's id, and changes no other
  -- session. Neither side panics.
  pub printed_key_joins :
      (listen h : Text) (random : Bytes) (now : K.SystemTime) (now' : K.Instant) (e : Etag K)
      (nonce : Bytes) (key : Text) (req : H.Request) (res : H.Response) (md_tx : M.Chan)
      (pipe : P.Pipe) (s : Server P.Pipe)
      → get (server_info K X V pk listen) (codes "public_key" ∷ []) ≡ some (string h)
      → client_etag K X h random now now' ≡ ok e
      → length nonce ≡ 8
      → AreBytes nonce
      → generate K B e nonce ≡ done key
      → H.key_header req ≡ some key
      → accepts (M.view md_tx) ≡ true
      → P.peer_metadata pipe ≡ key
      → IsTable s
      → (md_tx' : M.Chan) × (t : Server P.Pipe) × (pipe_get_metadata B H M req res md_tx
          ≡ done (ok res, md_tx'))
        × ((M.view md_tx').items ≡ (M.view md_tx).items ++ key ∷ [])
        × (server_round K B P pk (ok pipe) s ≡ done (ok t))
        × IsTable t
        × (sessions t ≡ join (calc_hash K e) pipe (sessions s))
  printed_key_joins listen h random now now' e nonce key req res md_tx pipe s printed given eight
        are_bytes made header room of_pipe table =
      let same : etag_new K pk random now now' ≡ e =
        ok-injective
          (sym (client_etag-printed K X V pk listen h random now now' printed) ∙ given) in
      let (md_tx', t, let_through, sent, round, still, joins) =
        generated_key_joins K B H M P pk random now now' nonce key req res md_tx pipe s eight
          are_bytes (ap (λ u. generate K B u nonce) same ∙ made) header room of_pipe table in
      (
        md_tx',
        t,
        let_through,
        sent,
        round,
        still,
        joins ∙ ap (λ u. join (calc_hash K u) pipe (sessions s)) same,
      )
