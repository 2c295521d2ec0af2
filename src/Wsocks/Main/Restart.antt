-- ===== src/Wsocks/Main/Restart.antt =====
-- A server of src/bin.todo/wsocks.rs that starts again on the disk of an earlier start.
use mathlib.Core.Path.{subst}
use mathlib.Core.Option.{some-injective}
use sosistab2_obfsws.Base.{ℕ, ◌≡◌, refl, sym, ap, ◌∙◌, Option, none, some, List, [], ◌∷◌, length}
use sosistab2_obfsws.Base.Words.{Bytes}
use sosistab2_obfsws.Base.Slices.{done, done-injective}
use sosistab2_obfsws.Base64.{Base64, AreBytes}
use sosistab2_obfsws.Io.{ErrorKind, Result, ok, err, ok-injective, Text, codes}
use sosistab2_obfsws.Wsocks.Etag.{Crypto, Etag, etag_new, calc_hash, generate, etag_from}
use sosistab2_obfsws.Wsocks.Etag.Session.{etag_from-generate}
use sosistab2_obfsws.Wsocks.Info.{Build, Value, string, get}
use sosistab2_obfsws.Wsocks.Start.{Keys, hex2key, server_info, client_etag}
use sosistab2_obfsws.Wsocks.Handshake.{hex2key-printed, client_etag-printed}
use sosistab2_obfsws.Wsocks.Server.Keys.{KeyStore, KeyEnd, server_key, server_key-persists}
use sosistab2_obfsws.Wsocks.Server.Sessions.{Server, Pipes}
use sosistab2_obfsws.Wsocks.Server.Sessions.Refinement.{Sessions, join, sessions}
use sosistab2_obfsws.Wsocks.Server.Rounds.{Happening, accepts_pipe, no_sessions, server_loop}
use sosistab2_obfsws.Wsocks.Server.Rounds.Refines.{AreTagged, Follows, joins, server_loop-refines}
use sosistab2_obfsws.Wsocks.Main.{
  ServerOpt, Outside, ServerRun, or_ended, listens, serves, then_serves, server,
}

module _ (S : KeyStore) (K : Crypto) (O : Outside S K) (X : Keys K) (V : Build) (B : Base64)
    (P : Pipes) where
  -- A run that has printed something got its key, and printed the information of that key.
  data Served (sopt : ServerOpt) (hs : List (Happening P.Pipe)) (info : Value)
      : Option (KeyEnd S) → ServerRun S K O X V B P → Type 0 where
    served :
        {server_sk : S.MuxSecret} {disk : S.Disk} {r : ServerRun S K O X V B P}
        → r.disk ≡ disk
        → server_info K X V (O.to_public server_sk) sopt.listen ≡ info
        → Served sopt hs info (some (ok server_sk, disk)) r

  serves-Served :
      (sopt : ServerOpt) (hs : List (Happening P.Pipe)) (info : Value) (o : Option (KeyEnd S))
      (r : ServerRun S K O X V B P)
      → then_serves S K O X V B P sopt hs o ≡ some r
      → r.printed ≡ info ∷ []
      → Served sopt hs info o r
  unfolding serves
  serves-Served sopt hs info none r went printed = cc
  serves-Served sopt hs info (some (err e, disk)) r went printed = absurd (
      nothing_printed
        (ap (λ (u : ServerRun S K O X V B P). u.printed) (some-injective _ _ went) ∙ printed))
    where
      nothing_printed : ◌≡◌ {A = List Value} [] (info ∷ []) → ⊥
      nothing_printed e = cc
  serves-Served sopt hs info (some (ok server_sk, disk)) r went printed =
      let same = some-injective _ _ went in
      served (sym (ap (λ (u : ServerRun S K O X V B P). u.disk) same))
        (first_of (ap (λ (u : ServerRun S K O X V B P). u.printed) same ∙ printed))
    where
      first_of :
          server_info K X V (O.to_public server_sk) sopt.listen ∷ [] ≡ info ∷ []
          → server_info K X V (O.to_public server_sk) sopt.listen ≡ info
      first_of e = cc

  -- The key and the information of a run stand on the disk that it leaves.
  key-again :
      (draw draw' : ℕ → Bytes) (sopt : ServerOpt) (disk : S.Disk) (hs : List (Happening P.Pipe))
      (info : Value) (o : Option (KeyEnd S)) (r : ServerRun S K O X V B P)
      → server_key S draw disk ≡ o
      → Served sopt hs info o r
      → (server_sk : S.MuxSecret) × (server_key S draw' r.disk ≡ some (ok server_sk, r.disk))
        × (server_info K X V (O.to_public server_sk) sopt.listen ≡ info)
  key-again draw draw' sopt disk hs info _ r key
        (served {server_sk = server_sk} {disk = disk'} left shown) =
      (
        server_sk,
        subst (λ d. server_key S draw' d ≡ some (ok server_sk, d)) (sym left)
            (server_key-persists S draw draw' disk disk' server_sk key),
        shown,
      )

  -- The map of hashes after a pipe that has joined first.
  join-first :
      (pk : K.MuxPublic) (pipe : P.Pipe) (hash : ℕ) (hs : List (Happening P.Pipe))
      (a b : Sessions P.Pipe)
      → etag_from K B pk (P.peer_metadata pipe) ≡ done (ok hash)
      → Follows K B P pk (accepts_pipe (ok pipe) ∷ hs) a b
      → Follows K B P pk hs (join hash pipe a) b
  join-first pk pipe hash hs a b has_hash (joins has_hash' follows) =
      subst (λ n. Follows K B P pk hs (join n pipe a) b)
        (ok-injective (done-injective (sym has_hash' ∙ has_hash))) follows

  -- The server reads the hash of a client's id out of a key that the client has generated.
  generated-read :
      (pk : K.MuxPublic) (random : Bytes) (now : K.SystemTime) (now' : K.Instant) (e : Etag K)
      (nonce : Bytes) (key : Text) (pipe : P.Pipe)
      → etag_new K pk random now now' ≡ e
      → length nonce ≡ 8
      → AreBytes nonce
      → generate K B e nonce ≡ done key
      → P.peer_metadata pipe ≡ key
      → etag_from K B pk (P.peer_metadata pipe) ≡ done (ok (calc_hash K e))
  generated-read pk random now now' e nonce key pipe same eight are_bytes made of_pipe =
      let (key', _, made', _, _, read) =
        etag_from-generate K B pk random nonce now now' eight are_bytes in
      let same_key : key' ≡ key =
        done-injective (sym made' ∙ ap (λ u. generate K B u nonce) same ∙ made) in
      ap (etag_from K B pk) (of_pipe ∙ sym same_key)
      ∙ read
      ∙ ap (λ u. done (ok (calc_hash K u))) same

  -- The loop begins where the socket binds.
  listens-ok :
      (pk : K.MuxPublic) (bound : Result ErrorKind (Unit {0})) (hs : List (Happening P.Pipe))
      (t : Server P.Pipe)
      → bound ≡ ok tt
      → server_loop K B P pk hs no_sessions ≡ done (ok t)
      → listens S K O X V B P pk bound hs ≡ done (ok t)
  unfolding listens
  listens-ok pk bound hs t binds went =
      ap (λ b. listens S K O X V B P pk b hs) binds ∙ ap (or_ended S K O X V B P) went

  -- A server has printed its information, and a client is given the public key that stands there. The
  -- server starts again, on the disk that its first run left, whatever it draws; its socket binds,
  -- and the first pipe that it accepts has for its metadata a key which the client generates from its
  -- id, with a nonce of 8 bytes. Then the server prints the same information, leaves the disk as it
  -- is, and goes on without an error or a panic over pipes whose metadata gives a hash and ends of
  -- sessions, in any order; and the table in which this begins has the client's pipe as the only pipe
  -- of the session of the client's id, and no other session.
  pub restarted_server_knows :
      (draw draw' : ℕ → Bytes) (sopt : ServerOpt) (disk : S.Disk) (hs hs' : List (Happening P.Pipe))
      (r : ServerRun S K O X V B P) (info : Value) (h : Text) (code random nonce : Bytes)
      (now : K.SystemTime) (now' : K.Instant) (e : Etag K) (key : Text) (pipe : P.Pipe)
      → server S K O X V B P draw sopt disk hs ≡ some r
      → r.printed ≡ info ∷ []
      → get info (codes "public_key" ∷ []) ≡ some (string h)
      → hex2key K X h ≡ ok code
      → client_etag K X h random now now' ≡ ok e
      → length nonce ≡ 8
      → AreBytes nonce
      → generate K B e nonce ≡ done key
      → O.bind sopt.listen ≡ ok tt
      → P.peer_metadata pipe ≡ key
      → AreTagged K B P (X.from_bytes code) hs'
      → (r' : ServerRun S K O X V B P) × (t : Server P.Pipe) × (server S K O X V B P draw' sopt
            r.disk
            (accepts_pipe (ok pipe) ∷ hs')
          ≡ some r')
        × (r'.printed ≡ info ∷ [])
        × (r'.disk ≡ r.disk)
        × (r'.end ≡ done (ok t))
        × Follows K B P (X.from_bytes code) hs' (join (calc_hash K e) pipe (λ k. none)) (sessions t)
  unfolding server serves
  restarted_server_knows draw draw' sopt disk hs hs' r info h code random nonce now now' e key pipe
        ran printed public decoded given eight are_bytes made binds of_pipe tags =
      let (server_sk, again, shown) =
        key-again draw draw' sopt disk hs info _ r refl
          (serves-Served sopt hs info _ r ran printed) in
      let pk : K.MuxPublic = O.to_public server_sk in
      let public' : get (server_info K X V pk sopt.listen) (codes "public_key" ∷ [])
          ≡ some (string h) =
        ap (λ i. get i (codes "public_key" ∷ [])) shown ∙ public in
      let same_pk : X.from_bytes code ≡ pk =
        ap X.from_bytes
          (ok-injective (sym decoded ∙ hex2key-printed K X V pk sopt.listen h public'))
        ∙ X.from_bytes-as_bytes pk in
      let same : etag_new K pk random now now' ≡ e =
        ok-injective
          (sym (client_etag-printed K X V pk sopt.listen h random now now' public') ∙ given) in
      let has_hash =
        generated-read pk random now now' e nonce key pipe same eight are_bytes made of_pipe in
      let (t, went, follows) =
        server_loop-refines K B P pk (accepts_pipe (ok pipe) ∷ hs')
          ((calc_hash K e, has_hash), subst (λ k. AreTagged K B P k hs') same_pk tags) in
      (
        serves S K O X V B P sopt (accepts_pipe (ok pipe) ∷ hs') (ok server_sk, r.disk),
        t,
        ap (then_serves S K O X V B P sopt (accepts_pipe (ok pipe) ∷ hs')) again,
        ap (λ i. i ∷ []) shown,
        refl,
        listens-ok pk (O.bind sopt.listen) _ t binds went,
        subst (λ k. Follows K B P k hs' (join (calc_hash K e) pipe (λ k. none)) (sessions t))
            (sym same_pk)
            (join-first pk pipe (calc_hash K e) hs' (λ k. none) (sessions t) has_hash follows),
      )
