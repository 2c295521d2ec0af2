-- ===== src/Wsocks/Main.antt =====
-- `async_main`, `server` and `client` of src/bin.todo/wsocks.rs: what each does in turn, from the options
-- of the command line.
pub mod Restart
mod Tests
use sosistab2_obfsws.Base.{ℕ, Option, none, some, List, [], ◌∷◌}
use sosistab2_obfsws.Base.Words.{Bytes}
use sosistab2_obfsws.Base.Slices.{Exec, done, panic}
use sosistab2_obfsws.Base64.{Base64}
use sosistab2_obfsws.Io.{ErrorKind, Result, ok, err, Text, ◌>>=◌}
use sosistab2_obfsws.Wsocks.Etag.{Crypto, Etag}
use sosistab2_obfsws.Wsocks.Info.{Build, Value, env_info}
use sosistab2_obfsws.Wsocks.Start.{Keys, StartError, server_info, hex2key, client_etag}
use sosistab2_obfsws.Wsocks.Server.Keys.{KeyStore, KeyError, KeyEnd, server_key}
use sosistab2_obfsws.Wsocks.Server.Sessions.{Server, ServerError, Pipes}
use sosistab2_obfsws.Wsocks.Server.Rounds.{Happening, no_sessions, server_loop}

pub record ClientOpt : Type 0 where
  pub remote_url : Text
  pub remote_public_key : Text
  pub remote_pipes_max : ℕ
  pub local_socks_listen : Text
  pub local_http_listen : Text

pub record ServerOpt : Type 0 where
  pub listen : Text
  pub key_file : Text
  pub http_path : Option Text

pub data Opt : Type 0 where
  client_opt : ClientOpt → Opt
  server_opt : ServerOpt → Opt
  info_opt : Opt

-- How `server` ends.
pub data ServerStop : Type 0 where
  no_secret : KeyError → ServerStop
  no_listener : ErrorKind → ServerStop
  loop_ended : ServerError → ServerStop

-- How `client` ends before its tasks run.
pub data ClientStop : Type 0 where
  bad_key : StartError → ClientStop
  no_socks no_http : ErrorKind → ClientStop

-- What the program takes from outside: the key file's disk for a path, `MuxSecret::to_public`, and the
-- binding of a socket at an address.
pub record Outside (S : KeyStore) (K : Crypto) : Type 0 where
  pub to_public : S.MuxSecret → K.MuxPublic
  pub bind : Text → Result ErrorKind (Unit {0})

-- A client whose tasks are spawned: where its pipes go, with which id, and how many there are at most.
pub record Started (K : Crypto) : Type 0 where
  pub url : Text
  pub etag : Etag K
  pub max_conn : ℕ

abbrev pub or_stop {ℓ κ} :
    {A : Type ℓ} {E : Type κ} → (E → ClientStop) → Result E A → Result ClientStop A
or_stop f (ok a) = ok a
or_stop f (err e) = err (f e)

module _ (S : KeyStore) (K : Crypto) (O : Outside S K) (X : Keys K) (V : Build) where
  -- What `client` has printed, and whether its tasks are spawned.
  unfoldable pub client :
      ClientOpt → Bytes → K.SystemTime → K.Instant → List Value × Result ClientStop (Started K)
  client copt random now now' = elim (client_etag K X copt.remote_public_key random now now') [
    | err e ↦ ([], err (bad_key e))
    | ok etag ↦ (
      env_info V ∷ [],
      do
        _ ← or_stop no_socks (O.bind copt.local_socks_listen)
        _ ← or_stop no_http (O.bind copt.local_http_listen)
        ok (record { url = copt.remote_url; etag = etag; max_conn = copt.remote_pipes_max }),
    )
  ]

module _ (S : KeyStore) (K : Crypto) (O : Outside S K) (X : Keys K) (V : Build) (B : Base64)
    (P : Pipes) where
  -- A run of `server`: the disk that it leaves, what it has printed, and its end, or its table after
  -- what has happened so far.
  pub record ServerRun : Type 0 where
    pub disk : S.Disk
    pub printed : List Value
    pub end : Exec (Result ServerStop (Server P.Pipe))

module _ (S : KeyStore) (K : Crypto) (O : Outside S K) (X : Keys K) (V : Build) (B : Base64)
    (P : Pipes) where
  abbrev pub or_ended :
      Exec (Result ServerError (Server P.Pipe)) → Exec (Result ServerStop (Server P.Pipe))
  or_ended panic = panic
  or_ended (done (ok s)) = done (ok s)
  or_ended (done (err e)) = done (err (loop_ended e))

  -- The listener, and the loop over what happens.
  unfoldable pub listens :
      K.MuxPublic
      → Result ErrorKind (Unit {0})
      → List (Happening P.Pipe)
      → Exec (Result ServerStop (Server P.Pipe))
  listens server_pk (err k) hs = done (err (no_listener k))
  listens server_pk (ok _) hs = or_ended (server_loop K B P server_pk hs no_sessions)

  -- What follows the loop for the key.
  unfoldable pub serves : ServerOpt → List (Happening P.Pipe) → KeyEnd S → ServerRun S K O X V B P
  serves sopt hs (err e, disk) = record {
    disk = disk;
    printed = [];
    end = done (err (no_secret e));
  }
  serves sopt hs (ok server_sk, disk) = record {
    disk = disk;
    printed = server_info K X V (O.to_public server_sk) sopt.listen ∷ [];
    end = listens (O.to_public server_sk) (O.bind sopt.listen) hs;
  }

  abbrev pub then_serves :
      ServerOpt → List (Happening P.Pipe) → Option (KeyEnd S) → Option (ServerRun S K O X V B P)
  then_serves sopt hs none = none
  then_serves sopt hs (some r) = some (serves sopt hs r)

  -- The key file is that of the disk; `draw` has the random key files that may be written.
  unfoldable pub server :
      (ℕ → Bytes) → ServerOpt → S.Disk → List (Happening P.Pipe) → Option (ServerRun S K O X V B P)
  server draw sopt disk hs = then_serves sopt hs (server_key S draw disk)

-- What `async_main` has run.
pub data Ran (Client Run : Type 0) : Type 0 where
  ran_client : Client → Ran Client Run
  ran_server : Run → Ran Client Run
  printed_info : Value → Ran Client Run

module _ (S : KeyStore) (K : Crypto) (O : Outside S K) (X : Keys K) (V : Build) (B : Base64)
    (P : Pipes) where
  unfoldable pub async_main :
      (ℕ → Bytes)
      → Bytes
      → K.SystemTime
      → K.Instant
      → S.Disk
      → List (Happening P.Pipe)
      → Opt
      → Ran (List Value × Result ClientStop (Started K)) (Option (ServerRun S K O X V B P))
  async_main draw random now now' disk hs (client_opt copt) =
      ran_client (client S K O X V copt random now now')
  async_main draw random now now' disk hs (server_opt sopt) =
      ran_server (server S K O X V B P draw sopt disk hs)
  async_main draw random now now' disk hs info_opt = printed_info (env_info V)
