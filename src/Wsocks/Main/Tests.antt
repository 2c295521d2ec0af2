-- ===== src/Wsocks/Main/Tests.antt =====
-- Starts of the program of src/bin.todo/wsocks.rs at concrete inputs.
use sosistab2_obfsws.Base.{ℕ, ◌≡◌, refl, true, Option, none, some, [], ◌∷◌}
use sosistab2_obfsws.Base.Words.{Bytes}
use sosistab2_obfsws.Base.Slices.{done}
use sosistab2_obfsws.Base64.Sample.{sample_base64}
use sosistab2_obfsws.Io.{ErrorKind, other_kind, Result, ok, err, codes}
use sosistab2_obfsws.Wsocks.Etag.{calc_hash}
use sosistab2_obfsws.Wsocks.Info.{string, get, find}
use sosistab2_obfsws.Wsocks.Start.{hex2bytes, hex2key, server_info, client_etag}
use sosistab2_obfsws.Wsocks.Handshake.Sample.{
  named_pipes, nonce, nonce-AreBytes, key_bytes, two_keys, digits, first_key, sample_keys,
  sample_build, id, key, key_of_id,
}
use sosistab2_obfsws.Wsocks.Server.Keys.{KeyStore, server_sk_hash, key_loop, server_key}
use sosistab2_obfsws.Wsocks.Server.Sessions.{Server}
use sosistab2_obfsws.Wsocks.Server.Sessions.Refinement.{join, sessions}
use sosistab2_obfsws.Wsocks.Server.Rounds.{accepts_pipe, no_sessions, server_loop}
use sosistab2_obfsws.Wsocks.Server.Rounds.Refines.{Follows}
use sosistab2_obfsws.Wsocks.Main.{ServerOpt, Outside, ServerRun, listens, serves, server}
use sosistab2_obfsws.Wsocks.Main.Restart.{restarted_server_knows}

abbrev file_read : Option Bytes → Result ErrorKind Bytes
file_read none = err (other_kind 0)
file_read (some bytes) = ok bytes

-- A disk with at most the key file on it, and a keyed hash that keeps the bytes it is given.
abbrev key_store : KeyStore
key_store = record {
  Disk = Option Bytes;
  MuxSecret = Bytes;
  read = file_read;
  write = λ disk bytes. ok (some bytes);
  keyed_hash = λ key bytes. bytes;
  from_bytes = λ hash. hash;
}

-- Every socket binds.
abbrev outside : Outside key_store two_keys
outside = record { to_public = first_key; bind = λ addr. ok tt }

abbrev draw : ℕ → Bytes
draw i = i ∷ 7 ∷ []

abbrev sopt : ServerOpt
sopt = record { listen = []; key_file = []; http_path = none }

-- The first run, which has accepted no pipe.
abbrev first_run :
    ServerRun key_store two_keys outside sample_keys sample_build sample_base64 named_pipes
first_run = record {
  disk = some (1 ∷ 7 ∷ []);
  printed = server_info two_keys sample_keys sample_build true [] ∷ [];
  end = done (ok no_sessions);
}

ran :
    server key_store two_keys outside sample_keys sample_build sample_base64 named_pipes draw sopt
      none []
    ≡ some first_run
unfolding server server_key key_loop server_sk_hash serves listens server_loop
ran = refl

public :
    get (server_info two_keys sample_keys sample_build true []) (codes "public_key" ∷ [])
    ≡ some (string (digits (key_bytes true)))
unfolding server_info get find
public = refl

decoded : hex2key two_keys sample_keys (digits (key_bytes true)) ≡ ok (key_bytes true)
unfolding hex2key hex2bytes
decoded = refl

given : client_etag two_keys sample_keys (digits (key_bytes true)) (3 ∷ 4 ∷ []) 10 20 ≡ ok id
unfolding client_etag hex2key hex2bytes
given = refl

restarted_server_knows_example :
    (r' : ServerRun key_store two_keys outside sample_keys sample_build sample_base64 named_pipes)
    × (t : Server _) × (server key_store two_keys outside sample_keys sample_build sample_base64
          named_pipes
          (λ i. [])
          sopt
          (some (1 ∷ 7 ∷ []))
          (accepts_pipe (ok key) ∷ [])
        ≡ some r')
    × (r'.printed ≡ server_info two_keys sample_keys sample_build true [] ∷ [])
    × (r'.disk ≡ some (1 ∷ 7 ∷ []))
    × (r'.end ≡ done (ok t))
    × Follows two_keys sample_base64 named_pipes true []
        (join (calc_hash two_keys id) key (λ k. none))
        (sessions t)
restarted_server_knows_example =
    restarted_server_knows key_store two_keys outside sample_keys sample_build sample_base64
      named_pipes draw (λ i. []) sopt none [] [] first_run
      (server_info two_keys sample_keys sample_build true []) (digits (key_bytes true))
      (key_bytes true) (3 ∷ 4 ∷ []) nonce 10 20 id key key ran refl public decoded given refl
      nonce-AreBytes key_of_id refl refl tt
