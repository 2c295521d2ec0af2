-- ===== src/Wsocks/Server/Keys/Tests.antt =====
-- The key loop of src/bin.todo/wsocks.rs at concrete inputs.
use sosistab2_obfsws.Base.{ℕ, ◌≡◌, refl, Option, none, some, [], ◌∷◌}
use sosistab2_obfsws.Base.Words.{Bytes}
use sosistab2_obfsws.Io.{ErrorKind, other_kind, permission_denied, Result, ok, err}
use sosistab2_obfsws.Wsocks.Server.Keys.{
  KeyStore, KeyEnd, no_key, cannot_write, server_sk_hash, key_loop, server_key, server_key_total,
}

-- A disk with at most the key file on it.
abbrev file_read : Option Bytes → Result ErrorKind Bytes
file_read none = err (other_kind 0)
file_read (some bytes) = ok bytes

-- A keyed hash that keeps the bytes it is given.
abbrev key_store : KeyStore
key_store = record {
  Disk = Option Bytes;
  MuxSecret = Bytes;
  read = file_read;
  write = λ disk bytes. ok (some bytes);
  keyed_hash = λ key bytes. bytes;
  from_bytes = λ hash. hash;
}

-- A disk that forgets what is written.
abbrev forgetful_store : KeyStore
forgetful_store = record key_store { write = λ disk bytes. ok none }

-- A disk that takes no write.
abbrev read_only_store : KeyStore
read_only_store = record key_store { write = λ disk bytes. err permission_denied }

abbrev draw : ℕ → Bytes
draw i = i ∷ 7 ∷ []

server_key-first_start : server_key key_store draw none ≡ some (ok (1 ∷ 7 ∷ []), some (1 ∷ 7 ∷ []))
unfolding server_key key_loop server_sk_hash
server_key-first_start = refl

server_key-forgetful : server_key forgetful_store draw none ≡ some (err no_key, none)
unfolding server_key key_loop
server_key-forgetful = refl

server_key-read_only :
    server_key read_only_store draw none ≡ some (err (cannot_write permission_denied), none)
unfolding server_key key_loop
server_key-read_only = refl

server_key_total_example : (r : KeyEnd key_store) × (server_key key_store draw none ≡ some r)
server_key_total_example = server_key_total key_store draw none
