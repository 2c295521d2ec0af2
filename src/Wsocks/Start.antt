-- ===== src/Wsocks/Start.antt =====
-- The starts of `server` and of `client` in src/bin.todo/wsocks.rs: the information that a server prints,
-- and the key that a client is given.
use sosistab2_obfsws.Base.{ℕ, ◌≡◌, Option, none, some, length}
use sosistab2_obfsws.Base.Words.{Bytes}
use sosistab2_obfsws.Base64.{AreBytes}
use sosistab2_obfsws.Io.{Result, ok, err, Text, codes, ◌>>=◌}
use sosistab2_obfsws.Wsocks.Etag.{Crypto, Etag, etag_new}
use sosistab2_obfsws.Wsocks.Info.{Build, Value, string, object, end, field, env_info}

-- What the program takes of the crate `hex`, and of `MuxPublic`: a text of two digits for each byte is
-- decoded into a slice of that length, and a public key has 32 bytes, from which it is made again.
pub record Keys (K : Crypto) : Type 0 where
  pub encode : Bytes → Text
  pub decode_to_slice : Text → ℕ → Option Bytes
  pub from_bytes : Bytes → K.MuxPublic
  pub decode-encode :
      (bytes : Bytes) → AreBytes bytes → decode_to_slice (encode bytes) (length bytes) ≡ some bytes
  pub length-as_bytes : (pk : K.MuxPublic) → length (K.as_bytes pk) ≡ 32
  pub as_bytes-AreBytes : (pk : K.MuxPublic) → AreBytes (K.as_bytes pk)
  pub from_bytes-as_bytes : (pk : K.MuxPublic) → from_bytes (K.as_bytes pk) ≡ pk

pub data StartError : Type 0 where
  bad_hex : StartError

abbrev pub or_hex : Option Bytes → Result StartError Bytes
or_hex none = err bad_hex
or_hex (some b) = ok b

module _ (K : Crypto) (X : Keys K) where
  unfoldable pub hex2bytes : ℕ → Text → Result StartError Bytes
  hex2bytes len h = or_hex (X.decode_to_slice h len)

  unfoldable pub hex2key : Text → Result StartError Bytes
  hex2key h = hex2bytes 32 h

  -- `info` of `server`
  unfoldable pub server_info : Build → K.MuxPublic → Text → Value
  server_info B server_pk listen = object (
      field (codes "env") (env_info B) (
        field (codes "public_key") (string (X.encode (K.as_bytes server_pk)))
          (field (codes "listen") (string listen) end)))

  -- `pubkey` of `client`, and the `etag` that is made with it.
  unfoldable pub client_etag : Text → Bytes → K.SystemTime → K.Instant → Result StartError (Etag K)
  client_etag remote_public_key random now now' = do
    key ← hex2key remote_public_key
    ok (etag_new K (X.from_bytes key) random now now')
