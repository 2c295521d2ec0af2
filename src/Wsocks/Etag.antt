-- ===== src/Wsocks/Etag.antt =====
-- The session ids of src/bin.todo/wsocks.rs: a client hides a hash in the metadata of its pipes, and
-- the server reads it back.
pub mod Sample
pub mod Session
mod Tests
use sosistab2_obfsws.Base.{
  ℕ, ◌+◌, ◌^◌, ◌≤◌, ◌<◌, ◌≡◌, Bool, true, false, Option, none, some, List, [], ◌∷◌, ◌++◌, length,
  take, drop, ◌==◌, if◌then◌else◌,
}
use sosistab2_obfsws.Base.Words.{Bytes, to_be_bytes, from_be_bytes}
use sosistab2_obfsws.Base.Slices.{Exec, done, panic, ◌>>=◌, read_slice}
use sosistab2_obfsws.Base64.{Base64, AreBytes}
use sosistab2_obfsws.Io.{Result, ok, err, Text}

-- What the program takes from outside: the clock's values, `MuxPublic::as_bytes`, the hash of the
-- crate `blake3`, the stream cipher of the crate `chacha20`, `DefaultHasher` (a 64-bit hash of the
-- bytes that are written to it, with an algorithm that the standard library leaves open), and the
-- derived `Debug` of an `Etag`.
-- A stream cipher changes no length, gives bytes, and undoes itself under the same key and nonce.
pub record Crypto : Type 1 where
  pub SystemTime : Type 0
  pub Instant : Type 0
  pub MuxPublic : Type 0
  pub as_bytes : MuxPublic → Bytes
  pub keyed_hash : Bytes → Bytes → Bytes
  pub apply_keystream : Bytes → Bytes → Bytes → Bytes
  pub default_hash : Bytes → ℕ
  pub debug : Bytes → SystemTime → Instant → Bytes → Text
  pub length-apply_keystream :
      (key nonce bytes : Bytes) → length (apply_keystream key nonce bytes) ≡ length bytes
  pub apply_keystream-AreBytes :
      (key nonce bytes : Bytes) → AreBytes bytes → AreBytes (apply_keystream key nonce bytes)
  pub apply_keystream_twice :
      (key nonce bytes : Bytes)
      → AreBytes bytes
      → apply_keystream key nonce (apply_keystream key nonce bytes) ≡ bytes
  pub default_hash-lt : (bytes : Bytes) → default_hash bytes < 2 ^ 64

-- `NS_WSOCKS_CLIENT_ETAG`
abbrev pub ns_wsocks_client_etag : Bytes
ns_wsocks_client_etag =
    0xb2 ∷ 0xdf ∷ 0xa0 ∷ 0x91 ∷ 0xde ∷ 0xc2 ∷ 0x07 ∷ 0xbf ∷ 0xce ∷ 0x9e ∷ 0x9f ∷ 0x82 ∷ 0xb4 ∷ 0xf6
    ∷ 0x85 ∷ 0x16 ∷ 0xe2 ∷ 0xb6 ∷ 0xae ∷ 0xf8 ∷ 0xab ∷ 0xa4 ∷ 0xa0 ∷ 0x90 ∷ 0x96 ∷ 0xd3 ∷ 0xf8
    ∷ 0xfe ∷ 0x02 ∷ 0xcb ∷ 0xc5 ∷ 0xa8 ∷ []

pub data EtagError : Type 0 where
  not_base64 wrong_length : EtagError

-- `assert_eq!`
abbrev pub assert_eq : ℕ → ℕ → Exec (Unit {0})
assert_eq a b = if a == b then done tt else panic

module _ (K : Crypto) where
  pub record Etag : Type 0 where
    pub random : Bytes
    pub time1 : K.SystemTime
    pub time2 : K.Instant
    pub pk_hash : Bytes

  unfoldable pub client_etag_hash : Bytes → Bytes
  client_etag_hash bytes = K.keyed_hash ns_wsocks_client_etag bytes

module _ (K : Crypto) where
  -- `Etag::new`; the random bytes and the times are what the system gives.
  unfoldable pub etag_new : K.MuxPublic → Bytes → K.SystemTime → K.Instant → Etag K
  etag_new pk random now now' = record {
    random = random;
    time1 = now;
    time2 = now';
    pk_hash = client_etag_hash K (K.as_bytes pk);
  }

  -- `Hash for Etag`, and `calc_hash`
  unfoldable pub calc_hash : Etag K → ℕ
  calc_hash e = K.default_hash (client_etag_hash K (K.debug e.random e.time1 e.time2 e.pk_hash))

  -- `nonce` is what the random generator gives.
  unfoldable pub generate : Base64 → Etag K → Bytes → Exec Text
  generate B e nonce =
      let hash = K.apply_keystream e.pk_hash nonce (to_be_bytes 8 (calc_hash e)) in
      let out = nonce ++ hash in assert_eq (length out) 16 >>= λ _. done (B.encode out)

  decrypt : K.MuxPublic → Bytes → Exec (Result EtagError ℕ)
  decrypt pk buf = do
    nonce ← read_slice buf 0 8
    _ ← assert_eq (length nonce) 8
    hash ← read_slice buf 8 (length buf)
    _ ← assert_eq (length hash) 8
    hash' ← done (K.apply_keystream (client_etag_hash K (K.as_bytes pk)) nonce hash)
    h ← read_slice hash' 0 8
    _ ← assert_eq (length h) 8
    done (ok (from_be_bytes h))

  -- `Etag::from`
  unfoldable pub etag_from : Base64 → K.MuxPublic → Text → Exec (Result EtagError ℕ)
  unfolding decrypt
  etag_from B pk b64 = elim (B.decode b64) [
    | none ↦ done (err not_base64)
    | some buf ↦ if length buf == 16 then decrypt pk buf else done (err wrong_length)
  ]
