-- ===== src/Wsocks/Etag/Sample.antt =====
-- A cipher and hashes of a few lines, for runs of the session ids of src/bin.todo/wsocks.rs.
use sosistab2_obfsws.Base.{ℕ, ◌-◌, ◌%◌, ◌^◌, ◌<◌, ◌≡◌, refl, ap₂, [], ◌∷◌, ◌++◌, arith, length}
use sosistab2_obfsws.Base.Words.{Bytes, from_be_bytes}
use sosistab2_obfsws.Base64.{AreBytes}
use sosistab2_obfsws.Wsocks.Etag.{Crypto}

-- Every byte against 0xff.
abbrev pub flip : Bytes → Bytes
flip [] = []
flip (b ∷ bs) = (255 - b) ∷ flip bs

pub length-flip : (bs : Bytes) → length (flip bs) ≡ length bs
length-flip [] = refl
length-flip (b ∷ bs) = omega (arith, length-flip bs)

pub flip-AreBytes : (bs : Bytes) → AreBytes bs → AreBytes (flip bs)
flip-AreBytes [] h = tt
flip-AreBytes (b ∷ bs) h = (omega arith, flip-AreBytes bs h.1)

pub flip_twice : (bs : Bytes) → AreBytes bs → flip (flip bs) ≡ bs
flip_twice [] h = refl
flip_twice (b ∷ bs) h = ap₂ ◌∷◌ (omega arith) (flip_twice bs h.1)

pub sum_hash-lt : (bs : Bytes) → from_be_bytes bs % 2 ^ 64 < 2 ^ 64
sum_hash-lt bs = omega arith

abbrev pub sample_crypto : Crypto
sample_crypto = record {
  SystemTime = ℕ;
  Instant = ℕ;
  MuxPublic = Bytes;
  as_bytes = λ pk. pk;
  keyed_hash = λ key bytes. bytes;
  apply_keystream = λ key nonce bytes. flip bytes;
  default_hash = λ bytes. from_be_bytes bytes % 2 ^ 64;
  debug = λ random now now' pk_hash. random ++ pk_hash;
  length-apply_keystream = λ key nonce bytes. length-flip bytes;
  apply_keystream-AreBytes = λ key nonce bytes h. flip-AreBytes bytes h;
  apply_keystream_twice = λ key nonce bytes h. flip_twice bytes h;
  default_hash-lt = sum_hash-lt;
}
