-- ===== src/Wsocks/Handshake/Sample.antt =====
-- Two public keys, a build and a client's id, for runs of src/bin.todo/wsocks.rs.
use sosistab2_obfsws.Base.{
  ◌≡◌, refl, ◌+◌, ◌-◌, ◌*◌, ◌/◌, ◌%◌, ℕ, ap₂, arith, Bool, true, false, Option, none, length, ◌==◌,
  eq→==, if◌then◌else◌, some, [], ◌∷◌, ◌++◌,
}
use sosistab2_obfsws.Base.Words.{Bytes, to_be_bytes, from_be_bytes}
use sosistab2_obfsws.Base.Slices.{done}
use sosistab2_obfsws.Base64.{AreBytes}
use sosistab2_obfsws.Base64.Sample.{sample_base64}
use sosistab2_obfsws.Io.{Text}
use sosistab2_obfsws.Wsocks.Etag.{Crypto, Etag, etag_new, calc_hash, generate, client_etag_hash}
use sosistab2_obfsws.Wsocks.Etag.Sample.{sample_crypto}
use sosistab2_obfsws.Wsocks.Server.Sessions.{Pipes}
use sosistab2_obfsws.Wsocks.Info.{Build}
use sosistab2_obfsws.Wsocks.Start.{Keys}

-- A pipe is its metadata.
abbrev pub named_pipes : Pipes
named_pipes = record { Pipe = Text; peer_metadata = λ pipe. pipe }

abbrev pub nonce : Bytes
nonce = 1 ∷ 2 ∷ 3 ∷ 4 ∷ 5 ∷ 6 ∷ 7 ∷ 8 ∷ []

pub nonce-AreBytes : AreBytes nonce
nonce-AreBytes = search arith

-- Two public keys, of 32 bytes each.
abbrev pub key_bytes : Bool → Bytes
key_bytes true =
    1 ∷ 0 ∷ 0 ∷ 0 ∷ 0 ∷ 0 ∷ 0 ∷ 0 ∷ 0 ∷ 0 ∷ 0 ∷ 0 ∷ 0 ∷ 0 ∷ 0 ∷ 0 ∷ 0 ∷ 0 ∷ 0 ∷ 0 ∷ 0 ∷ 0 ∷ 0 ∷ 0
    ∷ 0 ∷ 0 ∷ 0 ∷ 0 ∷ 0 ∷ 0 ∷ 0 ∷ 0 ∷ []
key_bytes false =
    0 ∷ 0 ∷ 0 ∷ 0 ∷ 0 ∷ 0 ∷ 0 ∷ 0 ∷ 0 ∷ 0 ∷ 0 ∷ 0 ∷ 0 ∷ 0 ∷ 0 ∷ 0 ∷ 0 ∷ 0 ∷ 0 ∷ 0 ∷ 0 ∷ 0 ∷ 0 ∷ 0
    ∷ 0 ∷ 0 ∷ 0 ∷ 0 ∷ 0 ∷ 0 ∷ 0 ∷ 0 ∷ []

abbrev pub two_keys : Crypto
two_keys = record sample_crypto { MuxPublic = Bool; as_bytes = key_bytes }

-- Two digits for each byte, and their bytes again.
abbrev pub digits : Bytes → Text
digits [] = []
digits (b ∷ bs) = (48 + b / 16) ∷ (48 + b % 16) ∷ digits bs

abbrev bytes_of : Text → Bytes
bytes_of (h ∷ (l ∷ t)) = ((h - 48) * 16 + (l - 48)) ∷ bytes_of t
bytes_of _ = []

pub bytes_of-digits : (bs : Bytes) → bytes_of (digits bs) ≡ bs
bytes_of-digits [] = refl
bytes_of-digits (b ∷ bs) = ap₂ ◌∷◌ (omega arith) (bytes_of-digits bs)

abbrev of_length : ℕ → Bytes → Option Bytes
of_length n bs = if length bs == n then some bs else none

pub of_length-same : (bs bs' : Bytes) → bs' ≡ bs → of_length (length bs) bs' ≡ some bs
of_length-same bs bs' e = rw (e, eq→== (length bs) (length bs) refl)

abbrev pub first_key : Bytes → Bool
first_key [] = false
first_key (b ∷ bs) = b == 1

pub sample_keys-length : (pk : Bool) → length (key_bytes pk) ≡ 32
sample_keys-length true = refl
sample_keys-length false = refl

pub sample_keys-AreBytes : (pk : Bool) → AreBytes (key_bytes pk)
sample_keys-AreBytes true = search arith
sample_keys-AreBytes false = search arith

pub sample_keys-again : (pk : Bool) → first_key (key_bytes pk) ≡ pk
sample_keys-again true = refl
sample_keys-again false = refl

abbrev pub sample_keys : Keys two_keys
sample_keys = record {
  encode = digits;
  decode_to_slice = λ t n. of_length n (bytes_of t);
  from_bytes = first_key;
  decode-encode = λ bytes h. of_length-same bytes (bytes_of (digits bytes)) (bytes_of-digits bytes);
  length-as_bytes = sample_keys-length;
  as_bytes-AreBytes = sample_keys-AreBytes;
  from_bytes-as_bytes = sample_keys-again;
}

abbrev pub sample_build : Build
sample_build = record { cfg = λ key v. false; flag = λ name. false; option_env = λ name. none }

abbrev pub id : Etag two_keys
id = etag_new two_keys true (3 ∷ 4 ∷ []) 10 20

-- The hash of this id under the sample's hash function is 0 (its last 8 bytes).
abbrev pub key : Text
key = sample_base64.encode (nonce ++ (255 ∷ 255 ∷ 255 ∷ 255 ∷ 255 ∷ 255 ∷ 255 ∷ 255 ∷ []))

pub key_of_id : generate two_keys sample_base64 id nonce ≡ done key
unfolding generate etag_new calc_hash to_be_bytes from_be_bytes client_etag_hash
key_of_id = refl
