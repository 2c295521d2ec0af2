-- ===== src/Wsocks/Etag/Session.antt =====
-- The session ids of src/bin.todo/wsocks.rs come back as they were sent, and pass the check of
-- src/listener.rs.
use sosistab2_obfsws.Base.{
  ℕ, zero, suc, ◌-◌, ◌/◌, ◌%◌, ◌^◌, ◌<◌, ◌≡◌, ap, ◌∙◌, Option-cases, Bool-cases, inl, inr, some, [],
  ◌∷◌, ◌++◌, arith, length, take, drop, ◌==◌, ==→eq, eq→==, length-append, length-take, length-drop,
  take_all, append-nil, take-append_right, drop-append_right,
}
use sosistab2_obfsws.Base.Words.{
  Bytes, to_be_bytes, from_be_bytes, length-to_be_bytes, from-to_be_bytes,
}
use sosistab2_obfsws.Base.Slices.{done, read_slice-done}
use sosistab2_obfsws.Base64.{Base64, AreBytes}
use sosistab2_obfsws.Io.{Result, ok, err, Text}
use sosistab2_obfsws.Wsocks.Etag.{
  Crypto, EtagError, wrong_length, not_base64, assert_eq, Etag, client_etag_hash, etag_new,
  calc_hash, generate, decrypt, etag_from,
}

AreBytes-append : (xs ys : Bytes) → AreBytes xs → AreBytes ys → AreBytes (xs ++ ys)
AreBytes-append [] ys h k = k
AreBytes-append (x ∷ xs) ys h k = (h.0, AreBytes-append xs ys h.1 k)

to_be_bytes-AreBytes : (n v : ℕ) → AreBytes (to_be_bytes n v)
unfolding to_be_bytes
to_be_bytes-AreBytes zero v = tt
to_be_bytes-AreBytes (suc n) v =
    AreBytes-append (to_be_bytes n (v / 256)) (v % 256 ∷ []) (to_be_bytes-AreBytes n (v / 256))
      (omega arith, tt)

assert_eq-done : (a b : ℕ) → a ≡ b → assert_eq a b ≡ done tt
assert_eq-done a b e = rw (eq→== a b e)

module _ (K : Crypto) (B : Base64) (pk : K.MuxPublic) where
  abbrev key_of : Bytes
  key_of = client_etag_hash K (K.as_bytes pk)

  -- Sixteen bytes are decrypted with no panic.
  decrypt_lem :
      (buf : Bytes)
      → length buf ≡ 16
      → decrypt K pk buf
        ≡ done (ok (from_be_bytes (K.apply_keystream key_of (take 8 buf) (drop 8 buf))))
  unfolding decrypt
  decrypt_lem buf sixteen = rw (
    read_slice-done buf 0 8 (omega arith) (omega arith),
    assert_eq-done (length (take (8 - 0) buf)) 8 (omega (arith, length-take 8 buf)),
    read_slice-done buf 8 (length buf) (omega arith) (omega arith),
    take_all (length buf - 8) (drop 8 buf) (omega (arith, length-drop 8 buf)),
    assert_eq-done (length (drop 8 buf)) 8 (omega (arith, length-drop 8 buf)),
    read_slice-done plain 0 8 (omega arith) (omega (arith, eight)),
    take_all 8 plain (omega (arith, eight)),
    assert_eq-done (length plain) 8 eight,
  )
    where
      plain : Bytes
      plain = K.apply_keystream key_of (take 8 buf) (drop 8 buf)

      eight : length plain ≡ 8
      eight =
          omega
            (arith, K.length-apply_keystream key_of (take 8 buf) (drop 8 buf), length-drop 8 buf)

  etag_from-decrypt :
      (b64 : Text) (buf : Bytes)
      → B.decode b64 ≡ some buf
      → length buf ≡ 16
      → etag_from K B pk b64
        ≡ done (ok (from_be_bytes (K.apply_keystream key_of (take 8 buf) (drop 8 buf))))
  unfolding etag_from
  etag_from-decrypt b64 buf decodes sixteen =
      rw (decodes, etag_from, eq→== (length buf) 16 sixteen) (decrypt_lem buf sixteen)

  -- `Etag::from` panics on no text: it gives a hash, or one of its two errors.
  pub etag_from_total : (b64 : Text) → (r : Result EtagError ℕ) × (etag_from K B pk b64 ≡ done r)
  unfolding etag_from
  etag_from_total b64 = elim (Option-cases (B.decode b64)) [
    | inl bad ↦ (err not_base64, rw (bad, etag_from))
    | inr (buf, decodes) ↦ elim (Bool-cases (length buf == 16)) [
      | inl sixteen ↦ (_, etag_from-decrypt b64 buf decodes (==→eq (length buf) 16 sixteen))
      | inr other ↦ (err wrong_length, rw (decodes, etag_from, other))
    ]
  ]

  module _ (random nonce : Bytes) (now : K.SystemTime) (now' : K.Instant) where
    abbrev etag : Etag K
    etag = etag_new K pk random now now'

    abbrev hash_bytes : Bytes
    hash_bytes = to_be_bytes 8 (calc_hash K etag)

    abbrev hidden : Bytes
    hidden = K.apply_keystream key_of nonce hash_bytes

    hash_fits : calc_hash K etag < 256 ^ 8
    unfolding calc_hash
    hash_fits = K.default_hash-lt _

    hidden_eight : length hidden ≡ 8
    hidden_eight =
        K.length-apply_keystream key_of nonce hash_bytes ∙ length-to_be_bytes 8 (calc_hash K etag)

    generate_lem : length nonce ≡ 8 → generate K B etag nonce ≡ done (B.encode (nonce ++ hidden))
    unfolding generate etag_new
    generate_lem eight = rw (
        assert_eq-done (length (nonce ++ hidden)) 16
          (omega (arith, length-append nonce hidden, hidden_eight)))

    -- The server's decryption of the two halves.
    revealed :
        length nonce ≡ 8
        → from_be_bytes
            (K.apply_keystream key_of (take 8 (nonce ++ hidden)) (drop 8 (nonce ++ hidden)))
          ≡ calc_hash K etag
    revealed eight =
        rw
          (
            take-append_right nonce hidden 8 0 (omega arith),
            append-nil nonce,
            drop-append_right nonce hidden 8 0 (omega arith),
            K.apply_keystream_twice key_of nonce hash_bytes
                (to_be_bytes-AreBytes 8 (calc_hash K etag)),
          )
          (from-to_be_bytes 8 (calc_hash K etag) hash_fits)

    -- What a client generates from its id is a key that decodes to 16 bytes, as the listener wants,
    -- and the server reads the client's hash out of it; neither side panics.
    pub etag_from-generate :
        length nonce ≡ 8
        → AreBytes nonce
        → (key : Text) × (code : Bytes) × (generate K B etag nonce ≡ done key)
          × (B.decode key ≡ some code)
          × (length code ≡ 16)
          × (etag_from K B pk key ≡ done (ok (calc_hash K etag)))
    etag_from-generate eight are_bytes =
        let code : Bytes = nonce ++ hidden in
        let decodes : B.decode (B.encode code) ≡ some code = B.decode-encode code (
          AreBytes-append nonce hidden are_bytes (
            K.apply_keystream-AreBytes key_of nonce hash_bytes
              (to_be_bytes-AreBytes 8 (calc_hash K etag)))) in
        let sixteen : length code ≡ 16 = omega (arith, length-append nonce hidden, hidden_eight) in
        (
          B.encode code,
          code,
          generate_lem eight,
          decodes,
          sixteen,
          etag_from-decrypt (B.encode code) code decodes sixteen
              ∙ ap (λ (n : ℕ). done (ok n)) (revealed eight),
        )
