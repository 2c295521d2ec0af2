-- ===== src/Wsocks/Etag/Tests.antt =====
-- The session ids of src/bin.todo/wsocks.rs with a cipher and a hash of a few lines.
use sosistab2_obfsws.Base.{◌≡◌, refl, some, [], ◌∷◌, arith, length}
use sosistab2_obfsws.Base.Words.{Bytes}
use sosistab2_obfsws.Base.Slices.{done}
use sosistab2_obfsws.Base64.Sample.{sample_base64}
use sosistab2_obfsws.Io.{ok, Text}
use sosistab2_obfsws.Wsocks.Etag.{etag_new, calc_hash, generate, etag_from}
use sosistab2_obfsws.Wsocks.Etag.Sample.{sample_crypto}
use sosistab2_obfsws.Wsocks.Etag.Session.{etag_from-generate}

abbrev nonce : Bytes
nonce = 1 ∷ 2 ∷ 3 ∷ 4 ∷ 5 ∷ 6 ∷ 7 ∷ 8 ∷ []

etag_from-generate_example :
    let e = etag_new sample_crypto (9 ∷ 8 ∷ []) (3 ∷ 4 ∷ []) 10 20 in
    (key : Text) × (code : Bytes) × (generate sample_crypto sample_base64 e nonce ≡ done key)
    × (sample_base64.decode key ≡ some code)
    × (length code ≡ 16)
    × (etag_from sample_crypto sample_base64 (9 ∷ 8 ∷ []) key
        ≡ done (ok (calc_hash sample_crypto e)))
etag_from-generate_example =
    etag_from-generate sample_crypto sample_base64 (9 ∷ 8 ∷ []) (3 ∷ 4 ∷ []) nonce 10 20 refl
      (omega arith)
