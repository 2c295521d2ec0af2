-- ===== src/Base64/Sample.antt =====
-- A stand-in for `base64` with the laws that the sources rely on, for runs on concrete data: each
-- byte as two characters, the high half and the low half, counted from `A`.
use sosistab2_obfsws.Base.{
  ℕ, ◌+◌, ◌*◌, ◌/◌, ◌%◌, ◌-◌, ◌≡◌, refl, Bool, Option-cases, Option, none, some, [], ◌∷◌, arith,
  leb, ◌&&◌, inl, inr, if◌then◌else◌,
}
use mathlib.Core.Option
use sosistab2_obfsws.Base.Words.{Bytes}
use sosistab2_obfsws.Io.{Text}
use sosistab2_obfsws.Base64.{Base64, IsVisible, AreBytes}

abbrev encode : Bytes → Text
encode [] = []
encode (b ∷ bs) = (65 + b / 16) ∷ (65 + b % 16) ∷ encode bs

abbrev is_digit : ℕ → Bool
is_digit c = leb 65 c && leb c 80

abbrev decode : Text → Option Bytes
decode [] = some []
decode (c ∷ []) = none
decode (c ∷ d ∷ cs) =
    let rest = decode cs in
    if is_digit c && is_digit d
    then Option.map (λ bs. ((c - 65) * 16 + (d - 65)) ∷ bs) rest
    else none

pub decode-encode : (bytes : Bytes) → AreBytes bytes → decode (encode bytes) ≡ some bytes
decode-encode [] h = refl
decode-encode (b ∷ bs) h = ground (arith, decode-encode bs h.1)

pub decode-IsVisible : (t : Text) (bytes : Bytes) → decode t ≡ some bytes → IsVisible t
decode-IsVisible [] bytes h = tt
decode-IsVisible (c ∷ []) bytes h = cc
decode-IsVisible (c ∷ d ∷ cs) bytes h = elim (Option-cases (decode cs)) [
  | inl bad ↦ absurd (ground arith)
  | inr (bs, good) ↦
      ((ground arith, ground arith), ((ground arith, ground arith), decode-IsVisible cs bs good))
]

abbrev pub sample_base64 : Base64
sample_base64 = record {
  encode = encode;
  decode = decode;
  decode-encode = decode-encode;
  decode-IsVisible = decode-IsVisible;
}
