-- ===== src/Base/Words.antt =====
-- Big-endian words: `to_be_bytes` and `from_be_bytes`.
use Prim.Native.Nat.{ℕ, zero, suc, ◌+◌, ◌*◌, ◌/◌, ◌%◌, ◌^◌, ◌<◌}
use mathlib.Core.Path.{◌≡◌, refl}
use mathlib.Core.List.{List, [], ◌∷◌, ◌++◌}
use native.Mathlib.Nat.{pow-suc}
use native.Mathlib.Omega.{arith}
use sosistab2_obfsws.Base.Lists.{length, length-append}

abbrev pub Bytes : Type 0
Bytes = List ℕ

-- `to_be_bytes` of a word of `n` bytes: most significant byte first.
unfoldable pub to_be_bytes : ℕ → ℕ → Bytes
to_be_bytes zero v = []
to_be_bytes (suc n) v = to_be_bytes n (v / 256) ++ v % 256 ∷ []

-- Horner's rule from the accumulator `acc`.
unfoldable pub be_value : ℕ → Bytes → ℕ
be_value acc [] = acc
be_value acc (b ∷ bs) = be_value (acc * 256 + b) bs

unfoldable pub from_be_bytes : Bytes → ℕ
unfolding be_value
from_be_bytes bs = be_value 0 bs

pub length-to_be_bytes : (n v : ℕ) → length (to_be_bytes n v) ≡ n
unfolding to_be_bytes
length-to_be_bytes zero v = refl
length-to_be_bytes (suc n) v =
    omega (
      arith,
      length-append (to_be_bytes n (v / 256)) (v % 256 ∷ []),
      length-to_be_bytes n (v / 256),
    )

be_value-append :
    (acc : ℕ) (bs cs : Bytes) → be_value acc (bs ++ cs) ≡ be_value (be_value acc bs) cs
unfolding be_value
be_value-append acc [] cs = refl
be_value-append acc (b ∷ bs) cs = be_value-append (acc * 256 + b) bs cs

-- The bytes of a word that fits give the word back.
pub from-to_be_bytes : (n v : ℕ) → v < 256 ^ n → from_be_bytes (to_be_bytes n v) ≡ v
unfolding from_be_bytes to_be_bytes be_value
from-to_be_bytes zero v h = omega arith
from-to_be_bytes (suc n) v h =
    rw (be_value-append 0 (to_be_bytes n (v / 256)) (v % 256 ∷ []))
      (omega (arith, pow-suc 256 n, from-to_be_bytes n (v / 256) (omega (arith, pow-suc 256 n))))
