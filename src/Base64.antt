-- ===== src/Base64.antt =====
-- What src/listener.rs and src/bin.todo/wsocks.rs rely on of the crate `base64`, which is not part
-- of the repository: the standard alphabet, which is visible ASCII.
pub mod Sample
use sosistab2_obfsws.Base.{ℕ, ◌≤◌, ◌≡◌, Option, some, List, [], ◌∷◌}
use sosistab2_obfsws.Base.Words.{Bytes}
use sosistab2_obfsws.Io.{Text}

abbrev pub IsVisible : Text → Type 0
IsVisible [] = Unit {0}
IsVisible (c ∷ cs) = ((32 ≤ c) × (c ≤ 126)) × IsVisible cs

abbrev pub AreBytes : Bytes → Type 0
AreBytes [] = Unit {0}
AreBytes (b ∷ bs) = (b ≤ 255) × AreBytes bs

pub record Base64 : Type 0 where
  pub encode : Bytes → Text
  pub decode : Text → Option Bytes
  pub decode-encode : (bytes : Bytes) → AreBytes bytes → decode (encode bytes) ≡ some bytes
  pub decode-IsVisible : (t : Text) (bytes : Bytes) → decode t ≡ some bytes → IsVisible t
