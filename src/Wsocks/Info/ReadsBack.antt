-- ===== src/Wsocks/Info/ReadsBack.antt =====
-- The lists in `cfg_info` of src/bin.todo/wsocks.rs can be read back from their texts.
use mathlib.Core.Path.{subst}
use sosistab2_obfsws.Base.{
  ℕ, ◌≡◌, ◌≢◌, refl, sym, true, false, ap, ◌∙◌, Bool-cases, inl, inr, some, List, [], ◌∷◌, ◌++◌,
  arith, ◌==◌, ne→==, if◌then◌else◌,
}
use sosistab2_obfsws.Io.{Text, codes}
use sosistab2_obfsws.Wsocks.Info.{
  Build, Value, string, pushed, join, shown, cfg_info, env_info, get, target_arch, target_feature,
  target_os, target_family, target_env, target_endian, target_pointer_width, target_vendor,
  target_has_atomic, panic,
}

-- A character before the first word.
abbrev pub before : ℕ → List Text → List Text
before c [] = (c ∷ []) ∷ []
before c (w ∷ ws) = (c ∷ w) ∷ ws

-- The words of a text between its commas, without blanks.
abbrev pub words : Text → List Text
words [] = [] ∷ []
words (c ∷ cs) =
    let rest = words cs in if c == 44 then [] ∷ rest else if c == 32 then rest else before c rest

-- No text at all is no word.
abbrev pub names_of : Text → List Text
names_of [] = []
names_of (c ∷ cs) = words (c ∷ cs)

abbrev pub IsPlain : Text → Type 0
IsPlain [] = Unit {0}
IsPlain (c ∷ cs) = ((c ≢ 44) × (c ≢ 32)) × IsPlain cs

-- A name has characters, and no comma or blank among them.
abbrev pub IsName : Text → Type 0
IsName [] = ⊥
IsName (c ∷ cs) = IsPlain (c ∷ cs)

abbrev pub AreNames : List Text → Type 0
AreNames [] = Unit {0}
AreNames (w ∷ ws) = IsName w × AreNames ws

IsName-IsPlain : (w : Text) → IsName w → IsPlain w
IsName-IsPlain [] h = tt
IsName-IsPlain (c ∷ cs) h = h

words-plain : (w : Text) → IsPlain w → words w ≡ w ∷ []
words-plain [] h = refl
words-plain (c ∷ cs) h = rw (ne→== c 44 h.0.0, ne→== c 32 h.0.1, words-plain cs h.1)

words-comma : (w rest : Text) → IsPlain w → words (w ++ 44 ∷ 32 ∷ rest) ≡ w ∷ words rest
words-comma [] rest h = refl
words-comma (c ∷ cs) rest h = rw (ne→== c 44 h.0.0, ne→== c 32 h.0.1, words-comma cs rest h.1)

words-join : (w : Text) (ws : List Text) → AreNames (w ∷ ws) → words (join (w ∷ ws)) ≡ w ∷ ws
unfolding join
words-join w [] h = words-plain w (IsName-IsPlain w h.0)
words-join w (v ∷ ws) h =
    words-comma w (join (v ∷ ws)) (IsName-IsPlain w h.0) ∙ ap (◌∷◌ w) (words-join v ws h.1)

names_of-join : (ws : List Text) → AreNames ws → names_of (join ws) ≡ ws
unfolding join
names_of-join [] h = refl
names_of-join ([] ∷ ws) h = absurd h.0
names_of-join ((c ∷ cs) ∷ []) h = words-join (c ∷ cs) [] h
names_of-join ((c ∷ cs) ∷ (v ∷ ws)) h = words-join (c ∷ cs) (v ∷ ws) h

pushed-AreNames :
    (B : Build) (key : Text) (vs : List Text) → AreNames vs → AreNames (pushed B key vs)
unfolding pushed
pushed-AreNames B key [] h = tt
pushed-AreNames B key (v ∷ vs) h = elim (Bool-cases (B.cfg key v)) [
  | inl holds ↦ rw holds (h.0, pushed-AreNames B key vs h.1)
  | inr fails ↦ rw fails (pushed-AreNames B key vs h.1)
]

-- Some of the values of a key: those of which the compiler says that they hold, each once, in order.
pub data Holding (B : Build) (key : Text) : List Text → List Text → Type 0 where
  no_more : Holding B key [] []
  holds :
      {v : Text} {vs ws : List Text}
      → B.cfg key v ≡ true
      → Holding B key vs ws
      → Holding B key (v ∷ vs) (v ∷ ws)
  fails :
      {v : Text} {vs ws : List Text}
      → B.cfg key v ≡ false
      → Holding B key vs ws
      → Holding B key (v ∷ vs) ws

pushed-Holding : (B : Build) (key : Text) (vs : List Text) → Holding B key vs (pushed B key vs)
unfolding pushed
pushed-Holding B key [] = no_more
pushed-Holding B key (v ∷ vs) = elim (Bool-cases (B.cfg key v)) [
  | inl it_holds ↦ rw it_holds (holds it_holds (pushed-Holding B key vs))
  | inr it_fails ↦ rw it_fails (fails it_fails (pushed-Holding B key vs))
]

-- The names that hold under a key can be read from the text under that key in a value.
abbrev pub ReadsBack : Build → Value → Text → List Text → Type 0
ReadsBack B v key values =
    (text : Text) × (get v (codes "cfg" ∷ key ∷ []) ≡ some (string text))
    × Holding B key values (names_of text)

shown-ReadsBack :
    (B : Build) (key : Text) (values : List Text)
    → AreNames values
    → Holding B key values (names_of (join (pushed B key values)))
shown-ReadsBack B key values h =
    subst (Holding B key values) (sym (names_of-join _ (pushed-AreNames B key values h)))
      (pushed-Holding B key values)

-- In what `env_info` shows, the words between the commas of the text under each of the ten keys of its
-- `cfg` are exactly the values that the source tests under that key and of which the compiler says that
-- they hold, in the order of the source.
pub env_info-ReadsBack :
    (B : Build)
    → ReadsBack B (env_info B) (codes "target_arch") target_arch
      × ReadsBack B (env_info B) (codes "target_feature") target_feature
      × ReadsBack B (env_info B) (codes "target_os") target_os
      × ReadsBack B (env_info B) (codes "target_family") target_family
      × ReadsBack B (env_info B) (codes "target_env") target_env
      × ReadsBack B (env_info B) (codes "target_endian") target_endian
      × ReadsBack B (env_info B) (codes "target_pointer_width") target_pointer_width
      × ReadsBack B (env_info B) (codes "target_vendor") target_vendor
      × ReadsBack B (env_info B) (codes "target_has_atomic") target_has_atomic
      × ReadsBack B (env_info B) (codes "panic") panic
unfolding env_info cfg_info shown get
env_info-ReadsBack B = (
  (_, refl, shown-ReadsBack B (codes "target_arch") target_arch (omega arith)),
  (_, refl, shown-ReadsBack B (codes "target_feature") target_feature (omega arith)),
  (_, refl, shown-ReadsBack B (codes "target_os") target_os (omega arith)),
  (_, refl, shown-ReadsBack B (codes "target_family") target_family (omega arith)),
  (_, refl, shown-ReadsBack B (codes "target_env") target_env (omega arith)),
  (_, refl, shown-ReadsBack B (codes "target_endian") target_endian (omega arith)),
  (_, refl, shown-ReadsBack B (codes "target_pointer_width") target_pointer_width (omega arith)),
  (_, refl, shown-ReadsBack B (codes "target_vendor") target_vendor (omega arith)),
  (_, refl, shown-ReadsBack B (codes "target_has_atomic") target_has_atomic (omega arith)),
  (_, refl, shown-ReadsBack B (codes "panic") panic (omega arith)),
)
