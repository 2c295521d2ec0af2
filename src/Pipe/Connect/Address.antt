-- ===== src/Pipe/Connect/Address.antt =====
-- The address that `ObfsWsPipe::connect` of src/pipe.rs dials: which port it names.
use native.Mathlib.Nat.{pow-suc}
use mathlib.Core.Option.{some-injective}
use sosistab2_obfsws.Base.{
  ◌≢◌, sym, ap, ap₂, ◌∙◌, true, false, ◌==◌, ==→eq, eq→==, ℕ, zero, suc, ◌+◌, ◌-◌, ◌*◌, ◌/◌, ◌%◌,
  ◌^◌, ◌≤◌, ◌<◌, ◌≡◌, refl, Bool-cases, inl, inr, Option, none, some, [], ◌∷◌, ◌++◌, arith, ltb,
  ltb→lt,
}
use sosistab2_obfsws.Io.{Text, text_eq, codes}
use sosistab2_obfsws.Pipe.Connect.{
  WsClient, decimal, port_digits, default_port, effective_port, with_port,
}

-- The number that a text of digits stands for, read from the left.
abbrev pub value_from : ℕ → Text → ℕ
value_from acc [] = acc
value_from acc (d ∷ ds) = value_from (acc * 10 + (d - 48)) ds

abbrev pub AreDigits : Text → Type 0
AreDigits [] = Unit {0}
AreDigits (d ∷ ds) = ((48 ≤ d) × (d ≤ 57)) × AreDigits ds

value_from-snoc :
    (acc d : ℕ) (ds : Text) → value_from acc (ds ++ d ∷ []) ≡ value_from acc ds * 10 + (d - 48)
value_from-snoc acc d [] = refl
value_from-snoc acc d (c ∷ ds) = value_from-snoc (acc * 10 + (c - 48)) d ds

AreDigits-snoc : (d : ℕ) (ds : Text) → 48 ≤ d → d ≤ 57 → AreDigits ds → AreDigits (ds ++ d ∷ [])
AreDigits-snoc d [] h k digits = ((h, k), tt)
AreDigits-snoc d (c ∷ ds) h k digits = (digits.0, AreDigits-snoc d ds h k digits.1)

decimal-value : (fuel n : ℕ) → n < 10 ^ fuel → value_from 0 (decimal fuel n) ≡ n
unfolding decimal
decimal-value zero n h = omega arith
decimal-value (suc fuel) n h = elim (Bool-cases (ltb n 10)) [
  | inl small ↦ rw small (omega arith)
  | inr large ↦
      rw (large, value_from-snoc 0 (48 + n % 10) (decimal fuel (n / 10)))
        (omega (arith, decimal-value fuel (n / 10) (omega (arith, pow-suc 10 fuel))))
]

decimal-AreDigits : (fuel n : ℕ) → AreDigits (decimal fuel n)
unfolding decimal
decimal-AreDigits zero n = tt
decimal-AreDigits (suc fuel) n = elim (Bool-cases (ltb n 10)) [
  | inl small ↦ rw small ((omega arith, omega (arith, ltb→lt n 10 small)), tt)
  | inr large ↦ rw large (
      AreDigits-snoc (48 + n % 10) (decimal fuel (n / 10)) (omega arith) (omega arith)
        (decimal-AreDigits fuel (n / 10)))
]

text_eq→eq : (t u : Text) → text_eq t u ≡ true → t ≡ u
text_eq→eq [] [] e = refl
text_eq→eq [] (d ∷ ds) e = cc
text_eq→eq (c ∷ cs) [] e = cc
text_eq→eq (c ∷ cs) (d ∷ ds) e = elim (Bool-cases (c == d)) [
  | inl same ↦ ap₂ ◌∷◌ (==→eq c d same) (text_eq→eq cs ds (rw same at e))
  | inr differ ↦ cc (rw differ at e)
]

eq→text_eq : (t : Text) → text_eq t t ≡ true
eq→text_eq [] = refl
eq→text_eq (c ∷ cs) = rw (eq→== c c refl, eq→text_eq cs)

module _ (W : WsClient) where
  -- The address for a host: with the port that the URL names, in decimal digits; else with the port of
  -- the scheme; else the host alone.
  pub data Dials (uri : W.Uri) (host : Text) : Text → Type 0 where
    named :
        (port : ℕ) (digits : Text)
        → W.port_u16 uri ≡ some port
        → AreDigits digits
        → value_from 0 digits ≡ port
        → Dials uri host (host ++ codes ":" ++ digits)
    for_ws :
        W.port_u16 uri ≡ none
        → W.scheme_str uri ≡ some (codes "ws")
        → Dials uri host (host ++ codes ":" ++ codes "80")
    for_wss :
        W.port_u16 uri ≡ none
        → W.scheme_str uri ≡ some (codes "wss")
        → Dials uri host (host ++ codes ":" ++ codes "443")
    bare :
        W.port_u16 uri ≡ none
        → W.scheme_str uri ≢ some (codes "ws")
        → W.scheme_str uri ≢ some (codes "wss")
        → Dials uri host host

  scheme-Dials :
      (uri : W.Uri) (host : Text) (scheme : Option Text)
      → W.port_u16 uri ≡ none
      → W.scheme_str uri ≡ scheme
      → Dials uri host (with_port host (default_port scheme))
  unfolding with_port default_port decimal
  scheme-Dials uri host none no_port e = bare no_port (λ f. cc) (λ f. cc)
  scheme-Dials uri host (some scheme) no_port e = elim (Bool-cases (text_eq scheme (codes "ws"))) [
    | inl is_ws ↦ rw is_ws (for_ws no_port (e ∙ ap some (text_eq→eq scheme (codes "ws") is_ws)))
    | inr other ↦ elim (Bool-cases (text_eq scheme (codes "wss"))) [
      | inl is_wss ↦
          rw (other, is_wss)
            (for_wss no_port (e ∙ ap some (text_eq→eq scheme (codes "wss") is_wss)))
      | inr neither ↦
          rw (other, neither)
            (bare no_port (apart (codes "ws") other) (apart (codes "wss") neither))
    ]
  ]
    where
      apart : (t : Text) → text_eq scheme t ≡ false → W.scheme_str uri ≢ some t
      apart t differ f =
          true≢false
            (sym (ap (λ u. text_eq u t) (some-injective _ _ (sym e ∙ f)) ∙ eq→text_eq t) ∙ differ)
        where
          true≢false : true ≡ false → ⊥
          true≢false f = cc

  pub address-Dials :
      (uri : W.Uri) (host : Text) (port : Option ℕ)
      → W.port_u16 uri ≡ port
      → Dials uri host (with_port host (effective_port port (W.scheme_str uri)))
  unfolding effective_port with_port
  address-Dials uri host none e = scheme-Dials uri host (W.scheme_str uri) e refl
  address-Dials uri host (some port) e =
      named port (decimal port_digits port) e (decimal-AreDigits port_digits port)
        (decimal-value port_digits port (omega (arith, W.port_u16-lt uri e)))
