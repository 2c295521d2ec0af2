-- ===== src/Io.antt =====
-- The standard library's I/O results, as src/pipe.rs and src/bin.todo/wsocks.rs use them.
use Prim.Native.Char.{code}
use Prim.Native.String.{String}
use sosistab2_obfsws.Base.{
  Bool, true, false, ◌&&◌, ◌==◌, ℕ, ◌≡◌, refl, ap, ◌⊎◌, inl, inr, List, [], ◌∷◌,
}

-- `std::io::ErrorKind`: the kinds that the sources name; `other_kind` numbers the rest.
pub data ErrorKind : Type 0 where
  connection_refused connection_reset connection_aborted broken_pipe : ErrorKind
  timed_out permission_denied network_down network_unreachable unexpected_eof : ErrorKind
  other_kind : ℕ → ErrorKind

pub data Result {ℓ κ} (E : Type ℓ) (A : Type κ) : Type (ℓ ⊔ κ) where
  ok : A → Result E A
  err : E → Result E A

-- The `?` operator: an error ends the function, with no further call.
infixl 5 ◌>>=◌ ◌>>◌
abbrev pub ◌>>=◌ {ℓ κ μ} :
    {E : Type ℓ} {T : Type κ} {R : Type μ} → Result E T → (T → Result E R) → Result E R
err e >>= next = err e
ok t >>= next = next t

abbrev pub ◌>>◌ {ℓ κ} : {E : Type ℓ} {R : Type κ} → Result E (Unit {0}) → Result E R → Result E R
first >> second = first >>= λ _. second

ok_or {ℓ κ} : {E : Type ℓ} {T : Type κ} → T → Result E T → T
ok_or d (err e) = d
ok_or d (ok t) = t

pub ok-injective {ℓ κ} :
    {E : Type ℓ} {T : Type κ} {t u : T} → ◌≡◌ {A = Result E T} (ok t) (ok u) → t ≡ u
unfolding ok_or
ok-injective {t} same = ap (ok_or t) same

pub Result-cases {ℓ κ} :
    {E : Type ℓ} {T : Type κ} (r : Result E T) → ((t : T) × (r ≡ ok t)) ⊎ ((e : E) × (r ≡ err e))
Result-cases (ok t) = inl (t, refl)
Result-cases (err e) = inr (e, refl)

-- Where a call and what follows it succeed, so did the call.
pub bind-succeeds {ℓ κ μ} :
    {E : Type ℓ} {T : Type κ} {R : Type μ} (call : Result E T) (next : T → Result E R) {r : R}
    → (call >>= next) ≡ ok r
    → (t : T) × (call ≡ ok t) × (next t ≡ ok r)
bind-succeeds (err e) next went = cc
bind-succeeds (ok t) next went = (t, refl, went)

-- `core::task::Poll`
pub data Poll {ℓ} (A : Type ℓ) : Type ℓ where
  ready : A → Poll A
  pending : Poll A

-- Text as its character codes.
abbrev pub Text : Type 0
Text = List ℕ

abbrev pub codes : String → Text
codes String.[] = []
codes (String.◌∷◌ c s) = code c ∷ codes s

abbrev pub text_eq : Text → Text → Bool
text_eq [] [] = true
text_eq (c ∷ cs) (d ∷ ds) = c == d && text_eq cs ds
text_eq _ _ = false
