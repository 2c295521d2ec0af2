-- ===== src/Wsocks/Server/Sessions/Table.antt =====
-- The entries of the session table of src/bin.todo/wsocks.rs, and its store of multiplexers.
use mathlib.Core.Option.{some-injective}
use sosistab2_obfsws.Base.{
  ℕ, ◌≤◌, ◌<◌, ◌≡◌, ◌≢◌, refl, sym, ap, ◌∙◌, Bool-cases, inl, inr, true, some, List, [], ◌∷◌, arith,
  ◌==◌, eq→==, ==→eq,
}
use sosistab2_obfsws.Wsocks.Server.Sessions.{Mux, Server, live, lookup, update}

module _ {Pipe : Type 0} where
  -- Every entry's number is that of a multiplexer that was made, for the entry's hash.
  abbrev pub Entries : (ℕ → Mux Pipe) → ℕ → List (ℕ × ℕ) → Type 0
  Entries store made [] = Unit {0}
  Entries store made ((k, i) ∷ rest) =
      ((i < made) × ((store i).session ≡ k)) × Entries store made rest

  abbrev pub IsTable : Server Pipe → Type 0
  IsTable s = Entries s.store s.made s.mux_sessions

  -- What a lookup has found.
  pub Entries-lookup :
      (store : ℕ → Mux Pipe) (made hash : ℕ) (xs : List (ℕ × ℕ)) {i : ℕ}
      → Entries store made xs
      → lookup hash xs ≡ some i
      → (i < made) × ((store i).session ≡ hash)
  unfolding lookup
  Entries-lookup store made hash [] entries e = cc
  Entries-lookup store made hash ((k, j) ∷ rest) entries e = elim (Bool-cases (k == hash)) [
    | inl same ↦ at_head (some-injective _ _ (rw same at e)) (==→eq k hash same)
    | inr differ ↦ Entries-lookup store made hash rest entries.1 (rw differ at e)
  ]
    where
      at_head : {i : ℕ} → j ≡ i → k ≡ hash → (i < made) × ((store i).session ≡ hash)
      at_head h h' = (rw⁻¹ h entries.0.0, ap (λ n. (store n).session) (sym h) ∙ entries.0.1 ∙ h')

  pub live-Entries :
      (store : ℕ → Mux Pipe) (made : ℕ) (xs : List (ℕ × ℕ))
      → Entries store made xs
      → Entries store made (live store xs)
  unfolding live
  live-Entries store made [] entries = tt
  live-Entries store made ((k, i) ∷ rest) entries = elim (Bool-cases (store i).strong) [
    | inl strong ↦ rw strong (entries.0, live-Entries store made rest entries.1)
    | inr dead ↦ rw dead (live-Entries store made rest entries.1)
  ]

  -- Every entry that `retain` has kept is live.
  pub live-strong :
      (store : ℕ → Mux Pipe) (hash : ℕ) (xs : List (ℕ × ℕ)) {i : ℕ}
      → lookup hash (live store xs) ≡ some i
      → (store i).strong ≡ true
  unfolding live lookup
  live-strong store hash [] e = cc
  live-strong store hash ((k, j) ∷ rest) e = elim (Bool-cases (store j).strong) [
    | inl strong ↦ elim (Bool-cases (k == hash)) [
      | inl same ↦
          ap (λ n. (store n).strong) (sym (some-injective _ _ (rw (strong, same) at e))) ∙ strong
      | inr differ ↦ live-strong store hash rest (rw (strong, differ) at e)
    ]
    | inr dead ↦ live-strong store hash rest (rw dead at e)
  ]

  -- A store that keeps the sessions of the multiplexers keeps the table.
  pub Entries-keep :
      (store store' : ℕ → Mux Pipe) (made made' : ℕ) (xs : List (ℕ × ℕ))
      → made ≤ made'
      → ((i : ℕ) → i < made → (store' i).session ≡ (store i).session)
      → Entries store made xs
      → Entries store' made' xs
  Entries-keep store store' made made' [] h same entries = tt
  Entries-keep store store' made made' ((k, i) ∷ rest) h same entries = (
    (omega (arith, entries.0.0), same i entries.0.0 ∙ entries.0.1),
    Entries-keep store store' made made' rest h same entries.1,
  )

  pub update-same : (i : ℕ) (mux : Mux Pipe) (store : ℕ → Mux Pipe) → update i mux store i ≡ mux
  update-same i mux store = rw (eq→== i i refl)

  pub update-other :
      (i j : ℕ) (mux : Mux Pipe) (store : ℕ → Mux Pipe) → j ≢ i → update i mux store j ≡ store j
  update-other i j mux store differ = elim (Bool-cases (j == i)) [
    | inl same ↦ absurd (differ (==→eq j i same))
    | inr h ↦ rw h
  ]

  -- A multiplexer of the same session in a place keeps all sessions.
  pub update-session :
      (i j : ℕ) (mux : Mux Pipe) (store : ℕ → Mux Pipe)
      → mux.session ≡ (store i).session
      → (update i mux store j).session ≡ (store j).session
  update-session i j mux store same = elim (Bool-cases (j == i)) [
    | inl h ↦ rw h (same ∙ ap (λ n. (store n).session) (sym (==→eq j i h)))
    | inr h ↦ rw h
  ]
