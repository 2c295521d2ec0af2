-- ===== src/Wsocks/Server/Sessions/Unique.antt =====
-- The hashes of the session table of src/bin.todo/wsocks.rs, each of which has one entry, and what the
-- end of a session does to the table.
use mathlib.Core.Option.{some-injective}
use sosistab2_obfsws.Base.{
  ℕ, ◌≡◌, ◌≢◌, refl, sym, ap, ◌∙◌, Bool-cases, Option-cases, inl, inr, true, false, Option, none,
  some, List, [], ◌∷◌, ◌==◌, if◌then◌else◌, eq→==, ==→eq, ne→==,
}
use sosistab2_obfsws.Wsocks.Server.Sessions.{
  Mux, Server, live, lookup, update, die, create, with_entry, admit,
}
use sosistab2_obfsws.Wsocks.Server.Sessions.Table.{Entries}
use sosistab2_obfsws.Wsocks.Server.Sessions.Live.{add_pipe-sessions}
use sosistab2_obfsws.Wsocks.Server.Sessions.Refinement.{Sessions, seen, sessions}

-- No hash has two entries, as in a `HashMap`.
abbrev pub IsUnique : List (ℕ × ℕ) → Type 0
IsUnique [] = Unit {0}
IsUnique ((k, i) ∷ rest) = (lookup k rest ≡ none) × IsUnique rest

module _ {Pipe : Type 0} where
  -- The sweep adds no entry.
  lookup-live-none :
      (store : ℕ → Mux Pipe) (hash : ℕ) (xs : List (ℕ × ℕ))
      → lookup hash xs ≡ none
      → lookup hash (live store xs) ≡ none
  unfolding live lookup
  lookup-live-none store hash [] e = refl
  lookup-live-none store hash ((k, i) ∷ rest) e = elim (Bool-cases (k == hash)) [
    | inl same ↦ absurd (found (rw same at e))
    | inr differ ↦ elim (Bool-cases (store i).strong) [
      | inl strong ↦ rw (strong, differ) (lookup-live-none store hash rest (rw differ at e))
      | inr dead ↦ rw dead (lookup-live-none store hash rest (rw differ at e))
    ]
  ]
    where
      found : some i ≡ none → ⊥
      found h = cc

  pub live-IsUnique :
      (store : ℕ → Mux Pipe) (xs : List (ℕ × ℕ)) → IsUnique xs → IsUnique (live store xs)
  unfolding live
  live-IsUnique store [] h = tt
  live-IsUnique store ((k, i) ∷ rest) h = elim (Bool-cases (store i).strong) [
    | inl strong ↦ rw strong (lookup-live-none store k rest h.0, live-IsUnique store rest h.1)
    | inr dead ↦ rw dead (live-IsUnique store rest h.1)
  ]

  pub admit-IsUnique :
      (hash : ℕ) (pipe : Pipe) (s : Server Pipe)
      → IsUnique s.mux_sessions
      → IsUnique (admit hash pipe s).mux_sessions
  unfolding admit with_entry create
  admit-IsUnique hash pipe s h = elim (Option-cases (lookup hash s.mux_sessions)) [
    | inl missing ↦ rw missing (rw (add_pipe-sessions pipe s.made (create hash s)) (missing, h))
    | inr (i, found) ↦ rw found (rw (add_pipe-sessions pipe i s) h)
  ]

  -- A multiplexer that is no longer referred to, with its pipes.
  abbrev pub weakened : ℕ → (ℕ → Mux Pipe) → ℕ → Mux Pipe
  weakened i store = update i (record (store i) { strong = false }) store

  weakened-pipes : (i j : ℕ) (store : ℕ → Mux Pipe) → (weakened i store j).pipes ≡ (store j).pipes
  weakened-pipes i j store = elim (Bool-cases (j == i)) [
    | inl h ↦ rw h (ap (λ n. (store n).pipes) (sym (==→eq j i h)))
    | inr h ↦ rw h
  ]

  weakened-seen :
      (i : ℕ) (store : ℕ → Mux Pipe) (o : Option ℕ) → seen (weakened i store) o ≡ seen store o
  weakened-seen i store none = refl
  weakened-seen i store (some j) = ap some (weakened-pipes i j store)

  -- The end of a session leaves the entries of the other hashes.
  pub weakened-lookup_other :
      (store : ℕ → Mux Pipe) (made i k : ℕ) (xs : List (ℕ × ℕ))
      → Entries store made xs
      → k ≢ (store i).session
      → lookup k (live (weakened i store) xs) ≡ lookup k (live store xs)
  unfolding live lookup
  weakened-lookup_other store made i k [] entries differ = refl
  weakened-lookup_other store made i k ((k₁, j) ∷ rest) entries differ =
      let more = weakened-lookup_other store made i k rest entries.1 differ in
      elim (Bool-cases (j == i)) [
        | inl same ↦
            let other : (k₁ == k) ≡ false = ne→== k₁ k (λ e.
              differ (sym e ∙ sym entries.0.1 ∙ ap (λ n. (store n).session) (==→eq j i same))) in
            rw same (elim (Bool-cases (store j).strong) [
              | inl strong ↦ rw (strong, other) more
              | inr dead ↦ rw dead more
            ])
        | inr apart ↦ rw apart (elim (Bool-cases (store j).strong) [
          | inl strong ↦
              rw strong (elim (Bool-cases (k₁ == k)) [ inl at ↦ rw at | inr away ↦ rw away more ])
          | inr dead ↦ rw dead more
        ])
      ]

  -- It removes the entry of its own hash, which had no other.
  pub weakened-lookup_own :
      (store : ℕ → Mux Pipe) (hash i : ℕ) (xs : List (ℕ × ℕ))
      → IsUnique xs
      → lookup hash (live store xs) ≡ some i
      → lookup hash (live (weakened i store) xs) ≡ none
  unfolding live lookup
  weakened-lookup_own store hash i [] unique e = cc
  weakened-lookup_own store hash i ((k, j) ∷ rest) unique e = elim (Bool-cases (k == hash)) [
    | inl same ↦
        let alone : lookup hash rest ≡ none =
          ap (λ n. lookup n rest) (sym (==→eq k hash same)) ∙ unique.0 in
        elim (Bool-cases (store j).strong) [
          | inl strong ↦
              let at : (j == i) ≡ true = eq→== j i (some-injective _ _ (rw (strong, same) at e)) in
              rw at (lookup-live-none (weakened i store) hash rest alone)
          | inr dead ↦
              absurd (nothing (sym (lookup-live-none store hash rest alone) ∙ (rw dead at e)))
        ]
    | inr differ ↦
        let more : lookup hash (live store rest) ≡ some i
            → lookup hash (live (weakened i store) rest) ≡ none =
          weakened-lookup_own store hash i rest unique.1 in
        let found : lookup hash (live store rest) ≡ some i = elim (Bool-cases (store j).strong) [
          | inl strong ↦ rw (strong, differ) at e
          | inr dead ↦ rw dead at e
        ] in
        elim (Bool-cases (weakened i store j).strong) [
          | inl strong ↦ rw (strong, differ) (more found)
          | inr dead ↦ rw dead (more found)
        ]
  ]
    where
      nothing : none ≡ some i → ⊥
      nothing h = cc

  -- The session of a hash that lives comes to its end.
  abbrev pub remove : ℕ → Sessions Pipe → Sessions Pipe
  remove hash a k = if k == hash then none else a k

  pub die-sessions :
      (hash i k : ℕ) (s : Server Pipe)
      → Entries s.store s.made s.mux_sessions
      → IsUnique s.mux_sessions
      → lookup hash (live s.store s.mux_sessions) ≡ some i
      → (s.store i).session ≡ hash
      → sessions (die i s) k ≡ remove hash (sessions s) k
  unfolding die
  die-sessions hash i k s table unique found own = elim (Bool-cases (k == hash)) [
    | inl same ↦ rw same (
        ap (λ n. seen (weakened i s.store) (lookup n (live (weakened i s.store) s.mux_sessions)))
          (==→eq k hash same)
        ∙ ap (seen (weakened i s.store))
            (weakened-lookup_own s.store hash i s.mux_sessions unique found))
    | inr differ ↦ rw differ (
        ap (seen (weakened i s.store)) (
          weakened-lookup_other s.store s.made i k s.mux_sessions table
            (λ e. apart differ (e ∙ own)))
        ∙ weakened-seen i s.store (lookup k (live s.store s.mux_sessions)))
  ]
    where
      apart : (k == hash) ≡ false → k ≡ hash → ⊥
      apart differ e = cc (eq→== k hash e)
