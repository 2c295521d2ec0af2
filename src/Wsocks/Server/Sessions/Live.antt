-- ===== src/Wsocks/Server/Sessions/Live.antt =====
-- Tables of src/bin.todo/wsocks.rs whose entries all live, as they are after the sweep.
use sosistab2_obfsws.Base.{
  ℕ, ◌<◌, ◌≡◌, ◌≢◌, refl, sym, ap, ◌∙◌, Bool, Bool-cases, Option-cases, inl, inr, true, false, List,
  [], ◌∷◌, ◌++◌, arith, ◌==◌, if◌then◌else◌, ==→eq, ne→==,
}
use sosistab2_obfsws.Wsocks.Server.Sessions.{
  Mux, Server, live, lookup, update, add_pipe, create, with_entry, admit,
}
use sosistab2_obfsws.Wsocks.Server.Sessions.Table.{Entries, IsTable, update-same, update-other}
use sosistab2_obfsws.Wsocks.Server.Sessions.Admission.{create-IsTable}

module _ {Pipe : Type 0} where
  abbrev pub AreLive : (ℕ → Mux Pipe) → List (ℕ × ℕ) → Type 0
  AreLive store [] = Unit {0}
  AreLive store ((k, i) ∷ rest) = ((store i).strong ≡ true) × AreLive store rest

  pub live-AreLive : (store : ℕ → Mux Pipe) (xs : List (ℕ × ℕ)) → AreLive store (live store xs)
  unfolding live
  live-AreLive store [] = tt
  live-AreLive store ((k, i) ∷ rest) = elim (Bool-cases (store i).strong) [
    | inl strong ↦ choose _ strong (strong, live-AreLive store rest) (live-AreLive store rest)
    | inr dead ↦ rw dead (live-AreLive store rest)
  ]
    where
      choose :
          (b : Bool)
          → b ≡ true
          → AreLive store ((k, i) ∷ live store rest)
          → AreLive store (live store rest)
          → AreLive store (if b then (k, i) ∷ live store rest else live store rest)
      choose b h yes_live no_live = rw h yes_live

  -- The sweep of such a table removes nothing.
  pub AreLive-live :
      (store : ℕ → Mux Pipe) (xs : List (ℕ × ℕ)) → AreLive store xs → live store xs ≡ xs
  unfolding live
  AreLive-live store [] h = refl
  AreLive-live store ((k, i) ∷ rest) h = rw (h.0, AreLive-live store rest h.1)

  AreLive-keep :
      (store store' : ℕ → Mux Pipe) (made : ℕ) (xs : List (ℕ × ℕ))
      → ((i : ℕ) → i < made → (store' i).strong ≡ (store i).strong)
      → Entries store made xs
      → AreLive store xs
      → AreLive store' xs
  AreLive-keep store store' made [] same entries h = tt
  AreLive-keep store store' made ((k, i) ∷ rest) same entries h =
      (same i entries.0.0 ∙ h.0, AreLive-keep store store' made rest same entries.1 h.1)

  update-strong :
      (i j : ℕ) (mux : Mux Pipe) (store : ℕ → Mux Pipe)
      → mux.strong ≡ (store i).strong
      → (update i mux store j).strong ≡ (store j).strong
  update-strong i j mux store same = elim (Bool-cases (j == i)) [
    | inl h ↦ rw h (same ∙ ap (λ n. (store n).strong) (sym (==→eq j i h)))
    | inr h ↦ rw h
  ]

  pub add_pipe-sessions :
      (pipe : Pipe) (i : ℕ) (s : Server Pipe) → (add_pipe pipe i s).mux_sessions ≡ s.mux_sessions
  unfolding add_pipe
  add_pipe-sessions pipe i s = ground arith

  -- `add_pipe` ends no session.
  add_pipe-strong_same :
      (pipe : Pipe) (i j : ℕ) (s : Server Pipe)
      → ((add_pipe pipe i s).store j).strong ≡ (s.store j).strong
  unfolding add_pipe
  add_pipe-strong_same pipe i j s = choose (s.store i).strong
    where
      more : Server Pipe
      more = record s {
        store = update i (record (s.store i) { pipes = (s.store i).pipes ++ pipe ∷ [] }) s.store;
      }

      choose : (b : Bool) → ((if b then more else s).store j).strong ≡ (s.store j).strong
      choose true =
          update-strong i j (record (s.store i) { pipes = (s.store i).pipes ++ pipe ∷ [] }) s.store
            refl
      choose false = refl

  add_pipe-AreLive :
      (pipe : Pipe) (i : ℕ) (s : Server Pipe)
      → IsTable s
      → AreLive s.store s.mux_sessions
      → AreLive (add_pipe pipe i s).store (add_pipe pipe i s).mux_sessions
  add_pipe-AreLive pipe i s table h = rw (add_pipe-sessions pipe i s) (
      AreLive-keep s.store (add_pipe pipe i s).store s.made s.mux_sessions
        (λ j lt. add_pipe-strong_same pipe i j s) table h)

  create-AreLive :
      (hash : ℕ) (s : Server Pipe)
      → IsTable s
      → AreLive s.store s.mux_sessions
      → AreLive (create hash s).store (create hash s).mux_sessions
  unfolding create
  create-AreLive hash s table h =
      let mux : Mux Pipe = record { session = hash; pipes = []; strong = true } in
      (
        ap (λ (m : Mux Pipe). m.strong) (update-same s.made mux s.store),
        AreLive-keep s.store (update s.made mux s.store) s.made s.mux_sessions
            (λ j lt.
              ap (λ (m : Mux Pipe). m.strong)
                (update-other s.made j mux s.store (λ e. omega (arith, lt, e))))
            table h,
      )

  -- A pipe that is admitted leaves all sessions alive, and the entries of the other hashes.
  pub admit-AreLive :
      (hash : ℕ) (pipe : Pipe) (s : Server Pipe)
      → IsTable s
      → AreLive s.store s.mux_sessions
      → AreLive (admit hash pipe s).store (admit hash pipe s).mux_sessions
  unfolding admit with_entry
  admit-AreLive hash pipe s table h = elim (Option-cases (lookup hash s.mux_sessions)) [
    | inl missing ↦ rw missing (
        add_pipe-AreLive pipe s.made (create hash s) (create-IsTable hash s table)
          (create-AreLive hash s table h))
    | inr (i, found) ↦ rw found (add_pipe-AreLive pipe i s table h)
  ]

  create-lookup :
      (hash k : ℕ) (s : Server Pipe)
      → k ≢ hash
      → lookup k (create hash s).mux_sessions ≡ lookup k s.mux_sessions
  unfolding create lookup
  create-lookup hash k s differ = rw (ne→== hash k (λ e. differ (sym e)))

  pub admit-lookup :
      (hash k : ℕ) (pipe : Pipe) (s : Server Pipe)
      → k ≢ hash
      → lookup k (admit hash pipe s).mux_sessions ≡ lookup k s.mux_sessions
  unfolding admit with_entry
  admit-lookup hash k pipe s differ = elim (Option-cases (lookup hash s.mux_sessions)) [
    | inl missing ↦ rw missing (
        ap (lookup k) (add_pipe-sessions pipe s.made (create hash s))
        ∙ create-lookup hash k s differ)
    | inr (i, found) ↦ rw found (ap (lookup k) (add_pipe-sessions pipe i s))
  ]
