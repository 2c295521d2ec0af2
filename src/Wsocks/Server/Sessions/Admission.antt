-- ===== src/Wsocks/Server/Sessions/Admission.antt =====
-- Which multiplexer a pipe is given to by the server of src/bin.todo/wsocks.rs.
use mathlib.Core.Path.{subst}
use sosistab2_obfsws.Base.{
  ℕ, ◌+◌, ◌<◌, ◌≡◌, ◌≢◌, refl, sym, ap, ◌∙◌, Bool, Option-cases, inl, inr, true, false, Option,
  none, some, List, [], ◌∷◌, ◌++◌, arith, if◌then◌else◌, eq→==,
}
use sosistab2_obfsws.Base.Slices.{done}
use sosistab2_obfsws.Base64.{Base64}
use sosistab2_obfsws.Io.{ok}
use sosistab2_obfsws.Wsocks.Etag.{Crypto, etag_from}
use sosistab2_obfsws.Wsocks.Server.Sessions.{
  Mux, Server, lookup, update, sweep, add_pipe, create, die, with_entry, admit, Pipes, tagged,
  arrive, server_round,
}
use sosistab2_obfsws.Wsocks.Server.Sessions.Table.{
  IsTable, Entries-lookup, live-Entries, live-strong, Entries-keep, update-same, update-other,
  update-session,
}

module _ {Pipe : Type 0} where
  -- The pipes of the session that a hash stands for.
  abbrev pub pipes_at : Server Pipe → Option ℕ → List Pipe
  pipes_at s none = []
  pipes_at s (some i) = (s.store i).pipes

  abbrev pub pipes_of : ℕ → Server Pipe → List Pipe
  pipes_of hash s = pipes_at s (lookup hash s.mux_sessions)

  -- A pipe has joined the session of its hash.
  pub record Joined (hash : ℕ) (pipe : Pipe) (s t : Server Pipe) : Type 0 where
    pub table : IsTable t
    pub number : ℕ
    pub found : lookup hash t.mux_sessions ≡ some number
    pub of_session : (t.store number).session ≡ hash
    pub strong : (t.store number).strong ≡ true
    pub pipes : (t.store number).pipes ≡ pipes_of hash s ++ pipe ∷ []
    pub others : (j : ℕ) → j < s.made → j ≢ number → t.store j ≡ s.store j

  abbrev with_pipe : Pipe → ℕ → Server Pipe → Server Pipe
  with_pipe pipe i s = record s {
    store = update i (record (s.store i) { pipes = (s.store i).pipes ++ pipe ∷ [] }) s.store;
  }

  add_pipe-strong :
      (pipe : Pipe) (i : ℕ) (s : Server Pipe)
      → (s.store i).strong ≡ true
      → add_pipe pipe i s ≡ with_pipe pipe i s
  unfolding add_pipe
  add_pipe-strong pipe i s strong = choose _ strong
    where
      choose : (b : Bool) → b ≡ true → (if b then with_pipe pipe i s else s) ≡ with_pipe pipe i s
      choose b h = rw h

  add_pipe-weak :
      (pipe : Pipe) (i : ℕ) (s : Server Pipe) → (s.store i).strong ≡ false → add_pipe pipe i s ≡ s
  unfolding add_pipe
  add_pipe-weak pipe i s weak = choose _ weak
    where
      choose : (b : Bool) → b ≡ false → (if b then with_pipe pipe i s else s) ≡ s
      choose b h = rw h

  die-weak : (i : ℕ) (s : Server Pipe) → ((die i s).store i).strong ≡ false
  unfolding die
  die-weak i s =
      ap (λ (m : Mux Pipe). m.strong)
        (update-same i (record (s.store i) { strong = false }) s.store)

  -- A pipe for a session that is there and live.
  add_pipe-Joined :
      (hash i : ℕ) (pipe : Pipe) (s : Server Pipe)
      → IsTable s
      → lookup hash s.mux_sessions ≡ some i
      → (s.store i).strong ≡ true
      → Joined hash pipe s (add_pipe pipe i s)
  add_pipe-Joined hash i pipe s table found strong =
      let mux = record (s.store i) { pipes = (s.store i).pipes ++ pipe ∷ [] } in
      let store = update i mux s.store in
      let same : store i ≡ mux = update-same i mux s.store in
      subst (Joined hash pipe s) (sym (add_pipe-strong pipe i s strong)) (record {
        table =
            Entries-keep s.store store s.made s.made s.mux_sessions (omega arith)
              (λ j h. update-session i j mux s.store refl) table;
        number = i;
        found = found;
        of_session =
            ap (λ (m : Mux Pipe). m.session) same
            ∙ (Entries-lookup s.store s.made hash s.mux_sessions table found).1;
        strong = ap (λ (m : Mux Pipe). m.strong) same ∙ strong;
        pipes =
            ap (λ (m : Mux Pipe). m.pipes) same ∙ ap (λ o. pipes_at s o ++ pipe ∷ []) (sym found);
        others = λ j h differ. update-other i j mux s.store differ;
      })

  -- The new multiplexer of `create`.
  pub create-IsTable : (hash : ℕ) (s : Server Pipe) → IsTable s → IsTable (create hash s)
  unfolding create
  create-IsTable hash s table =
      let mux : Mux Pipe = record { session = hash; pipes = []; strong = true } in
      (
        (omega arith, ap (λ (m : Mux Pipe). m.session) (update-same s.made mux s.store)),
        Entries-keep s.store (update s.made mux s.store) s.made (s.made + 1) s.mux_sessions
            (omega arith)
            (λ j h.
              ap (λ (m : Mux Pipe). m.session)
                (update-other s.made j mux s.store (λ e. omega (arith, h, e))))
            table,
      )

  -- A pipe for a session that is new.
  create-Joined :
      (hash : ℕ) (pipe : Pipe) (s : Server Pipe)
      → IsTable s
      → lookup hash s.mux_sessions ≡ none
      → Joined hash pipe s (add_pipe pipe s.made (create hash s))
  unfolding create lookup
  create-Joined hash pipe s table missing =
      let mux : Mux Pipe = record { session = hash; pipes = []; strong = true } in
      let made = update-same s.made mux s.store in
      let first : lookup hash (create hash s).mux_sessions ≡ some s.made =
        rw (eq→== hash hash refl) in
      let j =
        add_pipe-Joined hash s.made pipe (create hash s) (create-IsTable hash s table) first
          (ap (λ (m : Mux Pipe). m.strong) made) in
      record {
        table = j.table;
        number = j.number;
        found = j.found;
        of_session = j.of_session;
        strong = j.strong;
        pipes =
            j.pipes
            ∙ ap (λ o. pipes_at (create hash s) o ++ pipe ∷ []) first
            ∙ ap (λ (m : Mux Pipe). m.pipes ++ pipe ∷ []) made
            ∙ ap (λ o. pipes_at s o ++ pipe ∷ []) (sym missing);
        others = λ i h differ.
            j.others i (omega (arith, h)) differ
            ∙ update-other s.made i mux s.store (λ e. omega (arith, h, e));
      }

  pub admit-Joined :
      (hash : ℕ) (pipe : Pipe) (s : Server Pipe)
      → IsTable s
      → ((i : ℕ) → lookup hash s.mux_sessions ≡ some i → (s.store i).strong ≡ true)
      → Joined hash pipe s (admit hash pipe s)
  unfolding admit with_entry
  admit-Joined hash pipe s table all_live = elim (Option-cases (lookup hash s.mux_sessions)) [
    | inl missing ↦ rw missing (create-Joined hash pipe s table missing)
    | inr (i, found) ↦ rw found (add_pipe-Joined hash i pipe s table found (all_live i found))
  ]

module _ (K : Crypto) (B : Base64) (P : Pipes) where
  -- In a round in which no session ends while the listener waits, a pipe whose metadata gives a
  -- hash joins the session of that hash, new if there was none that lives: it comes after the pipes
  -- of that session, and the other multiplexers are as they were.
  pub server_round-Joined :
      (server_pk : K.MuxPublic) (pipe : P.Pipe) (hash : ℕ) (s : Server P.Pipe)
      → IsTable s
      → etag_from K B server_pk (P.peer_metadata pipe) ≡ done (ok hash)
      → (t : Server P.Pipe) × (server_round K B P server_pk (ok pipe) s ≡ done (ok t))
        × Joined hash pipe (sweep s) t
  unfolding server_round arrive tagged sweep
  server_round-Joined server_pk pipe hash s table has_hash = (
    admit hash pipe (sweep s),
    (rw has_hash),
    admit-Joined hash pipe (sweep s) (live-Entries s.store s.made s.mux_sessions table)
        (λ i. live-strong s.store hash s.mux_sessions),
  )

  -- Where the session of a pipe's hash ends after the table was swept and before the pipe is
  -- accepted, the pipe is dropped: the table and every multiplexer are as they were.
  pub arrive-loses :
      (server_pk : K.MuxPublic) (pipe : P.Pipe) (hash i : ℕ) (s : Server P.Pipe)
      → etag_from K B server_pk (P.peer_metadata pipe) ≡ done (ok hash)
      → lookup hash (sweep s).mux_sessions ≡ some i
      → arrive K B P server_pk (ok pipe) (die i (sweep s)) ≡ done (ok (die i (sweep s)))
  unfolding arrive tagged admit with_entry die sweep
  arrive-loses server_pk pipe hash i s has_hash found = rw has_hash (
      ap (λ (u : Server P.Pipe). done (ok u))
        (at_entry found ∙ add_pipe-weak pipe i (die i (sweep s)) (die-weak i (sweep s))))
    where
      at_entry :
          {o : Option ℕ}
          → o ≡ some i
          → with_entry hash pipe o (die i (sweep s)) ≡ add_pipe pipe i (die i (sweep s))
      at_entry h = rw h
