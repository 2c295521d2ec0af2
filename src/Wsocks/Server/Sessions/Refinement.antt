-- ===== src/Wsocks/Server/Sessions/Refinement.antt =====
-- The session table of src/bin.todo/wsocks.rs refines a map from hashes to the pipes of a session.
use mathlib.Core.Path.{fun_ext}
use sosistab2_obfsws.Base.{
  ℕ, ◌≡◌, ◌≢◌, refl, sym, ap, ◌∙◌, Bool-cases, inl, inr, Option, none, some, List, [], ◌∷◌, ◌++◌,
  ◌==◌, if◌then◌else◌, eq→==, ==→eq,
}
use sosistab2_obfsws.Base.Slices.{done}
use sosistab2_obfsws.Base64.{Base64}
use sosistab2_obfsws.Io.{ok}
use sosistab2_obfsws.Wsocks.Etag.{Crypto, etag_from}
use sosistab2_obfsws.Wsocks.Server.Sessions.{
  Mux, Server, live, lookup, sweep, admit, Pipes, tagged, arrive, server_round,
}
use sosistab2_obfsws.Wsocks.Server.Sessions.Table.{
  IsTable, Entries-lookup, live-Entries, live-strong,
}
use sosistab2_obfsws.Wsocks.Server.Sessions.Live.{
  AreLive, live-AreLive, AreLive-live, admit-AreLive, admit-lookup,
}
use sosistab2_obfsws.Wsocks.Server.Sessions.Admission.{pipes_at, Joined, admit-Joined}

-- The abstract table: the pipes of each session that lives.
abbrev pub Sessions : Type 0 → Type 0
Sessions Pipe = ℕ → Option (List Pipe)

module _ {Pipe : Type 0} where
  abbrev pub joined : Pipe → Option (List Pipe) → Option (List Pipe)
  joined pipe none = some (pipe ∷ [])
  joined pipe (some pipes) = some (pipes ++ pipe ∷ [])

  -- What a pipe does to it.
  abbrev pub join : ℕ → Pipe → Sessions Pipe → Sessions Pipe
  join hash pipe a k = if k == hash then joined pipe (a k) else a k

  abbrev pub seen : (ℕ → Mux Pipe) → Option ℕ → Option (List Pipe)
  seen store none = none
  seen store (some i) = some (store i).pipes

  -- The abstract table of a server.
  abbrev pub sessions : Server Pipe → Sessions Pipe
  sessions s k = seen s.store (lookup k (live s.store s.mux_sessions))

  seen-joined :
      (s : Server Pipe) (pipe : Pipe) (o : Option ℕ)
      → some (pipes_at s o ++ pipe ∷ []) ≡ joined pipe (seen s.store o)
  seen-joined s pipe none = refl
  seen-joined s pipe (some i) = refl

  -- In a table whose entries all live, a pipe that is admitted joins its session, and the sessions
  -- of all other hashes are as they were.
  admit-join :
      (hash k : ℕ) (pipe : Pipe) (s : Server Pipe)
      → IsTable s
      → AreLive s.store s.mux_sessions
      → seen (admit hash pipe s).store (lookup k (admit hash pipe s).mux_sessions)
        ≡ join hash pipe (λ j. seen s.store (lookup j s.mux_sessions)) k
  admit-join hash k pipe s table all_live =
      let t = admit hash pipe s in
      elim (Bool-cases (k == hash)) [
        | inl same ↦ rw same (
            ap (λ n. seen t.store (lookup n t.mux_sessions)) (==→eq k hash same)
            ∙ ap (seen t.store) j.found
            ∙ ap some j.pipes
            ∙ seen-joined s pipe (lookup hash s.mux_sessions)
            ∙ ap (λ n. joined pipe (seen s.store (lookup n s.mux_sessions)))
                (sym (==→eq k hash same)))
        | inr differ ↦ rw differ (elsewhere (λ e. cc (eq→== k hash e)))
      ]
    where
      j : Joined hash pipe s (admit hash pipe s)
      j = admit-Joined hash pipe s table (λ i e.
          live-strong s.store hash s.mux_sessions
            (rw (AreLive-live s.store s.mux_sessions all_live) e))

      kept :
          (o : Option ℕ)
          → k ≢ hash
          → lookup k s.mux_sessions ≡ o
          → seen (admit hash pipe s).store o ≡ seen s.store o
      kept none differ e = refl
      kept (some i) differ e =
          let t = admit hash pipe s in
          let (made, _) = Entries-lookup s.store s.made k s.mux_sessions table e in
          let (_, of_k) =
            Entries-lookup t.store t.made k t.mux_sessions j.table
              (admit-lookup hash k pipe s differ ∙ e) in
          ap (λ (m : Mux Pipe). some m.pipes)
            (j.others i made
              (λ h. differ (sym of_k ∙ ap (λ n. (t.store n).session) h ∙ j.of_session)))

      elsewhere :
          k ≢ hash
          → seen (admit hash pipe s).store (lookup k (admit hash pipe s).mux_sessions)
            ≡ seen s.store (lookup k s.mux_sessions)
      elsewhere differ =
          ap (seen (admit hash pipe s).store) (admit-lookup hash k pipe s differ)
          ∙ kept (lookup k s.mux_sessions) differ refl

module _ (K : Crypto) (B : Base64) (P : Pipes) where
  -- A round in which no session ends while the listener waits does to the server what the abstract
  -- table does: a pipe whose metadata gives a hash is added to the pipes of that hash's session,
  -- which is new if none lives, and no other session is changed. The table stays well formed.
  pub server_round-refines :
      (server_pk : K.MuxPublic) (pipe : P.Pipe) (hash : ℕ) (s : Server P.Pipe)
      → IsTable s
      → etag_from K B server_pk (P.peer_metadata pipe) ≡ done (ok hash)
      → (t : Server P.Pipe) × (server_round K B P server_pk (ok pipe) s ≡ done (ok t))
        × IsTable t
        × (sessions t ≡ join hash pipe (sessions s))
  unfolding server_round arrive tagged sweep
  server_round-refines server_pk pipe hash s table has_hash =
      let swept = sweep s in
      let t = admit hash pipe swept in
      let all_live = live-AreLive s.store s.mux_sessions in
      let kept : IsTable swept = live-Entries s.store s.made s.mux_sessions table in
      let still = admit-AreLive hash pipe swept kept all_live in
      (
        t,
        (rw has_hash),
        (admit-Joined hash pipe swept kept (λ i. live-strong s.store hash s.mux_sessions)).table,
        fun_ext (λ k.
            ap (λ xs. seen t.store (lookup k xs)) (AreLive-live t.store t.mux_sessions still)
            ∙ admit-join hash k pipe swept kept all_live),
      )
