-- ===== src/Wsocks/Server/Rounds/Refines.antt =====
-- Many rounds of the server's loop in src/bin.todo/wsocks.rs, against a map from hashes to pipes.
use mathlib.Core.Path.{fun_ext, subst}
use sosistab2_obfsws.Base.{
  ℕ, ◌≡◌, refl, ap, ◌∙◌, Bool-cases, inl, inr, false, ◌==◌, ==→eq, Option, none, some, List, [],
  ◌∷◌, arith,
}
use sosistab2_obfsws.Base.Slices.{done, done-injective}
use sosistab2_obfsws.Base64.{Base64}
use sosistab2_obfsws.Io.{ok, err, ok-injective}
use sosistab2_obfsws.Wsocks.Etag.{Crypto, etag_from}
use sosistab2_obfsws.Wsocks.Server.Sessions.{
  Server, Pipes, live, lookup, die, sweep, admit, tagged, arrive, server_round,
}
use sosistab2_obfsws.Wsocks.Server.Sessions.Table.{
  IsTable, Entries-lookup, Entries-keep, live-Entries, update-session,
}
use sosistab2_obfsws.Wsocks.Server.Sessions.Refinement.{
  Sessions, seen, join, sessions, server_round-refines,
}
use sosistab2_obfsws.Wsocks.Server.Sessions.Unique.{
  IsUnique, live-IsUnique, admit-IsUnique, remove, die-sessions,
}
use sosistab2_obfsws.Wsocks.Server.Rounds.{
  Happening, accepts_pipe, ends, ended_at, end_session, no_sessions, server_loop,
}

module _ {Pipe : Type 0} where
  -- A table as the loop keeps it.
  abbrev pub IsKept : Server Pipe → Type 0
  IsKept s = IsTable s × IsUnique s.mux_sessions

  ended_at-sessions :
      (hash : ℕ) (o : Option ℕ) (s : Server Pipe)
      → IsKept s
      → lookup hash (live s.store s.mux_sessions) ≡ o
      → IsKept (ended_at o s) × (sessions (ended_at o s) ≡ remove hash (sessions s))
  unfolding ended_at die
  ended_at-sessions hash none s kept e = (kept, fun_ext (λ k. missing k))
    where
      missing : (k : ℕ) → sessions s k ≡ remove hash (sessions s) k
      missing k = elim (Bool-cases (k == hash)) [
        | inl same ↦ rw same (
            ap (λ n. seen s.store (lookup n (live s.store s.mux_sessions))) (==→eq k hash same)
            ∙ ap (seen s.store) e)
        | inr differ ↦ rw differ
      ]
  ended_at-sessions hash (some i) s kept e =
      let (_, own) =
        Entries-lookup s.store s.made hash (live s.store s.mux_sessions)
          (live-Entries s.store s.made s.mux_sessions kept.0) e in
      (
        (
          Entries-keep s.store (die i s).store s.made s.made s.mux_sessions (omega arith)
              (λ j lt. update-session i j (record (s.store i) { strong = false }) s.store refl)
              kept.0,
          kept.1,
        ),
        fun_ext (λ k. die-sessions hash i k s kept.0 kept.1 e own),
      )

  end_session-sessions :
      (hash : ℕ) (s : Server Pipe)
      → IsKept s
      → IsKept (end_session hash s) × (sessions (end_session hash s) ≡ remove hash (sessions s))
  unfolding end_session
  end_session-sessions hash s kept = ended_at-sessions hash _ s kept refl

module _ (K : Crypto) (B : Base64) (P : Pipes) (server_pk : K.MuxPublic) where
  -- Every accept succeeds, with a pipe whose metadata gives a hash.
  abbrev pub AreTagged : List (Happening P.Pipe) → Type 0
  AreTagged [] = Unit {0}
  AreTagged (accepts_pipe (ok pipe) ∷ hs) =
      ((hash : ℕ) × (etag_from K B server_pk (P.peer_metadata pipe) ≡ done (ok hash)))
      × AreTagged hs
  AreTagged (accepts_pipe (err e) ∷ hs) = ⊥
  AreTagged (ends hash ∷ hs) = AreTagged hs

  -- What happens does this to a map from hashes to the pipes of a session.
  pub data Follows : List (Happening P.Pipe) → Sessions P.Pipe → Sessions P.Pipe → Type 0 where
    stays : {a : Sessions P.Pipe} → Follows [] a a
    joins :
        {pipe : P.Pipe} {hash : ℕ} {hs : List (Happening P.Pipe)} {a b : Sessions P.Pipe}
        → etag_from K B server_pk (P.peer_metadata pipe) ≡ done (ok hash)
        → Follows hs (join hash pipe a) b
        → Follows (accepts_pipe (ok pipe) ∷ hs) a b
    leaves :
        {hash : ℕ} {hs : List (Happening P.Pipe)} {a b : Sessions P.Pipe}
        → Follows hs (remove hash a) b
        → Follows (ends hash ∷ hs) a b

  round-IsUnique :
      (pipe : P.Pipe) (hash : ℕ) (s t : Server P.Pipe)
      → IsUnique s.mux_sessions
      → etag_from K B server_pk (P.peer_metadata pipe) ≡ done (ok hash)
      → server_round K B P server_pk (ok pipe) s ≡ done (ok t)
      → IsUnique t.mux_sessions
  unfolding server_round arrive tagged sweep
  round-IsUnique pipe hash s t unique has_hash round =
      let same : admit hash pipe (sweep s) ≡ t =
        ok-injective (done-injective (rw has_hash at round)) in
      subst (λ (u : Server P.Pipe). IsUnique u.mux_sessions) same
        (admit-IsUnique hash pipe (sweep s) (live-IsUnique s.store s.mux_sessions unique))

  pub loop-Follows :
      (hs : List (Happening P.Pipe)) (s : Server P.Pipe)
      → AreTagged hs
      → IsKept s
      → (t : Server P.Pipe) × (server_loop K B P server_pk hs s ≡ done (ok t))
        × IsKept t
        × Follows hs (sessions s) (sessions t)
  unfolding server_loop
  loop-Follows [] s tags kept = (s, refl, kept, stays)
  loop-Follows (accepts_pipe (ok pipe) ∷ hs) s ((hash, has_hash), tags) kept =
      let (s₁, round, table, joined) =
        server_round-refines K B P server_pk pipe hash s kept.0 has_hash in
      let (t, rest, kept', follows) =
        loop-Follows hs s₁ tags (table, round-IsUnique pipe hash s s₁ kept.1 has_hash round) in
      (
        t,
        rw round rest,
        kept',
        joins has_hash (subst (λ a. Follows hs a (sessions t)) joined follows),
      )
  loop-Follows (accepts_pipe (err e) ∷ hs) s tags kept = absurd tags
  loop-Follows (ends hash ∷ hs) s tags kept =
      let (kept₁, removed) = end_session-sessions hash s kept in
      let (t, rest, kept', follows) = loop-Follows hs (end_session hash s) tags kept₁ in
      (t, rest, kept', leaves (subst (λ a. Follows hs a (sessions t)) removed follows))

  -- From an empty table, over any pipes whose metadata gives a hash and any ends of sessions between
  -- the rounds, in any order: the server's loop goes on without an error or a panic, and its table
  -- does what a map from hashes to pipes does, which adds each pipe to the pipes of its hash's
  -- session, or starts one with it, and forgets a session that ends.
  pub server_loop-refines :
      (hs : List (Happening P.Pipe))
      → AreTagged hs
      → (t : Server P.Pipe) × (server_loop K B P server_pk hs no_sessions ≡ done (ok t))
        × Follows hs (λ k. none) (sessions t)
  unfolding live lookup
  server_loop-refines hs tags =
      let (t, went, _, follows) = loop-Follows hs no_sessions tags (tt, tt) in (t, went, follows)
