-- ===== src/Wsocks/Server/Rounds/Views.antt =====
-- What the server's loop in src/bin.todo/wsocks.rs makes of its session table does not depend on the
-- table's order, on the entries of sessions that have ended, or on where the sessions are stored.
use std.Equiv.{IsContr}
use mathlib.Core.Path.{fun_ext, subst}
use mathlib.Core.Logic.{∥∥₁_elim}
use mathlib.Core.HLevel.{Σ_prop_path}
use mathlib.Core.Quot
use mathlib.Core.Quot.{Quot, Quot-set}
use sosistab2_obfsws.Base.{◌≡◌, refl, sym, ap, ◌∙◌, List, [], ◌∷◌}
use sosistab2_obfsws.Base.Slices.{done, done-injective}
use sosistab2_obfsws.Base64.{Base64}
use sosistab2_obfsws.Io.{ok, err, ok-injective}
use sosistab2_obfsws.Wsocks.Etag.{Crypto}
use sosistab2_obfsws.Wsocks.Server.Sessions.{Server, Pipes}
use sosistab2_obfsws.Wsocks.Server.Sessions.Refinement.{Sessions, join, sessions}
use sosistab2_obfsws.Wsocks.Server.Rounds.{Happening, accepts_pipe, ends, server_loop}
use sosistab2_obfsws.Wsocks.Server.Rounds.Refines.{
  IsKept, AreTagged, Follows, stays, joins, leaves, loop-Follows,
}

-- The tables as the loop keeps them, and those of the same sessions.
abbrev pub Kept : Type 0 → Type 0
Kept Pipe = (s : Server Pipe) × IsKept s

abbrev pub SameSessions : {Pipe : Type 0} → Kept Pipe → Kept Pipe → Type 0
SameSessions s t = sessions s.0 ≡ sessions t.0

-- A table by what it holds of the sessions that live.
abbrev pub View : Type 0 → Type 0
View Pipe = Quot (SameSessions {Pipe = Pipe})

module _ (K : Crypto) (B : Base64) (P : Pipes) (server_pk : K.MuxPublic) where
  -- What happens determines the map from hashes to pipes.
  Follows-unique :
      (hs : List (Happening P.Pipe)) (a b b' : Sessions P.Pipe)
      → Follows K B P server_pk hs a b
      → Follows K B P server_pk hs a b'
      → b ≡ b'
  Follows-unique [] a _ _ stays stays = refl
  Follows-unique (accepts_pipe (ok pipe) ∷ hs) a b b' (joins {hash = m} e f)
        (joins {hash = n} e' f') =
      Follows-unique hs (join m pipe a) b b' f (
        subst (λ k. Follows K B P server_pk hs (join k pipe a) b')
          (ok-injective (done-injective (sym e' ∙ e))) f')
  Follows-unique (accepts_pipe (err e) ∷ hs) a b b' f f' = elim f [ ]
  Follows-unique (ends hash ∷ hs) a b b' (leaves f) (leaves f') = Follows-unique hs _ b b' f f'

  module _ (hs : List (Happening P.Pipe)) where
    -- The loop takes the table to one whose view the function gives.
    abbrev pub Takes : (View P.Pipe → View P.Pipe) → Kept P.Pipe → Type 0
    Takes f s =
        (t : Kept P.Pipe) × (server_loop K B P server_pk hs s.0 ≡ done (ok t.0))
        × (f (Quot.mk s) ≡ Quot.mk t)

    -- A function of views that does what the loop does to the tables.
    abbrev pub Induced : (View P.Pipe → View P.Pipe) → Type 0
    Induced f = (s : Kept P.Pipe) → ∥ Takes f s ∥₁

  module _ (hs : List (Happening P.Pipe)) (tags : AreTagged K B P server_pk hs) where
    -- The table that the loop leaves.
    after : Kept P.Pipe → Kept P.Pipe
    after s = let (t, _, kept, _) = loop-Follows K B P server_pk hs s.0 tags s.1 in (t, kept)

    after-went : (s : Kept P.Pipe) → server_loop K B P server_pk hs s.0 ≡ done (ok (after s).0)
    unfolding after
    after-went s = (loop-Follows K B P server_pk hs s.0 tags s.1).1

    after-SameSessions : (s t : Kept P.Pipe) → SameSessions s t → SameSessions (after s) (after t)
    unfolding after
    after-SameSessions s t same =
        Follows-unique hs (sessions s.0) _ _ (loop-Follows K B P server_pk hs s.0 tags s.1).3 (
          subst (λ a. Follows K B P server_pk hs a (sessions (after t).0)) (sym same)
            (loop-Follows K B P server_pk hs t.0 tags t.1).3)

    loop : View P.Pipe → View P.Pipe
    loop =
        Quot.lift Quot-set (λ s. Quot.mk (after s)) (λ s t h. Quot.sound (after-SameSessions s t h))

    loop-Induced : Induced hs loop
    unfolding loop
    loop-Induced s = ∣ (after s, after-went s, refl) ∣₁

    Takes-same :
        (f g : View P.Pipe → View P.Pipe) (s : Kept P.Pipe)
        → Takes hs f s
        → Takes hs g s
        → f (Quot.mk s) ≡ g (Quot.mk s)
    Takes-same f g s (t, went, e) (t', went', e') =
        e ∙ Quot.sound (ap sessions (ok-injective (done-injective (sym went ∙ went')))) ∙ sym e'

    Induced-same : (f g : View P.Pipe → View P.Pipe) → Induced hs f → Induced hs g → f ≡ g
    Induced-same f g h k = fun_ext (
        Quot.ind (λ v. Quot-set _ _)
          (λ s.
            ∥∥₁_elim (h s) (Quot-set _ _)
              (λ p. ∥∥₁_elim (k s) (Quot-set _ _) (Takes-same f g s p))))

    -- Over any pipes whose metadata gives a hash and any ends of sessions between the rounds, the loop
    -- is a function of the sessions that live and of their pipes, in the order in which they were
    -- added: there is exactly one function on the tables as the loop keeps them, taken up to having the
    -- same sessions, which takes each such table to one that the loop leaves, without an error or a
    -- panic.
    pub loop-Induced_unique : IsContr ((f : View P.Pipe → View P.Pipe) × Induced hs f)
    loop-Induced_unique = (
      (loop, loop-Induced),
      λ g. Σ_prop_path (λ f. hlevel) (Induced-same g.0 loop g.1 loop-Induced),
    )
