-- ===== src/Wsocks/Server/Sessions.antt =====
-- The loop of `server` of src/bin.todo/wsocks.rs that sorts the accepted pipes into sessions.
-- A `Weak<Multiplex>` is the number of its multiplexer in a store, which knows whether the
-- multiplexer is still referred to.
pub mod Table
pub mod Admission
pub mod Live
pub mod Refinement
pub mod Unique
mod Tests
use sosistab2_obfsws.Base.{
  ℕ, zero, suc, ◌+◌, ◌<◌, ◌≡◌, Bool, true, false, Option, none, some, List, [], ◌∷◌, ◌++◌, ◌==◌,
  if◌then◌else◌,
}
use sosistab2_obfsws.Base.Words.{Bytes}
use sosistab2_obfsws.Base.Slices.{Exec, done, panic}
use sosistab2_obfsws.Base64.{Base64}
use sosistab2_obfsws.Io.{ErrorKind, Result, ok, err, Text}
use sosistab2_obfsws.Wsocks.Etag.{Crypto, EtagError, etag_from}

-- What the table relies on of `sosistab2::Multiplex`: the pipes that were added, and whether a
-- strong reference is left (the tasks of the session hold one).
pub record Mux (Pipe : Type 0) : Type 0 where
  pub session : ℕ
  pub pipes : List Pipe
  pub strong : Bool

-- `mux_sessions`, and the multiplexers made so far, numbered from 0.
pub record Server (Pipe : Type 0) : Type 0 where
  pub mux_sessions : List (ℕ × ℕ)
  pub store : ℕ → Mux Pipe
  pub made : ℕ

pub data ServerError : Type 0 where
  accept_failed : ErrorKind → ServerError
  bad_etag : EtagError → ServerError

-- `entry`
unfoldable pub lookup : ℕ → List (ℕ × ℕ) → Option ℕ
lookup hash [] = none
lookup hash ((k, i) ∷ rest) = if k == hash then some i else lookup hash rest

module _ {Pipe : Type 0} where
  -- `retain`
  unfoldable pub live : (ℕ → Mux Pipe) → List (ℕ × ℕ) → List (ℕ × ℕ)
  live store [] = []
  live store ((k, i) ∷ rest) =
      let rest' = live store rest in if (store i).strong then (k, i) ∷ rest' else rest'

  abbrev pub update : ℕ → Mux Pipe → (ℕ → Mux Pipe) → ℕ → Mux Pipe
  update i mux store j = if j == i then mux else store j

  -- The first statement of a round.
  unfoldable pub sweep : Server Pipe → Server Pipe
  sweep s = record s { mux_sessions = live s.store s.mux_sessions }

  -- `upgrade`, and `add_pipe` where it succeeds.
  unfoldable pub add_pipe : Pipe → ℕ → Server Pipe → Server Pipe
  add_pipe pipe i s =
      if (s.store i).strong
      then record s {
        store = update i (record (s.store i) { pipes = (s.store i).pipes ++ pipe ∷ [] }) s.store;
      }
      else s

  -- `or_insert_with`: a new multiplexer, which the task that is spawned for it keeps.
  unfoldable pub create : ℕ → Server Pipe → Server Pipe
  create hash s = record {
    mux_sessions = (hash, s.made) ∷ s.mux_sessions;
    store = update s.made (record { session = hash; pipes = []; strong = true }) s.store;
    made = s.made + 1;
  }

  -- The session's last task ends, while the listener waits.
  unfoldable pub die : ℕ → Server Pipe → Server Pipe
  die i s = record s { store = update i (record (s.store i) { strong = false }) s.store }

  -- What follows the entry's lookup.
  unfoldable pub with_entry : ℕ → Pipe → Option ℕ → Server Pipe → Server Pipe
  with_entry hash pipe (some i) s = add_pipe pipe i s
  with_entry hash pipe none s = add_pipe pipe s.made (create hash s)

  unfoldable pub admit : ℕ → Pipe → Server Pipe → Server Pipe
  admit hash pipe s = with_entry hash pipe (lookup hash s.mux_sessions) s

-- What a pipe tells of itself.
pub record Pipes : Type 1 where
  pub Pipe : Type 0
  pub peer_metadata : Pipe → Text

module _ (K : Crypto) (B : Base64) (P : Pipes) where
  -- A pipe, with what `Etag::from` gives for it.
  unfoldable pub tagged :
      P.Pipe → Exec (Result EtagError ℕ) → Server P.Pipe → Exec (Result ServerError (Server P.Pipe))
  tagged pipe panic s = panic
  tagged pipe (done (err e)) s = done (err (bad_etag e))
  tagged pipe (done (ok hash)) s = done (ok (admit hash pipe s))

  -- The rest of a round, on what `accept_pipe` gives; an error ends the loop.
  unfoldable pub arrive :
      K.MuxPublic
      → Result ErrorKind P.Pipe
      → Server P.Pipe
      → Exec (Result ServerError (Server P.Pipe))
  arrive server_pk (err e) s = done (err (accept_failed e))
  arrive server_pk (ok pipe) s = tagged pipe (etag_from K B server_pk (P.peer_metadata pipe)) s

  -- A round in which no multiplexer dies while the listener waits.
  unfoldable pub server_round :
      K.MuxPublic
      → Result ErrorKind P.Pipe
      → Server P.Pipe
      → Exec (Result ServerError (Server P.Pipe))
  server_round server_pk accepted s = arrive server_pk accepted (sweep s)
