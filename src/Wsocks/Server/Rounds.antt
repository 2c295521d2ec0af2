-- ===== src/Wsocks/Server/Rounds.antt =====
-- The loop of `server` of src/bin.todo/wsocks.rs over many rounds, between which sessions end.
pub mod Refines
pub mod Views
mod Tests
use sosistab2_obfsws.Base.{ℕ, false, Option, none, some, List, [], ◌∷◌}
use sosistab2_obfsws.Base.Slices.{Exec, done, panic}
use sosistab2_obfsws.Base64.{Base64}
use sosistab2_obfsws.Io.{ErrorKind, Result, ok, err}
use sosistab2_obfsws.Wsocks.Etag.{Crypto}
use sosistab2_obfsws.Wsocks.Server.Sessions.{
  Server, ServerError, Pipes, live, lookup, die, server_round,
}

-- What `accept_pipe` gives; the last task of the session of a hash comes to its end.
pub data Happening (Pipe : Type 0) : Type 0 where
  accepts_pipe : Result ErrorKind Pipe → Happening Pipe
  ends : ℕ → Happening Pipe

module _ {Pipe : Type 0} where
  unfoldable pub ended_at : Option ℕ → Server Pipe → Server Pipe
  ended_at none s = s
  ended_at (some i) s = die i s

  -- The session of a hash, if one lives.
  unfoldable pub end_session : ℕ → Server Pipe → Server Pipe
  end_session hash s = ended_at (lookup hash (live s.store s.mux_sessions)) s

  abbrev pub and_round :
      Exec (Result ServerError (Server Pipe))
      → (Server Pipe → Exec (Result ServerError (Server Pipe)))
      → Exec (Result ServerError (Server Pipe))
  and_round panic next = panic
  and_round (done (err e)) next = done (err e)
  and_round (done (ok s)) next = next s

-- Before the first round.
abbrev pub no_sessions : {Pipe : Type 0} → Server Pipe
no_sessions = record {
  mux_sessions = [];
  store = λ i. record { session = 0; pipes = []; strong = false };
  made = 0;
}

module _ (K : Crypto) (B : Base64) (P : Pipes) where
  unfoldable pub server_loop :
      K.MuxPublic
      → List (Happening P.Pipe)
      → Server P.Pipe
      → Exec (Result ServerError (Server P.Pipe))
  server_loop server_pk [] s = done (ok s)
  server_loop server_pk (accepts_pipe accepted ∷ hs) s =
      and_round (server_round K B P server_pk accepted s) (server_loop server_pk hs)
  server_loop server_pk (ends hash ∷ hs) s = server_loop server_pk hs (end_session hash s)
