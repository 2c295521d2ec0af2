-- ===== src/Wsocks/Client/Manager.antt =====
-- `pipemgr_fut` of `client` in src/bin.todo/wsocks.rs, which keeps the multiplexer supplied with pipes.
pub mod Limit
mod Tests
use sosistab2_obfsws.Base.{ℕ, Bool, true, false, List, [], ◌∷◌, ◌++◌, length, leb, if◌then◌else◌}
use sosistab2_obfsws.Io.{Result, ok, err}
use sosistab2_obfsws.Pipe.Connect.{ConnectError}
use sosistab2_obfsws.Wsocks.Mux.{retain}

-- What a round meets: which pipes still have an address, and what `ObfsWsPipe::connect` gives if it
-- is called.
pub record Meets (Pipe : Type 0) : Type 0 where
  pub alive : Pipe → Bool
  pub connect : Result ConnectError Pipe

module _ {Pipe : Type 0} where
  -- The match on `connect`.
  unfoldable pub supply : Result ConnectError Pipe → List Pipe → List Pipe
  supply (ok pipe) pipes = pipes ++ pipe ∷ []
  supply (err e) pipes = pipes

  unfoldable pub client_round : ℕ → Meets Pipe → List Pipe → List Pipe
  unfolding supply
  client_round max_conn m pipes =
      let kept = retain m.alive pipes in
      if leb max_conn (length kept) then kept else supply m.connect kept

  -- The loop, over what its rounds meet.
  unfoldable pub client_rounds : ℕ → List (Meets Pipe) → List Pipe → List Pipe
  client_rounds max_conn [] pipes = pipes
  client_rounds max_conn (m ∷ ms) pipes = client_rounds max_conn ms (client_round max_conn m pipes)
