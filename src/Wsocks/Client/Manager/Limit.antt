-- ===== src/Wsocks/Client/Manager/Limit.antt =====
-- How many pipes the client of src/bin.todo/wsocks.rs keeps.
use sosistab2_obfsws.Base.{
  ℕ, ◌+◌, ◌≤◌, ◌≡◌, min, Bool-cases, inl, inr, true, List, [], ◌∷◌, arith, length, length-append,
  leb, if◌then◌else◌,
}
use sosistab2_obfsws.Io.{Result, ok, err}
use sosistab2_obfsws.Pipe.Connect.{ConnectError}
use sosistab2_obfsws.Wsocks.Mux.{retain, length-retain, retain_all}
use sosistab2_obfsws.Wsocks.Client.Manager.{Meets, supply, client_round, client_rounds}

module _ {Pipe : Type 0} where
  length-supply :
      (r : Result ConnectError Pipe) (pipes : List Pipe)
      → length (supply r pipes) ≤ length pipes + 1
  unfolding supply
  length-supply (ok pipe) pipes = omega (arith, length-append pipes (pipe ∷ []))
  length-supply (err e) pipes = omega arith

  client_round-limit :
      (max_conn : ℕ) (m : Meets Pipe) (pipes : List Pipe)
      → length pipes ≤ max_conn
      → length (client_round max_conn m pipes) ≤ max_conn
  unfolding client_round
  client_round-limit max_conn m pipes h =
      ground (arith, length-retain m.alive pipes, length-supply m.connect (retain m.alive pipes))

  -- From at most the limit of pipes, such as none, the client never has more than that, whatever
  -- its rounds meet.
  pub client_rounds-limit :
      (max_conn : ℕ) (ms : List (Meets Pipe)) (pipes : List Pipe)
      → length pipes ≤ max_conn
      → length (client_rounds max_conn ms pipes) ≤ max_conn
  unfolding client_rounds
  client_rounds-limit max_conn [] pipes h = h
  client_rounds-limit max_conn (m ∷ ms) pipes h =
      client_rounds-limit max_conn ms (client_round max_conn m pipes)
        (client_round-limit max_conn m pipes h)

  -- Rounds in which every pipe lives and every connection succeeds.
  abbrev pub AreGood : List (Meets Pipe) → Type 0
  AreGood [] = Unit {0}
  AreGood (m ∷ ms) =
      (((p : Pipe) → m.alive p ≡ true) × ((pipe : Pipe) × (m.connect ≡ ok pipe))) × AreGood ms

  client_round-adds :
      (max_conn : ℕ) (m : Meets Pipe) (pipes : List Pipe) (pipe : Pipe)
      → ((p : Pipe) → m.alive p ≡ true)
      → m.connect ≡ ok pipe
      → length (client_round max_conn m pipes)
        ≡ (if leb max_conn (length pipes) then length pipes else length pipes + 1)
  unfolding client_round supply
  client_round-adds max_conn m pipes pipe live e =
      rw (retain_all m.alive pipes live, e)
        (elim (Bool-cases (leb max_conn (length pipes))) [
          | inl enough ↦ rw enough
          | inr few ↦ rw few (omega (arith, length-append pipes (pipe ∷ [])))
        ])

  -- As long as every pipe lives and every connection succeeds, each round adds a pipe until the
  -- limit is reached, and none after that.
  pub client_rounds-fill :
      (max_conn : ℕ) (ms : List (Meets Pipe)) (pipes : List Pipe)
      → length pipes ≤ max_conn
      → AreGood ms
      → length (client_rounds max_conn ms pipes) ≡ min max_conn (length pipes + length ms)
  unfolding client_rounds
  client_rounds-fill max_conn [] pipes h good = omega arith
  client_rounds-fill max_conn (m ∷ ms) pipes h good =
      let step = client_round-adds max_conn m pipes good.0.1.0 good.0.0 good.0.1.1 in
      let rest =
        client_rounds-fill max_conn ms (client_round max_conn m pipes)
          (client_round-limit max_conn m pipes h) good.1 in
      ground (arith, step, rest)
