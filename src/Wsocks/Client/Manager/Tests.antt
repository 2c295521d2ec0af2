-- ===== src/Wsocks/Client/Manager/Tests.antt =====
-- The manager of the client's pipes in src/bin.todo/wsocks.rs at concrete inputs.
use sosistab2_obfsws.Base.{ℕ, ◌≤◌, ◌≡◌, refl, true, ltb, [], ◌∷◌, arith, length}
use sosistab2_obfsws.Io.{ok, err}
use sosistab2_obfsws.Pipe.Connect.{no_host}
use sosistab2_obfsws.Wsocks.Mux.{retain}
use sosistab2_obfsws.Wsocks.Client.Manager.{Meets, supply, client_round, client_rounds}
use sosistab2_obfsws.Wsocks.Client.Manager.Limit.{client_rounds-limit}

abbrev good : ℕ → Meets ℕ
good n = record { alive = λ p. true; connect = ok n }

-- Pipe 1 dies, and the next connection fails.
abbrev bad : Meets ℕ
bad = record { alive = λ p. ltb 1 p; connect = err no_host }

client_rounds-runs : client_rounds 2 (good 1 ∷ good 2 ∷ good 3 ∷ bad ∷ good 4 ∷ []) [] ≡ 2 ∷ 4 ∷ []
unfolding client_rounds client_round supply retain
client_rounds-runs = refl

client_rounds-limit_example : length (client_rounds 2 (good 1 ∷ good 2 ∷ bad ∷ good 4 ∷ []) []) ≤ 2
client_rounds-limit_example =
    client_rounds-limit 2 (good 1 ∷ good 2 ∷ bad ∷ good 4 ∷ []) [] (omega arith)
