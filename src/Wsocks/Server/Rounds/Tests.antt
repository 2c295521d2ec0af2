-- ===== src/Wsocks/Server/Rounds/Tests.antt =====
-- The server's loop of src/bin.todo/wsocks.rs over two pipes of one session, the session's end, and
-- one pipe more.
use std.Equiv.{IsContr}
use sosistab2_obfsws.Base.{ℕ, ◌≡◌, refl, none, List, [], ◌∷◌, ◌++◌}
use sosistab2_obfsws.Base.Words.{from_be_bytes}
use sosistab2_obfsws.Base.Slices.{done, read_slice}
use sosistab2_obfsws.Base64.Sample.{sample_base64}
use sosistab2_obfsws.Io.{ok, Text}
use sosistab2_obfsws.Wsocks.Etag.{etag_from}
use sosistab2_obfsws.Wsocks.Etag.Sample.{flip, sample_crypto}
use sosistab2_obfsws.Wsocks.Server.Sessions.{Server, Pipes}
use sosistab2_obfsws.Wsocks.Server.Sessions.Refinement.{sessions}
use sosistab2_obfsws.Wsocks.Server.Rounds.{Happening, accepts_pipe, ends, no_sessions, server_loop}
use sosistab2_obfsws.Wsocks.Server.Rounds.Views.{View, Induced, loop-Induced_unique}
use sosistab2_obfsws.Wsocks.Server.Rounds.Refines.{Follows, server_loop-refines}

-- A pipe is its metadata.
abbrev named_pipes : Pipes
named_pipes = record { Pipe = Text; peer_metadata = λ pipe. pipe }

-- A pipe of session 77, by the first byte of its nonce.
abbrev newcomer : ℕ → Text
newcomer n =
    sample_base64.encode
      ((n ∷ 2 ∷ 3 ∷ 4 ∷ 5 ∷ 6 ∷ 7 ∷ 8 ∷ []) ++ flip (0 ∷ 0 ∷ 0 ∷ 0 ∷ 0 ∷ 0 ∷ 0 ∷ 77 ∷ []))

first_hash : etag_from sample_crypto sample_base64 [] (newcomer 1) ≡ done (ok 77)
unfolding etag_from from_be_bytes read_slice
first_hash = refl

second_hash : etag_from sample_crypto sample_base64 [] (newcomer 2) ≡ done (ok 77)
unfolding etag_from from_be_bytes read_slice
second_hash = refl

abbrev happens : List (Happening Text)
happens =
    accepts_pipe (ok (newcomer 1))
    ∷ accepts_pipe (ok (newcomer 2))
    ∷ ends 77
    ∷ accepts_pipe (ok (newcomer 2))
    ∷ []

server_loop-refines_example :
    (t : Server Text) × (server_loop sample_crypto sample_base64 named_pipes [] happens no_sessions
      ≡ done (ok t))
    × Follows sample_crypto sample_base64 named_pipes [] happens (λ k. none) (sessions t)
server_loop-refines_example =
    server_loop-refines sample_crypto sample_base64 named_pipes [] happens
      ((77, first_hash), ((77, second_hash), ((77, second_hash), tt)))

loop-Induced_unique_example :
    IsContr
      ((f : View Text → View Text) × Induced sample_crypto sample_base64 named_pipes [] happens f)
loop-Induced_unique_example =
    loop-Induced_unique sample_crypto sample_base64 named_pipes [] happens
      ((77, first_hash), ((77, second_hash), ((77, second_hash), tt)))
