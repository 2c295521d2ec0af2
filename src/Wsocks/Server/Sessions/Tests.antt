-- ===== src/Wsocks/Server/Sessions/Tests.antt =====
-- The session table of src/bin.todo/wsocks.rs at concrete inputs.
use sosistab2_obfsws.Base.{ℕ, ◌≡◌, refl, true, [], ◌∷◌, ◌++◌}
use sosistab2_obfsws.Base.Words.{Bytes, from_be_bytes}
use sosistab2_obfsws.Base.Slices.{done, read_slice}
use sosistab2_obfsws.Base64.Sample.{sample_base64}
use sosistab2_obfsws.Io.{ok, Text}
use sosistab2_obfsws.Wsocks.Etag.{etag_from}
use sosistab2_obfsws.Wsocks.Etag.Sample.{flip, sample_crypto}
use sosistab2_obfsws.Wsocks.Server.Sessions.{Mux, Server, live, lookup, sweep, die, Pipes, arrive}
use sosistab2_obfsws.Wsocks.Server.Sessions.Admission.{arrive-loses}

-- A pipe is its metadata.
abbrev named_pipes : Pipes
named_pipes = record { Pipe = Text; peer_metadata = λ pipe. pipe }

abbrev key : Bytes → Text
key hash = sample_base64.encode ((1 ∷ 2 ∷ 3 ∷ 4 ∷ 5 ∷ 6 ∷ 7 ∷ 8 ∷ []) ++ flip hash)

-- A pipe of session 77.
abbrev newcomer : Text
newcomer = key (0 ∷ 0 ∷ 0 ∷ 0 ∷ 0 ∷ 0 ∷ 0 ∷ 77 ∷ [])

abbrev muxes : ℕ → Mux Text
muxes i = record { session = 77; pipes = []; strong = true }

abbrev one_session : Server Text
one_session = record { mux_sessions = (77, 0) ∷ []; store = muxes; made = 1 }

etag_from-newcomer : etag_from sample_crypto sample_base64 [] newcomer ≡ done (ok 77)
unfolding etag_from from_be_bytes read_slice
etag_from-newcomer = refl

arrive-loses_example :
    arrive sample_crypto sample_base64 named_pipes [] (ok newcomer) (die 0 (sweep one_session))
    ≡ done (ok (die 0 (sweep one_session)))
unfolding sweep live lookup
arrive-loses_example =
    arrive-loses sample_crypto sample_base64 named_pipes [] newcomer 77 0 one_session
      etag_from-newcomer refl
