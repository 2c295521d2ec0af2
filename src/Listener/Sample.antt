-- ===== src/Listener/Sample.antt =====
-- A handshake of a few lines, for src/listener.rs at concrete inputs.
use sosistab2_obfsws.Base.{◌≡◌, refl, ap, Option, some, [], ◌∷◌}
use sosistab2_obfsws.Base.Words.{Bytes}
use sosistab2_obfsws.Base.Slices.{Exec, done, panic, done-injective}
use sosistab2_obfsws.Io.{ErrorKind, broken_pipe, Result, ok, err, Text, codes}
use sosistab2_obfsws.Channel.{Channel, queue_channel}
use sosistab2_obfsws.Pipe.{ObfsWsPipe}
use sosistab2_obfsws.Listener.{Http, Upgrade, Answer}

-- A request is its key, if it has one.
abbrev pub sample_http : Http
sample_http = record {
  Request = Option Bytes;
  Response = Unit {0};
  key_header = λ req. req;
  to_str = λ value. some value;
  to_str-IsVisible = λ value h. refl;
}

abbrev pub M : Channel Text
M = queue_channel Text

abbrev pub C : Channel Bytes
C = queue_channel Bytes

abbrev pub P : Channel ObfsWsPipe
P = queue_channel ObfsWsPipe

abbrev pub answer : Answer (Unit {0}) M.Chan → Exec (Result ErrorKind (Unit {0}) × M.Chan)
answer panic = panic
answer (done (ok res, chan)) = done (ok res, chan)
answer (done (err res, chan)) = done (err broken_pipe, chan)

pub answer-ok :
    (a : Answer (Unit {0}) M.Chan) (chan : M.Chan) (ws : Unit {0})
    → answer a ≡ done (ok ws, chan)
    → (res : Unit {0}) × (a ≡ done (ok res, chan))
answer-ok panic chan ws e = cc
answer-ok (done (ok res, c)) chan ws e = (
  res,
  ap (λ (c' : M.Chan). done (ok res, c'))
      (ap (λ (t : Result ErrorKind (Unit {0}) × M.Chan). t.1) (done-injective e)),
)
answer-ok (done (err res, c)) chan ws e = cc (done-injective e)

-- A connection is the request that comes over it.
abbrev pub sample_upgrade : Upgrade sample_http M.Chan
sample_upgrade = record {
  Conn = Option Bytes;
  Ws = Unit {0};
  set_nodelay = λ conn. ok conn;
  accept_hdr = λ callback conn chan. answer (callback conn tt chan);
  accept_hdr-ok = λ callback conn chan chan' ws e.
      let (res, same) = answer-ok (callback conn tt chan) chan' ws e in (conn, tt, res, same);
}

-- Sixteen zeros.
abbrev pub key : Text
key = codes "AAAAAAAAAAAAAAAAAAAAAAAAAAAAAAAA"

abbrev pub zeros : Bytes
zeros = 0 ∷ 0 ∷ 0 ∷ 0 ∷ 0 ∷ 0 ∷ 0 ∷ 0 ∷ 0 ∷ 0 ∷ 0 ∷ 0 ∷ 0 ∷ 0 ∷ 0 ∷ 0 ∷ []
