-- ===== src/Wsocks/Client/Http/Sample.antt =====
-- An HTTP server over bytes, for runs of src/bin.todo/wsocks.rs.
use sosistab2_obfsws.Base.{◌≡◌, some, [], ◌++◌, arith}
use sosistab2_obfsws.Base.Words.{Bytes}
use sosistab2_obfsws.Io.{ErrorKind, Result, ok, Text, codes}
use sosistab2_obfsws.Transport.{Wire}
use sosistab2_obfsws.Wsocks.Client.Http.{HttpServer}

pub written_lem :
    (w : Wire) (bytes : Bytes) {w' : Wire}
    → ◌≡◌ {A = Result ErrorKind Wire} (ok (record w { output = w.output ++ bytes })) (ok w')
    → w'.output ≡ w.output ++ bytes
written_lem w bytes e = ground arith

pub kept_lem :
    (w : Wire) {w' : Wire} → ◌≡◌ {A = Result ErrorKind Wire} (ok w) (ok w') → w'.output ≡ w.output
kept_lem w e = ground arith

-- A request is its method, always for port 443 of "h".
abbrev pub sample_http : HttpServer
sample_http = record {
  Conn = Wire;
  Request = Text;
  outgoing = λ w. w.output;
  decode = λ w. ok (some (w.input, record w { input = [] }));
  method = λ req. req;
  host_str = λ req. some (codes "h");
  port_or_known_default = λ req. some 443;
  write_all = λ w bytes. ok (record w { output = w.output ++ bytes });
  close = λ w. ok w;
  write_all-ok = λ w bytes e. written_lem w bytes e;
  close-ok = λ w e. kept_lem w e;
}
