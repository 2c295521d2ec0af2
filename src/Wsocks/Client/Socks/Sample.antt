-- ===== src/Wsocks/Client/Socks/Sample.antt =====
-- A SOCKS server over bytes, for runs of src/bin.todo/wsocks.rs.
use sosistab2_obfsws.Base.{ℕ, ◌≡◌, [], ◌∷◌, ◌++◌, arith, ◌==◌, if◌then◌else◌}
use sosistab2_obfsws.Base.Words.{Bytes}
use sosistab2_obfsws.Io.{ErrorKind, unexpected_eof, Result, ok, err}
use sosistab2_obfsws.Transport.{Wire}
use sosistab2_obfsws.Wsocks.Errors.Sample.{sample_socks}
use sosistab2_obfsws.Wsocks.Client.Socks.{
  SocksVersion, v4, v5, SocksV4Host, SocksV5Host, SocksServer,
}

-- A request is the version, a byte of the handshake, the port, and the name to the end; a status is
-- its number and the port.
abbrev pub sample_version : Wire → Result ErrorKind (SocksVersion × Wire)
sample_version w = elim w.input [
  | [] ↦ err unexpected_eof
  | v ∷ rest ↦ ok (if v == 4 then v4 else v5, record w { input = rest })
]

abbrev pub sample_handshake : Wire → Result ErrorKind Wire
sample_handshake w = elim w.input [
  | [] ↦ err unexpected_eof
  | b ∷ rest ↦ ok (record w { input = rest })
]

abbrev pub sample_request {ℓ} :
    {H : Type ℓ} → (Bytes → H) → Wire → Result ErrorKind ((H × ℕ) × Wire)
sample_request host w = elim w.input [
  | [] ↦ err unexpected_eof
  | port ∷ name ↦ ok ((host name, port), record w { input = [] })
]

abbrev pub written : Wire → Bytes → Result ErrorKind Wire
written w bytes = ok (record w { output = w.output ++ bytes })

pub written_lem :
    (w : Wire) (bytes : Bytes) {w' : Wire} → written w bytes ≡ ok w' → w'.output ≡ w.output ++ bytes
written_lem w bytes e = ground arith

abbrev pub sample_server : SocksServer sample_socks
sample_server = record {
  Conn = Wire;
  outgoing = λ w. w.output;
  read_version = sample_version;
  v4_read_request = sample_request SocksV4Host.domain;
  v5_read_handshake = sample_handshake;
  v5_write_no_auth = λ w. written w (5 ∷ 0 ∷ []);
  v5_read_request = sample_request SocksV5Host.domain;
  v4_write_status = λ w status host port. written w (status ∷ port ∷ []);
  v5_write_status = λ w status host port. written w (status ∷ port ∷ []);
  ipv4_text = λ b. b;
  ipv6_text = λ b. b;
  from_utf8_lossy = λ b. b;
  as_bytes = λ t. t;
  v4_status = λ status host port. status ∷ port ∷ [];
  v5_status = λ status host port. status ∷ port ∷ [];
  v4_write_status-ok = λ w status host port e. written_lem w (status ∷ port ∷ []) e;
  v5_write_status-ok = λ w status host port e. written_lem w (status ∷ port ∷ []) e;
}

-- A client that wants port 81 of "hi".
abbrev pub client : Wire
client = record { input = 5 ∷ 0 ∷ 81 ∷ 104 ∷ 105 ∷ []; output = [] }
