-- ===== src/Wsocks/Frame.antt =====
-- `Frame::send` and `Frame::recv` of src/bin.todo/wsocks.rs: a frame goes as its length, two bytes
-- big-endian, and its `bincode` form.
pub mod RoundTrip
pub mod Received
pub mod Sequence
pub mod Errors
mod Tests
pub mod Sample
use sosistab2_obfsws.Base.{
  ℕ, ◌+◌, ◌%◌, ◌^◌, ◌≡◌, Bool, true, false, Option, none, some, List, [], ◌∷◌, ◌++◌, arith, length,
  ltb, if◌then◌else◌,
}
use sosistab2_obfsws.Base.Words.{Bytes, to_be_bytes, from_be_bytes}
use sosistab2_obfsws.Io.{ErrorKind, Result, ok, err, ◌>>=◌}
use sosistab2_obfsws.Transport.{Transport}
use sosistab2_obfsws.Wsocks.Protocol.{Protocol, tcp_data, Frame, FitsProtocol}

-- The crate `bincode`, which is not part of the repository. What it writes it reads back. In its
-- default format a `TcpData` frame takes 4 bytes for the variant, 16 for the id, and 8 for the
-- length of each of the payload and the padding, beside their bytes.
pub record Bincode : Type 0 where
  pub serialize : Frame → Option Bytes
  pub deserialize : Bytes → Option Frame
  pub deserialize-serialize :
      (f : Frame) (buf : Bytes)
      → FitsProtocol f.protocol
      → serialize f ≡ some buf
      → deserialize buf ≡ some f
  pub length-serialize_data :
      (id : ℕ) (payload padding buf : Bytes)
      → serialize (record { protocol = tcp_data id payload; padding = padding }) ≡ some buf
      → length buf ≡ 36 + length payload + length padding

pub data FrameError : Type 0 where
  not_encoded too_large not_decoded : FrameError
  io : ErrorKind → FrameError

abbrev pub max_frame : ℕ
max_frame = 65535

abbrev pub or_fail {ℓ} : {A : Type ℓ} → Option A → FrameError → Result FrameError A
or_fail none e = err e
or_fail (some a) e = ok a

abbrev pub or_io {ℓ} : {A : Type ℓ} → Result ErrorKind A → Result FrameError A
or_io (ok a) = ok a
or_io (err k) = err (io k)

module _ {A : Type 0} where
  pub or_io-ok : (r : Result ErrorKind A) {a : A} → or_io r ≡ ok a → r ≡ ok a
  or_io-ok (ok b) h = ground arith
  or_io-ok (err k) h = cc

  pub or_fail-ok : (o : Option A) (e : FrameError) {a : A} → or_fail o e ≡ ok a → o ≡ some a
  or_fail-ok none e h = cc
  or_fail-ok (some b) e h = ground arith

module _ (B : Bincode) (T : Transport) where
  unfoldable pub send : Frame → T.Conn → Result FrameError T.Conn
  send f conn = do
    buf ← or_fail (B.serialize f) not_encoded
    if ltb max_frame (length buf) then err too_large else write buf
    where
      write : Bytes → Result FrameError T.Conn
      write buf = or_io (T.write_all conn (to_be_bytes 2 (length buf % 2 ^ 16) ++ buf))

  unfoldable pub recv : T.Conn → Result FrameError (Frame × T.Conn)
  recv conn = do
    (len, conn₁) ← or_io (T.read_exact conn 2)
    (buf, conn₂) ← or_io (T.read_exact conn₁ (from_be_bytes len))
    this ← or_fail (B.deserialize buf) not_decoded
    ok (this, conn₂)
