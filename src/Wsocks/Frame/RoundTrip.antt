-- ===== src/Wsocks/Frame/RoundTrip.antt =====
-- `Frame::recv` of src/bin.todo/wsocks.rs reads what `Frame::send` wrote.
use mathlib.Core.List.{append_cancel_left}
use sosistab2_obfsws.Base.{
  ◌%◌, ◌^◌, ◌≤◌, ◌≡◌, sym, ap, ◌∙◌, inl, inr, Bool-cases, Option-cases, some, ◌++◌, arith, length,
  take, drop, ltb, ltb→le, length-append, append_assoc, append-nil, take-append_right,
  drop-append_right, take-length-append, drop-length-append,
}
use sosistab2_obfsws.Base.Words.{
  Bytes, to_be_bytes, from_be_bytes, length-to_be_bytes, from-to_be_bytes,
}
use sosistab2_obfsws.Io.{Result, ok, err}
use sosistab2_obfsws.Transport.{Transport}
use sosistab2_obfsws.Wsocks.Protocol.{Frame, FitsProtocol}
use sosistab2_obfsws.Wsocks.Frame.{Bincode, FrameError, max_frame, or_io-ok, send, recv}

-- The bytes that a frame takes on the wire.
abbrev pub encoded : Bytes → Bytes
encoded buf = to_be_bytes 2 (length buf % 2 ^ 16) ++ buf

-- The length that `recv` reads is that of the frame.
pub length_read :
    (buf : Bytes)
    → length buf ≤ max_frame
    → from_be_bytes (to_be_bytes 2 (length buf % 2 ^ 16)) ≡ length buf
length_read buf h = from-to_be_bytes 2 (length buf % 2 ^ 16) (omega arith) ∙ omega arith

module _ (B : Bincode) (T : Transport) where
  -- What a successful `send` has done.
  pub record SentFrame (f : Frame) (c c' : T.Conn) : Type 0 where
    pub buf : Bytes
    pub encodes : B.serialize f ≡ some buf
    pub small : length buf ≤ max_frame
    pub writes : T.write_all c (encoded buf) ≡ ok c'

  pub send-SentFrame :
      (f : Frame) (c : T.Conn) {c' : T.Conn} → send B T f c ≡ ok c' → SentFrame f c c'
  unfolding send
  send-SentFrame f c {c'} e = elim (Option-cases (B.serialize f)) [
    | inl failed ↦ absurd (fails (rw failed at e))
    | inr (buf, encodes) ↦ elim (Bool-cases (ltb max_frame (length buf))) [
      | inl large ↦ absurd (fails (rw (encodes, large) at e))
      | inr small ↦ record {
        buf = buf;
        encodes = encodes;
        small = ltb→le max_frame (length buf) small;
        writes = or_io-ok (T.write_all c (encoded buf)) (rw (encodes, small) at e);
      }
    ]
  ]
    where
      fails : {k : FrameError} → ◌≡◌ {A = Result FrameError T.Conn} (err k) (ok c') → ⊥
      fails h = cc

  -- `recv` takes one frame off the front of what comes in.
  pub recv-encoded :
      (f : Frame) (buf rest : Bytes) (d : T.Conn)
      → length buf ≤ max_frame
      → B.deserialize buf ≡ some f
      → T.incoming d ≡ encoded buf ++ rest
      → (d' : T.Conn) × (recv B T d ≡ ok (f, d'))
        × (T.incoming d' ≡ rest)
        × (T.outgoing d' ≡ T.outgoing d)
  unfolding recv
  recv-encoded f buf rest d small decodes front =
      let (d₁, read₁, left₁, kept₁) = T.read_exact-ok d 2 enough₁ in
      let body : T.incoming d₁ ≡ buf ++ rest =
        left₁ ∙ ap (drop 2) front' ∙ drop-append_right len (buf ++ rest) 2 0 (omega (arith, two)) in
      let (d₂, read₂, left₂, kept₂) =
        T.read_exact-ok d₁ (length buf) (omega (arith, ap length body, length-append buf rest)) in
      (
        d₂,
        rw (
          read₁,
          ap from_be_bytes header ∙ length_read buf small,
          read₂,
          ap (take (length buf)) body ∙ take-length-append buf rest,
          decodes,
        ),
        left₂ ∙ ap (drop (length buf)) body ∙ drop-length-append buf rest,
        kept₂ ∙ kept₁,
      )
    where
      len : Bytes
      len = to_be_bytes 2 (length buf % 2 ^ 16)

      two : length len ≡ 2
      two = length-to_be_bytes 2 (length buf % 2 ^ 16)

      front' : T.incoming d ≡ len ++ (buf ++ rest)
      front' = front ∙ append_assoc len buf rest

      enough₁ : 2 ≤ length (T.incoming d)
      enough₁ = omega (arith, two, ap length front', length-append len (buf ++ rest))

      header : take 2 (T.incoming d) ≡ len
      header =
          ap (take 2) front'
          ∙ take-append_right len (buf ++ rest) 2 0 (omega (arith, two))
          ∙ append-nil len

  -- Where `send` succeeds it has appended some bytes to what was written, and a reader whose input
  -- begins with those bytes gets the same frame from `recv`, is left with the rest of its input, and
  -- has written nothing.
  pub recv-send :
      (f : Frame) (c c' d : T.Conn) (sent rest : Bytes)
      → FitsProtocol f.protocol
      → send B T f c ≡ ok c'
      → T.outgoing c' ≡ T.outgoing c ++ sent
      → T.incoming d ≡ sent ++ rest
      → (d' : T.Conn) × (recv B T d ≡ ok (f, d'))
        × (T.incoming d' ≡ rest)
        × (T.outgoing d' ≡ T.outgoing d)
  recv-send f c c' d sent rest fits went wrote reads =
      let s = send-SentFrame f c went in
      let same : encoded s.buf ≡ sent =
        append_cancel_left (T.outgoing c) (encoded s.buf) sent
          (sym (T.write_all-ok c (encoded s.buf) s.writes).0 ∙ wrote) in
      recv-encoded f s.buf rest d s.small (B.deserialize-serialize f s.buf fits s.encodes)
        (reads ∙ ap (λ (w : Bytes). w ++ rest) (sym same))
