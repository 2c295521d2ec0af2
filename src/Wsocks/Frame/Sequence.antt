-- ===== src/Wsocks/Frame/Sequence.antt =====
-- Several frames of src/bin.todo/wsocks.rs over one connection.
use mathlib.Core.List.{append_cancel_left}
use sosistab2_obfsws.Base.{
  ℕ, zero, suc, ◌≡◌, refl, sym, ap, ◌∙◌, List, [], ◌∷◌, ◌++◌, length, append_assoc, append-nil,
}
use sosistab2_obfsws.Base.Words.{Bytes}
use sosistab2_obfsws.Io.{Result, ok, ◌>>=◌, bind-succeeds, ok-injective}
use sosistab2_obfsws.Transport.{Transport}
use sosistab2_obfsws.Wsocks.Protocol.{Frame, FitsProtocol}
use sosistab2_obfsws.Wsocks.Frame.{Bincode, FrameError, send, recv}
use sosistab2_obfsws.Wsocks.Frame.RoundTrip.{encoded, SentFrame, send-SentFrame, recv-encoded}

-- Frames one after the other.
module _ (B : Bincode) (T : Transport) where
  unfoldable pub send_all : List Frame → T.Conn → Result FrameError T.Conn
  send_all [] c = ok c
  send_all (f ∷ fs) c = do c' ← send B T f c; send_all fs c'

  -- `recv` as often as the number says.
  unfoldable pub recv_many : ℕ → T.Conn → Result FrameError (List Frame × T.Conn)
  recv_many zero d = ok ([], d)
  recv_many (suc n) d = do (f, d₁) ← recv B T d; (fs, d₂) ← recv_many n d₁; ok (f ∷ fs, d₂)

  abbrev pub AllFit : List Frame → Type 0
  AllFit [] = Unit {0}
  AllFit (f ∷ fs) = FitsProtocol f.protocol × AllFit fs

  -- What `send_all` has written, and how it is read back.
  record SentAll (fs : List Frame) (c c' : T.Conn) : Type 0 where
    bytes : Bytes
    wrote : T.outgoing c' ≡ T.outgoing c ++ bytes
    reads :
        (d : T.Conn) (rest : Bytes)
        → T.incoming d ≡ bytes ++ rest
        → (d' : T.Conn) × (recv_many (length fs) d ≡ ok (fs, d')) × (T.incoming d' ≡ rest)

  -- One frame more in front.
  SentAll-cons :
      (f : Frame) (fs : List Frame) (c c₁ c' : T.Conn)
      → FitsProtocol f.protocol
      → SentFrame B T f c c₁
      → SentAll fs c₁ c'
      → SentAll (f ∷ fs) c c'
  unfolding recv_many
  SentAll-cons f fs c c₁ c' fits s more = record {
    bytes = encoded s.buf ++ more.bytes;
    wrote =
        more.wrote
        ∙ ap (λ (w : Bytes). w ++ more.bytes) (T.write_all-ok c (encoded s.buf) s.writes).0
        ∙ append_assoc (T.outgoing c) (encoded s.buf) more.bytes;
    reads = λ d rest front.
        let (d₁, got, left, _) =
          recv-encoded B T f s.buf (more.bytes ++ rest) d s.small
            (B.deserialize-serialize f s.buf fits s.encodes)
            (front ∙ append_assoc (encoded s.buf) more.bytes rest) in
        let (d₂, got_rest, left_rest) = more.reads d₁ rest left in
        (d₂, rw (got, got_rest), left_rest);
  }

  send_all-SentAll :
      (fs : List Frame) (c : T.Conn) {c' : T.Conn}
      → AllFit fs
      → send_all fs c ≡ ok c'
      → SentAll fs c c'
  unfolding send_all recv_many
  send_all-SentAll [] c {c'} fits e = record {
    bytes = [];
    wrote = ap T.outgoing (sym (ok-injective e)) ∙ sym (append-nil (T.outgoing c));
    reads = λ d rest front. (d, refl, front);
  }
  send_all-SentAll (f ∷ fs) c {c'} fits e =
      let (c₁, went, rest) = bind-succeeds (send B T f c) (λ c₁. send_all fs c₁) e in
      SentAll-cons f fs c c₁ c' fits.0 (send-SentFrame B T f c went)
        (send_all-SentAll fs c₁ fits.1 rest)

  -- Frames that are all sent are received, by as many calls of `recv`, in the order in which they
  -- were sent, and the reader is left with what follows them.
  pub recv_many-send_all :
      (fs : List Frame) (c c' d : T.Conn) (sent rest : Bytes)
      → AllFit fs
      → send_all fs c ≡ ok c'
      → T.outgoing c' ≡ T.outgoing c ++ sent
      → T.incoming d ≡ sent ++ rest
      → (d' : T.Conn) × (recv_many (length fs) d ≡ ok (fs, d')) × (T.incoming d' ≡ rest)
  recv_many-send_all fs c c' d sent rest fits went wrote front =
      let s = send_all-SentAll fs c fits went in
      let same : s.bytes ≡ sent =
        append_cancel_left (T.outgoing c) s.bytes sent (sym s.wrote ∙ wrote) in
      s.reads d rest (front ∙ ap (λ (w : Bytes). w ++ rest) (sym same))
