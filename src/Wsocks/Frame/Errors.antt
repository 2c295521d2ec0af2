-- ===== src/Wsocks/Frame/Errors.antt =====
-- How `Frame::send` and `Frame::recv` of src/bin.todo/wsocks.rs fail, and when they do not.
use native.Mathlib.Decide.{dec_lt}
use sosistab2_obfsws.Base.{
  ℕ, ◌+◌, ◌%◌, ◌^◌, ◌≤◌, ◌<◌, ◌≡◌, ◌≢◌, ap, ◌∙◌, inl, inr, Bool-cases, some, ◌++◌, arith, length,
  take, drop, ltb, ltb→lt, lt→ltb, le→ltb, ◌↔◌, ◌-◌, length-append, length-take, length-replicate,
  replicate, append-nil, take-append_right, drop-append_right, length-take, length-replicate,
  replicate,
}
use sosistab2_obfsws.Base.Words.{Bytes, to_be_bytes, from_be_bytes, length-to_be_bytes}
use sosistab2_obfsws.Io.{ErrorKind, Result, ok, err, unexpected_eof}
use sosistab2_obfsws.Transport.{Transport}
use sosistab2_obfsws.Wsocks.Protocol.{Frame}
use sosistab2_obfsws.Wsocks.Frame.{Bincode, too_large, io, max_frame, or_io, send, recv}
use sosistab2_obfsws.Wsocks.Protocol.{tcp_data, frame_from, IsDraw}
use sosistab2_obfsws.Wsocks.Frame.RoundTrip.{encoded, length_read}

module _ (B : Bincode) (T : Transport) where
  -- A connection that ends inside a frame gives an error, and no part of the frame.
  pub recv_cut :
      (buf : Bytes) (k : ℕ) (d : T.Conn)
      → length buf ≤ max_frame
      → k < length (encoded buf)
      → T.incoming d ≡ take k (encoded buf)
      → recv B T d ≡ err (io unexpected_eof)
  unfolding recv
  recv_cut buf k d small cut front = elim (dec_lt k 2) [
    | yes h ↦
        rw (T.read_exact-short d 2 (omega (arith, ap length front, length-take k (encoded buf))))
    | no h ↦
        let (d₁, read₁, left₁, _) =
          T.read_exact-ok d 2 (omega (arith, ap length front, length-take k (encoded buf))) in
        let body : T.incoming d₁ ≡ take (k - 2) buf =
          left₁
          ∙ ap (drop 2) (front' (k - 2) (omega arith))
          ∙ drop-append_right len (take (k - 2) buf) 2 0 (omega (arith, two)) in
        rw (
          read₁,
          ap from_be_bytes (header (k - 2) (omega arith)) ∙ length_read buf small,
          T.read_exact-short d₁ (length buf)
              (omega (arith, ap length body, length-take (k - 2) buf, two, length-append len buf)),
        )
  ]
    where
      len : Bytes
      len = to_be_bytes 2 (length buf % 2 ^ 16)

      two : length len ≡ 2
      two = length-to_be_bytes 2 (length buf % 2 ^ 16)

      front' : (j : ℕ) → k ≡ 2 + j → T.incoming d ≡ len ++ take j buf
      front' j e = front ∙ take-append_right len buf k j (omega (arith, two))

      header : (j : ℕ) → k ≡ 2 + j → take 2 (T.incoming d) ≡ len
      header j e =
          ap (take 2) (front' j e)
          ∙ take-append_right len (take j buf) 2 0 (omega (arith, two))
          ∙ append-nil len

  -- A data frame of at most 60000 bytes, with any padding that is drawn, is never too large: it is
  -- written, and `send` fails only where the write does.
  pub send_data-writes :
      (id n : ℕ) (payload buf : Bytes) (c : T.Conn)
      → IsDraw n
      → length payload ≤ 60000
      → B.serialize (frame_from n (tcp_data id payload)) ≡ some buf
      → send B T (frame_from n (tcp_data id payload)) c ≡ or_io (T.write_all c (encoded buf))
  unfolding send frame_from
  send_data-writes id n payload buf c draw h encodes = rw (
    encodes,
    le→ltb max_frame (length buf) (
        omega (
          arith,
          B.length-serialize_data id payload (replicate n 0) buf encodes,
          length-replicate {A = ℕ} n 0,
        )),
  )

  -- A frame whose form is over 65535 bytes is refused, and one within is not.
  pub send-too_large_iff :
      (f : Frame) (buf : Bytes) (c : T.Conn)
      → B.serialize f ≡ some buf
      → (send B T f c ≡ err too_large) ↔ (max_frame < length buf)
  unfolding send
  send-too_large_iff f buf c encodes =
      (refused, λ large. rw (encodes, lt→ltb max_frame (length buf) large))
    where
      io_differs : (r : Result ErrorKind T.Conn) → or_io r ≢ err too_large
      io_differs (ok a) e = cc
      io_differs (err k) e = cc

      refused : send B T f c ≡ err too_large → max_frame < length buf
      refused e = elim (Bool-cases (ltb max_frame (length buf))) [
        | inl large ↦ ltb→lt max_frame (length buf) large
        | inr small ↦ absurd (io_differs (T.write_all c (encoded buf)) (rw (encodes, small) at e))
      ]
