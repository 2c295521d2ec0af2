-- ===== src/Wsocks/Forward/Race/Carried.antt =====
-- What the two directions of `tcp_forward_loop` of src/bin.todo/wsocks.rs have carried, in any order
-- of their rounds.
use mathlib.Core.Path.{subst}
use sosistab2_obfsws.Base.{
  ℕ, ◌%◌, ◌^◌, ◌<◌, ◌≡◌, refl, sym, ap, ◌∙◌, List, [], ◌∷◌, ◌++◌, length, append-nil, append_assoc,
}
use sosistab2_obfsws.Base.Words.{Bytes, to_be_bytes, length-to_be_bytes}
use sosistab2_obfsws.Base.Slices.{Exec, done, panic, done-injective}
use sosistab2_obfsws.Io.{Result, ok, err, ok-injective}
use sosistab2_obfsws.Channel.{Channel}
use sosistab2_obfsws.Transport.{Transport}
use sosistab2_obfsws.Wsocks.Protocol.{tcp_data, frame_from}
use sosistab2_obfsws.Wsocks.Frame.{Bincode}
use sosistab2_obfsws.Wsocks.Frame.RoundTrip.{encoded, length_read, send-SentFrame}
use sosistab2_obfsws.Wsocks.Frame.Received.{recv-Received}
use sosistab2_obfsws.Wsocks.Forward.{read_size, ForwardError, Ends, and_then}
use sosistab2_obfsws.Wsocks.Forward.Steps.{Uploaded, up_round-Uploaded}
use sosistab2_obfsws.Wsocks.Forward.Race.{Turn, up, down, turn, tcp_forward_loop}
use sosistab2_obfsws.Wsocks.Forward.Race.Frames.{Frames, no_frames, one_frame, Frames-append}
use sosistab2_obfsws.Wsocks.Forward.Race.Downed.{Downed, down_round-Downed}

module _ (B : Bincode) (T : Transport) (D : Channel (Unit {0})) (offer_id : ℕ) where
  -- What was carried each way between two states, and nothing else.
  pub record Carried (s t : Ends T D) : Type 0 where
    pub up_bytes : Bytes
    pub up_wire : Bytes
    pub down_bytes : Bytes
    pub down_wire : Bytes
    pub up_frames : Frames B offer_id up_bytes up_wire
    pub down_frames : Frames B offer_id down_bytes down_wire
    pub up_read : T.incoming s.conn ≡ up_bytes ++ T.incoming t.conn
    pub up_wrote : T.outgoing t.relconn ≡ T.outgoing s.relconn ++ up_wire
    pub down_read : T.incoming s.relconn ≡ down_wire ++ T.incoming t.relconn
    pub down_wrote : T.outgoing t.conn ≡ T.outgoing s.conn ++ down_bytes

  Carried-refl : (s : Ends T D) → Carried s s
  Carried-refl s = record {
    up_bytes = [];
    up_wire = [];
    down_bytes = [];
    down_wire = [];
    up_frames = no_frames;
    down_frames = no_frames;
    up_read = refl;
    up_wrote = sym (append-nil (T.outgoing s.relconn));
    down_read = refl;
    down_wrote = sym (append-nil (T.outgoing s.conn));
  }

  -- What was read in two steps, and what was written.
  read_twice : (a b x y z : Bytes) → x ≡ a ++ y → y ≡ b ++ z → x ≡ (a ++ b) ++ z
  read_twice a b x y z h k = h ∙ ap (λ w. a ++ w) k ∙ sym (append_assoc a b z)

  wrote_twice : (a b x y z : Bytes) → y ≡ x ++ a → z ≡ y ++ b → z ≡ x ++ (a ++ b)
  wrote_twice a b x y z h k = k ∙ ap (λ w. w ++ b) h ∙ append_assoc x a b

  Carried-trans : (s t u : Ends T D) → Carried s t → Carried t u → Carried s u
  Carried-trans s t u c d = record {
    up_bytes = c.up_bytes ++ d.up_bytes;
    up_wire = c.up_wire ++ d.up_wire;
    down_bytes = c.down_bytes ++ d.down_bytes;
    down_wire = c.down_wire ++ d.down_wire;
    up_frames = Frames-append B offer_id c.up_frames d.up_frames;
    down_frames = Frames-append B offer_id c.down_frames d.down_frames;
    up_read = read_twice c.up_bytes d.up_bytes _ _ _ c.up_read d.up_read;
    up_wrote = wrote_twice c.up_wire d.up_wire _ _ _ c.up_wrote d.up_wrote;
    down_read = read_twice c.down_wire d.down_wire _ _ _ c.down_read d.down_read;
    down_wrote = wrote_twice c.down_bytes d.down_bytes _ _ _ c.down_wrote d.down_wrote;
  }

  Uploaded-Carried :
      (n : ℕ) (s t : Ends T D) → offer_id < 2 ^ 128 → Uploaded B T D offer_id n s t → Carried s t
  unfolding frame_from
  Uploaded-Carried n s t id_fits u =
      let f = frame_from n (tcp_data offer_id u.payload) in
      let r = send-SentFrame B T f s.relconn u.framed in
      let (_, front, same) = T.read-ok s.conn read_size u.taken in
      let (wrote, kept) = T.write_all-ok s.relconn (encoded r.buf) r.writes in
      record {
        up_bytes = u.payload;
        up_wire = encoded r.buf;
        down_bytes = [];
        down_wire = [];
        up_frames =
            one_frame B offer_id f u.payload (to_be_bytes 2 (length r.buf % 2 ^ 16)) r.buf
              (length-to_be_bytes 2 (length r.buf % 2 ^ 16)) (length_read r.buf r.small)
              (B.deserialize-serialize f r.buf id_fits r.encodes) refl;
        down_frames = no_frames;
        up_read = front;
        up_wrote = wrote;
        down_read = sym kept;
        down_wrote = same ∙ sym (append-nil (T.outgoing s.conn));
      }

  Downed-Carried : (d e : Ends T D) → Downed B T D offer_id d e → Carried d e
  Downed-Carried d e g =
      let r = recv-Received B T d.relconn g.f e.relconn g.got in
      let (wrote, kept) = T.write_all-ok d.conn g.payload g.wrote in
      record {
        up_bytes = [];
        up_wire = [];
        down_bytes = g.payload;
        down_wire = r.head ++ r.buf;
        up_frames = no_frames;
        down_frames =
            one_frame B offer_id g.f g.payload r.head r.buf r.two r.size r.decodes g.carries;
        up_read = sym kept;
        up_wrote = r.kept ∙ sym (append-nil (T.outgoing d.relconn));
        down_read = r.front;
        down_wrote = wrote;
      }

  turn-Carried :
      (t : Turn) (s u : Ends T D)
      → offer_id < 2 ^ 128
      → turn B T D offer_id t s ≡ done (ok u)
      → Carried s u
  unfolding turn
  turn-Carried (up n) s u id_fits went =
      Uploaded-Carried n s u id_fits (up_round-Uploaded B T D offer_id n s u (done-injective went))
  turn-Carried down s u id_fits went =
      Downed-Carried s u (down_round-Downed B T D offer_id s u went)

  and_then-ok :
      (r : Exec (Result ForwardError (Ends T D)))
      (next : Ends T D → Exec (Result ForwardError (Ends T D))) (u : Ends T D)
      → and_then B T D offer_id r next ≡ done (ok u)
      → (t : Ends T D) × (r ≡ done (ok t)) × (next t ≡ done (ok u))
  and_then-ok panic next u went = cc
  and_then-ok (done (err e)) next u went = cc
  and_then-ok (done (ok t)) next u went = (t, refl, went)

  -- After rounds of the two directions in any order, with none that has ended: what was read from
  -- the TCP peer has been written over the pipes as data frames of the id, what was read from the
  -- pipes were data frames of the id, whose payloads were written to the TCP peer, all in order and
  -- with nothing besides.
  pub tcp_forward_loop-Carried :
      (ts : List Turn) (s u : Ends T D)
      → offer_id < 2 ^ 128
      → tcp_forward_loop B T D offer_id ts s ≡ done (ok u)
      → Carried s u
  unfolding tcp_forward_loop
  tcp_forward_loop-Carried [] s u id_fits went =
      subst (Carried s) (ok-injective (done-injective went)) (Carried-refl s)
  tcp_forward_loop-Carried (t ∷ ts) s u id_fits went =
      let (s₁, first, rest) =
        and_then-ok (turn B T D offer_id t s) (tcp_forward_loop B T D offer_id ts) u went in
      Carried-trans s s₁ u (turn-Carried t s s₁ id_fits first)
        (tcp_forward_loop-Carried ts s₁ u id_fits rest)
