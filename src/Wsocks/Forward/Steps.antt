-- ===== src/Wsocks/Forward/Steps.antt =====
-- What one round of each direction of `tcp_forward_loop` of src/bin.todo/wsocks.rs has done.
use sosistab2_obfsws.Base.{
  ℕ, ◌^◌, ◌≤◌, ◌<◌, ◌≡◌, refl, ap, ◌∙◌, Bool-cases, inl, inr, false, Option, some, ◌++◌, arith,
  length, eq→==,
}
use sosistab2_obfsws.Base.Words.{Bytes}
use sosistab2_obfsws.Base.Slices.{done}
use sosistab2_obfsws.Io.{ErrorKind, Result, ok, err, ok-injective, ◌>>=◌}
use sosistab2_obfsws.Channel.{Channel}
use sosistab2_obfsws.Transport.{Transport}
use sosistab2_obfsws.Wsocks.Protocol.{tcp_data, Frame, frame_from}
use sosistab2_obfsws.Wsocks.Frame.{Bincode, FrameError, or_io, send, recv}
use sosistab2_obfsws.Wsocks.Frame.RoundTrip.{encoded, recv-encoded}
use sosistab2_obfsws.Wsocks.Forward.{
  read_size, ForwardError, deadline_reached, Ends, or_frame, check_deadline, up_round, handle,
  received, down_round,
}

module _ {A : Type 0} where
  pub or_frame-ok : (r : Result FrameError A) {a : A} → or_frame r ≡ ok a → r ≡ ok a
  or_frame-ok (ok b) e = ground arith
  or_frame-ok (err k) e = cc

module _ (T : Transport) where
  -- The TCP peer takes every write.
  abbrev pub Writable : Type 0
  Writable = (c : T.Conn) (bytes : Bytes) → (c' : T.Conn) × (T.write_all c bytes ≡ ok c')

module _ (B : Bincode) (T : Transport) (D : Channel (Unit {0})) (offer_id : ℕ) where
  -- What a round of `up_fut` that succeeds has done.
  pub record Uploaded (n : ℕ) (s t : Ends T D) : Type 0 where
    pub payload : Bytes
    pub taken : T.read s.conn read_size ≡ ok (payload, t.conn)
    pub framed : send B T (frame_from n (tcp_data offer_id payload)) s.relconn ≡ ok t.relconn

  -- The two calls of a round after the deadline's test, by what each gave.
  sent_up :
      (n : ℕ) (s t : Ends T D) (rx : Option D.Chan) (payload : Bytes) (conn : T.Conn)
      (r : Result FrameError T.Conn)
      → T.read s.conn read_size ≡ ok (payload, conn)
      → send B T (frame_from n (tcp_data offer_id payload)) s.relconn ≡ r
      → (or_frame r >>= λ relconn. ok (record { deadline_rx = rx; conn = conn; relconn = relconn }))
        ≡ ok t
      → Uploaded n s t
  sent_up n s t rx payload conn (err k) h i e = cc
  sent_up n s t rx payload conn (ok relconn) h i e =
      let same : ◌≡◌ {A = Ends T D} (record { deadline_rx = rx; conn = conn; relconn = relconn })
          t =
        ok-injective e in
      record {
        payload = payload;
        taken = h ∙ ap (λ (u : Ends T D). ok (payload, u.conn)) same;
        framed = i ∙ ap (λ (u : Ends T D). ok u.relconn) same;
      }

  read_up :
      (n : ℕ) (s t : Ends T D) (rx : Option D.Chan) (r : Result ErrorKind (Bytes × T.Conn))
      → T.read s.conn read_size ≡ r
      → (or_frame (or_io r) >>= λ (payload, conn).
          or_frame (send B T (frame_from n (tcp_data offer_id payload)) s.relconn) >>= λ relconn.
          ok (record { deadline_rx = rx; conn = conn; relconn = relconn }))
        ≡ ok t
      → Uploaded n s t
  read_up n s t rx (err k) h e = cc
  read_up n s t rx (ok (payload, conn)) h e = sent_up n s t rx payload conn _ h refl e

  pub up_round-Uploaded :
      (n : ℕ) (s t : Ends T D) → up_round B T D offer_id n s ≡ ok t → Uploaded n s t
  unfolding up_round
  up_round-Uploaded n s t e = elim (Bool-cases (check_deadline D s.deadline_rx).0) [
    | inl reached ↦ late (rw reached at e)
    | inr in_time ↦ read_up n s t (check_deadline D s.deadline_rx).1 _ refl (rw in_time at e)
  ]
    where
      late : ◌≡◌ {A = Result ForwardError (Ends T D)} (err deadline_reached) (ok t) → Uploaded n s t
      late h = cc

  -- One round of `down_fut` on a frame that `up_fut` made.
  pub record Downloaded (payload rest : Bytes) (d e : Ends T D) : Type 0 where
    pub succeeds : down_round B T D offer_id d ≡ done (ok e)
    pub left : T.incoming e.relconn ≡ rest
    pub wrote : T.outgoing e.conn ≡ T.outgoing d.conn ++ payload
    pub same_rx : e.deadline_rx ≡ d.deadline_rx

  down_step :
      (d : Ends T D) (f : Frame) (payload : Bytes) (relconn conn : T.Conn)
      → check_deadline D d.deadline_rx ≡ (false, d.deadline_rx)
      → recv B T d.relconn ≡ ok (f, relconn)
      → f.protocol ≡ tcp_data offer_id payload
      → T.write_all d.conn payload ≡ ok conn
      → down_round B T D offer_id d
        ≡ done (ok (record { deadline_rx = d.deadline_rx; conn = conn; relconn = relconn }))
  unfolding down_round received handle
  down_step d f payload relconn conn quiet got same wrote =
      rw (quiet, got, same, eq→== offer_id offer_id refl, wrote)

  pub down_round-Downloaded :
      (n : ℕ) (payload buf rest : Bytes) (d : Ends T D)
      → Writable T
      → offer_id < 2 ^ 128
      → check_deadline D d.deadline_rx ≡ (false, d.deadline_rx)
      → B.serialize (frame_from n (tcp_data offer_id payload)) ≡ some buf
      → length buf ≤ 65535
      → T.incoming d.relconn ≡ encoded buf ++ rest
      → (e : Ends T D) × Downloaded payload rest d e
  unfolding frame_from
  down_round-Downloaded n payload buf rest d writable id_fits quiet encodes small front =
      let f = frame_from n (tcp_data offer_id payload) in
      let (relconn, got, left, _) =
        recv-encoded B T f buf rest d.relconn small (B.deserialize-serialize f buf id_fits encodes)
          front in
      let (conn, wrote) = writable d.conn payload in
      (
        record { deadline_rx = d.deadline_rx; conn = conn; relconn = relconn },
        record {
          succeeds = down_step d f payload relconn conn quiet got refl wrote;
          left = left;
          wrote = (T.write_all-ok d.conn payload wrote).0;
          same_rx = refl;
        },
      )
