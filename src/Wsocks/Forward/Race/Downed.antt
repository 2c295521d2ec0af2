-- ===== src/Wsocks/Forward/Race/Downed.antt =====
-- What a round of `down_fut` of src/bin.todo/wsocks.rs has done where it succeeds.
use sosistab2_obfsws.Base.{ℕ, ◌≡◌, refl, ap, ◌∙◌, Bool-cases, inl, inr, Option, ◌==◌, ==→eq}
use sosistab2_obfsws.Base.Words.{Bytes}
use sosistab2_obfsws.Base.Slices.{Exec, done, panic, done-injective}
use sosistab2_obfsws.Io.{Result, ok, err, ok-injective, bind-succeeds}
use sosistab2_obfsws.Channel.{Channel}
use sosistab2_obfsws.Transport.{Transport}
use sosistab2_obfsws.Wsocks.Protocol.{Protocol, tcp_connect, tcp_offer, tcp_data, Frame}
use sosistab2_obfsws.Wsocks.Frame.{Bincode, FrameError, or_io, or_io-ok, recv}
use sosistab2_obfsws.Wsocks.Forward.{
  ForwardError, deadline_reached, Ends, or_frame, check_deadline, handle, received, down_round,
}
use sosistab2_obfsws.Wsocks.Forward.Steps.{or_frame-ok}

module _ (B : Bincode) (T : Transport) (D : Channel (Unit {0})) (offer_id : ℕ) where
  -- What a round of `down_fut` that succeeds has done.
  pub record Downed (d e : Ends T D) : Type 0 where
    pub f : Frame
    pub payload : Bytes
    pub got : recv B T d.relconn ≡ ok (f, e.relconn)
    pub carries : f.protocol ≡ tcp_data offer_id payload
    pub wrote : T.write_all d.conn payload ≡ ok e.conn

  handle-ok :
      (p : Protocol) (s e : Ends T D)
      → handle B T D offer_id p s ≡ done (ok e)
      → (payload : Bytes) × (p ≡ tcp_data offer_id payload)
        × (T.write_all s.conn payload ≡ ok e.conn)
        × (s.relconn ≡ e.relconn)
  unfolding handle
  handle-ok (tcp_connect dst port) s e h = cc
  handle-ok (tcp_offer id) s e h = cc
  handle-ok (tcp_data id payload) s e h = elim (Bool-cases (id == offer_id)) [
    | inl same ↦
        let (conn, wrote, is) =
          bind-succeeds (or_frame (or_io (T.write_all s.conn payload))) _
            (done-injective (rw same at h)) in
        let last : ◌≡◌ {A = Ends T D} (record s { conn = conn }) e = ok-injective is in
        (
          payload,
          ap (λ k. tcp_data k payload) (==→eq id offer_id same),
          or_io-ok _ (or_frame-ok _ wrote) ∙ ap (λ (u : Ends T D). ok u.conn) last,
          ap (λ (u : Ends T D). u.relconn) last,
        )
    | inr differ ↦ absurd (lost (rw differ at h))
  ]
    where
      lost : ◌≡◌ {A = Exec (Result ForwardError (Ends T D))} panic (done (ok e)) → ⊥
      lost h = cc

  received-Downed :
      (d e : Ends T D) (rx : Option D.Chan) (r : Result FrameError (Frame × T.Conn))
      → recv B T d.relconn ≡ r
      → received B T D offer_id d rx r ≡ done (ok e)
      → Downed d e
  unfolding received
  received-Downed d e rx (err k) h went = cc
  received-Downed d e rx (ok (f, relconn)) h went =
      let (payload, carries, wrote, same) =
        handle-ok f.protocol (record d { deadline_rx = rx; relconn = relconn }) e went in
      record {
        f = f;
        payload = payload;
        got = h ∙ ap (λ x. ok (f, x)) same;
        carries = carries;
        wrote = wrote;
      }

  pub down_round-Downed : (d e : Ends T D) → down_round B T D offer_id d ≡ done (ok e) → Downed d e
  unfolding down_round
  down_round-Downed d e went = elim (Bool-cases (check_deadline D d.deadline_rx).0) [
    | inl reached ↦ absurd (late (rw reached at went))
    | inr in_time ↦
        received-Downed d e (check_deadline D d.deadline_rx).1 _ refl (rw in_time at went)
  ]
    where
      late :
          ◌≡◌ {A = Exec (Result ForwardError (Ends T D))}
            (done (err deadline_reached))
            (done (ok e))
          → ⊥
      late h = cc
