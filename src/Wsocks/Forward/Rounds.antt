-- ===== src/Wsocks/Forward/Rounds.antt =====
-- Single rounds of `tcp_forward_loop` of src/bin.todo/wsocks.rs: the end of the TCP stream, and the
-- frames that stop a session's task.
use sosistab2_obfsws.Base.{
  ℕ, ◌≡◌, ◌↔◌, refl, ap, ◌∙◌, Bool-cases, inl, inr, false, List, [], ◌∷◌, ◌==◌, eq→==, ==→eq,
}
use sosistab2_obfsws.Base.Words.{Bytes}
use sosistab2_obfsws.Base.Slices.{Exec, done, panic}
use sosistab2_obfsws.Io.{Result, ok, ◌>>=◌}
use sosistab2_obfsws.Channel.{Channel}
use sosistab2_obfsws.Transport.{Transport}
use sosistab2_obfsws.Wsocks.Protocol.{
  Protocol, tcp_connect, tcp_offer, tcp_data, Frame, frame_from, IsDraw,
}
use sosistab2_obfsws.Wsocks.Frame.{Bincode, send, recv}
use sosistab2_obfsws.Wsocks.Forward.{
  read_size, ForwardError, Ends, check_deadline, up_round, handle, received, down_round, up_rounds,
}

-- The lengths of paddings that can be drawn.
abbrev pub Draws : List ℕ → Type 0
Draws [] = Unit {0}
Draws (n ∷ ns) = IsDraw n × Draws ns

module _ (B : Bincode) (T : Transport) (D : Channel (Unit {0})) (offer_id : ℕ) where
  -- A frame with no payload can always be sent over the pipes.
  abbrev pub SendsEmpty : Type 0
  SendsEmpty =
      (n : ℕ) (c : T.Conn)
      → IsDraw n
      → (c' : T.Conn) × (send B T (frame_from n (tcp_data offer_id [])) c ≡ ok c')

  up_round-end :
      (n : ℕ) (s : Ends T D) (relconn : T.Conn)
      → T.incoming s.conn ≡ []
      → check_deadline D s.deadline_rx ≡ (false, s.deadline_rx)
      → send B T (frame_from n (tcp_data offer_id [])) s.relconn ≡ ok relconn
      → up_round B T D offer_id n s ≡ ok (record s { relconn = relconn })
  unfolding up_round
  up_round-end n s relconn at_end quiet sent = rw (quiet, T.read-end s.conn read_size at_end, sent)

  -- Where the TCP peer has ended its stream, no deadline is reached and the pipes take a frame with
  -- no payload, any number of rounds of `up_fut` succeed in a row, with the connection left at its
  -- end: the loop does not notice the end.
  pub up_rounds-never_end :
      (ns : List ℕ) (s : Ends T D)
      → Draws ns
      → SendsEmpty
      → T.incoming s.conn ≡ []
      → check_deadline D s.deadline_rx ≡ (false, s.deadline_rx)
      → (relconn : T.Conn) × (up_rounds B T D offer_id ns s ≡ ok (record s { relconn = relconn }))
  unfolding up_rounds
  up_rounds-never_end [] s draws sends at_end quiet = (s.relconn, refl)
  up_rounds-never_end (n ∷ ns) s draws sends at_end quiet =
      let (relconn, sent) = sends n s.relconn draws.0 in
      let (relconn', went) =
        up_rounds-never_end ns (record s { relconn = relconn }) draws.1 sends at_end quiet in
      (
        relconn',
        ap (λ r. r >>= λ s'. up_rounds B T D offer_id ns s')
              (up_round-end n s relconn at_end quiet sent)
            ∙ went,
      )

  -- The frames that a session expects after its handshake.
  abbrev pub Expected : Protocol → Type 0
  Expected p = (payload : Bytes) × (p ≡ tcp_data offer_id payload)

  id_of : Protocol → ℕ → ℕ
  id_of (tcp_connect dst port) other = other
  id_of (tcp_offer id) other = other
  id_of (tcp_data id payload) other = id

  handle-panics_iff :
      (p : Protocol) (s : Ends T D) → (handle B T D offer_id p s ≡ panic) ↔ (Expected p → ⊥)
  unfolding handle id_of
  handle-panics_iff (tcp_connect dst port) s = (λ h e. cc, λ h. refl)
  handle-panics_iff (tcp_offer id) s = (λ h e. cc, λ h. refl)
  handle-panics_iff (tcp_data id payload) s = elim (Bool-cases (id == offer_id)) [
    | inl same ↦ (
      λ h. lost (rw same at h),
      λ h. absurd (h (payload, ap (λ k. tcp_data k payload) (==→eq id offer_id same))),
    )
    | inr differ ↦ (λ h e. cc (eq→== id offer_id (ap (λ q. id_of q 0) e.1)), λ h. rw differ)
  ]
    where
      lost :
          {r : Result ForwardError (Ends T D)}
          → ◌≡◌ {A = Exec (Result ForwardError (Ends T D))} (done r) panic
          → Expected (tcp_data id payload)
          → ⊥
      lost h e = cc

  -- Where a frame has arrived in time, a round of `down_fut` panics exactly where the frame is no
  -- data frame of the session's id.
  pub down_round-panics_iff :
      (d : Ends T D) (f : Frame) (relconn : T.Conn)
      → check_deadline D d.deadline_rx ≡ (false, d.deadline_rx)
      → recv B T d.relconn ≡ ok (f, relconn)
      → (down_round B T D offer_id d ≡ panic) ↔ (Expected f.protocol → ⊥)
  unfolding down_round received
  down_round-panics_iff d f relconn quiet got =
      rw (quiet, got) (handle-panics_iff f.protocol (record d { relconn = relconn }))
