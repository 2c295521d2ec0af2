-- ===== src/Wsocks/Forward/Transfer.antt =====
-- What one side of `tcp_forward_loop` of src/bin.todo/wsocks.rs reads, the other side writes.
use sosistab2_obfsws.Base.{
  ℕ, suc, ◌^◌, ◌<◌, ◌≡◌, refl, sym, ap, ◌∙◌, false, List, [], ◌∷◌, ◌++◌, length, append-nil,
  append_assoc,
}
use mathlib.Core.List.{append_cancel_left}
use sosistab2_obfsws.Base.Words.{Bytes}
use sosistab2_obfsws.Base.Slices.{done}
use sosistab2_obfsws.Io.{ok, ok-injective, bind-succeeds}
use sosistab2_obfsws.Channel.{Channel}
use sosistab2_obfsws.Transport.{Transport}
use sosistab2_obfsws.Wsocks.Protocol.{tcp_data, frame_from}
use sosistab2_obfsws.Wsocks.Frame.{Bincode}
use sosistab2_obfsws.Wsocks.Frame.RoundTrip.{encoded, send-SentFrame}
use sosistab2_obfsws.Wsocks.Forward.{
  read_size, Ends, check_deadline, up_round, down_round, up_rounds, down_rounds,
}
use sosistab2_obfsws.Wsocks.Forward.Steps.{
  Uploaded, up_round-Uploaded, Writable, down_round-Downloaded,
}

module _ (B : Bincode) (T : Transport) (D : Channel (Unit {0})) (offer_id : ℕ) where
  -- Rounds on one side, and the same number of rounds on the other.
  record Moved (ns : List ℕ) (s t : Ends T D) : Type 0 where
    bytes : Bytes
    framed : Bytes
    taken : T.incoming s.conn ≡ bytes ++ T.incoming t.conn
    wrote : T.outgoing t.relconn ≡ T.outgoing s.relconn ++ framed
    lands :
        (d : Ends T D) (rest : Bytes)
        → check_deadline D d.deadline_rx ≡ (false, d.deadline_rx)
        → T.incoming d.relconn ≡ framed ++ rest
        → (e : Ends T D) × (down_rounds B T D offer_id (length ns) d ≡ done (ok e))
          × (T.incoming e.relconn ≡ rest)
          × (T.outgoing e.conn ≡ T.outgoing d.conn ++ bytes)

  next_rounds :
      (k : ℕ) (d e : Ends T D)
      → down_round B T D offer_id d ≡ done (ok e)
      → down_rounds B T D offer_id (suc k) d ≡ down_rounds B T D offer_id k e
  unfolding down_rounds
  next_rounds k d e h = rw h

  Moved-cons :
      (n : ℕ) (ns : List ℕ) (s s₁ t : Ends T D)
      → Writable T
      → offer_id < 2 ^ 128
      → Uploaded B T D offer_id n s s₁
      → Moved ns s₁ t
      → Moved (n ∷ ns) s t
  Moved-cons n ns s s₁ t writable id_fits u more =
      let f = send-SentFrame B T (frame_from n (tcp_data offer_id u.payload)) s.relconn u.framed in
      record {
        bytes = u.payload ++ more.bytes;
        framed = encoded f.buf ++ more.framed;
        taken =
            (T.read-ok s.conn read_size u.taken).1
            ∙ ap (λ (w : Bytes). u.payload ++ w) more.taken
            ∙ sym (append_assoc u.payload more.bytes (T.incoming t.conn));
        wrote =
            more.wrote
            ∙ ap (λ (w : Bytes). w ++ more.framed)
                (T.write_all-ok s.relconn (encoded f.buf) f.writes).0
            ∙ append_assoc (T.outgoing s.relconn) (encoded f.buf) more.framed;
        lands = λ d rest quiet front.
            let (e, went) =
              down_round-Downloaded B T D offer_id n u.payload f.buf (more.framed ++ rest) d
                writable id_fits quiet f.encodes f.small
                (front ∙ append_assoc (encoded f.buf) more.framed rest) in
            let still : check_deadline D e.deadline_rx ≡ (false, e.deadline_rx) =
              rw went.same_rx quiet in
            let (e', went', left, wrote) = more.lands e rest still went.left in
            (
              e',
              next_rounds (length ns) d e went.succeeds ∙ went',
              left,
              wrote
                  ∙ ap (λ (w : Bytes). w ++ more.bytes) went.wrote
                  ∙ append_assoc (T.outgoing d.conn) u.payload more.bytes,
            );
      }

  up_rounds-Moved :
      (ns : List ℕ) (s t : Ends T D)
      → Writable T
      → offer_id < 2 ^ 128
      → up_rounds B T D offer_id ns s ≡ ok t
      → Moved ns s t
  unfolding up_rounds down_rounds
  up_rounds-Moved [] s t writable id_fits e =
      let same : s ≡ t = ok-injective e in
      record {
        bytes = [];
        framed = [];
        taken = ap (λ (u : Ends T D). T.incoming u.conn) same;
        wrote =
            ap (λ (u : Ends T D). T.outgoing u.relconn) (sym same)
            ∙ sym (append-nil (T.outgoing s.relconn));
        lands = λ d rest quiet front. (d, refl, front, sym (append-nil (T.outgoing d.conn)));
      }
  up_rounds-Moved (n ∷ ns) s t writable id_fits e =
      let (s₁, first, rest) =
        bind-succeeds (up_round B T D offer_id n s) (λ s'. up_rounds B T D offer_id ns s') e in
      Moved-cons n ns s s₁ t writable id_fits (up_round-Uploaded B T D offer_id n s s₁ first)
        (up_rounds-Moved ns s₁ t writable id_fits rest)

  -- Rounds of `up_fut` that succeed have taken some bytes from their TCP connection and written
  -- others over the pipes. On the other side, with the same id, no deadline, and a TCP peer that
  -- takes every write, as many rounds of `down_fut` on what was written succeed, and write exactly
  -- the bytes that were taken, in order.
  pub forward_transfers :
      (ns : List ℕ) (s t d : Ends T D) (framed rest : Bytes)
      → Writable T
      → offer_id < 2 ^ 128
      → up_rounds B T D offer_id ns s ≡ ok t
      → T.outgoing t.relconn ≡ T.outgoing s.relconn ++ framed
      → check_deadline D d.deadline_rx ≡ (false, d.deadline_rx)
      → T.incoming d.relconn ≡ framed ++ rest
      → (e : Ends T D) × (bytes : Bytes) × (down_rounds B T D offer_id (length ns) d ≡ done (ok e))
        × (T.incoming s.conn ≡ bytes ++ T.incoming t.conn)
        × (T.outgoing e.conn ≡ T.outgoing d.conn ++ bytes)
        × (T.incoming e.relconn ≡ rest)
  forward_transfers ns s t d framed rest writable id_fits went wrote quiet front =
      let m = up_rounds-Moved ns s t writable id_fits went in
      let same : m.framed ≡ framed =
        append_cancel_left (T.outgoing s.relconn) m.framed framed (sym m.wrote ∙ wrote) in
      let (e, succeeds, left, written) =
        m.lands d rest quiet (front ∙ ap (λ (w : Bytes). w ++ rest) (sym same)) in
      (e, m.bytes, succeeds, m.taken, written, left)
