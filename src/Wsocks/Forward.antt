-- ===== src/Wsocks/Forward.antt =====
-- `tcp_forward_loop` of src/bin.todo/wsocks.rs: one round of each of its two directions, and rounds
-- one after the other. The race of the two ends with the first that ends.
pub mod Rounds
pub mod Race
pub mod Steps
pub mod Transfer
mod Tests
use sosistab2_obfsws.Base.{
  ℕ, zero, suc, ◌≡◌, Bool, true, false, Option, none, some, List, [], ◌∷◌, ◌++◌, length, ◌==◌,
  if◌then◌else◌,
}
use sosistab2_obfsws.Base.Words.{Bytes}
use sosistab2_obfsws.Base.Slices.{Exec, done, panic}
use sosistab2_obfsws.Io.{ErrorKind, Result, ok, err, ◌>>=◌}
use sosistab2_obfsws.Channel.{Channel}
use sosistab2_obfsws.Transport.{Transport}
use sosistab2_obfsws.Wsocks.Protocol.{Protocol, tcp_connect, tcp_offer, tcp_data, Frame, frame_from}
use sosistab2_obfsws.Wsocks.Frame.{Bincode, FrameError, io, or_io, send, recv}

-- `vec![0u8; 60000]`
abbrev pub read_size : ℕ
read_size = 60000

pub data ForwardError : Type 0 where
  deadline_reached : ForwardError
  frame : FrameError → ForwardError

module _ (T : Transport) (D : Channel (Unit {0})) where
  -- The receiver of the session's end, if there is one, and the two connections: to the TCP peer,
  -- and over the pipes.
  pub record Ends : Type 0 where
    pub deadline_rx : Option D.Chan
    pub conn : T.Conn
    pub relconn : T.Conn

abbrev pub or_frame {ℓ} : {A : Type ℓ} → Result FrameError A → Result ForwardError A
or_frame (ok a) = ok a
or_frame (err e) = err (frame e)

module _ (D : Channel (Unit {0})) where
  abbrev pub deadline_seen : D.Chan → Option (Unit {0} × D.Chan) → Bool × Option D.Chan
  deadline_seen chan none = (false, some chan)
  deadline_seen chan (some t) = (true, some t.1)

  -- `deadline_rx.try_recv().is_ok()`
  unfoldable pub check_deadline : Option D.Chan → Bool × Option D.Chan
  check_deadline none = (false, none)
  check_deadline (some chan) = deadline_seen chan (D.try_recv chan)

module _ (B : Bincode) (T : Transport) (D : Channel (Unit {0})) (offer_id : ℕ) where
  -- A round of `up_fut`; `n` is the length of the padding that is drawn.
  unfoldable pub up_round : ℕ → Ends T D → Result ForwardError (Ends T D)
  up_round n s =
      let (reached, deadline_rx) = check_deadline D s.deadline_rx in
      if reached then err deadline_reached else body deadline_rx
    where
      body : Option D.Chan → Result ForwardError (Ends T D)
      body deadline_rx = do
        (payload, conn) ← or_frame (or_io (T.read s.conn read_size))
        relconn ← or_frame (send B T (frame_from n (tcp_data offer_id payload)) s.relconn)
        ok (record { deadline_rx = deadline_rx; conn = conn; relconn = relconn })

  -- The payload of a frame goes to the TCP peer; `assert_eq!` and `todo!()` panic.
  unfoldable pub handle : Protocol → Ends T D → Exec (Result ForwardError (Ends T D))
  handle (tcp_data id payload) s =
      if id == offer_id
      then done
          (or_frame (or_io (T.write_all s.conn payload)) >>= λ conn. ok (record s { conn = conn }))
      else panic
  handle _ s = panic

  -- What `down_fut` does with the result of `Frame::recv`.
  unfoldable pub received :
      Ends T D
      → Option D.Chan
      → Result FrameError (Frame × T.Conn)
      → Exec (Result ForwardError (Ends T D))
  received s deadline_rx (err e) = done (err (frame e))
  received s deadline_rx (ok (f, relconn)) =
      handle f.protocol (record s { deadline_rx = deadline_rx; relconn = relconn })

  -- A round of `down_fut`.
  unfoldable pub down_round : Ends T D → Exec (Result ForwardError (Ends T D))
  down_round s =
      let (reached, deadline_rx) = check_deadline D s.deadline_rx in
      if reached then done (err deadline_reached) else received s deadline_rx (recv B T s.relconn)

  -- Rounds of `up_fut`, one for each padding.
  unfoldable pub up_rounds : List ℕ → Ends T D → Result ForwardError (Ends T D)
  up_rounds [] s = ok s
  up_rounds (n ∷ ns) s = do s' ← up_round n s; up_rounds ns s'

  abbrev pub and_then :
      Exec (Result ForwardError (Ends T D))
      → (Ends T D → Exec (Result ForwardError (Ends T D)))
      → Exec (Result ForwardError (Ends T D))
  and_then panic next = panic
  and_then (done (err e)) next = done (err e)
  and_then (done (ok s)) next = next s

  unfoldable pub down_rounds : ℕ → Ends T D → Exec (Result ForwardError (Ends T D))
  down_rounds zero s = done (ok s)
  down_rounds (suc n) s = and_then (down_round s) (down_rounds n)
