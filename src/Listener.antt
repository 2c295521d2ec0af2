-- ===== src/Listener.antt =====
-- src/listener.rs: the check of a handshake, the task of one connection, and `accept`.
pub mod Handshake
pub mod Accept
pub mod Run
pub mod Sample
mod Tests
use sosistab2_obfsws.Base.{
  ℕ, ◌≡◌, Bool, true, false, Option, none, some, List, [], ◌∷◌, ◌++◌, length, ◌==◌, if◌then◌else◌,
}
use sosistab2_obfsws.Base.Words.{Bytes}
use sosistab2_obfsws.Base.Slices.{Exec, done, panic, ◌>>=◌}
use sosistab2_obfsws.Base64.{Base64, IsVisible}
use sosistab2_obfsws.Io.{ErrorKind, broken_pipe, Result, ok, err, Poll, ready, pending, Text, codes}
use sosistab2_obfsws.Channel.{Channel}
use sosistab2_obfsws.Pipe.{ObfsWsPipe, new}

-- `ws::ErrorResponse`, as far as the callback fills it in.
pub record ErrorResponse : Type 0 where
  pub status : ℕ
  pub headers : List (Text × Text)

abbrev pub res400 : ErrorResponse
res400 = record { status = 400; headers = (codes "Connection", codes "close") ∷ [] }

-- `smol::channel::bounded(1000)` and `bounded(1)`
abbrev pub pipes_capacity : ℕ
pipes_capacity = 1000

abbrev pub metadata_capacity : ℕ
metadata_capacity = 1

-- The callback's answer, beside the channel on which it sends the metadata.
abbrev pub Answer : Type 0 → Type 0 → Type 0
Answer Response Chan = Exec (Result ErrorResponse Response × Chan)

-- What the crate `http` gives the callback: the value of the header `Sec-Websocket-Key`, if there is
-- one, and `HeaderValue::to_str`, which takes visible ASCII as it is.
pub record Http : Type 1 where
  pub Request : Type 0
  pub Response : Type 0
  pub key_header : Request → Option Bytes
  pub to_str : Bytes → Option Text
  pub to_str-IsVisible : (value : Bytes) → IsVisible value → to_str value ≡ some value

module _ (B : Base64) (H : Http) (M : Channel Text) where
  -- The two `unwrap`s panic where the value is no text or the channel refuses it.
  send_metadata : H.Response → M.Chan → Bytes → Answer H.Response M.Chan
  send_metadata res md_tx md = elim (H.to_str md) [
    | none ↦ panic
    | some text ↦ elim (M.try_send md_tx text) [
      | none ↦ panic
      | some md_tx' ↦ done (ok res, md_tx')
    ]
  ]

  check_key : H.Response → M.Chan → Bytes → Answer H.Response M.Chan
  unfolding send_metadata
  check_key res md_tx md = elim (B.decode md) [
    | none ↦ done (err res400, md_tx)
    | some v ↦ if length v == 16 then send_metadata res md_tx md else done (err res400, md_tx)
  ]

  -- The callback that `pipe_get_metadata` makes.
  unfoldable pub pipe_get_metadata : H.Request → H.Response → M.Chan → Answer H.Response M.Chan
  unfolding check_key
  pipe_get_metadata req res md_tx = elim (H.key_header req) [
    | none ↦ done (err res400, md_tx)
    | some md ↦ check_key res md_tx md
  ]

-- What the task relies on of `async_std` and `async_tungstenite`: TCP connections, and a handshake
-- that lets a websocket through only if the callback let some request through.
pub record Upgrade (H : Http) (Chan : Type 0) : Type 1 where
  pub Conn : Type 0
  pub Ws : Type 0
  pub set_nodelay : Conn → Result ErrorKind Conn
  pub accept_hdr :
      (H.Request → H.Response → Chan → Answer H.Response Chan)
      → Conn
      → Chan
      → Exec (Result ErrorKind Ws × Chan)
  pub accept_hdr-ok :
      (callback : H.Request → H.Response → Chan → Answer H.Response Chan) (conn : Conn)
      (chan chan' : Chan) (ws : Ws)
      → accept_hdr callback conn chan ≡ done (ok ws, chan')
      → (req : H.Request) × (res : H.Response) × (res' : H.Response) × (callback req res chan
          ≡ done (ok res', chan'))

-- How the task of one connection ends: in an error, or with the pipe in the listener's channel, or
-- waiting for room there.
pub data TaskEnd (Pipe Chan : Type 0) : Type 0 where
  failed : TaskEnd Pipe Chan
  delivered : Chan → TaskEnd Pipe Chan
  waits : Pipe → TaskEnd Pipe Chan

module _ (B : Base64) (H : Http) (M : Channel Text) (C : Channel Bytes) (P : Channel ObfsWsPipe)
    (U : Upgrade H M.Chan) where
  abbrev End : Type 0
  End = TaskEnd ObfsWsPipe P.Chan

  -- `pipe_tx.send(pipe).await?`
  offer : P.Chan → ObfsWsPipe → End
  offer pipe_tx pipe = elim (P.try_send pipe_tx pipe) [
    | some pipe_tx' ↦ delivered pipe_tx'
    | none ↦ if (P.view pipe_tx).closed then failed else waits pipe
  ]

  -- After the handshake: `md_rx.recv().await?`, and the handle of the new pipe, which alone goes over
  -- the channel.
  hand_over : P.Chan → Result ErrorKind U.Ws × M.Chan → End
  unfolding offer
  hand_over pipe_tx (err e, md_rx) = failed
  hand_over pipe_tx (ok ws_conn, md_rx) = elim (M.try_recv md_rx) [
    | none ↦ failed
    | some (metadata, md_rx') ↦ offer pipe_tx (new C [] metadata).0
  ]

  -- The task that `pipe_accept_loop` spawns for a connection.
  unfoldable pub serve_connection : P.Chan → U.Conn → Exec End
  unfolding hand_over
  serve_connection pipe_tx conn = elim (U.set_nodelay conn) [
    | err e ↦ done failed
    | ok conn' ↦ do
      r ← U.accept_hdr (pipe_get_metadata B H M) conn' (M.bounded metadata_capacity)
      done (hand_over pipe_tx r)
  ]

-- `ObfsWsListener::accept`
module _ (P : Channel ObfsWsPipe) where
  unfoldable pub accept : P.Chan → Poll (Result ErrorKind ObfsWsPipe) × P.Chan
  accept pipe_rx = elim (P.try_recv pipe_rx) [
    | some (pipe, pipe_rx') ↦ (ready (ok pipe), pipe_rx')
    | none ↦ (if (P.view pipe_rx).closed then ready (err broken_pipe) else pending, pipe_rx)
  ]
