-- ===== src/Wsocks/Request.antt =====
-- How a TCP connection is asked for in src/bin.todo/wsocks.rs: the client's `request_fut`, and the
-- task of `server_session_loop` for a stream that a client has opened.
pub mod Served
mod Tests
use sosistab2_obfsws.Base.{ℕ, ◌≡◌, Bool, ◌++◌}
use sosistab2_obfsws.Base.Slices.{Exec, done, panic}
use sosistab2_obfsws.Io.{ErrorKind, Result, ok, err, Text, ◌>>=◌}
use sosistab2_obfsws.Transport.{Transport}
use sosistab2_obfsws.Wsocks.Protocol.{
  NetworkError, OfferError, unable_connect, Protocol, tcp_connect, tcp_offer, tcp_data, Frame,
  frame_from,
}
use sosistab2_obfsws.Wsocks.Frame.{Bincode, FrameError, send, recv}
use sosistab2_obfsws.Wsocks.Errors.{from_io}

-- `smol::net::TcpStream::connect`, and the `Debug` text of its errors.
pub record Net : Type 1 where
  pub Tcp : Type 0
  pub connect : Text → ℕ → Result ErrorKind Tcp
  pub debug : ErrorKind → Text

pub data RequestError : Type 0 where
  frame : FrameError → RequestError
  unexpected_frame : RequestError

-- How the server's task ends, up to the forwarding of traffic, and the stream to the client.
pub data ServeEnd (Tcp Conn : Type 0) : Type 0 where
  unexpected_data unexpected_offer : ServeEnd Tcp Conn
  forwards : ℕ → Tcp → Conn → ServeEnd Tcp Conn
  refuses : Conn → ServeEnd Tcp Conn

abbrev pub or_request {ℓ} : {A : Type ℓ} → Result FrameError A → Result RequestError A
or_request (ok a) = ok a
or_request (err e) = err (frame e)

module _ (B : Bincode) (T : Transport) where
  -- The client's half of the request that goes out, on a stream that `open_conn` gave.
  unfoldable pub request : ℕ → Protocol → T.Conn → Result RequestError T.Conn
  request n req relconn = or_request (send B T (frame_from n req) relconn)

  -- The offer of a frame; an error for every other.
  unfoldable pub offered : Frame × T.Conn → Result RequestError (Result OfferError ℕ × T.Conn)
  offered (f, relconn) = elim f.protocol [
    | tcp_offer id ↦ ok (id, relconn)
    | tcp_connect dst port ↦ err unexpected_frame
    | tcp_data id payload ↦ err unexpected_frame
  ]

  -- The half that waits for the answer.
  unfoldable pub await_offer : T.Conn → Result RequestError (Result OfferError ℕ × T.Conn)
  unfolding offered
  await_offer relconn = or_request (recv B T relconn) >>= offered

module _ (B : Bincode) (T : Transport) (N : Net) (more : Bool) where
  abbrev End : Type 0
  End = ServeEnd N.Tcp T.Conn

  unfoldable pub offer_for : ℕ → Result ErrorKind N.Tcp → Result OfferError ℕ
  offer_for id (ok conn) = ok id
  offer_for id (err k) = err (unable_connect (from_io more k (N.debug k)))

  unfoldable pub end_of : ℕ → Result ErrorKind N.Tcp → T.Conn → ServeEnd N.Tcp T.Conn
  end_of id (ok conn) relconn = forwards id conn relconn
  end_of id (err k) relconn = refuses relconn

  -- After the offer was sent; `unwrap` panics where that failed.
  unfoldable pub replied :
      ℕ → Result ErrorKind N.Tcp → Result FrameError T.Conn → Exec (ServeEnd N.Tcp T.Conn)
  replied id connected (ok relconn) = done (end_of id connected relconn)
  replied id connected (err e) = panic

  -- The match on a request; `n` is the padding's length and `id` the id that are drawn.
  unfoldable pub answer : ℕ → ℕ → Protocol → T.Conn → Exec (ServeEnd N.Tcp T.Conn)
  answer n id (tcp_data id' payload) relconn = done unexpected_data
  answer n id (tcp_offer offer) relconn = done unexpected_offer
  answer n id (tcp_connect dst port) relconn =
      replied id (N.connect dst port)
        (send B T (frame_from n (tcp_offer (offer_for id (N.connect dst port)))) relconn)

  -- What the task does with the result of `Frame::recv`, which it unwraps.
  unfoldable pub serve_frame :
      ℕ → ℕ → Result FrameError (Frame × T.Conn) → Exec (ServeEnd N.Tcp T.Conn)
  serve_frame n id (err e) = panic
  serve_frame n id (ok (f, relconn)) = answer n id f.protocol relconn

  unfoldable pub serve_request : ℕ → ℕ → T.Conn → Exec (ServeEnd N.Tcp T.Conn)
  serve_request n id relconn = serve_frame n id (recv B T relconn)
