-- ===== src/Wsocks/Client/Fronts.antt =====
-- `socks_fut` and `http_fut` of `client` in src/bin.todo/wsocks.rs: their loops spawn a task for each
-- connection, and these tasks share the requests of `request_fut`. A task either stops without asking
-- anything, or asks for one connection and goes on with the answer.
pub mod Shapes
pub mod Places
pub mod Stands
pub mod Received
pub mod Own
pub mod Alone
mod Tests
use sosistab2_obfsws.Base.{ℕ, Bool, Option, none, some, List, [], ◌∷◌, ◌++◌, if◌then◌else◌}
use sosistab2_obfsws.Base.Choice.{pick, put}
use sosistab2_obfsws.Base.Slices.{Exec, done, panic}
use sosistab2_obfsws.Io.{ErrorKind, Result, ok, err, Text, text_eq, codes}
use sosistab2_obfsws.Channel.{Channel}
use sosistab2_obfsws.Wsocks.Protocol.{OfferError, Protocol, tcp_connect}
use sosistab2_obfsws.Wsocks.Request.{RequestError}
use sosistab2_obfsws.Wsocks.Errors.{Socks}
use sosistab2_obfsws.Wsocks.Client.Proxy.{ProxyError, bad_request, no_answer, ProxyEnd}
use sosistab2_obfsws.Wsocks.Client.Socks.{SocksServer, Wanted, wanted, settle}
use sosistab2_obfsws.Wsocks.Client.Http.{HttpServer, reject, establish}
use sosistab2_obfsws.Wsocks.Client.Requests
use sosistab2_obfsws.Wsocks.Client.Requests.{Asking, sent, taken}

-- What `resp_rx.recv()` gives: no answer where the request's task has ended without one.
pub data Task (Answer Out : Type 0) : Type 0 where
  stops : Out → Task Answer Out
  wants : Protocol → (Option Answer → Out) → Task Answer Out

module _ (S : Socks) (C : SocksServer S) (Stream : Type 0) where
  unfoldable pub settled :
      Wanted
      → C.Conn
      → Option (Result OfferError ℕ × Stream)
      → Result ProxyError (ProxyEnd C.Conn Stream)
  settled w conn none = err no_answer
  settled w conn (some (offer, relconn)) = settle S C Stream w offer conn relconn

  unfoldable pub has_wanted :
      Result ProxyError (Wanted × C.Conn)
      → Task (Result OfferError ℕ × Stream) (Result ProxyError (ProxyEnd C.Conn Stream))
  has_wanted (err e) = stops (err e)
  has_wanted (ok (w, conn)) = wants (tcp_connect w.dst w.port) (settled w conn)

  -- The task of a SOCKS connection.
  unfoldable pub socks_front :
      C.Conn → Task (Result OfferError ℕ × Stream) (Result ProxyError (ProxyEnd C.Conn Stream))
  socks_front conn = has_wanted (wanted S C conn)

module _ (H : HttpServer) (Stream : Type 0) where
  unfoldable pub tunnelled :
      H.Conn
      → Option (Result OfferError ℕ × Stream)
      → Exec (Result ProxyError (ProxyEnd H.Conn Stream))
  tunnelled conn none = done (err no_answer)
  tunnelled conn (some (ok id, relconn)) = done (establish H Stream id conn relconn)
  tunnelled conn (some (err e, relconn)) = panic

  unfoldable pub has_url :
      H.Conn
      → Option Text
      → Option ℕ
      → Task (Result OfferError ℕ × Stream) (Exec (Result ProxyError (ProxyEnd H.Conn Stream)))
  has_url conn (some dst) (some port) = wants (tcp_connect dst port) (tunnelled conn)
  has_url conn _ _ = stops (done (err bad_request))

  unfoldable pub has_decoded :
      Result ErrorKind (Option (H.Request × H.Conn))
      → Task (Result OfferError ℕ × Stream) (Exec (Result ProxyError (ProxyEnd H.Conn Stream)))
  has_decoded (ok (some (req, conn))) =
      if text_eq (H.method req) (codes "CONNECT")
      then has_url conn (H.host_str req) (H.port_or_known_default req)
      else stops (done (reject H Stream conn))
  has_decoded _ = stops panic

  -- The task of an HTTP connection.
  unfoldable pub http_front :
      H.Conn
      → Task (Result OfferError ℕ × Stream) (Exec (Result ProxyError (ProxyEnd H.Conn Stream)))
  http_front conn = has_decoded (H.decode conn)

-- A connection to one of the two proxies, and what its task ends with.
pub data Connection (Socks Http : Type 0) : Type 0 where
  to_socks : Socks → Connection Socks Http
  to_http : Http → Connection Socks Http

abbrev pub with_end : {Answer A B : Type 0} → (A → B) → Task Answer A → Task Answer B
with_end f (stops o) = stops (f o)
with_end f (wants req k) = wants req (λ a. f (k a))

module _ (S : Socks) (C : SocksServer S) (H : HttpServer) (Stream : Type 0) where
  abbrev pub Ended : Type 0
  Ended =
      Connection (Result ProxyError (ProxyEnd C.Conn Stream))
        (Exec (Result ProxyError (ProxyEnd H.Conn Stream)))

  unfoldable pub front : Connection C.Conn H.Conn → Task (Result OfferError ℕ × Stream) Ended
  front (to_socks conn) = with_end to_socks (socks_front S C Stream conn)
  front (to_http conn) = with_end to_http (http_front H Stream conn)

-- What a task has asked at its end: nothing, a request that could not be sent, or that of a number.
pub data Asked : Type 0 where
  nothing unsent : Asked
  numbered : ℕ → Asked

module _ (Conn Answer Out : Type 0) (Q : Channel (Protocol × ℕ)) (R : Channel Answer) where
  -- The requests, the connections whose tasks wait for the answer of the request of a number, and what
  -- the tasks of connections have ended with, with what they have asked.
  pub record Fronts : Type 0 where
    pub asking : Asking Answer Q R
    pub waiting : ℕ → Option (Conn × Protocol × (Option Answer → Out))
    pub told : List (Asked × (Conn × Out))

-- A connection is accepted; `request_fut` goes round its loop; the k-th of its tasks ends; a task of a
-- connection goes on.
pub data Happening (Conn : Type 0) : Type 0 where
  arrives : Conn → Happening Conn
  spawns : Happening Conn
  ends : ℕ → Happening Conn
  resumes : ℕ → Happening Conn

module _ {Conn Answer Out : Type 0} {Q : Channel (Protocol × ℕ)} {R : Channel Answer} where
  unfoldable pub opens : Q.Chan → Fronts Conn Answer Out Q R
  opens queue = record { asking = Requests.start queue; waiting = λ i. none; told = [] }

  -- `req_tx.send(...).await?`: where the channel is closed, the task ends with an error, which is also
  -- what it makes of no answer. The channel of `client` has no bound; one that is full would make `send`
  -- wait, and the connection would come to it again at a later turn.
  unfoldable pub queued :
      Conn
      → Protocol
      → (Option Answer → Out)
      → Option Q.Chan
      → Fronts Conn Answer Out Q R
      → Fronts Conn Answer Out Q R
  queued conn req k none s =
      if (Q.view s.asking.queue).closed
      then record s { told = s.told ++ (unsent, (conn, k none)) ∷ [] }
      else s
  queued conn req k (some queue) s = record s {
    asking = sent req (some queue) s.asking;
    waiting = put s.asking.next (some (conn, req, k)) s.waiting;
  }

  unfoldable pub arrived :
      Conn → Task Answer Out → Fronts Conn Answer Out Q R → Fronts Conn Answer Out Q R
  arrived conn (stops o) s = record s { told = s.told ++ (nothing, (conn, o)) ∷ [] }
  arrived conn (wants req k) s =
      queued conn req k (Q.try_send s.asking.queue (req, s.asking.next)) s

  -- What a task makes of its answer.
  abbrev pub tell :
      ℕ
      → Conn × Protocol × (Option Answer → Out)
      → Option Answer
      → Fronts Conn Answer Out Q R
      → Fronts Conn Answer Out Q R
  tell i (conn, req, k) a s = record s {
    waiting = put i none s.waiting;
    told = s.told ++ (numbered i, (conn, k a)) ∷ [];
  }

  -- `resp_rx.recv()`, which waits where there is no answer and may still be one.
  unfoldable pub got :
      ℕ
      → Conn × Protocol × (Option Answer → Out)
      → Option (Answer × R.Chan)
      → Fronts Conn Answer Out Q R
      → Fronts Conn Answer Out Q R
  got i t (some (a, chan)) s =
      tell i t (some a) (record s { asking = taken i (some (a, chan)) s.asking })
  got i t none s = if (R.view (s.asking.resp i)).closed then tell i t none s else s

  unfoldable pub looks :
      ℕ
      → Option (Conn × Protocol × (Option Answer → Out))
      → Fronts Conn Answer Out Q R
      → Fronts Conn Answer Out Q R
  looks i none s = s
  looks i (some t) s = got i t (R.try_recv (s.asking.resp i)) s

module _ {Conn Answer Out : Type 0} {Q : Channel (Protocol × ℕ)} {R : Channel Answer}
    (task_of : Conn → Task Answer Out) (serve : Protocol × ℕ → Result RequestError Answer) where
  unfoldable pub happens : Happening Conn → Fronts Conn Answer Out Q R → Fronts Conn Answer Out Q R
  happens (arrives conn) s = arrived conn (task_of conn) s
  happens spawns s = record s { asking = Requests.step serve Requests.spawns s.asking }
  happens (ends k) s = record s { asking = Requests.step serve (Requests.ends k) s.asking }
  happens (resumes i) s = looks i (s.waiting i) s

  unfoldable pub happen :
      List (Happening Conn) → Fronts Conn Answer Out Q R → Fronts Conn Answer Out Q R
  happen [] s = s
  happen (h ∷ hs) s = happen hs (happens h s)
