-- ===== src/Wsocks/Client/Proxy.antt =====
-- What the tasks of the two local proxies of src/bin.todo/wsocks.rs share.
use sosistab2_obfsws.Base.{ℕ, ◌≡◌, arith}
use sosistab2_obfsws.Io.{ErrorKind, Result, ok, err}
use sosistab2_obfsws.Wsocks.Request.{RequestError}

-- An error ends a task: one of the connection, a request that cannot be read, or none to answer it.
pub data ProxyError : Type 0 where
  io : ErrorKind → ProxyError
  bad_request no_answer : ProxyError

abbrev pub or_proxy {ℓ} : {A : Type ℓ} → Result ErrorKind A → Result ProxyError A
or_proxy (ok a) = ok a
or_proxy (err k) = err (io k)

-- What comes back over `resp_rx`: nothing where the request's task has ended with an error.
abbrev pub or_answer {ℓ} : {A : Type ℓ} → Result RequestError A → Result ProxyError A
or_answer (ok a) = ok a
or_answer (err e) = err no_answer

-- How a task ends, up to the forwarding of its traffic.
pub data ProxyEnd (Conn Stream : Type 0) : Type 0 where
  forwards : ℕ → Conn → Stream → ProxyEnd Conn Stream
  refused : Conn → ProxyEnd Conn Stream

module _ {A : Type 0} where
  pub or_proxy-ok : (r : Result ErrorKind A) {a : A} → or_proxy r ≡ ok a → r ≡ ok a
  or_proxy-ok (ok b) h = ground arith
  or_proxy-ok (err k) h = cc

  pub or_answer-ok : (r : Result RequestError A) {a : A} → or_answer r ≡ ok a → r ≡ ok a
  or_answer-ok (ok b) h = ground arith
  or_answer-ok (err k) h = cc
