-- ===== src/Wsocks/Client/Fronts/Shapes.antt =====
-- The tasks of the front ends of src/bin.todo/wsocks.rs are those that stand in Wsocks/Client/Socks and
-- in Wsocks/Client/Http, where the answer is known at once.
use sosistab2_obfsws.Base.{ℕ, ◌≡◌, refl, Bool-cases, Option, none, some, inl, inr}
use sosistab2_obfsws.Io.{ErrorKind, Result, Result-cases, ok, err, Text, text_eq, codes, ◌>>=◌}
use sosistab2_obfsws.Wsocks.Protocol.{OfferError, Protocol, tcp_connect}
use sosistab2_obfsws.Wsocks.Request.{RequestError}
use sosistab2_obfsws.Wsocks.Errors.{Socks}
use sosistab2_obfsws.Wsocks.Client.Proxy.{or_answer}
use sosistab2_obfsws.Wsocks.Client.Socks.{SocksServer, Wanted, wanted, settle, socks_task}
use sosistab2_obfsws.Wsocks.Client.Http.{
  HttpServer, tunnel, ask, handle_request, decoded, http_task,
}
use sosistab2_obfsws.Wsocks.Client.Fronts.{
  Task, stops, wants, settled, has_wanted, socks_front, tunnelled, has_url, has_decoded, http_front,
}

abbrev pub answer_of {ℓ} : {A : Type ℓ} → Result RequestError A → Option A
answer_of (ok a) = some a
answer_of (err e) = none

-- What a task ends with on its own, where `answer` is what a request's task ends with.
abbrev pub outcome :
    {Answer Out : Type 0} → (Protocol → Result RequestError Answer) → Task Answer Out → Out
outcome answer (stops o) = o
outcome answer (wants req k) = k (answer_of (answer req))

module _ (S : Socks) (C : SocksServer S) (Stream : Type 0)
    (answer : Protocol → Result RequestError (Result OfferError ℕ × Stream)) where
  settled-answer_of :
      (w : Wanted) (conn : C.Conn) (r : Result RequestError (Result OfferError ℕ × Stream))
      → (or_answer r >>= λ t. settle S C Stream w t.0 conn t.1)
        ≡ settled S C Stream w conn (answer_of r)
  unfolding settled
  settled-answer_of w conn (ok (offer, relconn)) = refl
  settled-answer_of w conn (err e) = refl

  pub socks_task-front :
      (conn : C.Conn)
      → socks_task S C Stream answer conn ≡ outcome answer (socks_front S C Stream conn)
  unfolding socks_task socks_front has_wanted
  socks_task-front conn = elim (Result-cases (wanted S C conn)) [
    | inl ((w, conn₁), h) ↦ rw h (settled-answer_of w conn₁ (answer (tcp_connect w.dst w.port)))
    | inr (e, h) ↦ rw h refl
  ]

module _ (H : HttpServer) (Stream : Type 0)
    (answer : Protocol → Result RequestError (Result OfferError ℕ × Stream)) where
  tunnel-answer_of :
      (conn : H.Conn) (r : Result RequestError (Result OfferError ℕ × Stream))
      → tunnel H Stream conn r ≡ tunnelled H Stream conn (answer_of r)
  unfolding tunnel tunnelled
  tunnel-answer_of conn (ok (ok id, relconn)) = refl
  tunnel-answer_of conn (ok (err e, relconn)) = refl
  tunnel-answer_of conn (err e) = refl

  ask-has_url :
      (conn : H.Conn) (dst : Option Text) (port : Option ℕ)
      → ask H Stream answer conn dst port ≡ outcome answer (has_url H Stream conn dst port)
  unfolding ask has_url
  ask-has_url conn none port = refl
  ask-has_url conn (some dst) none = refl
  ask-has_url conn (some dst) (some port) = tunnel-answer_of conn (answer (tcp_connect dst port))

  decoded-has_decoded :
      (r : Result ErrorKind (Option (H.Request × H.Conn)))
      → decoded H Stream answer r ≡ outcome answer (has_decoded H Stream r)
  unfolding decoded handle_request has_decoded
  decoded-has_decoded (err k) = refl
  decoded-has_decoded (ok none) = refl
  decoded-has_decoded (ok (some (req, conn))) =
      elim (Bool-cases (text_eq (H.method req) (codes "CONNECT"))) [
        | inl is_connect ↦
            rw is_connect (ask-has_url conn (H.host_str req) (H.port_or_known_default req))
        | inr other ↦ rw other refl
      ]

  pub http_task-front :
      (conn : H.Conn) → http_task H Stream answer conn ≡ outcome answer (http_front H Stream conn)
  unfolding http_task http_front
  http_task-front conn = decoded-has_decoded (H.decode conn)
