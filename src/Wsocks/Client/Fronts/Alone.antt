-- ===== src/Wsocks/Client/Fronts/Alone.antt =====
-- Many tasks of the front ends of src/bin.todo/wsocks.rs at once: each ends as it does alone.
use sosistab2_obfsws.Base.{ℕ, ◌≡◌, refl, ap, sym, ◌∙◌, Option, none, some, List, [], arith}
use sosistab2_obfsws.Base.Choice.{All, All-map}
use sosistab2_obfsws.Io.{Result, err}
use sosistab2_obfsws.Channel.{Channel}
use sosistab2_obfsws.Wsocks.Protocol.{OfferError, Protocol}
use sosistab2_obfsws.Wsocks.Request.{RequestError}
use sosistab2_obfsws.Wsocks.Client.Requests
use sosistab2_obfsws.Wsocks.Client.Requests.{Asking, sent, spawned, taken, finished}
use sosistab2_obfsws.Wsocks.Client.Requests.Answered.{run-IsSorted}
use sosistab2_obfsws.Wsocks.Client.Fronts.{
  Connection, to_socks, to_http, with_end, Ended, front, socks_front, http_front, Task, stops,
  wants, Asked, nothing, unsent, numbered, Happening, opens, happen,
}
use sosistab2_obfsws.Wsocks.Client.Fronts.Shapes.{outcome, socks_task-front, http_task-front}
use sosistab2_obfsws.Wsocks.Client.Fronts.Places.{count}
use sosistab2_obfsws.Wsocks.Errors.{Socks}
use sosistab2_obfsws.Wsocks.Client.Socks.{SocksServer, socks_task}
use sosistab2_obfsws.Wsocks.Client.Http.{HttpServer, http_task}
use sosistab2_obfsws.Wsocks.Client.Fronts.Own.{IsOwn, happen-IsAlone}

-- What the task of a connection ends with on its own.
module _ (S : Socks) (C : SocksServer S) (H : HttpServer) (Stream : Type 0) where
  abbrev pub task_alone :
      (Protocol → Result RequestError (Result OfferError ℕ × Stream))
      → Connection C.Conn H.Conn
      → Ended S C H Stream
  task_alone answer (to_socks conn) = to_socks (socks_task S C Stream answer conn)
  task_alone answer (to_http conn) = to_http (http_task H Stream answer conn)

outcome-with_end :
    {Answer A B : Type 0} (answer : Protocol → Result RequestError Answer) (f : A → B)
    (t : Task Answer A)
    → outcome answer (with_end f t) ≡ f (outcome answer t)
outcome-with_end answer f (stops o) = refl
outcome-with_end answer f (wants req k) = refl

module _ (S : Socks) (C : SocksServer S) (H : HttpServer) (Stream : Type 0) where
  outcome-front :
      (answer : Protocol → Result RequestError (Result OfferError ℕ × Stream))
      (c : Connection C.Conn H.Conn)
      → outcome answer (front S C H Stream c) ≡ task_alone S C H Stream answer c
  unfolding front
  outcome-front answer (to_socks conn) =
      outcome-with_end answer to_socks (socks_front S C Stream conn)
      ∙ ap to_socks (sym (socks_task-front S C Stream answer conn))
  outcome-front answer (to_http conn) =
      outcome-with_end answer to_http (http_front H Stream conn)
      ∙ ap to_http (sym (http_task-front H Stream answer conn))

  -- What a connection's task has ended with is what it ends with on its own: whatever the answer, where
  -- it has asked nothing; with any error for an answer, where its request could not be sent; and else
  -- given what the task of its request has ended with.
  abbrev pub IsAsAlone :
      (Protocol × ℕ → Result RequestError (Result OfferError ℕ × Stream))
      → Asked × (Connection C.Conn H.Conn × Ended S C H Stream)
      → Type 0
  IsAsAlone serve (nothing, (c, o)) =
      (answer : Protocol → Result RequestError (Result OfferError ℕ × Stream))
      → o ≡ task_alone S C H Stream answer c
  IsAsAlone serve (unsent, (c, o)) =
      (e : RequestError) → o ≡ task_alone S C H Stream (λ req. err e) c
  IsAsAlone serve (numbered i, (c, o)) = o ≡ task_alone S C H Stream (λ req. serve (req, i)) c

  own-IsAsAlone :
      (serve : Protocol × ℕ → Result RequestError (Result OfferError ℕ × Stream))
      (t : Asked × (Connection C.Conn H.Conn × Ended S C H Stream))
      → IsOwn (front S C H Stream) serve t
      → IsAsAlone serve t
  own-IsAsAlone serve (nothing, (c, o)) h = λ answer. h answer ∙ outcome-front answer c
  own-IsAsAlone serve (unsent, (c, o)) h = λ e. h e ∙ outcome-front (λ req. err e) c
  own-IsAsAlone serve (numbered i, (c, o)) h = h ∙ outcome-front (λ req. serve (req, i)) c

  -- Connections come to the two proxies, their requests are taken, the requests' tasks end and the
  -- connections' tasks go on, in any order, from an empty channel for the requests. Then whatever the
  -- task of a connection has ended with is what the task of socks_fut or of http_fut ends with on its
  -- own, given what the task of its own request ends with, be it an answer or an error; a task that has
  -- asked nothing has ended as it does whatever the answer, and one whose request found the channel
  -- closed as it does with any error for an answer.
  pub happen-IsAsAlone :
      (Q : Channel (Protocol × ℕ)) (R : Channel (Result OfferError ℕ × Stream))
      (serve : Protocol × ℕ → Result RequestError (Result OfferError ℕ × Stream))
      (hs : List (Happening (Connection C.Conn H.Conn))) (queue : Q.Chan)
      → (Q.view queue).items ≡ []
      → All
          (IsAsAlone serve)
          (happen {Q = Q} {R = R} (front S C H Stream) serve hs (opens queue)).told
  unfolding opens Requests.start Requests.run
  happen-IsAsAlone Q R serve hs queue empty =
      All-map _ (own-IsAsAlone serve)
        (happen-IsAlone (front S C H Stream) serve hs (opens queue) (record {
          sorted = run-IsSorted Q R serve [] queue empty;
          later = λ i after. omega (arith, ap (count i) empty);
          stand = λ i t w. absurd (missing w);
          own = tt;
        })).own
    where
      missing :
          {u : Connection C.Conn H.Conn
            × Protocol
            × (Option (Result OfferError ℕ × Stream) → Ended S C H Stream)}
          → none ≡ some u
          → ⊥
      missing f = cc
