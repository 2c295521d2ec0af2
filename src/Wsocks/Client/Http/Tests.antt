-- ===== src/Wsocks/Client/Http/Tests.antt =====
-- The HTTP proxy of src/bin.todo/wsocks.rs at concrete inputs.
use sosistab2_obfsws.Base.{ℕ, ◌≡◌, ◌↔◌, ◌⊎◌, refl, true, false, []}
use sosistab2_obfsws.Base.Words.{Bytes}
use sosistab2_obfsws.Base.Slices.{done, panic}
use sosistab2_obfsws.Io.{Result, ok, err, Text, codes}
use sosistab2_obfsws.Transport.{Wire}
use sosistab2_obfsws.Wsocks.Protocol.{
  connection_refused, OfferError, unable_connect, Protocol, tcp_connect,
}
use sosistab2_obfsws.Wsocks.Request.{RequestError}
use sosistab2_obfsws.Wsocks.Client.Proxy.{forwards, refused}
use sosistab2_obfsws.Wsocks.Client.Http.{
  established, unsupported, reject, establish, tunnel, ask, handle_request, decoded, http_task,
}
use sosistab2_obfsws.Wsocks.Client.Http.Handled.{
  Tunnelled, Rejected, http_task-Handled, http_task-panics_iff,
}
use sosistab2_obfsws.Wsocks.Client.Http.Sample.{sample_http}

abbrev said : Bytes → Wire
said bytes = record { input = []; output = bytes }

abbrev asks : Text → Wire
asks method = record { input = method; output = [] }

abbrev offers : Protocol → Result RequestError (Result OfferError ℕ × ℕ)
offers req = ok (ok 7, 3)

abbrev refuses : Protocol → Result RequestError (Result OfferError ℕ × ℕ)
refuses req = ok (err (unable_connect connection_refused), 3)

http_task-connects :
    http_task sample_http ℕ offers (asks (codes "CONNECT"))
    ≡ done (ok (forwards 7 (said established) 3))
unfolding http_task decoded handle_request ask tunnel establish
http_task-connects = refl

http_task-rejects :
    http_task sample_http ℕ offers (asks (codes "GET")) ≡ done (ok (refused (said unsupported)))
unfolding http_task decoded handle_request reject
http_task-rejects = refl

http_task-Handled_example :
    ((true ≡ true)
      × Tunnelled sample_http offers (codes "CONNECT") (said []) (forwards 7 (said established) 3))
    ⊎ ((true ≡ false)
        × Rejected sample_http {Stream = ℕ} (said []) (forwards 7 (said established) 3))
http_task-Handled_example =
    http_task-Handled sample_http offers (asks (codes "CONNECT")) (said []) (codes "CONNECT")
      (forwards 7 (said established) 3) refl http_task-connects

http_task-panics_iff_example :
    (http_task sample_http ℕ refuses (asks (codes "CONNECT")) ≡ panic) ↔ (
      (e : OfferError) × (relconn : ℕ) × (refuses (tcp_connect (codes "h") 443)
        ≡ ok (err e, relconn)))
http_task-panics_iff_example =
    http_task-panics_iff sample_http refuses (asks (codes "CONNECT")) (said []) (codes "CONNECT")
      (codes "h") 443 refl refl refl refl
