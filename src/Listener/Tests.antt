-- ===== src/Listener/Tests.antt =====
-- The listener of src/listener.rs with a handshake of a few lines.
use sosistab2_obfsws.Base.{◌≡◌, ◌⊎◌, refl, none, some, [], ◌∷◌}
use sosistab2_obfsws.Base.Words.{Bytes}
use sosistab2_obfsws.Base.Slices.{done}
use sosistab2_obfsws.Base64.Sample.{sample_base64}
use sosistab2_obfsws.Io.{ok, err, codes}
use sosistab2_obfsws.Channel.{fresh}
use sosistab2_obfsws.Pipe.{new}
use sosistab2_obfsws.Listener.{ErrorResponse, delivered, pipe_get_metadata, serve_connection}
use sosistab2_obfsws.Listener.Handshake.{IsKeyed, pipe_get_metadata_lem}
use sosistab2_obfsws.Listener.Sample.{sample_http, M, C, P, sample_upgrade, key}

pipe_get_metadata_lem_example :
    ((md : Bytes) × IsKeyed sample_base64 sample_http M none tt md
      × ((md_tx' : M.Chan) × (pipe_get_metadata sample_base64 sample_http M none tt (fresh 1)
            ≡ done (ok tt, md_tx'))
          × (md_tx'.items ≡ md ∷ [])))
    ⊎ ((¬ ((md : Bytes) × IsKeyed sample_base64 sample_http M none tt md))
        × ((e : ErrorResponse) × (pipe_get_metadata sample_base64 sample_http M none tt (fresh 1)
              ≡ done (err e, fresh 1))
            × (e.status ≡ 400)
            × (e.headers ≡ (codes "Connection", codes "close") ∷ [])))
pipe_get_metadata_lem_example =
    pipe_get_metadata_lem sample_base64 sample_http M none tt (fresh 1) refl

serve_key :
    serve_connection sample_base64 sample_http M C P sample_upgrade (fresh 1000) (some key)
    ≡ done (delivered (record (fresh 1000) { items = (new C [] key).0 ∷ [] }))
unfolding serve_connection pipe_get_metadata new
serve_key = refl
