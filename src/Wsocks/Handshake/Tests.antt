-- ===== src/Wsocks/Handshake/Tests.antt =====
-- A client's id on its way to the server's session table, at a concrete input.
use sosistab2_obfsws.Base.{◌≡◌, refl, true, some, [], ◌∷◌}
use sosistab2_obfsws.Base.Slices.{done}
use sosistab2_obfsws.Base64.Sample.{sample_base64}
use sosistab2_obfsws.Io.{ok, Text, codes}
use sosistab2_obfsws.Channel.{fresh}
use sosistab2_obfsws.Listener.{pipe_get_metadata}
use sosistab2_obfsws.Listener.Sample.{sample_http, M}
use sosistab2_obfsws.Wsocks.Etag.{calc_hash}
use sosistab2_obfsws.Wsocks.Server.Sessions.{Server, server_round}
use sosistab2_obfsws.Wsocks.Server.Sessions.Table.{IsTable}
use sosistab2_obfsws.Wsocks.Server.Sessions.Refinement.{join, sessions}
use sosistab2_obfsws.Wsocks.Server.Rounds.{no_sessions}
use sosistab2_obfsws.Wsocks.Info.{string, get, find}
use sosistab2_obfsws.Wsocks.Start.{hex2bytes, hex2key, server_info, client_etag}
use sosistab2_obfsws.Wsocks.Handshake.{printed_key_joins}
use sosistab2_obfsws.Wsocks.Handshake.Sample.{
  named_pipes, nonce, nonce-AreBytes, key_bytes, two_keys, digits, sample_keys, sample_build, id,
  key, key_of_id,
}

printed :
    get (server_info two_keys sample_keys sample_build true []) (codes "public_key" ∷ [])
    ≡ some (string (digits (key_bytes true)))
unfolding server_info get find
printed = refl

given : client_etag two_keys sample_keys (digits (key_bytes true)) (3 ∷ 4 ∷ []) 10 20 ≡ ok id
unfolding client_etag hex2key hex2bytes
given = refl

printed_key_joins_example :
    (md_tx' : M.Chan) × (t : Server Text) × (pipe_get_metadata sample_base64 sample_http M
        (some key)
        tt
        (fresh 1)
      ≡ done (ok tt, md_tx'))
    × (md_tx'.items ≡ key ∷ [])
    × (server_round two_keys sample_base64 named_pipes true (ok key) no_sessions ≡ done (ok t))
    × IsTable t
    × (sessions t ≡ join (calc_hash two_keys id) key (sessions no_sessions))
printed_key_joins_example =
    printed_key_joins two_keys sample_keys sample_build sample_base64 sample_http M named_pipes true
      [] (digits (key_bytes true)) (3 ∷ 4 ∷ []) 10 20 id nonce key (some key) tt (fresh 1) key
      no_sessions printed given refl nonce-AreBytes key_of_id refl refl refl tt
