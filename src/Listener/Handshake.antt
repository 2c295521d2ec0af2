-- ===== src/Listener/Handshake.antt =====
-- Which handshakes the callback of src/listener.rs lets through.
use mathlib.Core.Option.{some-injective}
use sosistab2_obfsws.Base.{
  ◌≡◌, ◌≢◌, ◌⊎◌, refl, sym, none, false, ap, ◌∙◌, Option-cases, Bool-cases, inl, inr, some, [], ◌∷◌,
  ◌++◌, length, ◌==◌, eq→==, ne→==, ==→eq, true,
}
use sosistab2_obfsws.Base.Words.{Bytes}
use sosistab2_obfsws.Base.Slices.{done-injective, done, panic}
use sosistab2_obfsws.Base64.{Base64}
use sosistab2_obfsws.Io.{Result, ok, err, Text, codes}
use sosistab2_obfsws.Channel.{Channel, Queue, accepts, try_send_room}
use sosistab2_obfsws.Listener.{
  Http, ErrorResponse, Answer, res400, send_metadata, check_key, pipe_get_metadata,
}

module _ (B : Base64) (H : Http) (M : Channel Text) where
  -- What a request that was let through looked like.
  pub record Accepted (md_tx md_tx' : M.Chan) : Type 0 where
    pub md : Bytes
    pub code : Bytes
    pub decodes : B.decode md ≡ some code
    pub sixteen : length code ≡ 16
    pub sends : M.try_send md_tx md ≡ some md_tx'

module _ (B : Base64) (H : Http) (M : Channel Text) (req : H.Request) (res : H.Response) where
  -- A request whose key decodes to 16 bytes is let through with its response unchanged, and the key
  -- is sent on; the callback does not panic, if the channel has room.
  pub metadata-accepts :
      (md_tx : M.Chan) (md v : Bytes)
      → accepts (M.view md_tx) ≡ true
      → H.key_header req ≡ some md
      → B.decode md ≡ some v
      → length v ≡ 16
      → (md_tx' : M.Chan) × (pipe_get_metadata B H M req res md_tx ≡ done (ok res, md_tx'))
        × ((M.view md_tx').items ≡ (M.view md_tx).items ++ md ∷ [])
  unfolding pipe_get_metadata
  metadata-accepts md_tx md v room header decodes sixteen =
      let (md_tx', sent, view') = try_send_room M md_tx md room in
      (
        md_tx',
        rw (
          header,
          pipe_get_metadata,
          check_key,
          send_metadata,
          decodes,
          eq→== (length v) 16 sixteen,
          H.to_str-IsVisible md (B.decode-IsVisible md v decodes),
          sent,
        ),
        ap (λ (q : Queue Text). q.items) view',
      )

  -- Every other request is refused, and nothing is sent.
  metadata-refuses :
      (md_tx : M.Chan)
      → ((md v : Bytes) → H.key_header req ≡ some md → B.decode md ≡ some v → length v ≢ 16)
      → pipe_get_metadata B H M req res md_tx ≡ done (err res400, md_tx)
  unfolding pipe_get_metadata
  metadata-refuses md_tx bad = elim (Option-cases (H.key_header req)) [
    | inl no_header ↦ rw (no_header, pipe_get_metadata)
    | inr (md, header) ↦ elim (Option-cases (B.decode md)) [
      | inl no_code ↦ rw (header, pipe_get_metadata, check_key, no_code)
      | inr (v, decodes) ↦ rw (
        header,
        pipe_get_metadata,
        check_key,
        decodes,
        ne→== (length v) 16 (bad md v header decodes),
      )
    ]
  ]

  -- A key of 16 bytes in the request.
  abbrev pub IsKeyed : Bytes → Type 0
  IsKeyed md = (v : Bytes) × (H.key_header req ≡ some md) × (B.decode md ≡ some v) × (length v ≡ 16)

  -- Where the channel for the metadata has room, the callback does not panic: either the request has a
  -- key that decodes to 16 bytes, and is let through with its response unchanged, and the key is put
  -- last into the channel; or it has no such key, and is refused with status 400 and the one header
  -- `Connection: close`, and the channel is left as it is.
  pub pipe_get_metadata_lem :
      (md_tx : M.Chan)
      → accepts (M.view md_tx) ≡ true
      → ((md : Bytes) × IsKeyed md
          × ((md_tx' : M.Chan) × (pipe_get_metadata B H M req res md_tx ≡ done (ok res, md_tx'))
              × ((M.view md_tx').items ≡ (M.view md_tx).items ++ md ∷ [])))
        ⊎ ((¬ ((md : Bytes) × IsKeyed md))
            × ((e : ErrorResponse) × (pipe_get_metadata B H M req res md_tx ≡ done (err e, md_tx))
                × (e.status ≡ 400)
                × (e.headers ≡ (codes "Connection", codes "close") ∷ [])))
  pipe_get_metadata_lem md_tx room = elim (Option-cases (H.key_header req)) [
    | inl no_header ↦ refused (λ md v header decodes sixteen. none≢some (sym no_header ∙ header))
    | inr (md, header) ↦ elim (Option-cases (B.decode md)) [
      | inl no_code ↦ refused (λ md' v header' decodes sixteen.
          none≢some
            (sym no_code ∙ ap B.decode (some-injective _ _ (sym header ∙ header')) ∙ decodes))
      | inr (v, decodes) ↦ elim (Bool-cases (length v == 16)) [
        | inl sixteen ↦
            let eq = ==→eq (length v) 16 sixteen in
            inl (md, (v, header, decodes, eq), metadata-accepts md_tx md v room header decodes eq)
        | inr other ↦ refused (λ md' v' header' decodes' sixteen'. true≢false (
            sym (
              eq→== (length v) 16 (
                ap length (
                  some-injective _ _ (
                    sym decodes
                    ∙ ap B.decode (some-injective _ _ (sym header ∙ header'))
                    ∙ decodes'))
                ∙ sixteen'))
            ∙ other))
      ]
    ]
  ]
    where
      none≢some : {b : Bytes} → none ≡ some b → ⊥
      none≢some f = cc

      true≢false : true ≡ false → ⊥
      true≢false f = cc

      refused :
          ((md v : Bytes) → H.key_header req ≡ some md → B.decode md ≡ some v → length v ≢ 16)
          → ((md : Bytes) × IsKeyed md
              × ((md_tx' : M.Chan) × (pipe_get_metadata B H M req res md_tx ≡ done (ok res, md_tx'))
                  × ((M.view md_tx').items ≡ (M.view md_tx).items ++ md ∷ [])))
            ⊎ ((¬ ((md : Bytes) × IsKeyed md))
                × ((e : ErrorResponse) × (pipe_get_metadata B H M req res md_tx
                      ≡ done (err e, md_tx))
                    × (e.status ≡ 400)
                    × (e.headers ≡ (codes "Connection", codes "close") ∷ [])))
      refused bad = inr (
        (λ (md, (v, header, decodes, sixteen)). bad md v header decodes sixteen),
        (res400, metadata-refuses md_tx bad, refl, refl),
      )

  pub metadata-Accepted :
      {res' : H.Response} (md_tx md_tx' : M.Chan)
      → pipe_get_metadata B H M req res md_tx ≡ done (ok res', md_tx')
      → Accepted B H M md_tx md_tx'
  unfolding pipe_get_metadata
  metadata-Accepted {res'} md_tx md_tx' e = elim (Option-cases (H.key_header req)) [
    | inl no_header ↦ refused (rw (no_header, pipe_get_metadata) at e)
    | inr (md, header) ↦ elim (Option-cases (B.decode md)) [
      | inl no_code ↦ refused (rw (header, pipe_get_metadata, check_key, no_code) at e)
      | inr (v, decodes) ↦ elim (Bool-cases (length v == 16)) [
        | inl sixteen ↦ elim (Option-cases (M.try_send md_tx md)) [
          | inl full ↦ panics (
              rw
                (
                  header,
                  pipe_get_metadata,
                  check_key,
                  send_metadata,
                  decodes,
                  sixteen,
                  H.to_str-IsVisible md (B.decode-IsVisible md v decodes),
                  full,
                )
                at e)
          | inr (chan, sent) ↦ record {
            md = md;
            code = v;
            decodes = decodes;
            sixteen = ==→eq (length v) 16 sixteen;
            sends =
                sent
                ∙ ap some (
                    same (
                      rw
                        (
                          header,
                          pipe_get_metadata,
                          check_key,
                          send_metadata,
                          decodes,
                          sixteen,
                          H.to_str-IsVisible md (B.decode-IsVisible md v decodes),
                          sent,
                        )
                        at e));
          }
        ]
        | inr other ↦ refused (rw (header, pipe_get_metadata, check_key, decodes, other) at e)
      ]
    ]
  ]
    where
      refused :
          {chan : M.Chan}
          → ◌≡◌ {A = Answer H.Response M.Chan} (done (err res400, chan)) (done (ok res', md_tx'))
          → Accepted B H M md_tx md_tx'
      refused f = cc

      panics :
          ◌≡◌ {A = Answer H.Response M.Chan} panic (done (ok res', md_tx'))
          → Accepted B H M md_tx md_tx'
      panics f = cc

      same :
          {chan : M.Chan}
          → ◌≡◌ {A = Answer H.Response M.Chan} (done (ok res, chan)) (done (ok res', md_tx'))
          → chan ≡ md_tx'
      same f = ap (λ (t : Result ErrorResponse H.Response × M.Chan). t.1) (done-injective f)
