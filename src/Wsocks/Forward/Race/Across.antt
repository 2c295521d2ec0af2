-- ===== src/Wsocks/Forward/Race/Across.antt =====
-- The two ends of one forwarded connection of src/bin.todo/wsocks.rs, over one stream.
use mathlib.Core.Path.{subst}
use mathlib.Core.Option.{some-injective}
use sosistab2_obfsws.Base.{
  ℕ, ◌^◌, ◌<◌, ◌≡◌, refl, sym, ap, ◌∙◌, List, [], ◌∷◌, ◌++◌, arith, length, append_assoc,
  length-append,
}
use sosistab2_obfsws.Base.Words.{Bytes, from_be_bytes}
use sosistab2_obfsws.Base.Slices.{done}
use sosistab2_obfsws.Io.{ok}
use sosistab2_obfsws.Channel.{Channel}
use sosistab2_obfsws.Transport.{Transport}
use sosistab2_obfsws.Wsocks.Protocol.{Protocol, tcp_data, Frame}
use sosistab2_obfsws.Wsocks.Frame.{Bincode}
use sosistab2_obfsws.Wsocks.Forward.{Ends}
use sosistab2_obfsws.Wsocks.Forward.Race.{Turn, tcp_forward_loop}
use sosistab2_obfsws.Wsocks.Forward.Race.Frames.{Frames, no_frames, frame_first}
use sosistab2_obfsws.Wsocks.Forward.Race.Carried.{Carried, tcp_forward_loop-Carried}

-- Two ways to cut a list at the same length are one.
split_same {ℓ} :
    {A : Type ℓ} (xs xs' ys ys' : List A)
    → length xs ≡ length xs'
    → xs ++ ys ≡ xs' ++ ys'
    → (xs ≡ xs') × (ys ≡ ys')
split_same [] [] ys ys' h e = (refl, e)
split_same [] (x ∷ xs) ys ys' h e = absurd (omega arith)
split_same (x ∷ xs) [] ys ys' h e = absurd (omega arith)
split_same {A} (x ∷ xs) (y ∷ zs) ys ys' h e =
    let (more, rest) = split_same xs zs ys ys' (omega arith) (ap tail e) in (cc, rest)
  where
    tail : List A → List A
    tail [] = []
    tail (z ∷ rest) = rest

payload_of : Protocol → Bytes
payload_of (tcp_data id payload) = payload
payload_of _ = []

module _ (B : Bincode) (offer_id : ℕ) where
  -- Where the bytes of some data frames begin with those of others, so do their payloads, and the
  -- bytes that follow are data frames for the payloads that follow.
  pub Frames-prefix :
      {a w b v : Bytes} (rest : Bytes)
      → Frames B offer_id a w
      → Frames B offer_id b v
      → v ≡ w ++ rest
      → (more : Bytes) × (b ≡ a ++ more) × Frames B offer_id more rest
  unfolding payload_of
  Frames-prefix {b} rest no_frames second e = (b, refl, subst (Frames B offer_id b) e second)
  Frames-prefix rest (frame_first f p head buf bytes wire two size decodes carries inner) no_frames
        e =
      absurd (
        omega (
          arith,
          ap length e,
          length-append ((head ++ buf) ++ wire) rest,
          length-append (head ++ buf) wire,
          length-append head buf,
          two,
        ))
  Frames-prefix rest (frame_first f p head buf bytes wire two size decodes carries inner)
        (frame_first f' p' head' buf' bytes' wire' two' size' decodes' carries' inner') e =
      let (same_head, after_head) =
        split_same head' head (buf' ++ wire') (buf ++ (wire ++ rest)) (two' ∙ sym two) (
          sym (append_assoc head' buf' wire')
          ∙ e
          ∙ append_assoc (head ++ buf) wire rest
          ∙ append_assoc head buf (wire ++ rest)) in
      let (same_buf, after_buf) =
        split_same buf' buf wire' (wire ++ rest) (sym size' ∙ ap from_be_bytes same_head ∙ size)
          after_head in
      let same_frame : f' ≡ f =
        some-injective _ _ (sym decodes' ∙ ap B.deserialize same_buf ∙ decodes) in
      let same_payload : p' ≡ p =
        ap payload_of (sym carries' ∙ ap (λ (g : Frame). g.protocol) same_frame ∙ carries) in
      let (more, continues, framed) = Frames-prefix rest inner inner' after_buf in
      (
        more,
        ap (λ q. q ++ bytes') same_payload
            ∙ ap (λ q. p ++ q) continues
            ∙ sym (append_assoc p bytes more),
        framed,
      )

module _ (B : Bincode) (T : Transport) (D : Channel (Unit {0})) (offer_id : ℕ) where
  -- Two ends forward under one id, each over rounds in any order, with none that has ended; and what
  -- the second has read from the stream between them is the first part of what the first has written
  -- there. Then what the second has written to its TCP peer is the first part of what the first has
  -- read from its own, and the rest of that is what the data frames carry that are still on the
  -- stream.
  pub forwarded_across :
      (ts ts' : List Turn) (s u s' u' : Ends T D) (read rest : Bytes)
      → offer_id < 2 ^ 128
      → tcp_forward_loop B T D offer_id ts s ≡ done (ok u)
      → tcp_forward_loop B T D offer_id ts' s' ≡ done (ok u')
      → T.outgoing u.relconn ≡ T.outgoing s.relconn ++ (read ++ rest)
      → T.incoming s'.relconn ≡ read ++ T.incoming u'.relconn
      → (bytes : Bytes) × (more : Bytes) × (T.incoming s.conn
          ≡ (bytes ++ more) ++ T.incoming u.conn)
        × (T.outgoing u'.conn ≡ T.outgoing s'.conn ++ bytes)
        × Frames B offer_id more rest
  forwarded_across ts ts' s u s' u' read rest id_fits went went' wrote took =
      let c : Carried B T D offer_id s u =
        tcp_forward_loop-Carried B T D offer_id ts s u id_fits went in
      let d : Carried B T D offer_id s' u' =
        tcp_forward_loop-Carried B T D offer_id ts' s' u' id_fits went' in
      let on_wire : c.up_wire ≡ read ++ rest =
        (split_same (T.outgoing s.relconn) (T.outgoing s.relconn) c.up_wire (read ++ rest) refl
          (sym c.up_wrote ∙ wrote)).1 in
      let same : read ≡ d.down_wire =
        (split_same read d.down_wire (T.incoming u'.relconn) (T.incoming u'.relconn)
          (omega (
            arith,
            ap length (sym took ∙ d.down_read),
            length-append read (T.incoming u'.relconn),
            length-append d.down_wire (T.incoming u'.relconn),
          ))
          (sym took ∙ d.down_read)).0 in
      let (more, continues, framed) =
        Frames-prefix B offer_id rest d.down_frames c.up_frames
          (on_wire ∙ ap (λ q. q ++ rest) same) in
      (
        d.down_bytes,
        more,
        c.up_read ∙ ap (λ q. q ++ T.incoming u.conn) continues,
        d.down_wrote,
        framed,
      )
