-- ===== src/Wsocks/Forward/Race/Frames.antt =====
-- The data frames of one connection of src/bin.todo/wsocks.rs, as bytes.
use mathlib.Core.Path.{subst}
use sosistab2_obfsws.Base.{ℕ, ◌≡◌, sym, some, [], ◌++◌, length, append-nil, append_assoc}
use sosistab2_obfsws.Base.Words.{Bytes, from_be_bytes}
use sosistab2_obfsws.Wsocks.Protocol.{tcp_data, Frame}
use sosistab2_obfsws.Wsocks.Frame.{Bincode}

module _ (B : Bincode) (offer_id : ℕ) where
  -- The bytes of data frames, behind what they carry.
  pub data Frames : Bytes → Bytes → Type 0 where
    no_frames : Frames [] []
    frame_first :
        (f : Frame) (payload head buf bytes wire : Bytes)
        → length head ≡ 2
        → from_be_bytes head ≡ length buf
        → B.deserialize buf ≡ some f
        → f.protocol ≡ tcp_data offer_id payload
        → Frames bytes wire
        → Frames (payload ++ bytes) ((head ++ buf) ++ wire)

  pub one_frame :
      (f : Frame) (payload head buf : Bytes)
      → length head ≡ 2
      → from_be_bytes head ≡ length buf
      → B.deserialize buf ≡ some f
      → f.protocol ≡ tcp_data offer_id payload
      → Frames payload (head ++ buf)
  one_frame f payload head buf two size decodes carries =
      subst (λ (t : Bytes × Bytes). Frames t.0 t.1)
        (λ i. (append-nil payload i, append-nil (head ++ buf) i))
        (frame_first f payload head buf [] [] two size decodes carries no_frames)

  pub Frames-append : {a w b v : Bytes} → Frames a w → Frames b v → Frames (a ++ b) (w ++ v)
  Frames-append no_frames more = more
  Frames-append {b} {v} (frame_first f payload head buf bytes wire two size decodes carries rest)
        more =
      subst (λ (t : Bytes × Bytes). Frames t.0 t.1)
        (λ i. (sym (append_assoc payload bytes b) i, sym (append_assoc (head ++ buf) wire v) i))
        (frame_first f payload head buf (bytes ++ b) (wire ++ v) two size decodes carries
          (Frames-append rest more))
