-- ===== src/Wsocks/Frame/Received.antt =====
-- What `Frame::recv` of src/bin.todo/wsocks.rs has read where it succeeds.
use sosistab2_obfsws.Base.{
  ℕ, ◌≤◌, ◌<◌, ◌≡◌, sym, ap, ◌∙◌, inl, inr, Bool-cases, some, ◌++◌, arith, length, take, ltb,
  ltb→le, ltb→lt, length-take, append_assoc, take-append-drop,
}
use sosistab2_obfsws.Base.Words.{Bytes, from_be_bytes}
use sosistab2_obfsws.Io.{ErrorKind, Result, ok, err, unexpected_eof, ok-injective, bind-succeeds}
use sosistab2_obfsws.Transport.{Transport}
use sosistab2_obfsws.Wsocks.Protocol.{Frame}
use sosistab2_obfsws.Wsocks.Frame.{Bincode, or_fail, or_io, or_fail-ok, or_io-ok, recv}

module _ (T : Transport) where
  -- What `read_exact` has read.
  pub record ReadExact (c : T.Conn) (n : ℕ) (bytes : Bytes) (c' : T.Conn) : Type 0 where
    pub front : T.incoming c ≡ bytes ++ T.incoming c'
    pub size : length bytes ≡ n
    pub kept : T.outgoing c' ≡ T.outgoing c

  pub read_exact-ReadExact :
      (c : T.Conn) (n : ℕ) {bytes : Bytes} {c' : T.Conn}
      → T.read_exact c n ≡ ok (bytes, c')
      → ReadExact c n bytes c'
  read_exact-ReadExact c n {bytes} {c'} e = elim (Bool-cases (ltb (length (T.incoming c)) n)) [
    | inr enough ↦ full (ltb→le (length (T.incoming c)) n enough)
    | inl short ↦ absurd (none_left (ltb→lt (length (T.incoming c)) n short))
  ]
    where
      full : n ≤ length (T.incoming c) → ReadExact c n bytes c'
      full h =
          let (c₁, went, left, kept) = T.read_exact-ok c n h in
          let same : ◌≡◌ {A = Bytes × T.Conn} (take n (T.incoming c), c₁) (bytes, c') =
            ok-injective (sym went ∙ e) in
          let taken : take n (T.incoming c) ≡ bytes = ap (λ (t : Bytes × T.Conn). t.0) same in
          let next : c₁ ≡ c' = ap (λ (t : Bytes × T.Conn). t.1) same in
          record {
            front =
                sym (take-append-drop n (T.incoming c))
                ∙ (λ i. taken i ++ (sym left ∙ ap T.incoming next) i);
            size = omega (arith, sym (ap length taken), length-take n (T.incoming c), h);
            kept = sym (ap T.outgoing next) ∙ kept;
          }

      none_left : length (T.incoming c) < n → ⊥
      none_left h =
          let wrong : ◌≡◌ {A = Result ErrorKind (Bytes × T.Conn)} (err unexpected_eof)
              (ok (bytes, c')) =
            sym (T.read_exact-short c n h) ∙ e in
          cc

module _ (B : Bincode) (T : Transport) where
  -- A frame was read: two bytes that give the length of its form, and the form.
  pub record Received (c : T.Conn) (f : Frame) (c' : T.Conn) : Type 0 where
    pub head : Bytes
    pub buf : Bytes
    pub front : T.incoming c ≡ (head ++ buf) ++ T.incoming c'
    pub two : length head ≡ 2
    pub size : from_be_bytes head ≡ length buf
    pub decodes : B.deserialize buf ≡ some f
    pub kept : T.outgoing c' ≡ T.outgoing c

  -- Where `recv` succeeds it has read exactly one frame, and has written nothing.
  pub recv-Received :
      (c : T.Conn) (f : Frame) (c' : T.Conn) → recv B T c ≡ ok (f, c') → Received c f c'
  unfolding recv
  recv-Received c f c' went =
      let ((head, c₁), read₁, went₁) = bind-succeeds (or_io (T.read_exact c 2)) _ went in
      let ((buf, c₂), read₂, went₂) =
        bind-succeeds (or_io (T.read_exact c₁ (from_be_bytes head))) _ went₁ in
      let (this, decoded, went₃) = bind-succeeds (or_fail (B.deserialize buf) _) _ went₂ in
      let r₁ = read_exact-ReadExact T c 2 (or_io-ok _ read₁) in
      let r₂ = read_exact-ReadExact T c₁ (from_be_bytes head) (or_io-ok _ read₂) in
      let same : ◌≡◌ {A = Frame × T.Conn} (this, c₂) (f, c') = ok-injective went₃ in
      let last : c₂ ≡ c' = ap (λ (t : Frame × T.Conn). t.1) same in
      record {
        head = head;
        buf = buf;
        front =
            r₁.front
            ∙ ap (λ (w : Bytes). head ++ w) (r₂.front ∙ ap (λ x. buf ++ T.incoming x) last)
            ∙ sym (append_assoc head buf (T.incoming c'));
        two = r₁.size;
        size = sym r₂.size;
        decodes = or_fail-ok _ _ decoded ∙ ap (λ (t : Frame × T.Conn). some t.0) same;
        kept = sym (ap T.outgoing last) ∙ r₂.kept ∙ r₁.kept;
      }
