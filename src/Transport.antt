-- ===== src/Transport.antt =====
-- What src/bin.todo/wsocks.rs relies on of `AsyncWriteExt::write_all` and
-- `AsyncReadExt::read_exact` and `read` (of the crate `futures_util`) over a byte stream. Neither is part of
-- the repository.
use mathlib.Core.Path.{subst}
use sosistab2_obfsws.Base.{
  zero, suc, sym, ◌∙◌, [], ◌∷◌, take-append-drop, length-take, ℕ, ◌≤◌, ◌<◌, ◌≡◌, refl, ◌++◌, arith,
  length, take, drop, ltb, if◌then◌else◌, le→ltb, lt→ltb,
}
use sosistab2_obfsws.Base.Words.{Bytes}
use sosistab2_obfsws.Io.{ErrorKind, unexpected_eof, Result, ok, err, ok-injective}

-- A connection, through the bytes that were written to it and those that can still be read before
-- its end. A write may fail. `read_exact` fails where
-- the bytes do not suffice; `read` gives some of them, and none at the end.
pub record Transport : Type 1 where
  pub Conn : Type 0
  pub incoming : Conn → Bytes
  pub outgoing : Conn → Bytes
  pub write_all : Conn → Bytes → Result ErrorKind Conn
  pub read_exact : Conn → ℕ → Result ErrorKind (Bytes × Conn)
  pub read : Conn → ℕ → Result ErrorKind (Bytes × Conn)
  pub write_all-ok :
      (c : Conn) (bytes : Bytes) {c' : Conn}
      → write_all c bytes ≡ ok c'
      → (outgoing c' ≡ outgoing c ++ bytes) × (incoming c' ≡ incoming c)
  pub read_exact-ok :
      (c : Conn) (n : ℕ)
      → n ≤ length (incoming c)
      → (c' : Conn) × (read_exact c n ≡ ok (take n (incoming c), c'))
        × (incoming c' ≡ drop n (incoming c))
        × (outgoing c' ≡ outgoing c)
  pub read_exact-short :
      (c : Conn) (n : ℕ) → length (incoming c) < n → read_exact c n ≡ err unexpected_eof
  pub read-ok :
      (c : Conn) (n : ℕ) {bytes : Bytes} {c' : Conn}
      → read c n ≡ ok (bytes, c')
      → (length bytes ≤ n) × (incoming c ≡ bytes ++ incoming c') × (outgoing c' ≡ outgoing c)
  pub read-end : (c : Conn) (n : ℕ) → incoming c ≡ [] → read c n ≡ ok ([], c)

-- A pair of byte strings, whose writes always succeed, for runs on concrete data.
pub record Wire : Type 0 where
  pub input : Bytes
  pub output : Bytes

abbrev wire_read : Wire → ℕ → Result ErrorKind (Bytes × Wire)
wire_read w n =
    if ltb (length w.input) n
    then err unexpected_eof
    else ok (take n w.input, record w { input = drop n w.input })

pub wire_write_ok :
    (w : Wire) (bytes : Bytes) {w' : Wire}
    → ◌≡◌ {A = Result ErrorKind Wire} (ok (record w { output = w.output ++ bytes })) (ok w')
    → (w'.output ≡ w.output ++ bytes) × (w'.input ≡ w.input)
wire_write_ok w bytes e = ground arith

pub wire_read_ok :
    (w : Wire) (n : ℕ)
    → n ≤ length w.input
    → (w' : Wire) × (wire_read w n ≡ ok (take n w.input, w'))
      × (w'.input ≡ drop n w.input)
      × (w'.output ≡ w.output)
wire_read_ok w n h =
    (record w { input = drop n w.input }, rw (le→ltb (length w.input) n h), refl, refl)

pub wire_read_short : (w : Wire) (n : ℕ) → length w.input < n → wire_read w n ≡ err unexpected_eof
wire_read_short w n h = rw (lt→ltb (length w.input) n h)

abbrev wire_take : Wire → ℕ → Result ErrorKind (Bytes × Wire)
wire_take w n = ok (take n w.input, record w { input = drop n w.input })

pub wire_take_ok :
    (w : Wire) (n : ℕ) {bytes : Bytes} {w' : Wire}
    → wire_take w n ≡ ok (bytes, w')
    → (length bytes ≤ n) × (w.input ≡ bytes ++ w'.input) × (w'.output ≡ w.output)
wire_take_ok w n e =
    subst
      (λ (t : Bytes × Wire).
        (length t.0 ≤ n) × (w.input ≡ t.0 ++ t.1.input) × (t.1.output ≡ w.output))
      (ok-injective e)
      (omega (arith, length-take n w.input), sym (take-append-drop n w.input), refl)

pub wire_take_end : (w : Wire) (n : ℕ) → w.input ≡ [] → wire_take w n ≡ ok ([], w)
wire_take_end w n e = λ i. ok (cut n w.input e i, record w { input = (left n w.input e ∙ sym e) i })
  where
    cut : (n : ℕ) (xs : Bytes) → xs ≡ [] → take n xs ≡ []
    cut zero xs h = refl
    cut (suc n) [] h = refl
    cut (suc n) (x ∷ xs) h = cc

    left : (n : ℕ) (xs : Bytes) → xs ≡ [] → drop n xs ≡ []
    left zero xs h = h
    left (suc n) [] h = refl
    left (suc n) (x ∷ xs) h = cc

abbrev pub wire : Transport
wire = record {
  Conn = Wire;
  incoming = λ w. w.input;
  outgoing = λ w. w.output;
  write_all = λ w bytes. ok (record w { output = w.output ++ bytes });
  read_exact = wire_read;
  read = wire_take;
  read-ok = wire_take_ok;
  read-end = wire_take_end;
  write_all-ok = wire_write_ok;
  read_exact-ok = wire_read_ok;
  read_exact-short = wire_read_short;
}
