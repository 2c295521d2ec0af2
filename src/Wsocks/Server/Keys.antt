-- ===== src/Wsocks/Server/Keys.antt =====
-- The loop of `server` of src/bin.todo/wsocks.rs that reads the key file, and writes a new one where
-- it cannot be read.
mod Tests
use sosistab2_obfsws.Base.{
  ℕ, zero, suc, ◌+◌, ◌≤◌, ◌<◌, ◌≡◌, Bool-cases, inl, inr, refl, sym, ap, ◌∙◌, Bool, true, false,
  Option, none, some, List, [], ◌∷◌, arith, leb, if◌then◌else◌,
}
use mathlib.Core.Option.{some-injective}
use sosistab2_obfsws.Base.Words.{Bytes}
use sosistab2_obfsws.Io.{ErrorKind, Result, ok, err, ok-injective, Result-cases}

-- `NS_WSOCKS_SERVER_SECRET`
abbrev pub ns_wsocks_server_secret : Bytes
ns_wsocks_server_secret =
    0xb6 ∷ 0xae ∷ 0xa3 ∷ 0x98 ∷ 0xc4 ∷ 0xde ∷ 0xf3 ∷ 0x10 ∷ 0xf8 ∷ 0xc5 ∷ 0xe8 ∷ 0x14 ∷ 0x0e ∷ 0xd4
    ∷ 0xbc ∷ 0x9e ∷ 0x81 ∷ 0xc5 ∷ 0x9f ∷ 0xc8 ∷ 0x1d ∷ 0xe8 ∷ 0xce ∷ 0xe1 ∷ 0xd6 ∷ 0xf9 ∷ 0x95
    ∷ 0xf3 ∷ 0x12 ∷ 0x0f ∷ 0xbf ∷ 0x11 ∷ []

-- What the loop takes from outside: reading and writing the key file of `smol::fs` (a read leaves
-- the disk as it is), the keyed hash of the crate `blake3`, and `MuxSecret::from_bytes`.
pub record KeyStore : Type 1 where
  pub Disk : Type 0
  pub MuxSecret : Type 0
  pub read : Disk → Result ErrorKind Bytes
  pub write : Disk → Bytes → Result ErrorKind Disk
  pub keyed_hash : Bytes → Bytes → Bytes
  pub from_bytes : Bytes → MuxSecret

pub data KeyError : Type 0 where
  no_key : KeyError
  cannot_write : ErrorKind → KeyError

module _ (K : KeyStore) where
  unfoldable pub server_sk_hash : Bytes → Bytes
  server_sk_hash bytes = K.keyed_hash ns_wsocks_server_secret bytes

  -- What the loop ends with: the key or an error, and the disk.
  abbrev pub KeyEnd : Type 0
  KeyEnd = Result KeyError K.MuxSecret × K.Disk

module _ (K : KeyStore) (draw : ℕ → Bytes) where
  -- The loop on fuel; `i` counts its rounds, and `draw i` is the random key file of round `i`.
  unfoldable pub key_loop : ℕ → ℕ → K.Disk → Option (KeyEnd K)
  key_loop zero i disk = none
  key_loop (suc fuel) i disk =
      if leb 10 (i + 1) then some (err no_key, disk) else elim (K.read disk) [
        | ok data_read ↦ some (ok (K.from_bytes (server_sk_hash K data_read)), disk)
        | err e ↦ elim (K.write disk (draw (i + 1))) [
          | err e' ↦ some (err (cannot_write e'), disk)
          | ok disk' ↦ key_loop fuel (i + 1) disk'
        ]
      ]

  -- The key of the server; ten rounds are enough fuel.
  unfoldable pub server_key : K.Disk → Option (KeyEnd K)
  server_key disk = key_loop 10 0 disk

module _ (K : KeyStore) (draw : ℕ → Bytes) where
  -- Fuel for the rounds that are left is enough, whatever the disk does.
  key_loop_ends :
      (fuel i : ℕ) (disk : K.Disk)
      → 10 ≤ i + fuel
      → 1 ≤ fuel
      → (r : KeyEnd K) × (key_loop K draw fuel i disk ≡ some r)
  unfolding key_loop
  key_loop_ends zero i disk enough some_fuel = absurd (omega arith)
  key_loop_ends (suc fuel) i disk enough some_fuel = elim (Bool-cases (leb 10 (i + 1))) [
    | inl over ↦ ((err no_key, disk), rw over refl)
    | inr under ↦ elim (Result-cases (K.read disk)) [
      | inl (data_read, h) ↦
          ((ok (K.from_bytes (server_sk_hash K data_read)), disk), rw (under, h) refl)
      | inr (e, h) ↦ elim (Result-cases (K.write disk (draw (i + 1)))) [
        | inl (disk', h') ↦
            let (r, went) = key_loop_ends fuel (i + 1) disk' (omega arith) (more_fuel under) in
            (r, rw (under, h, h') went)
        | inr (e', h') ↦ ((err (cannot_write e'), disk), rw (under, h, h') refl)
      ]
    ]
  ]
    where
      more_fuel : leb 10 (i + 1) ≡ false → 1 ≤ fuel
      more_fuel under = ground arith

  -- The loop for the server's key ends, in the key or one of its two errors, whatever the disk does:
  -- it never runs out of the ten rounds of fuel.
  pub server_key_total : (disk : K.Disk) → (r : KeyEnd K) × (server_key K draw disk ≡ some r)
  unfolding server_key
  server_key_total disk = key_loop_ends 10 0 disk (omega arith) (omega arith)

  -- What a key stands for on the disk.
  abbrev OnDisk : K.MuxSecret → K.Disk → Type 0
  OnDisk key disk =
      (data_read : Bytes) × (K.read disk ≡ ok data_read)
      × (K.from_bytes (server_sk_hash K data_read) ≡ key)

  key_loop-OnDisk :
      (fuel i : ℕ) (disk disk' : K.Disk) (key : K.MuxSecret)
      → key_loop K draw fuel i disk ≡ some (ok key, disk')
      → OnDisk key disk'
  unfolding key_loop
  key_loop-OnDisk zero i disk disk' key went = cc
  key_loop-OnDisk (suc fuel) i disk disk' key went = elim (Bool-cases (leb 10 (i + 1))) [
    | inl over ↦ late (rw over at went)
    | inr under ↦ elim (Result-cases (K.read disk)) [
      | inl (data_read, h) ↦ here data_read h (rw (under, h) at went)
      | inr (e, h) ↦ elim (Result-cases (K.write disk (draw (i + 1)))) [
        | inl (disk'', h') ↦
            key_loop-OnDisk fuel (i + 1) disk'' disk' key (rw (under, h, h') at went)
        | inr (e', h') ↦ late (rw (under, h, h') at went)
      ]
    ]
  ]
    where
      late :
          {e : KeyError}
          → ◌≡◌ {A = Option (KeyEnd K)} (some (err e, disk)) (some (ok key, disk'))
          → OnDisk key disk'
      late h = cc

      here :
          (data_read : Bytes)
          → K.read disk ≡ ok data_read
          → ◌≡◌ {A = Option (KeyEnd K)}
              (some (ok (K.from_bytes (server_sk_hash K data_read)), disk))
              (some (ok key, disk'))
          → OnDisk key disk'
      here data_read h e =
          let both = some-injective _ _ e in
          (
            data_read,
            ap K.read (sym (ap (λ (r : KeyEnd K). r.1) both)) ∙ h,
            ok-injective (ap (λ (r : KeyEnd K). r.0) both),
          )

module _ (K : KeyStore) where
  -- A server that has got its key gets the same key when it starts again on the disk that the first
  -- start left, and leaves that disk as it is.
  pub server_key-persists :
      (draw draw' : ℕ → Bytes) (disk disk' : K.Disk) (key : K.MuxSecret)
      → server_key K draw disk ≡ some (ok key, disk')
      → server_key K draw' disk' ≡ some (ok key, disk')
  unfolding server_key key_loop
  server_key-persists draw draw' disk disk' key went =
      let (data_read, h, same) = key_loop-OnDisk K draw 10 0 disk disk' key went in
      rw h (ap (λ k. some (ok k, disk')) same)
