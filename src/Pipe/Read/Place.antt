-- ===== src/Pipe/Read/Place.antt =====
-- The second half of `poll_read` of src/pipe.rs, where a message is copied behind the bytes that
-- went out already.
use sosistab2_obfsws.Base.{
  ℕ, ◌+◌, ◌-◌, ◌≤◌, ◌<◌, ◌≡◌, refl, ap, inl, inr, Bool-cases, none, some, [], ◌++◌, arith, ltb,
  length, take, drop, length-append, length-take, length-drop, take_all, drop_all,
  take-length-append, append-nil, append_assoc, take-append_right, drop-append_right, ltb→lt,
  ltb→le, lt→ltb, le→ltb,
}
use sosistab2_obfsws.Base.Words.{Bytes}
use sosistab2_obfsws.Base.Slices.{Exec, done, checked_sub-done, read_slice-done, write_slice-done}
use sosistab2_obfsws.Io.{ok, ready, pending, Text}
use sosistab2_obfsws.Channel.{Channel}
use sosistab2_obfsws.Pipe.{ObfsWsPipe, Shared, ReadOut, place_message, poll_channel}
use sosistab2_obfsws.Pipe.Read.{serve}

module _ {C : Channel Bytes} where
  abbrev pub served : Shared C → Text → ℕ → Bytes → Bytes → Exec (ReadOut C)
  served s url n b r = done (record {
    poll = ready (ok n);
    buf = b;
    pipe = record { recv_buf = r; peer_url = url };
    shared = s;
  })

  -- Two answers are the same where their parts are.
  pub answer :
      (s : Shared C) (url : Text) {n n' : ℕ} {b b' r r' : Bytes}
      → n ≡ n'
      → b ≡ b'
      → r ≡ r'
      → ◌≡◌ {A = Exec (ReadOut C)} (served s url n b r) (served s url n' b' r')
  answer s url e f g = λ i. served s url (e i) (f i) (g i)

  -- A message behind `pre` in a buffer that holds `pre` and room for `rest`.
  module _ (p : ObfsWsPipe) (s : Shared C) (pre rest msg : Bytes) (empty : p.recv_buf ≡ []) where
    abbrev room : ℕ
    room = length (pre ++ rest) - length pre

    room-eq : room ≡ length rest
    room-eq = omega (arith, length-append pre rest)

    place_overfull :
        length rest < length msg
        → place_message p s (pre ++ rest) (length pre) msg
          ≡ done (serve p s (pre ++ rest) (pre ++ msg))
    unfolding place_message
    place_overfull h =
        rw
          (
            checked_sub-done (length (pre ++ rest)) (length pre)
                (omega (arith, room-eq, length-append pre rest)),
            lt→ltb room (length msg) (omega (arith, room-eq)),
            read_slice-done msg 0 room (omega arith) (omega (arith, room-eq)),
            write_slice-done (pre ++ rest) (length pre) (length (pre ++ rest)) (take (room - 0) msg)
                (omega (arith, length-append pre rest)) (omega arith)
                (omega (arith, length-take (room - 0) msg, room-eq)),
            read_slice-done msg room (length msg) (omega (arith, room-eq)) (omega arith),
          )
          (answer s p.peer_url (omega (arith, length-append pre rest, length-append pre msg))
            (rw
              (
                take-length-append pre rest,
                drop_all (length (pre ++ rest)) (pre ++ rest) (omega arith),
                take-append_right pre msg (length (pre ++ rest)) (length rest)
                    (length-append pre rest),
                drop-append_right pre rest (length (pre ++ msg)) (length msg)
                    (length-append pre msg),
                drop_all (length msg) rest (omega arith),
                append-nil (take (room - 0) msg),
                append-nil (pre ++ take (length rest) msg),
              )
              (ap (λ k. pre ++ take k msg) (omega (arith, room-eq))))
            (rw
              (
                empty,
                drop-append_right pre msg (length (pre ++ rest)) (length rest)
                    (length-append pre rest),
                take_all (length msg - room) (drop room msg) (omega (arith, length-drop room msg)),
              )
              (ap (λ k. drop k msg) room-eq)))

    place_fits :
        length msg ≤ length rest
        → place_message p s (pre ++ rest) (length pre) msg
          ≡ done (serve p s (pre ++ rest) (pre ++ msg))
    unfolding place_message
    place_fits h =
        rw
          (
            checked_sub-done (length (pre ++ rest)) (length pre)
                (omega (arith, room-eq, length-append pre rest)),
            le→ltb room (length msg) (omega (arith, room-eq)),
            write_slice-done (pre ++ rest) (length pre) (length pre + length msg) msg (omega arith)
                (omega (arith, length-append pre rest)) (omega arith),
          )
          (answer s p.peer_url (omega (arith, length-append pre rest, length-append pre msg))
            (rw (
              take-length-append pre rest,
              drop-append_right pre rest (length pre + length msg) (length msg) refl,
              take_all (length (pre ++ rest)) (pre ++ msg)
                  (omega (arith, length-append pre rest, length-append pre msg)),
              drop-append_right pre rest (length (pre ++ msg)) (length msg) (length-append pre msg),
              append_assoc pre msg (drop (length msg) rest),
            ))
            (rw (
              empty,
              drop_all (length (pre ++ rest)) (pre ++ msg)
                  (omega (arith, length-append pre rest, length-append pre msg)),
            )))

    place_lem :
        place_message p s (pre ++ rest) (length pre) msg
        ≡ done (serve p s (pre ++ rest) (pre ++ msg))
    place_lem = elim (Bool-cases (ltb (length rest) (length msg))) [
      | inl over ↦ place_overfull (ltb→lt (length rest) (length msg) over)
      | inr fits ↦ place_fits (ltb→le (length rest) (length msg) fits)
    ]

  pub channel_none :
      (p : ObfsWsPipe) (s : Shared C) (buf : Bytes) (pos : ℕ)
      → C.try_recv s.recv_chan ≡ none
      → poll_channel p s buf pos ≡ done (record { poll = pending; buf = buf; pipe = p; shared = s })
  unfolding poll_channel
  channel_none p s buf pos e = rw (e, poll_channel)

  pub channel_some :
      (p : ObfsWsPipe) (s : Shared C) (pre rest msg : Bytes) (chan : C.Chan)
      → p.recv_buf ≡ []
      → C.try_recv s.recv_chan ≡ some (msg, chan)
      → poll_channel p s (pre ++ rest) (length pre)
        ≡ done (serve p (record s { recv_chan = chan }) (pre ++ rest) (pre ++ msg))
  unfolding poll_channel
  channel_some p s pre rest msg chan empty e =
      rw (e, poll_channel) (place_lem p (record s { recv_chan = chan }) pre rest msg empty)
