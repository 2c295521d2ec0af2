-- ===== src/Pipe/Write.antt =====
-- `poll_write`, `poll_flush`, `poll_close` and `remote_addr` of src/pipe.rs, on every branch.
use sosistab2_obfsws.Base.{
  ◌≡◌, refl, ap, true, false, Option-cases, none, some, [], ◌∷◌, ◌++◌, arith, length, if◌then◌else◌,
  inl, inr,
}
use sosistab2_obfsws.Base.Words.{Bytes}
use sosistab2_obfsws.Io.{broken_pipe, ok, err, ready, Text, codes}
use sosistab2_obfsws.Channel.{Channel, accepts, try_send-some, try_send-none, try_send_refused}
use sosistab2_obfsws.Pipe.{
  ObfsWsPipe, Shared, new, is_closed, poll_write, poll_flush, poll_close, remote_addr,
}

module _ {C : Channel Bytes} where
  -- What `poll_write` leaves: its answer depends on the flag alone, and the message joins the end of
  -- the channel exactly where the flag is clear and the channel has room and a receiver.
  pub record Wrote (s s' : Shared C) (msg : Bytes) : Type 0 where
    pub queued : (C.view s'.send_chan).items ≡ (
        if s.closed
        then (C.view s.send_chan).items
        else (if accepts (C.view s.send_chan)
            then (C.view s.send_chan).items ++ msg ∷ []
            else (C.view s.send_chan).items))
    pub flag_kept : s'.closed ≡ s.closed
    pub inbox_kept : s'.recv_chan ≡ s.recv_chan

  -- `poll_write` fails exactly where the flag is set, and otherwise answers with the message's length;
  -- the message joins the end of the channel exactly where the flag is clear and the channel has room
  -- and a receiver; the flag and the inbox are kept.
  pub poll_write_lem :
      (s : Shared C) (msg : Bytes)
      → ((poll_write s msg).0 ≡ ready (if s.closed then err broken_pipe else ok (length msg)))
        × Wrote s (poll_write s msg).1 msg
  unfolding poll_write
  poll_write_lem s msg = elim (Option-cases (C.try_send s.send_chan msg)) [
    | inl refused ↦ ground (arith, try_send-none C s.send_chan msg refused)
    | inr (chan, taken) ↦ ground (arith, try_send-some C s.send_chan msg taken)
  ]

  -- A defect: where the channel is full, or its receiver is gone, while the flag is clear,
  -- `poll_write` answers that it wrote the whole message, and has changed nothing.
  pub poll_write_drops :
      (s : Shared C) (msg : Bytes)
      → s.closed ≡ false
      → accepts (C.view s.send_chan) ≡ false
      → poll_write s msg ≡ (ready (ok (length msg)), s)
  unfolding poll_write
  poll_write_drops s msg is_open full = ground (arith, try_send_refused C s.send_chan msg full)

  -- After `poll_close` on one handle, every handle `p` of the same store is closed: writes and
  -- flushes fail with `BrokenPipe` and change nothing, and the peer's address is gone.
  pub poll_close-closes :
      (p : ObfsWsPipe) (s : Shared C) (msg : Bytes)
      → let s' = (poll_close s).1 in
        (is_closed s' ≡ true)
        × (poll_write s' msg ≡ (ready (err broken_pipe), s'))
        × (poll_flush s' ≡ ready (err broken_pipe))
        × (remote_addr p s' ≡ none)
  unfolding poll_close poll_write poll_flush remote_addr
  poll_close-closes p s msg = (refl, refl, refl, refl)

-- A new pipe is open and empty, and its peer's address is the URL, `#` and the metadata.
pub remote_addr-new :
    (C : Channel Bytes) (peer_url peer_metadata : Text)
    → let (p, s) = new C peer_url peer_metadata in
      (remote_addr p s ≡ some (peer_url ++ codes "#" ++ peer_metadata))
      × (p.recv_buf ≡ [])
      × ((C.view s.send_chan).items ≡ [])
      × ((C.view s.recv_chan).items ≡ [])
unfolding remote_addr new
remote_addr-new C peer_url peer_metadata =
    (refl, refl, ap (λ q. q.items) (C.view-bounded _), ap (λ q. q.items) (C.view-bounded _))
