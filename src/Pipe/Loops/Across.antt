-- ===== src/Pipe/Loops/Across.antt =====
-- Two pipes of src/pipe.rs at the ends of one websocket.
use sosistab2_obfsws.Base.{◌≡◌, ap, ◌∙◌, List, ◌++◌, append_assoc, concat, concat-append}
use sosistab2_obfsws.Base.Words.{Bytes}
use sosistab2_obfsws.Io.{Text}
use sosistab2_obfsws.Channel.{Channel}
use sosistab2_obfsws.Pipe.Read.Stream.{unread}
use sosistab2_obfsws.Pipe.Loops.{Session, sending, receiving, Event, start, run}
use sosistab2_obfsws.Pipe.Loops.Outgoing.{outbox, run_sends_in_order}
use sosistab2_obfsws.Pipe.Loops.Delivery.{run_delivers_in_order}

concat-four :
    (a b c d : List Bytes)
    → concat ((a ++ b) ++ (c ++ d)) ≡ concat a ++ (concat b ++ (concat c ++ concat d))
concat-four a b c d = simp (concat-append, append_assoc)

regroup : (a b c d : Bytes) → (a ++ (b ++ c)) ++ d ≡ a ++ (b ++ (c ++ d))
regroup a b c d = simp append_assoc

module _ {C D : Channel Bytes} where
  -- Where the bytes are that were written at one end and not yet read at the other, the oldest first:
  -- unread at the other end, in `recv_loop`'s hands, on the websocket, in `send_loop`'s hands, or in
  -- the channel.
  abbrev pub underway : Session C → List Bytes → Session D → Bytes
  underway s flying t =
      unread t.pipe t.shared
      ++ (concat (receiving t.receiver)
          ++ (concat flying ++ (concat (sending s.sender) ++ concat (outbox s.shared))))

  split_flight :
      (s : Session C) (flying : List Bytes) (t : Session D)
      → s.accepted ≡ s.sent ++ (sending s.sender ++ outbox s.shared)
      → s.sent ≡ t.arrived ++ flying
      → concat t.arrived ≡ t.written ++ (unread t.pipe t.shared ++ concat (receiving t.receiver))
      → concat s.accepted ≡ t.written ++ underway s flying t
  split_flight s flying t out over inward =
      ap concat (out ∙ ap (λ l. l ++ (sending s.sender ++ outbox s.shared)) over)
      ∙ concat-four t.arrived flying (sending s.sender) (outbox s.shared)
      ∙ ap (λ w. w ++ (concat flying ++ (concat (sending s.sender) ++ concat (outbox s.shared))))
          inward
      ∙ regroup t.written (unread t.pipe t.shared) (concat (receiving t.receiver)) _

module _ (C D : Channel Bytes) where
  -- Two pipes, each after any sequence of calls and loop steps since it was new; the messages that the
  -- second's websocket gave are the first of those that the first's took, in their order. Then the
  -- bytes that `poll_write` put into the first pipe are those that `poll_read` has written into
  -- readers' buffers at the second, then those that are underway between the two.
  pub pipe_to_pipe :
      (peer_url peer_metadata peer_url' peer_metadata' : Text) (es fs : List Event)
      (flying : List Bytes)
      → (run (start C peer_url peer_metadata) es).sent
        ≡ (run (start D peer_url' peer_metadata') fs).arrived ++ flying
      → concat (run (start C peer_url peer_metadata) es).accepted
        ≡ (run (start D peer_url' peer_metadata') fs).written
          ++ underway
              (run (start C peer_url peer_metadata) es)
              flying
              (run (start D peer_url' peer_metadata') fs)
  pipe_to_pipe peer_url peer_metadata peer_url' peer_metadata' es fs flying over =
      split_flight (run (start C peer_url peer_metadata) es) flying
        (run (start D peer_url' peer_metadata') fs) (run_sends_in_order C peer_url peer_metadata es)
        over (run_delivers_in_order D peer_url' peer_metadata' fs)
