-- ===== src/Listener/Accept.antt =====
-- What comes out of the tasks and of `accept` of src/listener.rs.
use mathlib.Core.Path.{subst}
use sosistab2_obfsws.Base.{
  Bool, true, false, ◌≡◌, refl, ap, ◌∙◌, Option-cases, inl, inr, some, List, [], ◌∷◌, ◌++◌, length,
  if◌then◌else◌,
}
use sosistab2_obfsws.Base.Words.{Bytes}
use sosistab2_obfsws.Base.Slices.{Exec, done-injective, done, panic, ◌>>=◌}
use sosistab2_obfsws.Base64.{Base64}
use sosistab2_obfsws.Io.{ErrorKind, broken_pipe, Result, ready, pending, ok, err, Text, codes}
use sosistab2_obfsws.Channel.{Channel, Queue, fresh, try_send-some, try_recv_cons, try_recv_empty}
use sosistab2_obfsws.Pipe.{ObfsWsPipe, new}
use sosistab2_obfsws.Listener.{
  Http, Upgrade, TaskEnd, failed, delivered, waits, metadata_capacity, pipe_get_metadata, offer,
  hand_over, serve_connection, accept,
}
use sosistab2_obfsws.Listener.Handshake.{Accepted, metadata-Accepted}

module _ (B : Base64) (H : Http) (M : Channel Text) (C : Channel Bytes) (P : Channel ObfsWsPipe)
    (U : Upgrade H M.Chan) where
  -- The one message in the metadata channel is the key that was let through.
  metadata-recv :
      (chan chan' : M.Chan) (md : Text)
      → M.view chan ≡ fresh metadata_capacity
      → M.try_send chan md ≡ some chan'
      → (rest : M.Chan) × (M.try_recv chan' ≡ some (md, rest))
  metadata-recv chan chan' md empty sent =
      let (rest, got, _) = try_recv_cons M chan' {a = md} {rest = []} (
        ap (λ (q : Queue Text). q.items) (try_send-some M chan md sent).1
        ∙ ap (λ (q : Queue Text). q.items ++ md ∷ []) empty) in
      (rest, got)

  -- A pipe that came last into the listener's channel, as `new` gave it for a key of 16 bytes.
  pub record Delivered (pipe_tx pipe_tx' : P.Chan) : Type 0 where
    pub md : Text
    pub code : Bytes
    pub decodes : B.decode md ≡ some code
    pub sixteen : length code ≡ 16
    pub queued : (P.view pipe_tx').items ≡ (P.view pipe_tx).items ++ (new C [] md).0 ∷ []

  -- A pipe whose handle holds no bytes, and whose URL is `#` and a key of 16 bytes, its metadata.
  pub record IsNamed (pipe : ObfsWsPipe) : Type 0 where
    pub md : Text
    pub code : Bytes
    pub decodes : B.decode md ≡ some code
    pub sixteen : length code ≡ 16
    pub holds_none : pipe.recv_buf ≡ []
    pub url : pipe.peer_url ≡ codes "#" ++ md

  -- How a task may end: it gives no pipe but one that is named so.
  abbrev pub EndsWell : P.Chan → TaskEnd ObfsWsPipe P.Chan → Type 0
  EndsWell pipe_tx failed = Unit {0}
  EndsWell pipe_tx (delivered pipe_tx') = Delivered pipe_tx pipe_tx'
  EndsWell pipe_tx (waits pipe) = IsNamed pipe

  offer-EndsWell :
      (pipe_tx : P.Chan) (md : Text) (code : Bytes)
      → B.decode md ≡ some code
      → length code ≡ 16
      → EndsWell pipe_tx (offer B H M C P U pipe_tx (new C [] md).0)
  unfolding offer new
  offer-EndsWell pipe_tx md code decodes sixteen =
      elim (Option-cases (P.try_send pipe_tx (new C [] md).0)) [
        | inl refused ↦ rw (offer, refused) (stays (P.view pipe_tx).closed)
        | inr (chan, sent) ↦
            rw (offer, sent)
              (record {
                md = md;
                code = code;
                decodes = decodes;
                sixteen = sixteen;
                queued =
                    ap (λ (q : Queue ObfsWsPipe). q.items)
                      (try_send-some P pipe_tx (new C [] md).0 sent).1;
              })
      ]
    where
      stays : (closed : Bool) → EndsWell pipe_tx (if closed then failed else waits (new C [] md).0)
      stays true = tt
      stays false = record {
        md = md;
        code = code;
        decodes = decodes;
        sixteen = sixteen;
        holds_none = refl;
        url = refl;
      }

  hand_over-EndsWell :
      (pipe_tx : P.Chan) (ws : U.Ws) (chan : M.Chan)
      → Accepted B H M (M.bounded metadata_capacity) chan
      → EndsWell pipe_tx (hand_over B H M C P U pipe_tx (ok ws, chan))
  unfolding hand_over
  hand_over-EndsWell pipe_tx ws chan a =
      let (rest, got) =
        metadata-recv (M.bounded metadata_capacity) chan a.md (M.view-bounded metadata_capacity)
          a.sends in
      rw (hand_over, got) (offer-EndsWell pipe_tx a.md a.code a.decodes a.sixteen)

  upgraded :
      (pipe_tx : P.Chan) (end : TaskEnd ObfsWsPipe P.Chan) (conn : U.Conn)
      (x : Exec (Result ErrorKind U.Ws × M.Chan))
      → U.accept_hdr (pipe_get_metadata B H M) conn (M.bounded metadata_capacity) ≡ x
      → (x >>= λ r. done (hand_over B H M C P U pipe_tx r)) ≡ done end
      → EndsWell pipe_tx end
  unfolding hand_over
  upgraded pipe_tx end conn panic h e = cc
  upgraded pipe_tx end conn (done (err k, chan)) h e =
      subst (EndsWell pipe_tx) (done-injective e) tt
  upgraded pipe_tx end conn (done (ok ws, chan)) h e =
      let (req, res, res', let_through) =
        U.accept_hdr-ok (pipe_get_metadata B H M) conn (M.bounded metadata_capacity) chan ws h in
      subst (EndsWell pipe_tx) (done-injective e) (
        hand_over-EndsWell pipe_tx ws chan
          (metadata-Accepted B H M req res (M.bounded metadata_capacity) chan let_through))

  connected :
      (pipe_tx : P.Chan) (end : TaskEnd ObfsWsPipe P.Chan) (conn : U.Conn)
      (r : Result ErrorKind U.Conn)
      → U.set_nodelay conn ≡ r
      → serve_connection B H M C P U pipe_tx conn ≡ done end
      → EndsWell pipe_tx end
  unfolding serve_connection
  connected pipe_tx end conn (err k) h e =
      subst (EndsWell pipe_tx) (done-injective (rw (h, serve_connection) at e)) tt
  connected pipe_tx end conn (ok conn') h e =
      upgraded pipe_tx end conn' _ refl (rw (h, serve_connection) at e)

  -- Whatever the peer sends, and however its task ends: a pipe that the task has put into the
  -- listener's channel comes last there, and one that waits for room there is in the task's hands;
  -- either was made by `new` for a key that decodes to 16 bytes, its metadata.
  pub serve_connection-EndsWell :
      (pipe_tx : P.Chan) (end : TaskEnd ObfsWsPipe P.Chan) (conn : U.Conn)
      → serve_connection B H M C P U pipe_tx conn ≡ done end
      → EndsWell pipe_tx end
  serve_connection-EndsWell pipe_tx end conn e = connected pipe_tx end conn _ refl e

  pub serve_connection-Delivered :
      (pipe_tx pipe_tx' : P.Chan) (conn : U.Conn)
      → serve_connection B H M C P U pipe_tx conn ≡ done (delivered pipe_tx')
      → Delivered pipe_tx pipe_tx'
  serve_connection-Delivered pipe_tx pipe_tx' conn e =
      serve_connection-EndsWell pipe_tx (delivered pipe_tx') conn e

-- `accept` gives the pipes in the order in which the tasks put them there; it waits where there is
-- none, and fails with `BrokenPipe` where there will be none.
module _ (P : Channel ObfsWsPipe) where
  pub accept_first :
      (pipe_rx : P.Chan) (pipe : ObfsWsPipe) (rest : List ObfsWsPipe)
      → (P.view pipe_rx).items ≡ pipe ∷ rest
      → ((accept P pipe_rx).0 ≡ ready (ok pipe)) × ((P.view (accept P pipe_rx).1).items ≡ rest)
  unfolding accept
  accept_first pipe_rx pipe rest e =
      let (chan, got, left) = try_recv_cons P pipe_rx e in (rw (got, accept), rw (got, accept) left)

  pub accept_none :
      (pipe_rx : P.Chan)
      → (P.view pipe_rx).items ≡ []
      → accept P pipe_rx
        ≡ (if (P.view pipe_rx).closed then ready (err broken_pipe) else pending, pipe_rx)
  unfolding accept
  accept_none pipe_rx e = rw (try_recv_empty P pipe_rx e, accept)
