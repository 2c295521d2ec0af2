-- ===== src/Pipe/Read/Session.antt =====
-- A handle of src/pipe.rs that is read again and again, while messages arrive.
use sosistab2_obfsws.Base.{
  ℕ, ◌≡◌, sym, ap, ◌∙◌, some, List, [], ◌∷◌, ◌++◌, take, append-nil, append_assoc, concat,
  concat-append,
}
use sosistab2_obfsws.Base.Words.{Bytes}
use sosistab2_obfsws.Base.Slices.{done}
use sosistab2_obfsws.Io.{ok, ready, pending}
use sosistab2_obfsws.Channel.{Channel, try_send-some}
use sosistab2_obfsws.Pipe.{ObfsWsPipe, Shared, ReadOut, poll_read}
use sosistab2_obfsws.Pipe.Read.Pending.{poll_read-idle}
use sosistab2_obfsws.Pipe.Read.Stream.{unread, poll_read-Delivers}

-- From a handle to `p'`: the messages that `recv_loop` put into the channel meanwhile, and the bytes
-- that the polls gave, both in order. The buffers may have any length. A poll may be pending, but
-- not while the handle holds bytes.
pub data Reads {C : Channel Bytes} (p' : ObfsWsPipe) (s' : Shared C)
    : ObfsWsPipe → Shared C → List Bytes → List Bytes → Type 0 where
  stop : {p : ObfsWsPipe} {s : Shared C} → p ≡ p' → s ≡ s' → Reads p' s' p s [] []
  arrive :
      {p : ObfsWsPipe} {s : Shared C} {ins outs : List Bytes} (msg : Bytes) (chan : C.Chan)
      → C.try_send s.recv_chan msg ≡ some chan
      → Reads p' s' p (record s { recv_chan = chan }) ins outs
      → Reads p' s' p s (msg ∷ ins) outs
  given :
      {p : ObfsWsPipe} {s : Shared C} {ins outs : List Bytes} (buf : Bytes) (n : ℕ)
      (out : ReadOut C)
      → poll_read p s buf ≡ done out
      → out.poll ≡ ready (ok n)
      → Reads p' s' out.pipe out.shared ins outs
      → Reads p' s' p s ins (take n out.buf ∷ outs)
  idle :
      {p : ObfsWsPipe} {s : Shared C} {ins outs : List Bytes} (buf : Bytes) (out : ReadOut C)
      → poll_read p s buf ≡ done out
      → out.poll ≡ pending
      → p.recv_buf ≡ []
      → Reads p' s' out.pipe out.shared ins outs
      → Reads p' s' p s ins outs

module _ {C : Channel Bytes} where
  unread-arrive :
      (p : ObfsWsPipe) (s : Shared C) (msg : Bytes) (chan : C.Chan)
      → C.try_send s.recv_chan msg ≡ some chan
      → unread p (record s { recv_chan = chan }) ≡ unread p s ++ msg
  unread-arrive p s msg chan sent =
      rw ((try_send-some C s.recv_chan msg sent).1, concat-append items (msg ∷ []), append-nil msg)
        (sym (append_assoc p.recv_buf (concat items) msg))
    where
      items : List Bytes
      items = (C.view s.recv_chan).items

module _ {C : Channel Bytes} {p' : ObfsWsPipe} {s' : Shared C} where
  -- The bytes that the polls gave, followed by those still unread, are the bytes that were unread at
  -- first, followed by those that arrived: none is lost, repeated or moved, as long as no poll is
  -- pending while the handle holds bytes.
  pub Reads-stream :
      {p : ObfsWsPipe} {s : Shared C} {ins outs : List Bytes}
      → Reads p' s' p s ins outs
      → concat outs ++ unread p' s' ≡ unread p s ++ concat ins
  Reads-stream {p} {s} (stop e f) = rw (append-nil (unread p s)) (λ i. unread (sym e i) (sym f i))
  Reads-stream {p} {s} (arrive {ins = ins} msg chan sent r) =
      Reads-stream r
      ∙ ap (λ (u : Bytes). u ++ concat ins) (unread-arrive p s msg chan sent)
      ∙ append_assoc (unread p s) msg (concat ins)
  Reads-stream {p} {s} (given {ins = ins} {outs = outs} buf n out h e r) =
      append_assoc (take n out.buf) (concat outs) (unread p' s')
      ∙ ap (λ (u : Bytes). take n out.buf ++ u) (Reads-stream r)
      ∙ sym (append_assoc (take n out.buf) (unread out.pipe out.shared) (concat ins))
      ∙ ap (λ (u : Bytes). u ++ concat ins) ((poll_read-Delivers p s buf n out h e).in_order)
  Reads-stream {p} {s} (idle {ins = ins} buf out h pend held r) =
      Reads-stream r ∙ ap (λ (u : Bytes). u ++ concat ins) (poll_read-idle p s buf out h pend held)
