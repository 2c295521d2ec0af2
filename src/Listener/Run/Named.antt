-- ===== src/Listener/Run/Named.antt =====
-- The pipes of a listener of src/listener.rs, over any events.
use mathlib.Core.Path.{subst}
use sosistab2_obfsws.Base.{
  ℕ, ◌≡◌, refl, sym, ap, Bool, true, false, Option, none, some, List, [], ◌∷◌, if◌then◌else◌,
}
use sosistab2_obfsws.Base.Choice.{pick, All, All-snoc, All-pick}
use sosistab2_obfsws.Base.Words.{Bytes}
use sosistab2_obfsws.Base.Slices.{Exec, done, panic}
use sosistab2_obfsws.Base64.{Base64}
use sosistab2_obfsws.Io.{broken_pipe, ok, err, ready, pending, Text}
use sosistab2_obfsws.Channel.{Channel, Queue, try_send-some, try_recv-some}
use sosistab2_obfsws.Pipe.{ObfsWsPipe, new}
use sosistab2_obfsws.Listener.{
  Http, Upgrade, TaskEnd, failed, delivered, waits, pipes_capacity, serve_connection, accept,
}
use sosistab2_obfsws.Listener.Accept.{IsNamed, EndsWell, serve_connection-EndsWell}
use sosistab2_obfsws.Listener.Run.{
  Event, connects, resumes, accepts_one, Listening, start, ended, retried, resumed, given, step,
  run,
}

module _ (B : Base64) (H : Http) (M : Channel Text) (C : Channel Bytes) (P : Channel ObfsWsPipe)
    (U : Upgrade H M.Chan) where
  abbrev Named : List ObfsWsPipe → Type 0
  Named = All (IsNamed B H M C P U)

  -- Every pipe, wherever it is, holds no bytes and has a key for its metadata.
  pub record AllNamed (s : Listening P) : Type 0 where
    pub queued : All (IsNamed B H M C P U) (P.view s.pipes).items
    pub waiting : All (IsNamed B H M C P U) s.waiting
    pub accepted : All (IsNamed B H M C P U) s.accepted

  ended-AllNamed :
      (s : Listening P) (r : Exec (TaskEnd ObfsWsPipe P.Chan))
      → AllNamed s
      → ((end : TaskEnd ObfsWsPipe P.Chan) → r ≡ done end → EndsWell B H M C P U s.pipes end)
      → AllNamed (ended r s)
  unfolding ended new
  ended-AllNamed s panic h ends = h
  ended-AllNamed s (done failed) h ends = h
  ended-AllNamed s (done (delivered chan)) h ends =
      let d = ends (delivered chan) refl in
      record {
        queued = subst Named (sym d.queued) (
            All-snoc (IsNamed B H M C P U) (P.view s.pipes).items (new C [] d.md).0 h.queued
              (record {
                md = d.md;
                code = d.code;
                decodes = d.decodes;
                sixteen = d.sixteen;
                holds_none = refl;
                url = refl;
              }));
        waiting = h.waiting;
        accepted = h.accepted;
      }
  ended-AllNamed s (done (waits pipe)) h ends = record {
    queued = h.queued;
    waiting = All-snoc (IsNamed B H M C P U) s.waiting pipe h.waiting (ends (waits pipe) refl);
    accepted = h.accepted;
  }

  retried-AllNamed :
      (s : Listening P) (pipe : ObfsWsPipe) (rest : List ObfsWsPipe) (o : Option P.Chan)
      (closed : Bool)
      → AllNamed s
      → IsNamed B H M C P U pipe
      → Named rest
      → P.try_send s.pipes pipe ≡ o
      → AllNamed (retried rest o closed s)
  unfolding retried
  retried-AllNamed s pipe rest (some chan) closed h q hs e = record {
    queued =
        subst Named
          (sym (ap (λ (v : Queue ObfsWsPipe). v.items) (try_send-some P s.pipes pipe e).1))
          (All-snoc (IsNamed B H M C P U) (P.view s.pipes).items pipe h.queued q);
    waiting = hs;
    accepted = h.accepted;
  }
  retried-AllNamed s pipe rest none true h q hs e = record {
    queued = h.queued;
    waiting = hs;
    accepted = h.accepted;
  }
  retried-AllNamed s pipe rest none false h q hs e = h

  resumed-AllNamed :
      (s : Listening P) (k : ℕ) (o : Option (ObfsWsPipe × List ObfsWsPipe))
      → AllNamed s
      → pick k s.waiting ≡ o
      → AllNamed (resumed o s)
  unfolding resumed
  resumed-AllNamed s k none h e = h
  resumed-AllNamed s k (some t) h e =
      let (q, rest) = All-pick (IsNamed B H M C P U) k s.waiting t h.waiting e in
      retried-AllNamed s t.0 t.1 _ (P.view s.pipes).closed h q rest refl

  accept-empty :
      (chan : P.Chan)
      → P.try_recv chan ≡ none
      → accept P chan ≡ (if (P.view chan).closed then ready (err broken_pipe) else pending, chan)
  unfolding accept
  accept-empty chan e = rw (e, accept)

  accept-some :
      (chan chan' : P.Chan) (pipe : ObfsWsPipe)
      → P.try_recv chan ≡ some (pipe, chan')
      → accept P chan ≡ (ready (ok pipe), chan')
  unfolding accept
  accept-some chan chan' pipe e = rw (e, accept)

  accepted-AllNamed :
      (s : Listening P) (o : Option (ObfsWsPipe × P.Chan))
      → AllNamed s
      → P.try_recv s.pipes ≡ o
      → AllNamed (given (accept P s.pipes) s)
  unfolding given
  accepted-AllNamed s none h e =
      subst (λ r. AllNamed (given r s)) (sym (accept-empty s.pipes e))
        (waits_or_fails (P.view s.pipes).closed)
    where
      waits_or_fails :
          (closed : Bool)
          → AllNamed (given (if closed then ready (err broken_pipe) else pending, s.pipes) s)
      waits_or_fails true = h
      waits_or_fails false = h
  accepted-AllNamed s (some (pipe, chan)) h e =
      let both = subst Named (try_recv-some P s.pipes e).0 h.queued in
      subst (λ r. AllNamed (given r s)) (sym (accept-some s.pipes chan pipe e))
        (record {
          queued = both.1;
          waiting = h.waiting;
          accepted = All-snoc (IsNamed B H M C P U) s.accepted pipe h.accepted both.0;
        })

  step-AllNamed :
      (e : Event U.Conn) (s : Listening P) → AllNamed s → AllNamed (step B H M C P U e s)
  unfolding step
  step-AllNamed (connects conn) s h =
      ended-AllNamed s (serve_connection B H M C P U s.pipes conn) h
        (λ end same. serve_connection-EndsWell B H M C P U s.pipes end conn same)
  step-AllNamed (resumes k) s h = resumed-AllNamed s k _ h refl
  step-AllNamed accepts_one s h = accepted-AllNamed s _ h refl

  start-AllNamed : AllNamed start
  unfolding start
  start-AllNamed = record {
    queued =
        subst Named (sym (ap (λ (v : Queue ObfsWsPipe). v.items) (P.view-bounded pipes_capacity)))
          tt;
    waiting = tt;
    accepted = tt;
  }

  kept : (es : List (Event U.Conn)) (s : Listening P) → AllNamed s → AllNamed (run B H M C P U es s)
  unfolding run
  kept [] s h = h
  kept (e ∷ es) s h = kept es (step B H M C P U e s) (step-AllNamed e s h)

  -- Whatever the peers send, and in whatever order connections come, waiting tasks try again and
  -- `accept` is called: after any events since `from`, every pipe that waits in the listener's
  -- channel, waits for room there, or was given by `accept` has a handle that holds no bytes, and a
  -- URL that is `#` and its metadata, a key that decodes to 16 bytes. What the loops of the pipe do
  -- with its store and its channels meanwhile is not part of this.
  pub run-AllNamed : (es : List (Event U.Conn)) → AllNamed (run B H M C P U es start)
  run-AllNamed es = kept es start start-AllNamed
