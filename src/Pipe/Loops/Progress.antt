-- ===== src/Pipe/Loops/Progress.antt =====
-- `send_loop` of src/pipe.rs gets on: a websocket that takes every message gets all that wait.
use sosistab2_obfsws.Base.{
  ◌≡◌, refl, sym, ap, ◌∙◌, true, false, List, [], ◌∷◌, ◌++◌, arith, append-nil, append_assoc, ℕ,
  zero, suc, length, ◌+◌, ◌*◌, ◌≤◌,
}
use sosistab2_obfsws.Base.Words.{Bytes}
use sosistab2_obfsws.Channel.{Channel, try_recv_cons, try_recv_empty}
use sosistab2_obfsws.Pipe.Loops.Outgoing.{outbox}
use sosistab2_obfsws.Pipe.Loops.{
  Session, SendLoop, writing, sending, finish, send_step, Event, sends, step, run,
}

-- `n` steps of the loop, with a websocket that takes what it gets.
abbrev pub sending_steps : ℕ → List Event
sending_steps zero = []
sending_steps (suc n) = sends true ∷ sending_steps n

-- The loop has not ended.
abbrev pub IsRunning : SendLoop → Type 0
IsRunning (SendLoop.gone lost) = ⊥
IsRunning _ = Unit {0}

module _ {C : Channel Bytes} where
  -- After a step: where the loop stands, and what it has sent and left.
  record Moved (u : Session C) (s : SendLoop) (sent : List Bytes) (rest : List Bytes) : Type 0 where
    at : u.sender ≡ s
    still_open : u.shared.closed ≡ false
    took : u.sent ≡ sent
    left : outbox u.shared ≡ rest

  testing-Moved :
      (t : Session C) (rest : List Bytes)
      → t.sender ≡ SendLoop.testing
      → t.shared.closed ≡ false
      → outbox t.shared ≡ rest
      → Moved (send_step t true) SendLoop.waiting t.sent rest
  unfolding send_step
  testing-Moved t rest e h next = ground arith

  waiting-Moved :
      (t : Session C) (msg : Bytes) (rest : List Bytes)
      → t.sender ≡ SendLoop.waiting
      → t.shared.closed ≡ false
      → outbox t.shared ≡ msg ∷ rest
      → Moved (send_step t true) (writing msg) t.sent rest
  unfolding send_step
  waiting-Moved t msg rest e h next =
      let (chan, got, left) = try_recv_cons C t.shared.send_chan next in ground arith

  writing-Moved :
      (t : Session C) (msg : Bytes) (rest : List Bytes)
      → t.sender ≡ writing msg
      → t.shared.closed ≡ false
      → outbox t.shared ≡ rest
      → Moved (send_step t true) SendLoop.testing (t.sent ++ msg ∷ []) rest
  unfolding send_step
  writing-Moved t msg rest e h next = ground arith

  finish-quiet :
      (t : Session C)
      → sending t.sender ≡ []
      → outbox t.shared ≡ []
      → (sending (finish t).sender ≡ [])
        × (outbox (finish t).shared ≡ [])
        × ((finish t).sent ≡ t.sent)
  unfolding finish
  finish-quiet t none_held none_left = ground (arith, C.view-close t.shared.send_chan)

  -- Where nothing is left to send, a step sends nothing.
  send_step-quiet :
      (t : Session C) (s : SendLoop)
      → t.sender ≡ s
      → sending s ≡ []
      → outbox t.shared ≡ []
      → (sending (send_step t true).sender ≡ [])
        × (outbox (send_step t true).shared ≡ [])
        × ((send_step t true).sent ≡ t.sent)
  unfolding send_step
  send_step-quiet t SendLoop.testing e held left =
      ground (arith, finish-quiet t (ap sending e ∙ held) left)
  send_step-quiet t SendLoop.waiting e held left =
      ground
        (arith, try_recv_empty C t.shared.send_chan left, finish-quiet t (ap sending e ∙ held) left)
  send_step-quiet t (writing msg) e held left = absurd (apart held)
    where
      apart : msg ∷ [] ≡ [] → ⊥
      apart f = cc
  send_step-quiet t (SendLoop.gone lost) e held left = ground arith

  abbrev Sends : Session C → ℕ → List Bytes → Type 0
  Sends t k msgs =
      let u = run t (sending_steps k) in (u.sent ≡ t.sent ++ msgs) × (outbox u.shared ≡ [])

  quiet-Sends :
      (k : ℕ) (t : Session C) → sending t.sender ≡ [] → outbox t.shared ≡ [] → Sends t k []
  unfolding run step
  quiet-Sends zero t held left = (sym (append-nil t.sent), left)
  quiet-Sends (suc k) t held left =
      let (held', left', same) = send_step-quiet t t.sender refl held left in
      let (took, none_left) = quiet-Sends k (send_step t true) held' left' in
      (took ∙ ap (λ (l : List Bytes). l ++ []) same, none_left)

  testing-Sends :
      (msgs : List Bytes) (k : ℕ) (t : Session C)
      → t.sender ≡ SendLoop.testing
      → t.shared.closed ≡ false
      → outbox t.shared ≡ msgs
      → 3 * length msgs ≤ k
      → Sends t k msgs
  unfolding run step
  testing-Sends [] k t e h left enough = quiet-Sends k t (ap sending e) left
  testing-Sends (msg ∷ msgs) zero t e h left enough = absurd (omega (arith, enough))
  testing-Sends (msg ∷ msgs) (suc zero) t e h left enough = absurd (omega (arith, enough))
  testing-Sends (msg ∷ msgs) (suc (suc zero)) t e h left enough = absurd (omega (arith, enough))
  testing-Sends (msg ∷ msgs) (suc (suc (suc k))) t e h left enough =
      let m₁ = testing-Moved t (msg ∷ msgs) e h left in
      let m₂ = waiting-Moved _ msg msgs m₁.at m₁.still_open m₁.left in
      let m₃ = writing-Moved _ msg msgs m₂.at m₂.still_open m₂.left in
      let (took, none_left) =
        testing-Sends msgs k _ m₃.at m₃.still_open m₃.left (omega (arith, enough)) in
      (
        took
            ∙ ap (λ (l : List Bytes). l ++ msgs)
                (m₃.took ∙ ap (λ (l : List Bytes). l ++ msg ∷ []) (m₂.took ∙ m₁.took))
            ∙ append_assoc t.sent (msg ∷ []) msgs,
        none_left,
      )

  writing-Sends :
      (msg : Bytes) (msgs : List Bytes) (k : ℕ) (t : Session C)
      → t.sender ≡ writing msg
      → t.shared.closed ≡ false
      → outbox t.shared ≡ msgs
      → 3 * length msgs + 1 ≤ k
      → Sends t k (msg ∷ msgs)
  unfolding run step
  writing-Sends msg msgs zero t e h left enough = absurd (omega (arith, enough))
  writing-Sends msg msgs (suc k) t e h left enough =
      let m = writing-Moved t msg msgs e h left in
      let (took, none_left) =
        testing-Sends msgs k _ m.at m.still_open m.left (omega (arith, enough)) in
      (
        took ∙ ap (λ (l : List Bytes). l ++ msgs) m.took ∙ append_assoc t.sent (msg ∷ []) msgs,
        none_left,
      )

  waiting-Sends :
      (msgs : List Bytes) (k : ℕ) (t : Session C)
      → t.sender ≡ SendLoop.waiting
      → t.shared.closed ≡ false
      → outbox t.shared ≡ msgs
      → 3 * length msgs ≤ k
      → Sends t k msgs
  unfolding run step
  waiting-Sends [] k t e h left enough = quiet-Sends k t (ap sending e) left
  waiting-Sends (msg ∷ msgs) zero t e h left enough = absurd (omega (arith, enough))
  waiting-Sends (msg ∷ msgs) (suc k) t e h left enough =
      let m = waiting-Moved t msg msgs e h left in
      let (took, none_left) =
        writing-Sends msg msgs k _ m.at m.still_open m.left (omega (arith, enough)) in
      (took ∙ ap (λ (l : List Bytes). l ++ msg ∷ msgs) m.took, none_left)

  run-Sends :
      (s : SendLoop) (t : Session C) (k : ℕ)
      → t.sender ≡ s
      → IsRunning s
      → t.shared.closed ≡ false
      → 3 * length (outbox t.shared) + 1 ≤ k
      → Sends t k (sending s ++ outbox t.shared)
  run-Sends SendLoop.testing t k e live h enough =
      testing-Sends (outbox t.shared) k t e h refl (omega (arith, enough))
  run-Sends SendLoop.waiting t k e live h enough =
      waiting-Sends (outbox t.shared) k t e h refl (omega (arith, enough))
  run-Sends (writing msg) t k e live h enough =
      writing-Sends msg (outbox t.shared) k t e h refl enough
  run-Sends (SendLoop.gone lost) t k e live h enough = absurd live

  -- Wherever `send_loop` stands, while it has not ended and the pipe is not closed: if the websocket
  -- takes every message, three steps of the loop for each message in the channel and one more, or any
  -- greater number of its steps, send the message that the loop has in its hands and all that wait in
  -- the channel, in order and once each, and nothing more, and leave the channel empty. Nothing else
  -- of the pipe runs between these steps.
  pub run_sends_all :
      (t : Session C) (k : ℕ)
      → IsRunning t.sender
      → t.shared.closed ≡ false
      → 3 * length (outbox t.shared) + 1 ≤ k
      → let u = run t (sending_steps k) in
        (u.sent ≡ t.sent ++ (sending t.sender ++ outbox t.shared)) × (outbox u.shared ≡ [])
  run_sends_all t k live h enough = run-Sends t.sender t k refl live h enough
