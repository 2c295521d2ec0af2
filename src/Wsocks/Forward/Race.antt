-- ===== src/Wsocks/Forward/Race.antt =====
-- `tcp_forward_loop` of src/bin.todo/wsocks.rs as a whole: its two directions, raced, in any order of
-- their rounds. A direction reads one half of each connection and writes the other's other half, so
-- the await points inside a round are not told apart.
pub mod Frames
pub mod Downed
pub mod Carried
pub mod Across
mod Tests
use sosistab2_obfsws.Base.{ℕ, Option, List, [], ◌∷◌}
use sosistab2_obfsws.Base.Slices.{Exec, done}
use sosistab2_obfsws.Io.{Result, ok}
use sosistab2_obfsws.Channel.{Channel}
use sosistab2_obfsws.Transport.{Transport}
use sosistab2_obfsws.Wsocks.Frame.{Bincode}
use sosistab2_obfsws.Wsocks.Forward.{ForwardError, Ends, up_round, down_round, and_then}

-- Whose round is next; a round of `up_fut` comes with the length of the padding that is drawn.
pub data Turn : Type 0 where
  up : ℕ → Turn
  down : Turn

module _ (B : Bincode) (T : Transport) (D : Channel (Unit {0})) (offer_id : ℕ) where
  unfoldable pub turn : Turn → Ends T D → Exec (Result ForwardError (Ends T D))
  turn (up n) s = done (up_round B T D offer_id n s)
  turn down s = down_round B T D offer_id s

  -- The race ends with the first direction that ends.
  unfoldable pub tcp_forward_loop : List Turn → Ends T D → Exec (Result ForwardError (Ends T D))
  tcp_forward_loop [] s = done (ok s)
  tcp_forward_loop (t ∷ ts) s = and_then B T D offer_id (turn t s) (tcp_forward_loop ts)
