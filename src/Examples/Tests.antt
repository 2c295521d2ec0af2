-- ===== src/Examples/Tests.antt =====
-- The measurements under examples at concrete inputs.
use sosistab2_obfsws.Base.{
  ℕ, ◌+◌, ◌*◌, ◌/◌, ◌≤◌, ◌≡◌, ◌⊎◌, refl, true, false, none, some, List, [], ◌∷◌, ltb,
}
use sosistab2_obfsws.Base.Slices.{done, panic}
use sosistab2_obfsws.Channel.{Channel, queue_channel, fresh}
use sosistab2_obfsws.Io.{ok, err, broken_pipe}
use sosistab2_obfsws.Examples.Meter.{Floats, Meets, kib, start, received, take_read, notify}
use sosistab2_obfsws.Examples.First
use sosistab2_obfsws.Examples.First.Paced.{IsPaced, race-IsPaced}
use sosistab2_obfsws.Examples.Second
use sosistab2_obfsws.Examples.Second.Races.{any_fails, race_lem}

-- Whole numbers for floats.
abbrev whole : Floats
whole = record {
  F64 = ℕ;
  from_u128 = λ n. n;
  as_secs = λ n. n / 1_000_000_000;
  mul = λ a b. a * b;
  div = λ a b. a / b;
  lt = ltb;
}

abbrev replies : Channel (Unit {0})
replies = queue_channel (Unit {0})

-- A round at so many nanoseconds, with a read of 5000 bytes.
abbrev full : ℕ → Meets
full t = record {
  tested = t;
  measured = t;
  anchored = t;
  checked = t;
  restarted = t;
  arrived = t;
  read = some (ok 5000);
}

-- One in which nothing comes.
abbrev idle : ℕ → Meets
idle t = record (full t) { read = none }

-- Two reads of 5000 bytes, and a write.
abbrev day_turns : List Second.Turn
day_turns =
    Second.receives (full 1_000_000_000)
    ∷ Second.sends (ok tt)
    ∷ Second.receives (idle 4_000_000_000)
    ∷ Second.receives (full 9_000_000_000)
    ∷ []

race_lem_example :
    ((any_fails day_turns ≡ true)
      × (Second.race day_turns (Second.begun {X = whole} {D = replies} 0) ≡ panic))
    ⊎ ((any_fails day_turns ≡ false)
        × ((s : Second.Racing whole replies) × (Second.race day_turns (Second.begun 0) ≡ done s)
            × (s.measuring.meter.recvs ≡ 2)
            × (s.measuring.meter.total_recv_bytes ≡ 10_000)
            × (s.written ≡ 1)))
race_lem_example = race_lem whole replies day_turns 0

race-broken_write :
    Second.race (Second.sends (err broken_pipe) ∷ []) (Second.begun {X = whole} {D = replies} 0)
    ≡ panic
unfolding Second.race Second.turn Second.wrote
race-broken_write = refl

-- A message is written, comes back, and lets the next be written.
abbrev turns : List First.Turn
turns =
    First.sends (ok tt)
    ∷ First.sends (ok tt)
    ∷ First.receives (full 1)
    ∷ First.sends (ok tt)
    ∷ First.sends (ok tt)
    ∷ []

abbrev paced : First.Racing whole replies
paced = record {
  measuring = record {
    meter = record {
      total_recv_bytes = 5000;
      recv_bytes = 5000;
      start_time = 0;
      time_anchor = 0;
      unit = kib;
      ticks = 1;
      recvs = 1;
      printed = [];
    };
    last = 1;
    allow_send_notify = fresh 1;
  };
  phase = First.waits;
  written = 2;
  ended = false;
}

race-turns : First.race turns (First.starts 0) ≡ done paced
unfolding First.race First.turn First.starts First.send_step First.wrote First.woken First.recv_step
    First.round First.read_on First.last_of start take_read received notify
race-turns = refl

race-IsPaced_example : IsPaced paced × (2 ≤ 1 + 1)
race-IsPaced_example = race-IsPaced whole replies turns 0 paced race-turns
