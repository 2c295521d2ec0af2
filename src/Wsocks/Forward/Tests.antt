-- ===== src/Wsocks/Forward/Tests.antt =====
-- The theorems about `tcp_forward_loop` of src/bin.todo/wsocks.rs at concrete inputs.
use sosistab2_obfsws.Base.{◌≡◌, ◌↔◌, ◌++◌, refl, none, [], ◌∷◌, arith, replicate}
use sosistab2_obfsws.Base.Words.{Bytes, to_be_bytes, from_be_bytes}
use sosistab2_obfsws.Base.Slices.{panic}
use sosistab2_obfsws.Io.{ok}
use sosistab2_obfsws.Channel.{Channel, queue_channel}
use sosistab2_obfsws.Transport.{Wire, wire}
use sosistab2_obfsws.Wsocks.Protocol.{tcp_data, frame_from}
use sosistab2_obfsws.Wsocks.Frame.{send, recv}
use sosistab2_obfsws.Wsocks.Frame.Errors.{send_data-writes}
use sosistab2_obfsws.Wsocks.Frame.Sample.{sample_bincode}
use sosistab2_obfsws.Wsocks.Forward.{Ends, check_deadline, up_round, down_round, up_rounds}
use sosistab2_obfsws.Wsocks.Forward.Rounds.{
  SendsEmpty, Expected, up_rounds-never_end, down_round-panics_iff,
}

abbrev deadlines : Channel (Unit {0})
deadlines = queue_channel (Unit {0})

abbrev peer : Bytes → Wire
peer bytes = record { input = bytes; output = [] }

abbrev ends : Bytes → Bytes → Ends wire deadlines
ends from_tcp from_pipe = record {
  deadline_rx = none;
  conn = peer from_tcp;
  relconn = peer from_pipe;
}

-- What the frame of "hi" looks like over the pipes, with a padding of one byte.
abbrev hi_frame : Bytes
hi_frame = 0 ∷ 39 ∷ replicate 34 0 ++ 5 ∷ 2 ∷ 104 ∷ 105 ∷ 0 ∷ []

abbrev hi_sent : Ends wire deadlines
hi_sent = record {
  deadline_rx = none;
  conn = peer [];
  relconn = record { input = []; output = hi_frame };
}

up_rounds-hi :
    up_rounds sample_bincode wire deadlines 5 (1 ∷ []) (ends (104 ∷ 105 ∷ []) []) ≡ ok hi_sent
unfolding up_rounds up_round check_deadline send to_be_bytes frame_from
up_rounds-hi = refl

sends_empty : SendsEmpty sample_bincode wire deadlines 5
unfolding frame_from
sends_empty n c draw = (
  _,
  send_data-writes sample_bincode wire 5 n [] (replicate 34 0 ++ 5 ∷ 0 ∷ replicate n 0) c draw
      (omega arith) refl,
)

up_rounds-never_end_example :
    (relconn : Wire) × (up_rounds sample_bincode wire deadlines 5 (1 ∷ 2 ∷ []) (ends [] [])
      ≡ ok (record (ends [] []) { relconn = relconn }))
unfolding check_deadline
up_rounds-never_end_example =
    up_rounds-never_end sample_bincode wire deadlines 5 (1 ∷ 2 ∷ []) (ends [] [])
      ((omega arith, omega arith), ((omega arith, omega arith), tt)) sends_empty refl refl

down_round-panics_iff_example :
    (down_round sample_bincode wire deadlines 6 (ends [] hi_frame) ≡ panic)
    ↔ (Expected sample_bincode wire deadlines 6 (tcp_data 5 (104 ∷ 105 ∷ [])) → ⊥)
unfolding check_deadline recv from_be_bytes
down_round-panics_iff_example =
    down_round-panics_iff sample_bincode wire deadlines 6 (ends [] hi_frame)
      (record { protocol = tcp_data 5 (104 ∷ 105 ∷ []); padding = 0 ∷ [] }) (peer []) refl refl
