-- ===== src/Wsocks/Forward/Race/Tests.antt =====
-- Both directions of `tcp_forward_loop` of src/bin.todo/wsocks.rs at concrete inputs.
use sosistab2_obfsws.Base.{◌≡◌, refl, none, [], ◌∷◌, ◌++◌, arith, replicate}
use sosistab2_obfsws.Base.Words.{Bytes, to_be_bytes, from_be_bytes}
use sosistab2_obfsws.Base.Slices.{done}
use sosistab2_obfsws.Io.{ok}
use sosistab2_obfsws.Channel.{Channel, queue_channel}
use sosistab2_obfsws.Transport.{wire}
use sosistab2_obfsws.Wsocks.Protocol.{frame_from}
use sosistab2_obfsws.Wsocks.Frame.{send, recv}
use sosistab2_obfsws.Wsocks.Frame.Sample.{sample_bincode}
use sosistab2_obfsws.Wsocks.Forward.{Ends, check_deadline, up_round, handle, received, down_round}
use sosistab2_obfsws.Wsocks.Forward.Race.{up, down, turn, tcp_forward_loop}
use sosistab2_obfsws.Wsocks.Forward.Race.Frames.{Frames}
use sosistab2_obfsws.Wsocks.Forward.Race.Across.{forwarded_across}
use sosistab2_obfsws.Wsocks.Forward.Race.Carried.{Carried, tcp_forward_loop-Carried}

abbrev deadlines : Channel (Unit {0})
deadlines = queue_channel (Unit {0})

abbrev hi_frame : Bytes
hi_frame = 0 ∷ 39 ∷ replicate 34 0 ++ 5 ∷ 2 ∷ 104 ∷ 105 ∷ 0 ∷ []

-- "hi" comes in on both sides.
abbrev before : Ends wire deadlines
before = record {
  deadline_rx = none;
  conn = record { input = 104 ∷ 105 ∷ []; output = [] };
  relconn = record { input = hi_frame; output = [] };
}

-- And has gone out on the other.
abbrev after : Ends wire deadlines
after = record {
  deadline_rx = none;
  conn = record { input = []; output = 104 ∷ 105 ∷ [] };
  relconn = record { input = []; output = hi_frame };
}

tcp_forward_loop-both :
    tcp_forward_loop sample_bincode wire deadlines 5 (down ∷ up 1 ∷ []) before ≡ done (ok after)
unfolding tcp_forward_loop turn up_round down_round received handle check_deadline send recv
    frame_from to_be_bytes from_be_bytes
tcp_forward_loop-both = refl

tcp_forward_loop-Carried_example : Carried sample_bincode wire deadlines 5 before after
tcp_forward_loop-Carried_example =
    tcp_forward_loop-Carried sample_bincode wire deadlines 5 (down ∷ up 1 ∷ []) before after
      (omega arith) tcp_forward_loop-both

abbrev quiet : Ends wire deadlines
quiet = record {
  deadline_rx = none;
  conn = record { input = []; output = [] };
  relconn = record { input = []; output = [] };
}

-- "hi" comes in at one end, and goes over the stream.
abbrev sender : Ends wire deadlines
sender = record quiet { conn = record { input = 104 ∷ 105 ∷ []; output = [] } }

abbrev sent : Ends wire deadlines
sent = record quiet { relconn = record { input = []; output = hi_frame } }

-- At the other end it comes from the stream, and goes out.
abbrev receiver : Ends wire deadlines
receiver = record quiet { relconn = record { input = hi_frame; output = [] } }

abbrev got : Ends wire deadlines
got = record quiet { conn = record { input = []; output = 104 ∷ 105 ∷ [] } }

tcp_forward_loop-sent :
    tcp_forward_loop sample_bincode wire deadlines 5 (up 1 ∷ []) sender ≡ done (ok sent)
unfolding tcp_forward_loop turn up_round check_deadline send frame_from to_be_bytes
tcp_forward_loop-sent = refl

tcp_forward_loop-got :
    tcp_forward_loop sample_bincode wire deadlines 5 (down ∷ []) receiver ≡ done (ok got)
unfolding tcp_forward_loop turn down_round received handle check_deadline recv from_be_bytes
tcp_forward_loop-got = refl

forwarded_across_example :
    (bytes : Bytes) × (more : Bytes) × (104 ∷ 105 ∷ [] ≡ (bytes ++ more) ++ [])
    × (104 ∷ 105 ∷ [] ≡ [] ++ bytes)
    × Frames sample_bincode 5 more []
forwarded_across_example =
    forwarded_across sample_bincode wire deadlines 5 (up 1 ∷ []) (down ∷ []) sender sent receiver
      got hi_frame [] (omega arith) tcp_forward_loop-sent tcp_forward_loop-got refl refl
