-- ===== src/Wsocks/Frame/Tests.antt =====
-- The theorems about the frames of src/bin.todo/wsocks.rs at concrete inputs.
use sosistab2_obfsws.Base.{◌≡◌, refl, [], ◌∷◌, ◌++◌, arith, take, replicate}
use sosistab2_obfsws.Base.Words.{Bytes, to_be_bytes}
use sosistab2_obfsws.Io.{unexpected_eof, ok, err}
use sosistab2_obfsws.Transport.{Wire, wire}
use sosistab2_obfsws.Wsocks.Protocol.{tcp_data, Frame}
use sosistab2_obfsws.Wsocks.Frame.{io, send, recv}
use sosistab2_obfsws.Wsocks.Frame.Sample.{sample_bincode}
use sosistab2_obfsws.Wsocks.Frame.RoundTrip.{encoded}
use sosistab2_obfsws.Wsocks.Frame.Sequence.{send_all, recv_many, recv_many-send_all}
use sosistab2_obfsws.Wsocks.Frame.Errors.{recv_cut}

abbrev hello : Frame
hello = record { protocol = tcp_data 5 (104 ∷ 105 ∷ []); padding = 0 ∷ [] }

abbrev hello_bytes : Bytes
hello_bytes = replicate 34 0 ++ 5 ∷ 2 ∷ 104 ∷ 105 ∷ 0 ∷ []

abbrev on_wire : Bytes
on_wire = 0 ∷ 39 ∷ hello_bytes

abbrev silent : Wire
silent = record { input = []; output = [] }

abbrev after_hello : Wire
after_hello = record { input = []; output = on_wire }

abbrev peer : Bytes → Wire
peer bytes = record { input = bytes; output = [] }

send-hello : send sample_bincode wire hello silent ≡ ok after_hello
unfolding send to_be_bytes
send-hello = refl

send_all-hello :
    send_all sample_bincode wire (hello ∷ hello ∷ []) silent
    ≡ ok (record { input = []; output = on_wire ++ on_wire })
unfolding send_all send to_be_bytes
send_all-hello = refl

recv_many-send_all_example :
    (d' : Wire) × (recv_many sample_bincode wire 2 (peer (on_wire ++ on_wire))
      ≡ ok (hello ∷ hello ∷ [], d'))
    × (d'.input ≡ [])
recv_many-send_all_example =
    recv_many-send_all sample_bincode wire (hello ∷ hello ∷ []) silent
      (record { input = []; output = on_wire ++ on_wire }) (peer (on_wire ++ on_wire))
      (on_wire ++ on_wire) [] (omega arith) send_all-hello refl refl

recv_cut_example :
    recv sample_bincode wire (peer (take 7 (encoded hello_bytes))) ≡ err (io unexpected_eof)
unfolding to_be_bytes
recv_cut_example =
    recv_cut sample_bincode wire hello_bytes 7 (peer (take 7 (encoded hello_bytes))) (omega arith)
      (omega arith) refl
