-- ===== src/Pipe/Connect/Tests.antt =====
-- `ObfsWsPipe::connect` of src/pipe.rs at concrete inputs.
use sosistab2_obfsws.Base.{ℕ, ◌^◌, ◌<◌, ◌≡◌, refl, none, some, List}
use sosistab2_obfsws.Base.Words.{Bytes}
use sosistab2_obfsws.Io.{ok, Text, codes}
use sosistab2_obfsws.Channel.{queue_channel}
use sosistab2_obfsws.Pipe.{new}
use sosistab2_obfsws.Pipe.Connect.{WsClient, decimal, default_port, with_port, connect}
use sosistab2_obfsws.Pipe.Connect.Dialled.{Connected, connect-Connected}

no_port-lt : {port : ℕ} → none ≡ some port → port < 2 ^ 16
no_port-lt e = cc

-- Where every URL is one of scheme "ws" with host "h" and no port, and every call succeeds.
abbrev sample_client : WsClient
sample_client = record {
  Uri = Text;
  Request = List (Text × Text);
  TcpStream = Text;
  Ws = Text;
  parse = λ url. some url;
  host = λ uri. some (codes "h");
  port_u16 = λ uri. none;
  scheme_str = λ uri. some (codes "ws");
  to_string = λ uri. uri;
  build = λ method uri headers. some headers;
  tcp_connect = λ host. ok host;
  set_nodelay = λ socket. ok socket;
  client_async_tls = λ req socket. some socket;
  port_u16-lt = λ uri e. no_port-lt e;
}

default_port-wss : default_port (some (codes "wss")) ≡ some 443
unfolding default_port
default_port-wss = refl

default_port-http : default_port (some (codes "http")) ≡ none
unfolding default_port
default_port-http = refl

with_port-explicit : with_port (codes "h") (some 8088) ≡ codes "h:8088"
unfolding with_port decimal
with_port-explicit = refl

connect-Connected_example :
    Connected sample_client
      (queue_channel Bytes)
      (codes "ws://h")
      (codes "key")
      (new (queue_channel Bytes) (codes "ws://h") (codes "key"))
unfolding connect
connect-Connected_example =
    connect-Connected sample_client (queue_channel Bytes) (codes "ws://h") (codes "key")
      (new (queue_channel Bytes) (codes "ws://h") (codes "key")) refl
