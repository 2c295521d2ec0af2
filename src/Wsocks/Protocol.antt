-- ===== src/Wsocks/Protocol.antt =====
-- The messages of src/bin.todo/wsocks.rs: `NetworkError`, `OfferError`, `Protocol` and `Frame`.
use sosistab2_obfsws.Base.{ℕ, ◌^◌, ◌<◌, ◌≤◌, replicate}
use sosistab2_obfsws.Base.Words.{Bytes}
use sosistab2_obfsws.Io.{Result, ok, err, Text}

pub data NetworkError : Type 0 where
  server_failure connection_not_allowed network_unreachable host_unreachable : NetworkError
  connection_refused ttl_expired : NetworkError
  other : Text → NetworkError

pub data OfferError : Type 0 where
  unable_connect : NetworkError → OfferError

pub data Protocol : Type 0 where
  tcp_connect : Text → ℕ → Protocol
  tcp_offer : Result OfferError ℕ → Protocol
  tcp_data : ℕ → Bytes → Protocol

pub record Frame : Type 0 where
  pub protocol : Protocol
  pub padding : Bytes

-- `From<Protocol> for Frame`; `n` is what `fastrand::usize(1..=128)` draws.
unfoldable pub frame_from : ℕ → Protocol → Frame
frame_from n p = record { protocol = p; padding = replicate n 0 }

abbrev pub IsDraw : ℕ → Type 0
IsDraw n = (1 ≤ n) × (n ≤ 128)

-- The numbers of a message fit their types, `u16` and `u128`.
abbrev pub FitsProtocol : Protocol → Type 0
FitsProtocol (tcp_connect dst port) = port < 2 ^ 16
FitsProtocol (tcp_offer (ok id)) = id < 2 ^ 128
FitsProtocol (tcp_offer (err e)) = Unit {0}
FitsProtocol (tcp_data id payload) = id < 2 ^ 128
