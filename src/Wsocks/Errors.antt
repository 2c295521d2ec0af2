-- ===== src/Wsocks/Errors.antt =====
-- The error conversions of src/bin.todo/wsocks.rs: from `std::io::Error` to `NetworkError`, and from
-- there to the statuses of the two SOCKS protocols.
pub mod Sample
use sosistab2_obfsws.Base.{
  ℕ, ◌≡◌, ◌≢◌, ◌↔◌, ◌≤◌, refl, sym, ◌∙◌, Bool, true, false, if◌then◌else◌, arith,
}
use sosistab2_obfsws.Io.{
  ErrorKind, connection_refused, connection_reset, connection_aborted, broken_pipe, timed_out,
  permission_denied, network_down, network_unreachable, unexpected_eof, other_kind, Text,
}
use sosistab2_obfsws.Wsocks.Protocol.{
  NetworkError, server_failure, connection_not_allowed, host_unreachable, ttl_expired, other,
}

-- What the program uses of the SOCKS server crate: the names of the statuses, and the reply field
-- of RFC 1928 that each of version 5 stands for.
pub record Socks : Type 1 where
  pub SocksV4RequestStatus : Type 0
  pub SocksV5RequestStatus : Type 0
  pub failed : SocksV4RequestStatus
  pub granted : SocksV4RequestStatus
  pub v5_success : SocksV5RequestStatus
  pub v5_server_failure : SocksV5RequestStatus
  pub v5_connection_not_allowed : SocksV5RequestStatus
  pub v5_network_unreachable : SocksV5RequestStatus
  pub v5_host_unreachable : SocksV5RequestStatus
  pub v5_connection_refused : SocksV5RequestStatus
  pub v5_ttl_expired : SocksV5RequestStatus
  pub reply : SocksV5RequestStatus → ℕ
  pub reply-success : reply v5_success ≡ 0
  pub reply-server_failure : reply v5_server_failure ≡ 1
  pub reply-connection_not_allowed : reply v5_connection_not_allowed ≡ 2
  pub reply-network_unreachable : reply v5_network_unreachable ≡ 3
  pub reply-host_unreachable : reply v5_host_unreachable ≡ 4
  pub reply-connection_refused : reply v5_connection_refused ≡ 5
  pub reply-ttl_expired : reply v5_ttl_expired ≡ 6

-- `From<std::io::Error> for NetworkError`, with the feature `io_error_more` as a flag; `debug` is
-- the error's `Debug` text.
unfoldable pub from_io : Bool → ErrorKind → Text → NetworkError
from_io more connection_refused debug = NetworkError.connection_refused
from_io more connection_reset debug = NetworkError.connection_refused
from_io more connection_aborted debug = NetworkError.connection_refused
from_io more broken_pipe debug = NetworkError.connection_refused
from_io more timed_out debug = host_unreachable
from_io more permission_denied debug = connection_not_allowed
from_io more network_down debug = if more then NetworkError.network_unreachable else other debug
from_io more network_unreachable debug =
    if more then NetworkError.network_unreachable else other debug
from_io more unexpected_eof debug = other debug
from_io more (other_kind n) debug = other debug

module _ (S : Socks) where
  -- `From<NetworkError> for SocksV4RequestStatus`
  unfoldable pub to_v4 : NetworkError → S.SocksV4RequestStatus
  to_v4 val = S.failed

  -- `From<NetworkError> for SocksV5RequestStatus`
  unfoldable pub to_v5 : NetworkError → S.SocksV5RequestStatus
  to_v5 server_failure = S.v5_server_failure
  to_v5 connection_not_allowed = S.v5_connection_not_allowed
  to_v5 NetworkError.network_unreachable = S.v5_network_unreachable
  to_v5 host_unreachable = S.v5_host_unreachable
  to_v5 NetworkError.connection_refused = S.v5_connection_refused
  to_v5 ttl_expired = S.v5_ttl_expired
  to_v5 (other message) = S.v5_server_failure

-- The reply field that a kind of error should end in, by RFC 1928.
abbrev pub reply_of : Bool → ErrorKind → ℕ
reply_of more connection_refused = 5
reply_of more connection_reset = 5
reply_of more connection_aborted = 5
reply_of more broken_pipe = 5
reply_of more timed_out = 4
reply_of more permission_denied = 2
reply_of more network_down = if more then 3 else 1
reply_of more network_unreachable = if more then 3 else 1
reply_of more unexpected_eof = 1
reply_of more (other_kind n) = 1

reply_of-failure : (more : Bool) (kind : ErrorKind) → 1 ≤ reply_of more kind
reply_of-failure more connection_refused = omega arith
reply_of-failure more connection_reset = omega arith
reply_of-failure more connection_aborted = omega arith
reply_of-failure more broken_pipe = omega arith
reply_of-failure more timed_out = omega arith
reply_of-failure more permission_denied = omega arith
reply_of-failure true network_down = omega arith
reply_of-failure false network_down = omega arith
reply_of-failure true network_unreachable = omega arith
reply_of-failure false network_unreachable = omega arith
reply_of-failure more unexpected_eof = omega arith
reply_of-failure more (other_kind n) = omega arith

module _ (S : Socks) where
  pub reply-from_io :
      (more : Bool) (kind : ErrorKind) (debug : Text)
      → S.reply (to_v5 S (from_io more kind debug)) ≡ reply_of more kind
  unfolding to_v5 from_io
  reply-from_io more connection_refused debug = S.reply-connection_refused
  reply-from_io more connection_reset debug = S.reply-connection_refused
  reply-from_io more connection_aborted debug = S.reply-connection_refused
  reply-from_io more broken_pipe debug = S.reply-connection_refused
  reply-from_io more timed_out debug = S.reply-host_unreachable
  reply-from_io more permission_denied debug = S.reply-connection_not_allowed
  reply-from_io true network_down debug = S.reply-network_unreachable
  reply-from_io false network_down debug = S.reply-server_failure
  reply-from_io true network_unreachable debug = S.reply-network_unreachable
  reply-from_io false network_unreachable debug = S.reply-server_failure
  reply-from_io more unexpected_eof debug = S.reply-server_failure
  reply-from_io more (other_kind n) debug = S.reply-server_failure

  -- An I/O error ends, through `NetworkError`, in the reply of RFC 1928 for its kind, which is never
  -- that of a success: refused for the four kinds of a refused or broken connection, unreachable
  -- for the network kinds where the feature is on, and a general failure for every kind that is not
  -- named.
  pub connect_error_reply :
      (more : Bool) (kind : ErrorKind) (debug : Text)
      → (S.reply (to_v5 S (from_io more kind debug)) ≡ reply_of more kind)
        × (S.reply (to_v5 S (from_io more kind debug)) ≢ 0)
  connect_error_reply more kind debug = (
    reply-from_io more kind debug,
    λ h. omega (arith, reply_of-failure more kind, sym (reply-from_io more kind debug) ∙ h),
  )
