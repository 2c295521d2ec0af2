-- ===== src/Wsocks/Errors/Sample.antt =====
-- The statuses of the SOCKS crate that src/bin.todo/wsocks.rs uses, for runs on concrete data.
use sosistab2_obfsws.Base.{ℕ, refl}
use sosistab2_obfsws.Wsocks.Errors.{Socks}

-- The statuses as the numbers of the protocols.
abbrev pub sample_socks : Socks
sample_socks = record {
  SocksV4RequestStatus = ℕ;
  SocksV5RequestStatus = ℕ;
  failed = 91;
  granted = 90;
  v5_success = 0;
  v5_server_failure = 1;
  v5_connection_not_allowed = 2;
  v5_network_unreachable = 3;
  v5_host_unreachable = 4;
  v5_connection_refused = 5;
  v5_ttl_expired = 6;
  reply = λ n. n;
  reply-success = refl;
  reply-server_failure = refl;
  reply-connection_not_allowed = refl;
  reply-network_unreachable = refl;
  reply-host_unreachable = refl;
  reply-connection_refused = refl;
  reply-ttl_expired = refl;
}
