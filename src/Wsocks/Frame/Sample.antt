-- ===== src/Wsocks/Frame/Sample.antt =====
-- A stand-in for `bincode` with the laws that src/bin.todo/wsocks.rs relies on, for runs on
-- concrete data: it writes each number as one digit behind 33 zeros, and of the errors of an
-- offer the refused connection alone.
use mathlib.Core.Option
use mathlib.Core.Option.{some-injective}
use sosistab2_obfsws.Base.{
  ℕ, zero, suc, ◌+◌, ◌≡◌, ap, sym, ◌∙◌, Option, none, some, [], ◌∷◌, ◌++◌, arith, length, take,
  drop, replicate, length-append, take-length-append, drop-length-append,
}
use sosistab2_obfsws.Base.Words.{Bytes}
use sosistab2_obfsws.Wsocks.Protocol.{
  server_failure, connection_not_allowed, network_unreachable, host_unreachable, connection_refused,
  ttl_expired, other, unable_connect, Protocol, tcp_connect, tcp_offer, tcp_data, Frame,
}
use sosistab2_obfsws.Io.{ok, err}
use sosistab2_obfsws.Wsocks.Frame.{Bincode}

abbrev digits : ℕ → ℕ → Bytes → Bytes → Bytes
digits kind number bytes padding = kind ∷ number ∷ length bytes ∷ bytes ++ padding

abbrev write : Protocol → Bytes → Option Bytes
write (tcp_data id payload) padding = some (replicate 33 0 ++ digits 0 id payload padding)
write (tcp_connect dst port) padding = some (replicate 33 0 ++ digits 1 port dst padding)
write (tcp_offer (ok id)) padding = some (replicate 33 0 ++ digits 2 id [] padding)
write (tcp_offer (err (unable_connect connection_refused))) padding =
    some (replicate 33 0 ++ digits 3 0 [] padding)
write _ padding = none

abbrev protocol_of : ℕ → ℕ → Bytes → Option Protocol
protocol_of zero number bytes = some (tcp_data number bytes)
protocol_of (suc zero) number bytes = some (tcp_connect bytes number)
protocol_of (suc (suc zero)) number bytes = some (tcp_offer (ok number))
protocol_of (suc (suc (suc zero))) number bytes =
    some (tcp_offer (err (unable_connect connection_refused)))
protocol_of _ number bytes = none

abbrev read : Bytes → Option Frame
read (kind ∷ number ∷ n ∷ rest) =
    Option.map (λ p. record { protocol = p; padding = drop n rest })
      (protocol_of kind number (take n rest))
read _ = none

pub read-digits :
    (kind number : ℕ) (bytes padding buf : Bytes)
    → some (replicate 33 0 ++ digits kind number bytes padding) ≡ some buf
    → read (drop 33 buf)
      ≡ Option.map (λ p. record { protocol = p; padding = padding }) (protocol_of kind number bytes)
read-digits kind number bytes padding buf e =
    ap (λ (b : Bytes). read (drop 33 b)) (sym (some-injective _ _ e)) ∙ (λ i.
      Option.map (λ p. record { protocol = p; padding = drop-length-append bytes padding i })
        (protocol_of kind number (take-length-append bytes padding i)))

pub read-write :
    (p : Protocol) (padding buf : Bytes)
    → write p padding ≡ some buf
    → read (drop 33 buf) ≡ some (record { protocol = p; padding = padding })
read-write (tcp_connect dst port) padding buf e = read-digits 1 port dst padding buf e
read-write (tcp_offer (ok id)) padding buf e = read-digits 2 id [] padding buf e
read-write (tcp_offer (err (unable_connect connection_refused))) padding buf e =
    read-digits 3 0 [] padding buf e
read-write (tcp_offer (err (unable_connect server_failure))) padding buf e = cc
read-write (tcp_offer (err (unable_connect connection_not_allowed))) padding buf e = cc
read-write (tcp_offer (err (unable_connect network_unreachable))) padding buf e = cc
read-write (tcp_offer (err (unable_connect host_unreachable))) padding buf e = cc
read-write (tcp_offer (err (unable_connect ttl_expired))) padding buf e = cc
read-write (tcp_offer (err (unable_connect (other message)))) padding buf e = cc
read-write (tcp_data id payload) padding buf e = read-digits 0 id payload padding buf e

pub length-write :
    (id : ℕ) (payload padding buf : Bytes)
    → write (tcp_data id payload) padding ≡ some buf
    → length buf ≡ 36 + length payload + length padding
length-write id payload padding buf e =
    omega (arith, ap length (some-injective _ _ e), length-append payload padding)

abbrev pub sample_bincode : Bincode
sample_bincode = record {
  serialize = λ f. write f.protocol f.padding;
  deserialize = λ buf. read (drop 33 buf);
  deserialize-serialize = λ f buf fits e. read-write f.protocol f.padding buf e;
  length-serialize_data = length-write;
}
