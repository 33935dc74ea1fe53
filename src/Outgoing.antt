-- ===== src/Outgoing.antt =====
-- src/outgoing.rs: connecting to the requested address, and the reasons for which that fails. The
-- system's resolver, `TcpStream::connect` and what `std::io::Error` tells of itself are parameters.
pub mod Reasons
use rocks.Base.{ℕ, Bool, true, false, List, Option, none, some, if◌then◌else◌}
use rocks.Base.Words.{Bytes}
use rocks.Base.Int.{ℤ, pos, negsuc, ◌==ℤ◌}
use rocks.Addr.{SocketAddr, ReqAddr, resolve_local}
use rocks.Config.{OutgoingConfig, OutgoingType}
use rocks.Error.{
  Foreign, Error, OutgoingError, Result, io, from_description, unsupported_outgoing_type,
  general_failure, network_unreachable, host_unreachable, connection_refused, timed_out,
}

-- The `cfg(target_os = ..)` that chooses a module `network_errors`.
pub data TargetOs : Type 0 where
  windows linux macos : TargetOs

pub record NetworkErrors : Type 0 where
  pub network_unreachable_code : ℤ
  pub host_unreachable_code : ℤ
  pub ttl_expired_code : ℤ

unfoldable pub network_errors : TargetOs → NetworkErrors
network_errors windows = record {
  network_unreachable_code = pos 1231;
  host_unreachable_code = pos 1232;
  ttl_expired_code = pos 10060;
}
network_errors linux = record {
  network_unreachable_code = pos 101;
  host_unreachable_code = pos 110;
  ttl_expired_code = pos 113;
}
network_errors macos = record {
  network_unreachable_code = pos 2;
  host_unreachable_code = pos 1;
  ttl_expired_code = negsuc 72005;
}

-- What the code calls of the system: the resolver, `TcpStream::connect`, and of an error whether its
-- kind is `ConnectionRefused`, and `raw_os_error`.
pub record Network (F : Foreign) (S : Type 0) : Type 0 where
  pub lookup : Bytes → ℕ → Result F.IoError (List SocketAddr)
  pub connect : SocketAddr → Result F.IoError S
  pub is_refused : F.IoError → Bool
  pub raw_os_error : F.IoError → Option ℤ

module _ {F : Foreign} where
  by_code : NetworkErrors → Option ℤ → Error F → OutgoingError F
  by_code codes none e = general_failure e
  by_code codes (some n) e =
      if n ==ℤ codes.network_unreachable_code
      then network_unreachable e
      else if n ==ℤ codes.host_unreachable_code
      then host_unreachable e
      else if n ==ℤ codes.ttl_expired_code
      then timed_out e
      else general_failure e

module _ {F : Foreign} {S : Type 0} (net : Network F S) (os : TargetOs) where
  -- The closure under `TcpStream::connect(..).map_err`.
  unfoldable pub connect_error : F.IoError → OutgoingError F
  unfolding by_code network_errors
  connect_error e =
      if net.is_refused e
      then connection_refused (io e)
      else by_code (network_errors os) (net.raw_os_error e) (io e)

  pub connect_to : Result (Error F) SocketAddr → Result (OutgoingError F) S
  connect_to (Result.err e) = Result.err (host_unreachable e)
  connect_to (Result.ok a) = elim (net.connect a) [
    | Result.ok s ↦ Result.ok s
    | Result.err e ↦ Result.err (connect_error e)
  ]

  -- `DirectOutgoing::process_request_impl`
  unfoldable pub process_request_impl : ReqAddr → Result (OutgoingError F) S
  unfolding connect_to
  process_request_impl req = connect_to (resolve_local net.lookup req)

-- The one implementation of `Outgoing`.
pub data DirectOutgoing : Type 0 where
  direct_outgoing : DirectOutgoing

unfoldable pub get_outgoing : {F : Foreign} → OutgoingType → Result (Error F) DirectOutgoing
get_outgoing OutgoingType.direct = Result.ok direct_outgoing
get_outgoing OutgoingType.rocks_type = Result.err (from_description unsupported_outgoing_type)
get_outgoing OutgoingType.ignore = Result.err (from_description unsupported_outgoing_type)
