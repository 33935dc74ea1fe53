-- ===== src/Socks5.antt =====
-- src/socks5/mod.rs and src/socks5/incoming.rs: the protocol's constants, the connected client, and
-- its reads and writes, which fail once the stream has been handed over. The handshake is in Auth,
-- the request in Request, the replies in Reply.
pub mod Wire
pub mod Reply
pub mod Auth
pub mod Request
pub mod Session
pub mod Every
use rocks.Base.{
  ℕ, ◌-◌, ◌&&◌, ◌≡◌, List, [], ◌∷◌, Option, none, some, Bool, true, false, length, leb, ◌==◌,
  if◌then◌else◌,
}
use rocks.Base.Words.{Bytes}
use rocks.Addr.{SocketAddr}
use rocks.Buffer.{fill}
use rocks.Net.{Tcp}
use rocks.Error.{
  Foreign, Error, OutgoingError, Outcome, Result, Action, ◌>>=◌, lift, io_outcome, not_connected,
  invalid_socks5_addr_type,
}

abbrev pub socks5_protocol : ℕ
socks5_protocol = 5

abbrev pub socks5_no_auth : ℕ
socks5_no_auth = 0

abbrev pub socks5_no_acceptable_method : ℕ
socks5_no_acceptable_method = 0xff

abbrev pub socks5_cmd_connect : ℕ
socks5_cmd_connect = 1

pub data Socks5Error : Type 0 where
  success general_proxy_failure network_unreachable host_unreachable : Socks5Error
  connection_refused ttl_expired command_not_supported : Socks5Error
  address_type_not_supported : Socks5Error

-- `err as u8`
unfoldable pub error_code : Socks5Error → ℕ
error_code success = 0
error_code general_proxy_failure = 1
error_code network_unreachable = 3
error_code host_unreachable = 4
error_code connection_refused = 5
error_code ttl_expired = 6
error_code command_not_supported = 7
error_code address_type_not_supported = 8

pub data Socks5AddrType : Type 0 where
  ipv4 ipv6 domain : Socks5AddrType

-- `atyp as u8`
abbrev pub addr_type_code : Socks5AddrType → ℕ
addr_type_code ipv4 = 1
addr_type_code ipv6 = 4
addr_type_code domain = 3

-- `Socks5AddrType::try_from`
unfoldable pub try_from : {F : Foreign} → ℕ → Result (Error F) Socks5AddrType
try_from i =
    if i == 1
    then Result.ok ipv4
    else if i == 3
    then Result.ok domain
    else if i == 4
    then Result.ok ipv6
    else Result.err invalid_socks5_addr_type

-- `get_reason`
unfoldable pub get_reason : {F : Foreign} → OutgoingError F → Socks5Error
get_reason (OutgoingError.general_failure _) = general_proxy_failure
get_reason (OutgoingError.network_unreachable _) = network_unreachable
get_reason (OutgoingError.host_unreachable _) = host_unreachable
get_reason (OutgoingError.connection_refused _) = connection_refused
get_reason (OutgoingError.timed_out _) = ttl_expired

-- `Socks5Connected`
pub record Connected (S : Type 0) : Type 0 where
  pub local_addr : SocketAddr
  pub remote_addr : SocketAddr
  pub stream : Option S

module _ {F : Foreign} {S : Type 0} (tcp : Tcp F S) where
  -- Reads from the stream and keeps the stream's new state.
  pub read_from : Option S → ℕ → Action F (Connected S) Bytes
  read_from (some s) n c =
      (io_outcome (tcp.read_exact s n).0, record c { stream = some (tcp.read_exact s n).1 })
  read_from none n c = (Outcome.err not_connected, c)

  unfoldable pub read_exact : ℕ → Action F (Connected S) Bytes
  unfolding read_from
  read_exact n c = read_from c.stream n c

  -- `self.read_exact(&mut buf[lo..hi])`: the buffer after it.
  unfoldable pub read_into : Bytes → ℕ → ℕ → Action F (Connected S) Bytes
  read_into buf lo hi =
      if leb lo hi && leb hi (length buf)
      then read_exact (hi - lo) >>= (λ bs. lift (Outcome.ok (fill buf lo bs)))
      else lift Outcome.panic

  pub write_to : Option S → Bytes → Action F (Connected S) (Unit {0})
  write_to (some s) bs c =
      (io_outcome (tcp.write_all s bs).0, record c { stream = some (tcp.write_all s bs).1 })
  write_to none bs c = (Outcome.err not_connected, c)

  unfoldable pub write_all : Bytes → Action F (Connected S) (Unit {0})
  unfolding write_to
  write_all bs c = write_to c.stream bs c
