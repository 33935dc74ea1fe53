-- ===== src/Config.antt =====
-- src/config.rs: the configuration, and the address that a `CfgAddr` stands for. Parsing an IP
-- address and resolving a host name are the standard library's, and are parameters.
pub mod Address
use rocks.Base.{ℕ, List, [], ◌∷◌, Option, none, some}
use rocks.Base.Words.{Bytes}
use rocks.Addr.{IpAddr, SocketAddr}
use rocks.Error.{
  Foreign, Error, Result, io, addr, from_description, invalid_domain, invalid_address_in_config,
}

pub record CfgAddr : Type 0 where
  pub ip : Option Bytes
  pub domain : Option Bytes
  pub port : ℕ

pub data IncomingType : Type 0 where
  socks5 rocks_type deny redirect : IncomingType

pub record SslConfig : Type 0 where
  pub keyfile : Bytes
  pub certfile : Bytes

pub record IncomingConfig : Type 0 where
  pub incoming_type : IncomingType
  pub userfile : Option Bytes
  pub listen_addr : CfgAddr
  pub ssl : Option SslConfig

pub data OutgoingType : Type 0 where
  rocks_type direct ignore : OutgoingType

pub record OutgoingConfig : Type 0 where
  pub outgoing_type : OutgoingType
  pub user : Option Bytes
  pub listen_addr : Option CfgAddr

pub record RocksConfig : Type 0 where
  pub incoming : IncomingConfig
  pub outgoing : OutgoingConfig

module _ {F : Foreign} (parse_ip : Bytes → Result F.AddrParseError IpAddr)
    (lookup : Bytes → ℕ → Result F.IoError (List SocketAddr)) where
  -- `ip.parse()?`
  with_port : Result F.AddrParseError IpAddr → ℕ → Result (Error F) SocketAddr
  with_port (Result.ok i) p = Result.ok (record { ip = i; port = p })
  with_port (Result.err e) p = Result.err (addr e)

  -- `.to_socket_addrs()?.next().ok_or(..)?`
  first_addr : Result F.IoError (List SocketAddr) → Result (Error F) SocketAddr
  first_addr (Result.err e) = Result.err (io e)
  first_addr (Result.ok []) = Result.err (from_description invalid_domain)
  first_addr (Result.ok (a ∷ _)) = Result.ok a

  choose_addr : Option Bytes → Option Bytes → ℕ → Result (Error F) SocketAddr
  unfolding with_port first_addr
  choose_addr (some i) _ p = with_port (parse_ip i) p
  choose_addr none (some name) p = first_addr (lookup name p)
  choose_addr none none p = Result.err (from_description invalid_address_in_config)

  -- `CfgAddr::into_addr`
  unfoldable pub into_addr : CfgAddr → Result (Error F) SocketAddr
  unfolding choose_addr
  into_addr c = choose_addr c.ip c.domain c.port
