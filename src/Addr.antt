-- ===== src/Addr.antt =====
-- src/req_addr.rs, and what it uses of `std::net`: socket addresses as the code takes them apart.
pub mod Parse
pub mod Resolve
use rocks.Base.{
  ℕ, ◌+◌, List, [], ◌∷◌, Option, none, some, get_elem?, take, length, if◌then◌else◌, ◌==◌, leb, not,
}
use rocks.Base.Words.{Bytes, join_u16}
use rocks.Buffer.{at, slice}
use rocks.Error.{
  Foreign, Error, Outcome, Result, io, utf8, from_description, and_then, ipv4_format_error,
  ipv6_format_error, local_resolve_failure,
}

-- `IpAddr`: four octets, or eight 16-bit segments.
pub data IpAddr : Type 0 where
  v4 : (a b c d : ℕ) → IpAddr
  v6 : (a b c d e f g h : ℕ) → IpAddr

-- `SocketAddr`; `SocketAddr::new` sets flow and scope of an IPv6 address to 0.
pub record SocketAddr : Type 0 where
  pub ip : IpAddr
  pub port : ℕ

-- A domain is the UTF-8 bytes of the `String`.
pub data ReqAddr : Type 0 where
  ip : SocketAddr → ReqAddr
  domain : Bytes → ℕ → ReqAddr

abbrev pub from_addr : SocketAddr → ReqAddr
from_addr a = ip a

abbrev pub from_domain : Bytes → ℕ → ReqAddr
from_domain name port = domain name port

unfoldable pub port : ReqAddr → ℕ
port (ip a) = a.port
port (domain _ p) = p

-- `ReqAddr::default`: 127.0.0.1:0
abbrev pub default : ReqAddr
default = ip (record { ip = v4 127 0 0 1; port = 0 })

-- `((xs[i] as u16) << 8) | (xs[j] as u16)`
unfoldable pub u16_at : {F : Foreign} → Bytes → ℕ → ℕ → Outcome F ℕ
u16_at xs i j = and_then (at xs i) (λ hi. and_then (at xs j) (λ lo. Outcome.ok (join_u16 hi lo)))

unfoldable pub parse_address_v4 : {F : Foreign} → Bytes → Outcome F ReqAddr
unfolding u16_at
parse_address_v4 bs =
    if not (length bs == 6)
    then Outcome.err (from_description ipv4_format_error)
    else and_then (at bs 0) λ a. and_then (at bs 1) λ b. and_then (at bs 2) λ c.
      and_then (at bs 3) λ d.
        and_then (u16_at bs 3 4) λ p. Outcome.ok (from_addr (record { ip = v4 a b c d; port = p }))

unfoldable pub parse_address_v6 : {F : Foreign} → Bytes → Outcome F ReqAddr
unfolding u16_at
parse_address_v6 bs =
    if not (length bs == 18)
    then Outcome.err (from_description ipv6_format_error)
    else and_then (u16_at bs 0 1) λ a. and_then (u16_at bs 2 3) λ b. and_then (u16_at bs 4 5) λ c.
      and_then (u16_at bs 6 7) λ d. and_then (u16_at bs 8 9) λ e. and_then (u16_at bs 10 11) λ f.
        and_then (u16_at bs 12 13) λ g. and_then (u16_at bs 14 15) λ h.
          and_then (u16_at bs 16 17)
            λ p. Outcome.ok (from_addr (record { ip = v6 a b c d e f g h; port = p }))

-- `std::str::from_utf8` is a parameter: the error that it finds in some bytes, if any.
unfoldable pub parse_domain :
    {F : Foreign} → (Bytes → Option F.Utf8Error) → ℕ → Bytes → Outcome F ReqAddr
unfolding u16_at
parse_domain utf8_error addr_len bs = and_then (slice bs 0 addr_len) λ host.
    elim (utf8_error host) [
      | some e ↦ Outcome.err (utf8 e)
      | none ↦ and_then (u16_at bs addr_len (addr_len + 1)) λ p. Outcome.ok (from_domain host p)
    ]

-- `to_socket_addrs` on a host name and a port, the resolver of the system, is a parameter.
unfoldable pub resolve_local :
    {F : Foreign}
    → (Bytes → ℕ → Result F.IoError (List SocketAddr))
    → ReqAddr
    → Result (Error F) SocketAddr
resolve_local lookup (ip a) = Result.ok a
resolve_local lookup (domain name p) = elim (lookup name p) [
  | Result.err e ↦ Result.err (io e)
  | Result.ok [] ↦ Result.err (from_description local_resolve_failure)
  | Result.ok (a ∷ _) ↦ Result.ok (record { ip = a.ip; port = p })
]
