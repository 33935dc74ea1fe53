-- ===== src/Config/Address.antt =====
-- Which address a configured one stands for.
use rocks.Base.{ℕ, ◌≡◌, refl, ◌↔◌, ◌⊎◌, inl, inr, List, [], ◌∷◌, Option, none, some, arith}
use rocks.Base.Words.{Bytes}
use rocks.Addr.{IpAddr, SocketAddr}
use rocks.Config.{CfgAddr, with_port, first_addr, choose_addr, into_addr}
use rocks.Error.{Foreign, Result}

-- The IP address of the configuration with its port, whatever domain stands beside it; or, if there
-- is none, the first address that the system's resolver gives for the domain.
abbrev pub Stands :
    {E D : Type 0}
    → (Bytes → Result E IpAddr)
    → (Bytes → ℕ → Result D (List SocketAddr))
    → CfgAddr
    → SocketAddr
    → Type 0
Stands parse_ip lookup c a =
    ((text : Bytes) × (c.ip ≡ some text) × (parse_ip text ≡ Result.ok a.ip) × (a.port ≡ c.port))
    ⊎ ((name : Bytes) × (others : List SocketAddr) × (c.ip ≡ none)
        × (c.domain ≡ some name)
        × (lookup name c.port ≡ Result.ok (a ∷ others)))

module _ {F : Foreign} (parse_ip : Bytes → Result F.AddrParseError IpAddr)
    (lookup : Bytes → ℕ → Result F.IoError (List SocketAddr)) where
  from_ip :
      (c : CfgAddr) (a : SocketAddr) (text : Bytes) (r : Result F.AddrParseError IpAddr)
      → c.ip ≡ some text
      → parse_ip text ≡ r
      → with_port {F = F} parse_ip lookup r c.port ≡ Result.ok a
      → Stands parse_ip lookup c a
  unfolding with_port
  from_ip c a text (Result.ok i) e p h = inl (text, e, ground arith, ground arith)
  from_ip c a text (Result.err x) e p h = ground arith

  from_name :
      (c : CfgAddr) (a : SocketAddr) (name : Bytes) (r : Result F.IoError (List SocketAddr))
      → c.ip ≡ none
      → c.domain ≡ some name
      → lookup name c.port ≡ r
      → first_addr {F = F} parse_ip lookup r ≡ Result.ok a
      → Stands parse_ip lookup c a
  unfolding first_addr
  from_name c a name (Result.err x) n e p h = ground arith
  from_name c a name (Result.ok []) n e p h = ground arith
  from_name c a name (Result.ok (b ∷ others)) n e p h = inr (name, others, n, e, ground arith)

  by_fields :
      (c : CfgAddr) (a : SocketAddr) (i d : Option Bytes)
      → c.ip ≡ i
      → c.domain ≡ d
      → choose_addr {F = F} parse_ip lookup i d c.port ≡ Result.ok a
      → Stands parse_ip lookup c a
  unfolding choose_addr
  by_fields c a (some text) d ei ed h = from_ip c a text (parse_ip text) ei refl h
  by_fields c a none (some name) ei ed h = from_name c a name (lookup name c.port) ei ed refl h
  by_fields c a none none ei ed h = cc

  into_addr_sound :
      (c : CfgAddr) (a : SocketAddr)
      → into_addr {F = F} parse_ip lookup c ≡ Result.ok a
      → Stands parse_ip lookup c a
  unfolding into_addr
  into_addr_sound c a h = by_fields c a c.ip c.domain refl refl h

  into_addr_complete :
      (c : CfgAddr) (a : SocketAddr)
      → Stands parse_ip lookup c a
      → into_addr {F = F} parse_ip lookup c ≡ Result.ok a
  unfolding into_addr choose_addr with_port first_addr
  into_addr_complete c a (inl (text, has_ip, parsed, same_port)) =
      rw (has_ip, parsed) (ground arith)
  into_addr_complete c a (inr (name, others, no_ip, has_name, found)) =
      rw (no_ip, has_name, found) refl

  -- The configuration yields an address exactly if it stands for it.
  pub into_addr-Stands :
      (c : CfgAddr) (a : SocketAddr)
      → (into_addr {F = F} parse_ip lookup c ≡ Result.ok a) ↔ Stands parse_ip lookup c a
  into_addr-Stands c a = (into_addr_sound c a, into_addr_complete c a)
