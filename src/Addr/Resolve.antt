-- ===== src/Addr/Resolve.antt =====
-- `resolve_local` of src/req_addr.rs.
use rocks.Base.{ℕ, ◌≡◌, refl, ◌⊎◌, inl, inr, List, [], ◌∷◌, arith}
use rocks.Base.Words.{Bytes}
use rocks.Addr.{SocketAddr, ReqAddr, ip, domain, port, resolve_local}
use rocks.Error.{Foreign, Result}

-- Where the address `a` that answers request `r` comes from.
abbrev pub Resolves :
    {E : Type 0} → (Bytes → ℕ → Result E (List SocketAddr)) → ReqAddr → SocketAddr → Type 0
Resolves lookup r a =
    (r ≡ ip a)
    ⊎ ((name : Bytes) × (first : SocketAddr) × (others : List SocketAddr) × (r ≡ domain name a.port)
        × (lookup name a.port ≡ Result.ok (first ∷ others))
        × (a.ip ≡ first.ip))

module _ {F : Foreign} (lookup : Bytes → ℕ → Result F.IoError (List SocketAddr)) where
  resolve_domain_sound :
      (name : Bytes) (p : ℕ) (a : SocketAddr) (found : Result F.IoError (List SocketAddr))
      → lookup name p ≡ found
      → resolve_local {F = F} lookup (domain name p) ≡ Result.ok a
      → (a.port ≡ p) × Resolves lookup (domain name p) a
  unfolding resolve_local port
  resolve_domain_sound name p a (Result.err e) l h = ground arith
  resolve_domain_sound name p a (Result.ok []) l h = ground arith
  resolve_domain_sound name p a (Result.ok (x ∷ xs)) l h =
      (ground arith, inr (name, x, xs, ground arith, ground arith, ground arith))

  -- What is resolved has the port of the request, and is the requested address itself or the first
  -- address that the system's resolver gave for the domain.
  pub resolve_local_sound :
      (r : ReqAddr) (a : SocketAddr)
      → resolve_local {F = F} lookup r ≡ Result.ok a
      → (a.port ≡ port r) × Resolves lookup r a
  unfolding resolve_local port
  resolve_local_sound (ip b) a h = ground arith
  resolve_local_sound (domain name p) a h = resolve_domain_sound name p a (lookup name p) refl h

  pub resolve_local_complete :
      (r : ReqAddr) (a : SocketAddr)
      → Resolves lookup r a
      → resolve_local {F = F} lookup r ≡ Result.ok a
  unfolding resolve_local
  resolve_local_complete r a (inl same) = rw same refl
  resolve_local_complete r a (inr (name, first, others, same, found, of_first)) =
      rw (same, resolve_local, found) (ground arith)
