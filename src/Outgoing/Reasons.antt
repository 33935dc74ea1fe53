-- ===== src/Outgoing/Reasons.antt =====
-- The reasons that the system's errors are turned into, and what a successful request has reached.
use rocks.Base.{ℕ, ◌≡◌, ◌↔◌, refl, false, some, arith}
use rocks.Base.Int.{pos}
use rocks.Addr.{SocketAddr, ReqAddr, port, resolve_local}
use rocks.Addr.Resolve.{Resolves, resolve_local_sound, resolve_local_complete}
use rocks.Error.{Foreign, Error, Result, io, network_unreachable, host_unreachable, timed_out}
use rocks.Outgoing.{TargetOs, linux, Network, connect_error, connect_to, process_request_impl}

module _ {F : Foreign} {S : Type 0} (net : Network F S) where
  -- On Linux an error that is no refusal is reported as a time-out exactly for the system's error
  -- number 113, as an unreachable host exactly for the number 110, and as an unreachable network
  -- exactly for the number 101.
  pub connect_error_linux :
      (e : F.IoError) (n : ℕ)
      → net.is_refused e ≡ false
      → net.raw_os_error e ≡ some (pos n)
      → ((connect_error net linux e ≡ timed_out (io e)) ↔ (n ≡ 113))
        × ((connect_error net linux e ≡ host_unreachable (io e)) ↔ (n ≡ 110))
        × ((connect_error net linux e ≡ network_unreachable (io e)) ↔ (n ≡ 101))
  unfolding connect_error
  connect_error_linux e n refused code = ground arith

module _ {F : Foreign} {S : Type 0} (net : Network F S) (os : TargetOs) where
  reached :
      (r : Result (Error F) SocketAddr) (s : S)
      → connect_to net os r ≡ Result.ok s
      → (a : SocketAddr) × (r ≡ Result.ok a) × (net.connect a ≡ Result.ok s)
  unfolding connect_to
  reached (Result.err e) s h = cc
  reached (Result.ok a) s h = (a, refl, ground arith)

  process_request_impl_sound :
      (r : ReqAddr) (s : S)
      → process_request_impl net os r ≡ Result.ok s
      → (a : SocketAddr) × (a.port ≡ port r)
        × Resolves net.lookup r a
        × (net.connect a ≡ Result.ok s)
  unfolding process_request_impl
  process_request_impl_sound r s h =
      let (a, resolved, connected) = reached (resolve_local net.lookup r) s h in
      let (port_is, from) = resolve_local_sound net.lookup r a resolved in
      (a, port_is, from, connected)

  -- A request succeeds with a connection exactly if it is one to an address with the port of the
  -- request, which is the requested address or, under that port, the first one that the resolver gives
  -- for the domain.
  pub process_request_impl_iff :
      (r : ReqAddr) (s : S)
      → (process_request_impl net os r ≡ Result.ok s) ↔ (
          (a : SocketAddr) × (a.port ≡ port r)
          × Resolves net.lookup r a
          × (net.connect a ≡ Result.ok s))
  unfolding process_request_impl connect_to
  process_request_impl_iff r s = (
    process_request_impl_sound r s,
    λ (a, port_is, from, connected).
        rw (resolve_local_complete {F = F} net.lookup r a from, connect_to, connected) refl,
  )

  -- A domain that does not resolve is reported as an unreachable host.
  pub process_request_impl-unresolved :
      (r : ReqAddr) (e : Error F)
      → resolve_local {F = F} net.lookup r ≡ Result.err e
      → process_request_impl net os r ≡ Result.err (host_unreachable e)
  unfolding process_request_impl connect_to
  process_request_impl-unresolved r e h = rw h

  pub process_request_impl-refused :
      (r : ReqAddr) (a : SocketAddr) (e : F.IoError)
      → resolve_local {F = F} net.lookup r ≡ Result.ok a
      → net.connect a ≡ Result.err e
      → process_request_impl net os r ≡ Result.err (connect_error net os e)
  unfolding process_request_impl connect_to
  process_request_impl-refused r a e h k = ground arith
