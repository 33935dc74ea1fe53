-- ===== src/Connection/Bicopy.antt =====
-- How `bicopy` ends.
use rocks.Base.{ℕ, ◌≡◌, ◌↔◌, refl}
use rocks.Addr.{SocketAddr, ReqAddr, from_addr}
use rocks.Connection.{Socket, Copying, join_results, l_addr, p_addr, bicopy}
use rocks.Error.{
  Foreign, Outcome, Result, io_outcome, and_then-eq-ok, from_description, copy_error_second_half,
}

-- The socket knows both of its addresses.
abbrev pub HasAddrs : {F : Foreign} {C : Type 0} → Socket F C → C → Type 0
HasAddrs s c = (l p : SocketAddr) × (s.local_addr c ≡ Result.ok l) × (s.peer_addr c ≡ Result.ok p)

io_outcome-eq-ok :
    {F : Foreign} {A : Type 0} (r : Result F.IoError A) {a : A}
    → io_outcome {F = F} r ≡ Outcome.ok a
    → r ≡ Result.ok a
io_outcome-eq-ok (Result.ok a) h = cc
io_outcome-eq-ok (Result.err e) h = cc

module _ {F : Foreign} {C : Type 0} (s : Socket F C) (c : C) where
  l_addr-eq-ok :
      {r : ReqAddr} → l_addr s c ≡ Outcome.ok r → (a : SocketAddr) × (s.local_addr c ≡ Result.ok a)
  unfolding l_addr
  l_addr-eq-ok h =
      let (a, known, _) =
        and_then-eq-ok (io_outcome (s.local_addr c)) (λ a. Outcome.ok (from_addr a)) h in
      (a, io_outcome-eq-ok (s.local_addr c) known)

  p_addr-eq-ok :
      {r : ReqAddr} → p_addr s c ≡ Outcome.ok r → (a : SocketAddr) × (s.peer_addr c ≡ Result.ok a)
  unfolding p_addr
  p_addr-eq-ok h =
      let (a, known, _) =
        and_then-eq-ok (io_outcome (s.peer_addr c)) (λ a. Outcome.ok (from_addr a)) h in
      (a, io_outcome-eq-ok (s.peer_addr c) known)

module _ {F : Foreign} {I O : Type 0} (si : Socket F I) (so : Socket F O) (copying : Copying F I O)
    (incoming : I) (outgoing : O) where
  with_addrs :
      HasAddrs si incoming
      → HasAddrs so outgoing
      → bicopy si so copying incoming outgoing
        ≡ join_results {F = F} (copying.i2o incoming outgoing) (copying.o2i incoming outgoing)
  unfolding bicopy
  with_addrs (il, pl, ril, rip) (ol, ql, rol, rop) = rw (rip, rol, ril, rop)

  -- With the addresses known, an error in the direction back to the client is the one that is
  -- reported, whatever became of the other direction.
  pub bicopy_second_half :
      {e : F.IoError}
      → HasAddrs si incoming
      → HasAddrs so outgoing
      → copying.o2i incoming outgoing ≡ Result.err e
      → bicopy si so copying incoming outgoing
        ≡ Outcome.err (from_description (copy_error_second_half e))
  unfolding join_results
  bicopy_second_half {e} hi ho h =
      rw (with_addrs hi ho, h) (by_first (copying.i2o incoming outgoing))
    where
      by_first :
          (r : Result F.IoError ℕ)
          → join_results {F = F} r (Result.err e)
            ≡ Outcome.err (from_description (copy_error_second_half e))
      by_first (Result.ok n) = refl
      by_first (Result.err x) = refl

  both_ok :
      (r s : Result F.IoError ℕ)
      → join_results {F = F} r s ≡ Outcome.ok tt
      → ((n : ℕ) × (r ≡ Result.ok n)) × ((m : ℕ) × (s ≡ Result.ok m))
  unfolding join_results
  both_ok (Result.ok n) (Result.ok m) h = ((n, refl), (m, refl))
  both_ok (Result.ok n) (Result.err x) h = cc
  both_ok (Result.err x) (Result.ok m) h = cc
  both_ok (Result.err x) (Result.err y) h = cc

  -- The call succeeds exactly if the four addresses are known and both directions were copied to
  -- their ends.
  pub bicopy_iff : (bicopy si so copying incoming outgoing ≡ Outcome.ok tt) ↔ (
      HasAddrs si incoming
      × HasAddrs so outgoing
      × ((n : ℕ) × (copying.i2o incoming outgoing ≡ Result.ok n))
      × ((m : ℕ) × (copying.o2i incoming outgoing ≡ Result.ok m)))
  unfolding bicopy join_results
  bicopy_iff = (
    λ h.
        let (_, ipeer, h1) = and_then-eq-ok (p_addr si incoming) _ h in
        let (_, ol, h2) = and_then-eq-ok (l_addr so outgoing) _ h1 in
        let (_, il, h3) = and_then-eq-ok (l_addr si incoming) _ h2 in
        let (_, op, h4) = and_then-eq-ok (p_addr so outgoing) _ h3 in
        let (x, xe) = p_addr-eq-ok si incoming ipeer in
        let (y, ye) = l_addr-eq-ok so outgoing ol in
        let (z, ze) = l_addr-eq-ok si incoming il in
        let (w, we) = p_addr-eq-ok so outgoing op in
        let both = both_ok (copying.i2o incoming outgoing) (copying.o2i incoming outgoing) h4 in
        ((z, x, ze, xe), (y, w, ye, we), both.0, both.1),
    λ (hi, ho, (n, copied), (m, back)). rw (with_addrs hi ho, copied, back),
  )
