-- ===== src/Manager/Codes.antt =====
-- The number that a SOCKS5 client is told for a request that src/outgoing.rs cannot serve, on Linux.
use native.Mathlib.Decide.{ℕ_discrete}
use rocks.Base.{
  ◌↔◌, ℕ, subst, ◌==◌, if◌then◌else◌, arith, ◌≡◌, ◌≢◌, ◌∙◌, refl, sym, Bool-cases, true, false, inl,
  inr, Option, none, some, List, [], ◌∷◌,
}
use rocks.Base.Words.{Bytes}
use rocks.Base.Int.{ℤ, pos, negsuc}
use rocks.Addr.{SocketAddr, ReqAddr, ip, domain, resolve_local}
use rocks.Addr.Resolve.{Resolves, resolve_local_sound, resolve_local_complete}
use rocks.Error.{
  Foreign, Error, OutgoingError, Result, io, err_inj, from_description, local_resolve_failure,
  host_unreachable,
}
use rocks.Outgoing.{linux, Network, connect_error, process_request_impl}
use rocks.Outgoing.Reasons.{
  process_request_impl_iff, process_request_impl-refused, process_request_impl-unresolved,
}
use rocks.Socks5.{get_reason, error_code}

-- `TellsError net e code`: the code of the protocol for a connect that fails with `e`. It is 5 for a
-- refusal; by the system's number 3 for 101, 4 for 110 and 6 for 113; and 1 for anything else.
pub data TellsError {F : Foreign} {S : Type 0} (net : Network F S) (e : F.IoError)
    : ℕ → Type 0 where
  for_refusal : net.is_refused e ≡ true → TellsError net e 5
  for_101 : net.is_refused e ≡ false → net.raw_os_error e ≡ some (pos 101) → TellsError net e 3
  for_110 : net.is_refused e ≡ false → net.raw_os_error e ≡ some (pos 110) → TellsError net e 4
  for_113 : net.is_refused e ≡ false → net.raw_os_error e ≡ some (pos 113) → TellsError net e 6
  for_other :
      net.is_refused e ≡ false
      → net.raw_os_error e ≢ some (pos 101)
      → net.raw_os_error e ≢ some (pos 110)
      → net.raw_os_error e ≢ some (pos 113)
      → TellsError net e 1

-- `Tells net r code`: the code for a request that there is no connection for. A domain that the
-- resolver fails for or has no address of is an unreachable host, which is 4.
pub data Tells {F : Foreign} {S : Type 0} (net : Network F S) (r : ReqAddr) : ℕ → Type 0 where
  for_failed_lookup :
      (name : Bytes) (p : ℕ) (e : F.IoError)
      → r ≡ domain name p
      → net.lookup name p ≡ Result.err e
      → Tells net r 4
  for_no_address :
      (name : Bytes) (p : ℕ) → r ≡ domain name p → net.lookup name p ≡ Result.ok [] → Tells net r 4
  for_connect :
      (a : SocketAddr) (e : F.IoError) {code : ℕ}
      → Resolves net.lookup r a
      → net.connect a ≡ Result.err e
      → TellsError net e code
      → Tells net r code

module _ {F : Foreign} {S : Type 0} (net : Network F S) where
  code_of : F.IoError → ℕ
  code_of e = error_code (get_reason (connect_error net linux e))

  code_of-refused : (e : F.IoError) → net.is_refused e ≡ true → code_of e ≡ 5
  unfolding code_of connect_error get_reason error_code
  code_of-refused e h = rw h refl

  code_of-none :
      (e : F.IoError) → net.is_refused e ≡ false → net.raw_os_error e ≡ none → code_of e ≡ 1
  unfolding code_of connect_error get_reason error_code
  code_of-none e h k = rw (h, k) refl

  code_of-negative :
      (e : F.IoError) (n : ℕ)
      → net.is_refused e ≡ false
      → net.raw_os_error e ≡ some (negsuc n)
      → code_of e ≡ 1
  unfolding code_of connect_error get_reason error_code
  code_of-negative e n h k = rw (h, k) refl

  code_of-number :
      (e : F.IoError) (n : ℕ)
      → net.is_refused e ≡ false
      → net.raw_os_error e ≡ some (pos n)
      → code_of e ≡ (if n == 101 then 3 else if n == 110 then 4 else if n == 113 then 6 else 1)
  unfolding code_of connect_error get_reason error_code
  code_of-number e n h k = rw (h, k) (ground arith)

  as_number :
      (e : F.IoError) {code : ℕ}
      → code_of e ≡ code
      → TellsError net e code
      → TellsError net e (code_of e)
  as_number e same t = subst (TellsError net e) (sym same) t

  of_number :
      (e : F.IoError) (n : ℕ)
      → net.is_refused e ≡ false
      → net.raw_os_error e ≡ some (pos n)
      → TellsError net e (code_of e)
  of_number e n h k = elim (ℕ_discrete n 101) [
    | yes is ↦ as_number e (code_of-number e n h k ∙ rw is refl) (for_101 h (rw is at k))
    | no not_101 ↦ elim (ℕ_discrete n 110) [
      | yes is ↦ as_number e (code_of-number e n h k ∙ rw is refl) (for_110 h (rw is at k))
      | no not_110 ↦ elim (ℕ_discrete n 113) [
        | yes is ↦ as_number e (code_of-number e n h k ∙ rw is refl) (for_113 h (rw is at k))
        | no not_113 ↦
            as_number e (code_of-number e n h k ∙ ground arith)
              (for_other h (λ x. not_101 (cc)) (λ x. not_110 (cc)) (λ x. not_113 (cc)))
      ]
    ]
  ]

  unrefused :
      (e : F.IoError) (n : Option ℤ)
      → net.is_refused e ≡ false
      → net.raw_os_error e ≡ n
      → TellsError net e (code_of e)
  unrefused e none h k =
      as_number e (code_of-none e h k) (for_other h (λ x. cc) (λ x. cc) (λ x. cc))
  unrefused e (some (pos n)) h k = of_number e n h k
  unrefused e (some (negsuc n)) h k =
      as_number e (code_of-negative e n h k) (for_other h (λ x. cc) (λ x. cc) (λ x. cc))

  connect_error-TellsError : (e : F.IoError) → TellsError net e (code_of e)
  connect_error-TellsError e = elim (Bool-cases (net.is_refused e)) [
    | inl refused ↦ as_number e (code_of-refused e refused) (for_refusal refused)
    | inr other ↦ unrefused e (net.raw_os_error e) other refl
  ]

  as_reason :
      (r : ReqAddr) {e x : OutgoingError F}
      → process_request_impl net linux r ≡ Result.err e
      → process_request_impl net linux r ≡ Result.err x
      → Tells net r (error_code (get_reason x))
      → Tells net r (error_code (get_reason e))
  as_reason r {e} {x} failed known t =
      let same : x ≡ e = err_inj (sym known ∙ failed) in
      subst (λ y. Tells net r (error_code (get_reason y))) same t

  of_connect :
      (r : ReqAddr) (a : SocketAddr) (q : Result F.IoError S) {e : OutgoingError F}
      → resolve_local {F = F} net.lookup r ≡ Result.ok a
      → net.connect a ≡ q
      → process_request_impl net linux r ≡ Result.err e
      → Tells net r (error_code (get_reason e))
  unfolding code_of
  of_connect r a (Result.ok s) resolved h failed =
      let (port_is, from) = resolve_local_sound {F = F} net.lookup r a resolved in
      let reached = (process_request_impl_iff net linux r s).1 (a, port_is, from, h) in cc
  of_connect r a (Result.err x) resolved h failed =
      let (_, from) = resolve_local_sound {F = F} net.lookup r a resolved in
      as_reason r failed (process_request_impl-refused net linux r a x resolved h)
        (for_connect a x from h (connect_error-TellsError x))

  of_unresolved :
      (name : Bytes) (p : ℕ) (x : Error F) {e : OutgoingError F}
      → resolve_local {F = F} net.lookup (domain name p) ≡ Result.err x
      → process_request_impl net linux (domain name p) ≡ Result.err e
      → Tells net (domain name p) 4
      → Tells net (domain name p) (error_code (get_reason e))
  unfolding get_reason error_code
  of_unresolved name p x unresolved failed t =
      as_reason (domain name p) failed
        (process_request_impl-unresolved net linux (domain name p) x unresolved) t

  of_domain :
      (name : Bytes) (p : ℕ) (q : Result F.IoError (List SocketAddr)) {e : OutgoingError F}
      → net.lookup name p ≡ q
      → process_request_impl net linux (domain name p) ≡ Result.err e
      → Tells net (domain name p) (error_code (get_reason e))
  unfolding resolve_local
  of_domain name p (Result.err x) h failed =
      of_unresolved name p (io x) (rw (resolve_local, h) refl) failed
        (for_failed_lookup name p x refl h)
  of_domain name p (Result.ok []) h failed =
      of_unresolved name p (from_description local_resolve_failure) (rw (resolve_local, h) refl)
        failed (for_no_address name p refl h)
  of_domain name p (Result.ok (a ∷ others)) h failed =
      of_connect (domain name p) (record { ip = a.ip; port = p }) _ (rw (resolve_local, h) refl)
        refl failed

  process_request_impl-Tells :
      (r : ReqAddr) {e : OutgoingError F}
      → process_request_impl net linux r ≡ Result.err e
      → Tells net r (error_code (get_reason e))
  unfolding resolve_local
  process_request_impl-Tells (ip a) failed = of_connect (ip a) a (net.connect a) refl refl failed
  process_request_impl-Tells (domain name p) failed =
      of_domain name p (net.lookup name p) refl failed

  other_code :
      (e : F.IoError) (n : Option ℤ)
      → net.is_refused e ≡ false
      → net.raw_os_error e ≡ n
      → net.raw_os_error e ≢ some (pos 101)
      → net.raw_os_error e ≢ some (pos 110)
      → net.raw_os_error e ≢ some (pos 113)
      → code_of e ≡ 1
  other_code e none h k a b c = code_of-none e h k
  other_code e (some (negsuc n)) h k a b c = code_of-negative e n h k
  other_code e (some (pos n)) h k a b c =
      let not_101 : n ≢ 101 = λ x. a (rw x at k) in
      let not_110 : n ≢ 110 = λ x. b (rw x at k) in
      let not_113 : n ≢ 113 = λ x. c (rw x at k) in code_of-number e n h k ∙ ground arith

  TellsError-code : (e : F.IoError) {code : ℕ} → TellsError net e code → code_of e ≡ code
  TellsError-code e (for_refusal h) = code_of-refused e h
  TellsError-code e (for_101 h k) = code_of-number e 101 h k
  TellsError-code e (for_110 h k) = code_of-number e 110 h k
  TellsError-code e (for_113 h k) = code_of-number e 113 h k
  TellsError-code e (for_other h a b c) = other_code e (net.raw_os_error e) h refl a b c

  Tells-process_request_impl :
      (r : ReqAddr) {code : ℕ}
      → Tells net r code
      → (e : OutgoingError F) × (process_request_impl net linux r ≡ Result.err e)
        × (error_code (get_reason e) ≡ code)
  unfolding resolve_local get_reason error_code code_of
  Tells-process_request_impl r (for_failed_lookup name p x same h) = (
    host_unreachable (io x),
    process_request_impl-unresolved net linux r (io x) (rw (same, resolve_local, h) refl),
    refl,
  )
  Tells-process_request_impl r (for_no_address name p same h) = (
    host_unreachable (from_description local_resolve_failure),
    process_request_impl-unresolved net linux r (from_description local_resolve_failure)
        (rw (same, resolve_local, h) refl),
    refl,
  )
  Tells-process_request_impl r (for_connect a x from h t) = (
    connect_error net linux x,
    process_request_impl-refused net linux r a x
        (resolve_local_complete {F = F} net.lookup r a from) h,
    TellsError-code x t,
  )

  -- A request fails for a reason of which the code is this exactly if this is the code for it.
  pub fails-Tells :
      (r : ReqAddr) (code : ℕ)
      → ((e : OutgoingError F) × (process_request_impl net linux r ≡ Result.err e)
          × (error_code (get_reason e) ≡ code))
        ↔ Tells net r code
  fails-Tells r code = (
    λ (e, failed, same). subst (Tells net r) same (process_request_impl-Tells r failed),
    Tells-process_request_impl r,
  )
