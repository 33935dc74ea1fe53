-- ===== src/Socks5/Auth/Handshake.antt =====
-- What `authenticate_client` reads, answers and returns.
use mathlib.Core.List.{Mem, mem-cons, mem-cons_self, mem-cons_of_mem, not-mem-nil}
use mathlib.Core.Logic.Or
use mathlib.Core.Bool.{Bool-set}
use rocks.Base.{
  ℕ, ◌≤◌, ◌<◌, ◌≡◌, ◌≢◌, refl, ap, ◌||◌, [], ◌∷◌, ◌++◌, arith, true, length, replicate, ◌==◌,
  if◌then◌else◌, Bool-cases, inl, inr, ==_iff, ne→==_false, not,
}
use rocks.Base.Words.{Bytes}
use rocks.Buffer.{fill, slice-fill}
use rocks.Net.{Tcp, TcpLaws}
use rocks.Error.{
  Foreign, Outcome, when, fail, ◌>>◌, from_description, not_socks5_protocol, no_supported_method,
}
use rocks.Socks5.{write_all}
use rocks.Socks5.Wire.Breaks.{Breaks, Breaks-first, Breaks-later, read_into-Breaks}
use rocks.Socks5.Wire.{
  Runs, Runs-bind, Runs-err, Runs-when, Runs-lift, read_into-Runs, write_all-Runs,
}
use rocks.Socks5.Auth.{contains, authenticate_client}

pub contains→mem : (ms : Bytes) (m : ℕ) → contains ms m ≡ true → Mem m ms
unfolding contains
contains→mem [] m h = cc
contains→mem (x ∷ ms) m h = elim (Bool-cases (x == m)) [
  | inl same ↦ rw (← (==_iff x m).0 same) mem-cons_self
  | inr other ↦ mem-cons_of_mem x (contains→mem ms m (rw other at h))
]

pub mem→contains : (ms : Bytes) (m : ℕ) → Mem m ms → contains ms m ≡ true
unfolding contains
mem→contains [] m h = absurd (not-mem-nil h)
mem→contains (x ∷ ms) m h =
    Or.elim (Bool-set _ _) (mem-cons.0 h) (λ e. head x m ms e)
      (λ k. tail x m ms (mem→contains ms m k))
  where
    head : (x m : ℕ) (ms : Bytes) → m ≡ x → (x == m || contains ms m) ≡ true
    head x m ms e = ground arith

    tail : (x m : ℕ) (ms : Bytes) → contains ms m ≡ true → (x == m || contains ms m) ≡ true
    tail x m ms e = ground arith

module _ {F : Foreign} {S : Type 0} {tcp : Tcp F S} (laws : TcpLaws tcp) where
  -- A greeting of another protocol is an error, and nothing is answered.
  pub authenticate_wrong :
      (p n : ℕ) (rest out : Bytes)
      → p ≢ 5
      → Runs laws
          (authenticate_client tcp)
          (p ∷ n ∷ rest)
          out
          (Outcome.err (from_description (not_socks5_protocol p)))
          rest
          out
  unfolding authenticate_client
  authenticate_wrong p n rest out h =
      Runs-bind laws _
        (read_into-Runs laws (replicate 256 0) 0 2 (p ∷ n ∷ []) rest out (omega arith) (omega arith)
          refl)
        (Runs-when laws _ _ (ap not (ne→==_false p 5 h)) (Runs-lift laws _ rest out))

  answer :
      (methods rest out : Bytes)
      → Runs laws
          (when
              (not (contains methods 0))
              (do write_all tcp (5 ∷ 255 ∷ []); fail (from_description no_supported_method))
            >> write_all tcp (5 ∷ 0 ∷ []))
          rest
          out
          (if contains methods 0
            then Outcome.ok tt
            else Outcome.err (from_description no_supported_method))
          rest
          (out ++ 5 ∷ (if contains methods 0 then 0 else 255) ∷ [])
  answer methods rest out = elim (Bool-cases (contains methods 0)) [
    | inl yes_ ↦ rw yes_ (write_all-Runs laws (5 ∷ 0 ∷ []) rest out)
    | inr no_ ↦ rw no_ (
        Runs-err laws _ (
          Runs-bind laws _ (write_all-Runs laws (5 ∷ 255 ∷ []) rest out) (Runs-lift laws _ rest _)))
  ]

  -- A greeting is read to the end of its method list. The client is accepted, and told so, exactly if
  -- the list has the method of no authentication; otherwise it is told that no method is acceptable.
  pub authenticate-Runs :
      (methods rest out : Bytes)
      → length methods ≤ 255
      → Runs laws
          (authenticate_client tcp)
          (5 ∷ length methods ∷ (methods ++ rest))
          out
          (if contains methods 0
            then Outcome.ok tt
            else Outcome.err (from_description no_supported_method))
          rest
          (out ++ 5 ∷ (if contains methods 0 then 0 else 255) ∷ [])
  unfolding authenticate_client
  authenticate-Runs methods rest out h =
      Runs-bind laws _
        (read_into-Runs laws (replicate 256 0) 0 2 (5 ∷ length methods ∷ []) (methods ++ rest) out
          (omega arith) (omega arith) refl)
        (Runs-bind laws _
          (read_into-Runs laws (fill (replicate 256 0) 0 (5 ∷ length methods ∷ [])) 0
            (length methods) methods rest out (omega arith) (omega arith) (omega arith))
          (rw (slice-fill {F = F} (fill (replicate 256 0) 0 (5 ∷ length methods ∷ [])) methods)
            (answer methods rest out)))

  -- A stream that ends before the number of methods is an error, and nothing is answered.
  pub authenticate_ended :
      (inp out : Bytes) → length inp < 2 → Breaks laws (authenticate_client tcp) inp out out
  unfolding authenticate_client
  authenticate_ended inp out short = Breaks-first laws _ (
      read_into-Breaks laws (replicate 256 0) 0 2 inp out (omega arith) (omega arith) (omega arith))

  -- A greeting that ends too early is an error of the stream, and nothing is answered.
  pub authenticate_truncated :
      (methods out : Bytes) (n : ℕ)
      → length methods < n
      → n ≤ 255
      → Breaks laws (authenticate_client tcp) (5 ∷ n ∷ methods) out out
  unfolding authenticate_client
  authenticate_truncated methods out n short h =
      Breaks-later laws _
        (read_into-Runs laws (replicate 256 0) 0 2 (5 ∷ n ∷ []) methods out (omega arith)
          (omega arith) refl)
        (Breaks-first laws _ (
          read_into-Breaks laws (fill (replicate 256 0) 0 (5 ∷ n ∷ [])) 0 n methods out
            (omega arith) (omega arith) (omega arith)))

  -- With the method of no authentication in the list the client is accepted, and told so.
  pub authenticate_accepts :
      (methods rest out : Bytes)
      → length methods ≤ 255
      → Mem 0 methods
      → Runs laws
          (authenticate_client tcp)
          (5 ∷ length methods ∷ (methods ++ rest))
          out
          (Outcome.ok tt)
          rest
          (out ++ 5 ∷ 0 ∷ [])
  authenticate_accepts methods rest out h m =
      rw (mem→contains methods 0 m) at (authenticate-Runs methods rest out h)

  -- Without it the client is told that no method is acceptable, and the call fails.
  pub authenticate_rejects :
      (methods rest out : Bytes)
      → length methods ≤ 255
      → ¬ Mem 0 methods
      → Runs laws
          (authenticate_client tcp)
          (5 ∷ length methods ∷ (methods ++ rest))
          out
          (Outcome.err (from_description no_supported_method))
          rest
          (out ++ 5 ∷ 0xff ∷ [])
  authenticate_rejects methods rest out h m = elim (Bool-cases (contains methods 0)) [
    | inl found ↦ absurd (m (contains→mem methods 0 found))
    | inr missing ↦ rw missing at (authenticate-Runs methods rest out h)
  ]

  -- How a client that offers the method, or does not, is answered, and how the call ends.
  abbrev pub chosen : {P : Type 0} → Dec P → ℕ
  chosen (yes _) = 0
  chosen (no _) = 0xff

  abbrev pub verdict : {P : Type 0} → Dec P → Outcome F (Unit {0})
  verdict (yes _) = Outcome.ok tt
  verdict (no _) = Outcome.err (from_description no_supported_method)

  -- A greeting of at most 255 methods is read to the end of their list, and no further. With the method of no
  -- authentication in the list the client is accepted, and told so; without it the client is told that
  -- no method is acceptable, and the call fails.
  pub authenticate_decides :
      (methods rest out : Bytes) (offered : Dec (Mem 0 methods))
      → length methods ≤ 255
      → Runs laws
          (authenticate_client tcp)
          (5 ∷ length methods ∷ (methods ++ rest))
          out
          (verdict offered)
          rest
          (out ++ 5 ∷ chosen offered ∷ [])
  authenticate_decides methods rest out (yes m) h = authenticate_accepts methods rest out h m
  authenticate_decides methods rest out (no m) h = authenticate_rejects methods rest out h m
