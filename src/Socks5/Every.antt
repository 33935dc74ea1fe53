-- ===== src/Socks5/Every.antt =====
-- The greeting and the request of a SOCKS5 client, on every input: `next_request` of
-- src/socks5/incoming.rs.
use mathlib.Core.List.{Mem}
use native.Mathlib.Decide.{dec_le, ℕ_discrete}
use rocks.Base.{
  ℕ, ◌≤◌, ◌<◌, ◌≡◌, ◌≢◌, ◌⊎◌, inl, inr, subst, [], ◌∷◌, ◌++◌, arith, Bool, Bool-cases, Option,
  length,
}
use rocks.Base.Words.{Bytes, IsBytes}
use rocks.Addr.{ReqAddr}
use rocks.Net.{Tcp, TcpLaws}
use rocks.Error.{Foreign, Outcome, from_description, not_socks5_protocol, no_supported_method}
use rocks.Socks5.Wire.{Runs, Runs-bind, Runs-err}
use rocks.Socks5.Wire.Breaks.{Breaks, Breaks-first, Breaks-later}
use rocks.Socks5.Auth.{contains}
use rocks.Socks5.Auth.Handshake.{
  contains→mem, mem→contains, authenticate_wrong, authenticate_ended, authenticate_truncated,
  authenticate_accepts, authenticate_rejects,
}
use rocks.Socks5.Request.{next_request}
use rocks.Socks5.Request.Decides.{Cut, Verdict, Cut-Breaks, Verdict-Runs}
use rocks.Socks5.Request.Every.{judge}
use rocks.Socks5.Request.Parts.{name_front}

module _ (out : Bytes) where
  -- `CutShort inp out'`: input that ends before the greeting or the request does, and what is written
  -- by then.
  pub data CutShort : Bytes → Bytes → Type 0 where
    at_start : {inp : Bytes} → length inp < 2 → CutShort inp out
    in_methods : {n : ℕ} {rest : Bytes} → length rest < n → n ≤ 255 → CutShort (5 ∷ n ∷ rest) out
    in_request :
        (methods : Bytes) {rest : Bytes}
        → length methods ≤ 255
        → Mem 0 methods
        → Cut rest
        → CutShort (5 ∷ length methods ∷ (methods ++ rest)) (out ++ 5 ∷ 0 ∷ [])

  module _ (F : Foreign) (utf8_error : Bytes → Option F.Utf8Error) (debug : Bool) where
    -- `Exchange inp r left out'`: a greeting, and where it is accepted a request, at the front of
    -- `inp` come to `r`, and leave `left` unread and `out'` written.
    pub data Exchange : Bytes → Outcome F ReqAddr → Bytes → Bytes → Type 0 where
      other_greeting :
          (p n : ℕ) (rest : Bytes)
          → p ≢ 5
          → Exchange
              (p ∷ n ∷ rest)
              (Outcome.err (from_description (not_socks5_protocol p)))
              rest
              out
      no_method :
          (methods rest : Bytes)
          → length methods ≤ 255
          → ¬ Mem 0 methods
          → Exchange
              (5 ∷ length methods ∷ (methods ++ rest))
              (Outcome.err (from_description no_supported_method))
              rest
              (out ++ 5 ∷ 0xff ∷ [])
      accepted :
          (methods : Bytes) {rest left out' : Bytes} {r : Outcome F ReqAddr}
          → length methods ≤ 255
          → Mem 0 methods
          → Verdict F utf8_error debug (out ++ 5 ∷ 0 ∷ []) rest r left out'
          → Exchange (5 ∷ length methods ∷ (methods ++ rest)) r left out'

    module _ {S : Type 0} {tcp : Tcp F S} (laws : TcpLaws tcp) where
      CutShort-Breaks :
          {inp out' : Bytes}
          → CutShort inp out'
          → Breaks laws (next_request tcp utf8_error debug) inp out out'
      unfolding next_request
      CutShort-Breaks (at_start {inp} short) =
          Breaks-first laws _ (authenticate_ended laws inp out short)
      CutShort-Breaks (in_methods {n} {rest} short few) =
          Breaks-first laws _ (authenticate_truncated laws rest out n short few)
      CutShort-Breaks (in_request methods {rest} few offered cut) =
          Breaks-later laws _ (authenticate_accepts laws methods rest out few offered)
            (Cut-Breaks F utf8_error debug _ laws cut)

      Exchange-Runs :
          {inp left out' : Bytes} {r : Outcome F ReqAddr}
          → Exchange inp r left out'
          → Runs laws (next_request tcp utf8_error debug) inp out r left out'
      unfolding next_request
      Exchange-Runs (other_greeting p n rest wrong) =
          Runs-err laws _ (authenticate_wrong laws p n rest out wrong)
      Exchange-Runs (no_method methods rest few none_offered) =
          Runs-err laws _ (authenticate_rejects laws methods rest out few none_offered)
      Exchange-Runs (accepted methods {rest} few offered v) =
          Runs-bind laws _ (authenticate_accepts laws methods rest out few offered)
            (Verdict-Runs F utf8_error debug _ laws v)

    -- An input is cut short, or comes to something.
    abbrev pub Settled : Bytes → Type 0
    Settled inp =
        ((out' : Bytes) × CutShort inp out')
        ⊎ ((r : Outcome F ReqAddr) × (left : Bytes) × (out' : Bytes) × Exchange inp r left out')

    with_methods :
        (methods rest : Bytes)
        → length methods ≤ 255
        → IsBytes rest
        → Settled (5 ∷ length methods ∷ (methods ++ rest))
    with_methods methods rest few h = elim (Bool-cases (contains methods 0)) [
      | inr missing ↦
          let none_offered : ¬ Mem 0 methods = λ m. cc (mem→contains methods 0 m) in
          inr (_, _, _, no_method methods rest few none_offered)
      | inl found ↦
          let offered = contains→mem methods 0 found in
          elim (judge F utf8_error debug (out ++ 5 ∷ 0 ∷ []) rest h) [
            | inl cut ↦ inl (_, in_request methods few offered cut)
            | inr (r, left, out', v) ↦ inr (r, left, out', accepted methods few offered v)
          ]
    ]

    with_count : (n : ℕ) (rest : Bytes) → n < 256 → IsBytes rest → Settled (5 ∷ n ∷ rest)
    with_count n rest few h = elim (dec_le n (length rest)) [
      | no short ↦ inl (out, in_methods (omega arith) (omega arith))
      | yes enough ↦
          let m = name_front n rest enough h in
          let same : 5 ∷ length m.name ∷ (m.name ++ m.after) ≡ 5 ∷ n ∷ rest =
            cc (m.begins, m.is_long) in
          subst Settled same (with_methods m.name m.after (omega (arith, m.is_long)) m.are_bytes)
    ]

    settle : (inp : Bytes) → IsBytes inp → Settled inp
    settle [] h = inl (out, at_start (omega arith))
    settle (p ∷ []) h = inl (out, at_start (omega arith))
    settle (p ∷ n ∷ rest) h = elim (ℕ_discrete p 5) [
      | no wrong ↦ inr (_, _, _, other_greeting p n rest wrong)
      | yes right ↦ rw right (with_count n rest h.1.0 h.1.1)
    ]

    -- Whatever bytes a client sends, over a connection that has not failed: either they end before the
    -- greeting or the request does, by their own lengths, and then the call fails with an error of the
    -- stream, with nothing written but the answer to a whole greeting; or the call comes to what
    -- `Exchange` says of them. That is an error, for a greeting of another protocol or one that does
    -- not offer the method of no authentication, and the client is told the latter; and otherwise,
    -- after the answer that accepts the greeting, what `Verdict` says of the request.
    pub next_request_decides :
        {S : Type 0} {tcp : Tcp F S} (laws : TcpLaws tcp) (inp : Bytes)
        → IsBytes inp
        → ((out' : Bytes) × CutShort inp out'
            × Breaks laws (next_request tcp utf8_error debug) inp out out')
          ⊎ ((r : Outcome F ReqAddr) × (left : Bytes) × (out' : Bytes) × Exchange inp r left out'
              × Runs laws (next_request tcp utf8_error debug) inp out r left out')
    next_request_decides laws inp h = elim (settle inp h) [
      | inl (out', cut) ↦ inl (out', cut, CutShort-Breaks laws cut)
      | inr (r, left, out', e) ↦ inr (r, left, out', e, Exchange-Runs laws e)
    ]
