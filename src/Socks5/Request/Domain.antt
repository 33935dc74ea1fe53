-- ===== src/Socks5/Request/Domain.antt =====
-- `get_request` on a request for a domain name.
use rocks.Base.{
  ℕ, ◌+◌, ◌^◌, ◌≤◌, ◌<◌, ◌≡◌, refl, ap, [], ◌∷◌, ◌++◌, arith, Bool, true, false, Option, some, none,
  length, length-append, append_assoc, if◌then◌else◌,
}
use rocks.Base.Words.{Bytes}
use rocks.Addr.{ReqAddr, default, domain}
use rocks.Addr.Parse.{be16, parse_domain_lem, parse_domain_invalid}
use rocks.Net.{Tcp, TcpLaws}
use rocks.Error.{Foreign, attempt, Outcome, Error, Result, lift, utf8, ◌>>=◌}
use rocks.Socks5.{try_from, address_type_not_supported}
use rocks.Socks5.Wire.{
  Runs, Runs-bind, Runs-panic, Runs-lift, Runs-pure, read_prefix-Runs, read_into_panics,
}
use rocks.Socks5.Request.{debug_domain, get_request}
use rocks.Socks5.Request.Ip.{connect_head, head_buffer}
use rocks.Socks5.Reply.Encode.{addr_bytes, reply_bytes, send_final_response-Runs}

debug_domain-ok :
    {F : Foreign} {A : Type 0} (debug : Bool) (a : A)
    → debug_domain {F = F} debug (Result.ok a) ≡ Outcome.ok tt
debug_domain-ok true a = refl
debug_domain-ok false a = refl

module _ {F : Foreign} {S : Type 0} {tcp : Tcp F S} (laws : TcpLaws tcp)
    (utf8_error : Bytes → Option F.Utf8Error) (debug : Bool) where
  -- From the parse on: the log line may panic, and otherwise the result stands.
  after_parse :
      (q : Outcome F ReqAddr) (r : Result (Error F) ReqAddr) (inp out : Bytes)
      → attempt q ≡ Outcome.ok r
      → debug_domain debug r ≡ Outcome.ok tt
      → Runs {F = F} {S = S} laws
          (lift (attempt q) >>= (λ r. lift (debug_domain debug r) >>= (λ _. lift (Outcome.ok r))))
          inp
          out
          (Outcome.ok r)
          inp
          out
  after_parse q r inp out parsed quiet =
      Runs-bind laws _ {a = r} (Runs-pure laws inp out parsed)
        (Runs-bind laws _ (Runs-pure laws inp out quiet) (Runs-lift laws _ inp out))

  -- A request for a domain name of at most 253 bytes of UTF-8 is read to its end, and yields the
  -- name and the port.
  pub get_request_domain :
      (reserved p : ℕ) (name rest out : Bytes)
      → length name ≤ 253
      → p < 2 ^ 16
      → utf8_error name ≡ none
      → Runs laws
          (get_request tcp utf8_error debug)
          (5 ∷ 1 ∷ reserved ∷ addr_bytes (domain name p) rest)
          out
          (Outcome.ok (domain name p))
          rest
          out
  unfolding get_request try_from
  get_request_domain reserved p name rest out short hp valid =
      connect_head laws utf8_error debug reserved 3 (length name) (name ++ be16 p rest) out (
        rw (← append_assoc name (be16 p []) rest) (
          Runs-bind laws _ {a = Result.ok (domain name p)}
            (read_prefix-Runs laws (head_buffer reserved 3 (length name)) (length name + 2)
              (name ++ be16 p []) rest out _ (omega (arith, length-append name (be16 p [])))
              (omega arith)
              (after_parse _ (Result.ok (domain name p)) rest out
                (ap attempt (parse_domain_lem {F = F} utf8_error name [] p hp valid))
                (debug_domain-ok debug _)))
            (Runs-lift laws _ rest out)))

  -- A domain name of 254 or 255 bytes, which the protocol allows, does not fit into the buffer: the
  -- handler panics once it has read the length.
  pub get_request_long_domain :
      (reserved len : ℕ) (rest out : Bytes)
      → 253 < len
      → Runs laws
          (get_request tcp utf8_error debug)
          (5 ∷ 1 ∷ reserved ∷ 3 ∷ len ∷ rest)
          out
          Outcome.panic
          rest
          out
  unfolding get_request try_from
  get_request_long_domain reserved len rest out long =
      connect_head laws utf8_error debug reserved 3 len rest out (
        Runs-panic laws _ (
          Runs-panic laws _ (
            read_into_panics laws (head_buffer reserved 3 len) 0 (len + 2) rest out (omega arith)
              (omega arith))))

module _ {F : Foreign} {S : Type 0} {tcp : Tcp F S} (laws : TcpLaws tcp)
    (utf8_error : Bytes → Option F.Utf8Error) where
  -- A name that is not UTF-8: with the log at debug level the handler panics, without an answer.
  -- Otherwise the client is told that the address type is not supported, and the call fails.
  pub get_request_invalid_domain :
      (debug : Bool) (reserved : ℕ) (name rest out : Bytes) (p : ℕ) {e : F.Utf8Error}
      → length name ≤ 253
      → utf8_error name ≡ some e
      → Runs laws
          (get_request tcp utf8_error debug)
          (5 ∷ 1 ∷ reserved ∷ addr_bytes (domain name p) rest)
          out
          (if debug then Outcome.panic else Outcome.err (utf8 e))
          rest
          (if debug then out else out ++ reply_bytes address_type_not_supported default)
  unfolding get_request try_from
  get_request_invalid_domain true reserved name rest out p {e} short invalid =
      connect_head laws utf8_error true reserved 3 (length name) (name ++ be16 p rest) out (
        rw (← append_assoc name (be16 p []) rest) (
          Runs-panic laws _ (
            read_prefix-Runs laws (head_buffer reserved 3 (length name)) (length name + 2)
              (name ++ be16 p []) rest out _ (omega (arith, length-append name (be16 p [])))
              (omega arith)
              (Runs-bind laws _ {a = Result.err (utf8 e)}
                (Runs-pure laws rest out
                  (ap attempt (parse_domain_invalid utf8_error name (be16 p []) e invalid)))
                (Runs-lift laws _ rest out)))))
  get_request_invalid_domain false reserved name rest out p {e} short invalid =
      connect_head laws utf8_error false reserved 3 (length name) (name ++ be16 p rest) out (
        rw (← append_assoc name (be16 p []) rest) (
          Runs-bind laws _ {a = Result.err (utf8 e)}
            (read_prefix-Runs laws (head_buffer reserved 3 (length name)) (length name + 2)
              (name ++ be16 p []) rest out _ (omega (arith, length-append name (be16 p [])))
              (omega arith)
              (Runs-bind laws _ {a = Result.err (utf8 e)}
                (Runs-pure laws rest out
                  (ap attempt (parse_domain_invalid utf8_error name (be16 p []) e invalid)))
                (Runs-lift laws _ rest out)))
            (Runs-bind laws _
              (send_final_response-Runs laws address_type_not_supported default rest out
                (omega arith))
              (Runs-lift laws _ rest _))))
