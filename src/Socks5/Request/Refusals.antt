-- ===== src/Socks5/Request/Refusals.antt =====
-- Requests that `get_request` refuses, and what the client is told.
use rocks.Base.{
  ℕ, ◌<◌, ◌≡◌, ◌≢◌, refl, ap, [], ◌∷◌, ◌++◌, arith, Bool, not, Option, replicate, length,
  ne→==_false,
}
use rocks.Base.Words.{Bytes}
use rocks.Addr.{default}
use rocks.Net.{Tcp, TcpLaws}
use rocks.Error.{
  Foreign, Outcome, Result, from_description, not_socks5_protocol, cmd_not_connect,
  invalid_socks5_addr_type,
}
use rocks.Socks5.{try_from, address_type_not_supported, command_not_supported}
use rocks.Socks5.Wire.{Runs, Runs-bind, Runs-when, Runs-lift, read_into-Runs}
use rocks.Socks5.Wire.Breaks.{Breaks, Breaks-first, read_into-Breaks}
use rocks.Socks5.Request.{get_request}
use rocks.Socks5.Request.Ip.{connect_head}
use rocks.Socks5.Reply.{send_final_response}
use rocks.Socks5.Reply.Encode.{reply_bytes, send_final_response-Runs}

module _ {F : Foreign} {S : Type 0} {tcp : Tcp F S} (laws : TcpLaws tcp)
    (utf8_error : Bytes → Option F.Utf8Error) (debug : Bool) where
  -- A request of another protocol fails, and nothing is answered.
  pub get_request_wrong :
      (p cmd reserved t b0 : ℕ) (rest out : Bytes)
      → p ≢ 5
      → Runs laws
          (get_request tcp utf8_error debug)
          (p ∷ cmd ∷ reserved ∷ t ∷ b0 ∷ rest)
          out
          (Outcome.err (from_description (not_socks5_protocol p)))
          rest
          out
  unfolding get_request
  get_request_wrong p cmd reserved t b0 rest out h =
      Runs-bind laws _
        (read_into-Runs laws (replicate 255 0) 0 5 (p ∷ cmd ∷ reserved ∷ t ∷ b0 ∷ []) rest out
          (omega arith) (omega arith) refl)
        (Runs-when laws _ _ (ap not (ne→==_false p 5 h)) (Runs-lift laws _ rest out))

  -- A command other than to connect is answered once, by the code for it, and the call fails.
  pub get_request_command :
      (cmd reserved t b0 : ℕ) (rest out : Bytes)
      → cmd ≢ 1
      → Runs laws
          (get_request tcp utf8_error debug)
          (5 ∷ cmd ∷ reserved ∷ t ∷ b0 ∷ rest)
          out
          (Outcome.err (from_description cmd_not_connect))
          rest
          (out ++ reply_bytes command_not_supported default)
  unfolding get_request
  get_request_command cmd reserved t b0 rest out h =
      Runs-bind laws _
        (read_into-Runs laws (replicate 255 0) 0 5 (5 ∷ cmd ∷ reserved ∷ t ∷ b0 ∷ []) rest out
          (omega arith) (omega arith) refl)
        (Runs-when laws _ _ (ap not (ne→==_false cmd 1 h)) (
          Runs-bind laws _
            (send_final_response-Runs laws command_not_supported default rest out (omega arith))
            (Runs-lift laws _ rest _)))

  unknown_type :
      (t : ℕ) → t ≢ 1 → t ≢ 3 → t ≢ 4 → try_from {F = F} t ≡ Result.err invalid_socks5_addr_type
  unfolding try_from
  unknown_type t a b c = rw (ne→==_false t 1 a, ne→==_false t 3 b, ne→==_false t 4 c)

  -- An address type that the protocol does not know is answered twice, by two replies of the same
  -- code one behind the other, and the call fails.
  pub get_request_addr_type :
      (reserved t b0 : ℕ) (rest out : Bytes)
      → t ≢ 1
      → t ≢ 3
      → t ≢ 4
      → Runs laws
          (get_request tcp utf8_error debug)
          (5 ∷ 1 ∷ reserved ∷ t ∷ b0 ∷ rest)
          out
          (Outcome.err invalid_socks5_addr_type)
          rest
          ((out ++ reply_bytes address_type_not_supported default)
            ++ reply_bytes address_type_not_supported default)
  unfolding get_request
  get_request_addr_type reserved t b0 rest out a b c =
      connect_head laws utf8_error debug reserved t b0 rest out (
        rw (unknown_type t a b c) (
          Runs-bind laws _ {a = Result.err invalid_socks5_addr_type}
            (Runs-bind laws _ (reply rest out) (Runs-lift laws _ rest _))
            (Runs-bind laws _ (reply rest _) (Runs-lift laws _ rest _))))
    where
      reply :
          (inp out : Bytes)
          → Runs laws
              (send_final_response tcp address_type_not_supported default)
              inp
              out
              (Outcome.ok tt)
              inp
              (out ++ reply_bytes address_type_not_supported default)
      reply inp out =
          send_final_response-Runs laws address_type_not_supported default inp out (omega arith)

  -- A request that ends before its fifth byte is an error of the stream, and nothing is answered.
  pub get_request_truncated :
      (inp out : Bytes)
      → length inp < 5
      → Breaks laws (get_request tcp utf8_error debug) inp out out
  unfolding get_request
  get_request_truncated inp out short = Breaks-first laws _ (
      read_into-Breaks laws (replicate 255 0) 0 5 inp out (omega arith) (omega arith) (omega arith))
