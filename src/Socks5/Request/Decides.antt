-- ===== src/Socks5/Request/Decides.antt =====
-- What comes of an input of `get_request`, by what its bytes are.
use rocks.Base.{
  ℕ, ◌+◌, ◌*◌, ◌^◌, ◌≤◌, ◌<◌, ◌≡◌, ◌≢◌, refl, [], ◌∷◌, ◌++◌, arith, Bool, replicate, Option, none,
  some, length, if◌then◌else◌,
}
use rocks.Base.Words.{Bytes}
use rocks.Addr.{ReqAddr, default, ip, domain, v4, v6}
use rocks.Net.{Tcp, TcpLaws}
use rocks.Error.{
  Foreign, Outcome, from_description, not_socks5_protocol, cmd_not_connect,
  invalid_socks5_addr_type, utf8,
}
use rocks.Socks5.{try_from, address_type_not_supported, command_not_supported}
use rocks.Socks5.Wire.{Runs, read_into-Runs}
use rocks.Socks5.Wire.Breaks.{Breaks, Breaks-first, Breaks-later, read_into-Breaks}
use rocks.Socks5.Request.{get_request, read_addr}
use rocks.Socks5.Request.Ip.{head_buffer, get_request_v4, get_request_v6}
use rocks.Socks5.Request.Domain.{
  get_request_domain, get_request_long_domain, get_request_invalid_domain,
}
use rocks.Socks5.Request.Refusals.{
  get_request_wrong, get_request_command, get_request_addr_type, get_request_truncated,
}
use rocks.Socks5.Reply.Encode.{addr_bytes, reply_bytes}
use rocks.Socks5.Reply.Decode.{IsAddr}

-- Input that ends before the request does.
pub data Cut : Bytes → Type 0 where
  head : {inp : Bytes} → length inp < 5 → Cut inp
  in_v4 :
      {reserved b0 : ℕ} {rest : Bytes} → length rest < 5 → Cut (5 ∷ 1 ∷ reserved ∷ 1 ∷ b0 ∷ rest)
  in_v6 :
      {reserved b0 : ℕ} {rest : Bytes} → length rest < 17 → Cut (5 ∷ 1 ∷ reserved ∷ 4 ∷ b0 ∷ rest)
  in_name :
      {reserved len : ℕ} {rest : Bytes}
      → len ≤ 253
      → length rest < len + 2
      → Cut (5 ∷ 1 ∷ reserved ∷ 3 ∷ len ∷ rest)

module _ (F : Foreign) (utf8_error : Bytes → Option F.Utf8Error) (debug : Bool) (out : Bytes) where
  -- `Verdict inp r left out'`: a request at the front of `inp` comes to `r`, and leaves `left` unread
  -- and `out'` written, where `out` was written before.
  pub data Verdict : Bytes → Outcome F ReqAddr → Bytes → Bytes → Type 0 where
    other_protocol :
        (p cmd reserved t b0 : ℕ) (rest : Bytes)
        → p ≢ 5
        → Verdict
            (p ∷ cmd ∷ reserved ∷ t ∷ b0 ∷ rest)
            (Outcome.err (from_description (not_socks5_protocol p)))
            rest
            out
    other_command :
        (cmd reserved t b0 : ℕ) (rest : Bytes)
        → cmd ≢ 1
        → Verdict
            (5 ∷ cmd ∷ reserved ∷ t ∷ b0 ∷ rest)
            (Outcome.err (from_description cmd_not_connect))
            rest
            (out ++ reply_bytes command_not_supported default)
    other_type :
        (reserved t b0 : ℕ) (rest : Bytes)
        → t ≢ 1
        → t ≢ 3
        → t ≢ 4
        → Verdict (5 ∷ 1 ∷ reserved ∷ t ∷ b0 ∷ rest) (Outcome.err invalid_socks5_addr_type) rest (
            (out ++ reply_bytes address_type_not_supported default)
            ++ reply_bytes address_type_not_supported default)
    an_ipv4 :
        (reserved a b c d p q : ℕ) (rest : Bytes)
        → d < 256
        → p < 256
        → Verdict
            (5 ∷ 1 ∷ reserved ∷ 1 ∷ a ∷ b ∷ c ∷ d ∷ p ∷ q ∷ rest)
            (Outcome.ok (ip (record { ip = v4 a b c d; port = d * 256 + p })))
            rest
            out
    an_ipv6 :
        (reserved a b c d e f g h p : ℕ) (rest : Bytes)
        → IsAddr (ip (record { ip = v6 a b c d e f g h; port = p }))
        → Verdict
            (5 ∷ 1 ∷ reserved ∷ addr_bytes (ip (record { ip = v6 a b c d e f g h; port = p })) rest)
            (Outcome.ok (ip (record { ip = v6 a b c d e f g h; port = p })))
            rest
            out
    a_name :
        (reserved p : ℕ) (name rest : Bytes)
        → length name ≤ 253
        → p < 2 ^ 16
        → utf8_error name ≡ none
        → Verdict
            (5 ∷ 1 ∷ reserved ∷ addr_bytes (domain name p) rest)
            (Outcome.ok (domain name p))
            rest
            out
    no_utf8 :
        (reserved p : ℕ) (name rest : Bytes) {e : F.Utf8Error}
        → length name ≤ 253
        → utf8_error name ≡ some e
        → Verdict
            (5 ∷ 1 ∷ reserved ∷ addr_bytes (domain name p) rest)
            (if debug then Outcome.panic else Outcome.err (utf8 e))
            rest
            (if debug then out else out ++ reply_bytes address_type_not_supported default)
    long_name :
        (reserved len : ℕ) (rest : Bytes)
        → 253 < len
        → Verdict (5 ∷ 1 ∷ reserved ∷ 3 ∷ len ∷ rest) Outcome.panic rest out

  module _ {S : Type 0} {tcp : Tcp F S} (laws : TcpLaws tcp) where
    pub Verdict-Runs :
        {inp left out' : Bytes} {r : Outcome F ReqAddr}
        → Verdict inp r left out'
        → Runs laws (get_request tcp utf8_error debug) inp out r left out'
    Verdict-Runs (other_protocol p cmd reserved t b0 rest h) =
        get_request_wrong laws utf8_error debug p cmd reserved t b0 rest out h
    Verdict-Runs (other_command cmd reserved t b0 rest h) =
        get_request_command laws utf8_error debug cmd reserved t b0 rest out h
    Verdict-Runs (other_type reserved t b0 rest a b c) =
        get_request_addr_type laws utf8_error debug reserved t b0 rest out a b c
    Verdict-Runs (an_ipv4 reserved a b c d p q rest hd hp) =
        get_request_v4 laws utf8_error debug reserved a b c d p q rest out hd hp
    Verdict-Runs (an_ipv6 reserved a b c d e f g h p rest range) =
        get_request_v6 laws utf8_error debug reserved a b c d e f g h p rest out range
    Verdict-Runs (a_name reserved p name rest short hp valid) =
        get_request_domain laws utf8_error debug reserved p name rest out short hp valid
    Verdict-Runs (no_utf8 reserved p name rest short invalid) =
        get_request_invalid_domain laws utf8_error debug reserved name rest out p short invalid
    Verdict-Runs (long_name reserved len rest long) =
        get_request_long_domain laws utf8_error debug reserved len rest out long

    -- A request to connect whose address ends early.
    connect_Breaks :
        (reserved t b0 : ℕ) (rest : Bytes)
        → Breaks laws
            (read_addr tcp utf8_error debug (try_from t) b0 (head_buffer reserved t b0))
            rest
            out
            out
        → Breaks laws (get_request tcp utf8_error debug) (5 ∷ 1 ∷ reserved ∷ t ∷ b0 ∷ rest) out out
    unfolding get_request
    connect_Breaks reserved t b0 rest p =
        Breaks-later laws _
          (read_into-Runs laws (replicate 255 0) 0 5 (5 ∷ 1 ∷ reserved ∷ t ∷ b0 ∷ []) rest out
            (omega arith) (omega arith) refl)
          (Breaks-first laws _ p)

    pub Cut-Breaks :
        {inp : Bytes} → Cut inp → Breaks laws (get_request tcp utf8_error debug) inp out out
    unfolding try_from read_addr
    Cut-Breaks (head {inp} short) = get_request_truncated laws utf8_error debug inp out short
    Cut-Breaks (in_v4 {reserved} {b0} {rest} short) = connect_Breaks reserved 1 b0 rest (
        Breaks-first laws _ (
          read_into-Breaks laws (head_buffer reserved 1 b0) 5 10 rest out (omega arith)
            (omega arith) (omega arith)))
    Cut-Breaks (in_v6 {reserved} {b0} {rest} short) = connect_Breaks reserved 4 b0 rest (
        Breaks-first laws _ (
          read_into-Breaks laws (head_buffer reserved 4 b0) 5 22 rest out (omega arith)
            (omega arith) (omega arith)))
    Cut-Breaks (in_name {reserved} {len} {rest} room short) = connect_Breaks reserved 3 len rest (
        Breaks-first laws _ (
          read_into-Breaks laws (head_buffer reserved 3 len) 0 (len + 2) rest out (omega arith)
            (omega arith) (omega arith)))
