-- ===== src/Socks5/Request/Ip.antt =====
-- `get_request` on a request for an IP address.
use rocks.Base.{ℕ, ◌+◌, ◌*◌, ◌<◌, ◌≡◌, refl, ap, [], ◌∷◌, arith, Bool, Option, replicate}
use rocks.Base.Words.{Bytes, high_byte, low_byte}
use rocks.Addr.{parse_address_v6, ReqAddr, ip, v4, v6}
use rocks.Addr.Parse.{be16, parse_address_v4_lem, parse_address_v6_lem}
use rocks.Buffer.{fill}
use rocks.Net.{Tcp, TcpLaws}
use rocks.Error.{Foreign, attempt, Outcome, Result, ◌>>=◌}
use rocks.Socks5.{try_from}
use rocks.Socks5.Wire.{Runs, Runs-bind, Runs-lift, Runs-pure, read_into-Runs}
use rocks.Socks5.Request.{get_request, read_addr, finish_request}
use rocks.Socks5.Reply.Encode.{addr_bytes}
use rocks.Socks5.Reply.Decode.{IsAddr}

-- The buffer after the first five bytes of a request.
abbrev pub head_buffer : ℕ → ℕ → ℕ → Bytes
head_buffer reserved t b0 = fill (replicate 255 0) 0 (5 ∷ 1 ∷ reserved ∷ t ∷ b0 ∷ [])

module _ {F : Foreign} {S : Type 0} {tcp : Tcp F S} (laws : TcpLaws tcp)
    (utf8_error : Bytes → Option F.Utf8Error) (debug : Bool) where
  -- A request to connect goes on to its address.
  pub connect_head :
      (reserved t b0 : ℕ) (rest out : Bytes) {r : Outcome F ReqAddr} {inp' out' : Bytes}
      → Runs laws
          (read_addr tcp utf8_error debug (try_from t) b0 (head_buffer reserved t b0)
            >>= finish_request tcp)
          rest
          out
          r
          inp'
          out'
      → Runs laws
          (get_request tcp utf8_error debug)
          (5 ∷ 1 ∷ reserved ∷ t ∷ b0 ∷ rest)
          out
          r
          inp'
          out'
  unfolding get_request
  connect_head reserved t b0 rest out p =
      Runs-bind laws _
        (read_into-Runs laws (replicate 255 0) 0 5 (5 ∷ 1 ∷ reserved ∷ t ∷ b0 ∷ []) rest out
          (omega arith) (omega arith) refl)
        p

  -- A request for an IPv4 address is read to its end, and yields the address, with the port that is
  -- made of the address's last byte and the port's first byte.
  pub get_request_v4 :
      (reserved a b c d p q : ℕ) (rest out : Bytes)
      → d < 256
      → p < 256
      → Runs laws
          (get_request tcp utf8_error debug)
          (5 ∷ 1 ∷ reserved ∷ 1 ∷ a ∷ b ∷ c ∷ d ∷ p ∷ q ∷ rest)
          out
          (Outcome.ok (ip (record { ip = v4 a b c d; port = d * 256 + p })))
          rest
          out
  unfolding get_request try_from
  get_request_v4 reserved a b c d p q rest out hd hp =
      connect_head reserved 1 a (b ∷ c ∷ d ∷ p ∷ q ∷ rest) out (
        Runs-bind laws _ {a = Result.ok (ip (record { ip = v4 a b c d; port = d * 256 + p }))}
          (Runs-bind laws _
            (read_into-Runs laws (head_buffer reserved 1 a) 5 10 (b ∷ c ∷ d ∷ p ∷ q ∷ []) rest out
              (omega arith) (omega arith) refl)
            (Runs-pure laws rest out (ap attempt (parse_address_v4_lem {F = F} a b c d p q hd hp))))
          (Runs-lift laws _ rest out))

  -- A request for an IPv6 address is read to its end, and yields the address and the port.
  pub get_request_v6 :
      (reserved a b c d e f g h p : ℕ) (rest out : Bytes)
      → IsAddr (ip (record { ip = v6 a b c d e f g h; port = p }))
      → Runs laws
          (get_request tcp utf8_error debug)
          (5 ∷ 1 ∷ reserved ∷ addr_bytes (ip (record { ip = v6 a b c d e f g h; port = p })) rest)
          out
          (Outcome.ok (ip (record { ip = v6 a b c d e f g h; port = p })))
          rest
          out
  unfolding get_request try_from
  get_request_v6 reserved a b c d e f g h p rest out range =
      connect_head reserved 4 (high_byte a) (low_byte a ∷ tail rest) out (
        Runs-bind laws _ {a = Result.ok (ip (record { ip = v6 a b c d e f g h; port = p }))}
          (Runs-bind laws _
            (read_into-Runs laws (head_buffer reserved 4 (high_byte a)) 5 22 (low_byte a ∷ tail [])
              rest out (omega arith) (omega arith) refl)
            (Runs-pure laws rest out (ap attempt parsed)))
          (Runs-lift laws _ rest out))
    where
      tail : Bytes → Bytes
      tail end = be16 b (be16 c (be16 d (be16 e (be16 f (be16 g (be16 h (be16 p end)))))))

      parsed :
          parse_address_v6 {F = F} (high_byte a ∷ low_byte a ∷ tail [])
          ≡ Outcome.ok (ip (record { ip = v6 a b c d e f g h; port = p }))
      parsed =
          parse_address_v6_lem a b c d e f g h p range.0.0 range.0.1 range.0.2 range.0.3 range.0.4
            range.0.5 range.0.6 range.0.7 range.1
