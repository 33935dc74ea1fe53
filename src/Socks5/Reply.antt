-- ===== src/Socks5/Reply.antt =====
-- `send_final_response` of src/socks5/incoming.rs: the reply is put together in a buffer of 261 bytes.
pub mod Encode
pub mod Decode
use rocks.Base.{ℕ, ◌+◌, ◌%◌, ◌^◌, List, [], ◌∷◌, length, replicate}
use rocks.Base.Words.{Bytes, high_byte, low_byte}
use rocks.Addr.{ReqAddr, IpAddr, ip, domain, v4, v6, port}
use rocks.Buffer.{store, slice, copy_from_slice, at}
use rocks.Net.{Tcp}
use rocks.Error.{Foreign, Outcome, Action, and_then, ◌>>=◌, lift}
use rocks.Socks5.{Connected, Socks5Error, Socks5AddrType, error_code, addr_type_code, write_all}

module _ {F : Foreign} where
  -- `for &segment in a.ip().segments().iter()`: the buffer and `pos` after the loop.
  store_segments : Bytes → ℕ → List ℕ → Outcome F (Bytes × ℕ)
  store_segments resp pos [] = Outcome.ok (resp, pos)
  store_segments resp pos (segment ∷ rest) = and_then (store resp pos (high_byte segment)) λ resp.
      and_then (store resp (pos + 1) (low_byte segment)) λ resp. store_segments resp (pos + 2) rest

  store_ip : Bytes → IpAddr → Outcome F (Bytes × ℕ)
  unfolding store_segments
  store_ip resp (v4 a b c d) =
      and_then (store resp 3 (addr_type_code Socks5AddrType.ipv4)) λ resp.
        and_then (copy_from_slice resp 4 8 (a ∷ b ∷ c ∷ d ∷ [])) λ resp. Outcome.ok (resp, 8)
  store_ip resp (v6 a b c d e f g h) =
      and_then (store resp 3 (addr_type_code Socks5AddrType.ipv6))
        λ resp. store_segments resp 4 (a ∷ b ∷ c ∷ d ∷ e ∷ f ∷ g ∷ h ∷ [])

  -- The `match &addr`: the buffer and `pos` after it. `domain.len() as u8` wraps.
  store_addr : Bytes → ReqAddr → Outcome F (Bytes × ℕ)
  unfolding store_ip
  store_addr resp (ip a) = store_ip resp a.ip
  store_addr resp (domain name _) =
      and_then (store resp 3 (addr_type_code Socks5AddrType.domain)) λ resp.
        and_then (store resp 4 (length name % 2 ^ 8)) λ resp. and_then (at resp 4) λ len.
          let pos = 5 + len in
          and_then (copy_from_slice resp 5 pos name) λ resp. Outcome.ok (resp, pos)

  -- The bytes that are sent: `&resp[0..pos + 2]`.
  unfoldable pub final_response : Socks5Error → ReqAddr → Outcome F Bytes
  unfolding store_addr port error_code
  final_response e addr = and_then (store (replicate 261 0) 0 5) λ resp.
      and_then (store resp 1 (error_code e)) λ resp. and_then (store resp 2 0) λ resp.
        and_then (store_addr resp addr) λ (resp, pos).
          and_then (store resp pos (high_byte (port addr))) λ resp.
            and_then (store resp (pos + 1) (low_byte (port addr))) λ resp. slice resp 0 (pos + 2)

module _ {F : Foreign} {S : Type 0} (tcp : Tcp F S) where
  unfoldable pub send_final_response : Socks5Error → ReqAddr → Action F (Connected S) (Unit {0})
  send_final_response e addr = lift (final_response e addr) >>= write_all tcp
