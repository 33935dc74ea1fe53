-- ===== src/Socks5/Reply/Decode.antt =====
-- What a client that follows the protocol reads from a reply.
use mathlib.Core.Option
use rocks.Base.{
  ℕ, zero, suc, Option, none, some, ◌&&◌, ◌==◌, if◌then◌else◌, take, drop, take-append, drop-append,
  ◌+◌, ◌*◌, ◌^◌, ◌≤◌, ◌<◌, ◌≡◌, List, [], ◌∷◌,
}
use rocks.Base.Words.{Bytes, split_value}
use rocks.Addr.{ReqAddr, IpAddr, ip, domain, v4, v6}
use rocks.Addr.Parse.{be16}
use rocks.Error.{Foreign, Outcome}
use rocks.Socks5.{Socks5Error, error_code}
use rocks.Socks5.Reply.{final_response}
use rocks.Socks5.Reply.Encode.{reply_bytes, name_length, final_response-ok}

-- What a client reads: the code and the address of a reply.
abbrev u16 : ℕ → ℕ → ℕ
u16 hi lo = hi * 256 + lo

abbrev whole : {A : Type 0} → A → Bytes → Option A
whole a [] = some a
whole a (_ ∷ _) = none

abbrev decode_v4 : Bytes → Option ReqAddr
decode_v4 (a ∷ b ∷ c ∷ d ∷ h ∷ l ∷ rest) =
    whole (ip (record { ip = v4 a b c d; port = u16 h l })) rest
decode_v4 _ = none

abbrev decode_segments : ℕ → Bytes → Option (List ℕ × Bytes)
decode_segments zero bs = some ([], bs)
decode_segments (suc n) (h ∷ l ∷ rest) = elim (decode_segments n rest) [
  | some (xs, end) ↦ some (u16 h l ∷ xs, end)
  | none ↦ none
]
decode_segments (suc n) _ = none

abbrev from_segments : Option (List ℕ × Bytes) → Option ReqAddr
from_segments (some (a ∷ b ∷ c ∷ d ∷ e ∷ f ∷ g ∷ h ∷ p ∷ [], end)) =
    whole (ip (record { ip = v6 a b c d e f g h; port = p })) end
from_segments _ = none

abbrev from_port : Bytes → Bytes → Option ReqAddr
from_port name (h ∷ l ∷ rest) = whole (domain name (u16 h l)) rest
from_port name _ = none

abbrev decode_domain : Bytes → Option ReqAddr
decode_domain [] = none
decode_domain (n ∷ rest) = from_port (take n rest) (drop n rest)

abbrev decode_addr : Bytes → Option ReqAddr
decode_addr [] = none
decode_addr (t ∷ rest) =
    if t == 1
    then decode_v4 rest
    else if t == 4
    then from_segments (decode_segments 9 rest)
    else if t == 3
    then decode_domain rest
    else none

abbrev pub decode_reply : Bytes → Option (ℕ × ReqAddr)
decode_reply (version ∷ code ∷ reserved ∷ rest) =
    if version == 5 && reserved == 0 then Option.map (λ r. (code, r)) (decode_addr rest) else none
decode_reply _ = none

abbrev IsIp : IpAddr → Type 0
IsIp (v4 a b c d) = Unit
IsIp (v6 a b c d e f g h) =
    (a < 2 ^ 16)
    × (b < 2 ^ 16)
    × (c < 2 ^ 16)
    × (d < 2 ^ 16)
    × (e < 2 ^ 16)
    × (f < 2 ^ 16)
    × (g < 2 ^ 16)
    × (h < 2 ^ 16)

-- The numbers of an address are in the range of their Rust types.
abbrev pub IsAddr : ReqAddr → Type 0
IsAddr (ip a) = IsIp a.ip × (a.port < 2 ^ 16)
IsAddr (domain name p) = p < 2 ^ 16

decode-reply_bytes :
    (e : Socks5Error) (r : ReqAddr)
    → IsAddr r
    → decode_reply (reply_bytes e r) ≡ some (error_code e, r)
decode-reply_bytes e (ip a) h = by_ip a.ip a.port h.0 h.1
  where
    by_ip :
        (i : IpAddr) (p : ℕ)
        → IsIp i
        → p < 2 ^ 16
        → decode_reply (reply_bytes e (ip (record { ip = i; port = p })))
          ≡ some (error_code e, ip (record { ip = i; port = p }))
    by_ip (v4 x y z w) p h k = rw (split_value p k)
    by_ip (v6 x y z w s t u v) p h k = rw (
      split_value x h.0,
      split_value y h.1,
      split_value z h.2,
      split_value w h.3,
      split_value s h.4,
      split_value t h.5,
      split_value u h.6,
      split_value v h.7,
      split_value p k,
    )
decode-reply_bytes e (domain name p) h =
    rw (take-append name (be16 p []), drop-append name (be16 p []), split_value p h)

-- A reply whose address fits is read back by a client as the code and the address.
pub decode-final_response :
    {F : Foreign} (e : Socks5Error) (r : ReqAddr)
    → IsAddr r
    → name_length r ≤ 254
    → (bs : Bytes) × (final_response {F = F} e r ≡ Outcome.ok bs)
      × (decode_reply bs ≡ some (error_code e, r))
decode-final_response e r range fits =
    (reply_bytes e r, final_response-ok e r fits, decode-reply_bytes e r range)
