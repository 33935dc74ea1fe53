-- ===== src/Socks5/Reply/Encode.antt =====
-- What `send_final_response` puts on the wire.
use native.Mathlib.Decide.{dec_le, ℕ_discrete}
use rocks.Base.{
  ℕ, suc, if◌then◌else◌, leb, le→leb, lt→leb_false, ◌+◌, ◌-◌, ◌%◌, ◌^◌, ◌≤◌, ◌<◌, ◌≡◌, ◌≢◌, refl,
  subst, sym, ap, ◌∙◌, [], ◌∷◌, ◌++◌, arith, length, replicate, replicate-append, length-replicate,
  length-append,
}
use rocks.Base.Words.{Bytes, high_byte, low_byte}
use rocks.Addr.{ReqAddr, IpAddr, ip, domain, v4, v6}
use rocks.Addr.Parse.{be16}
use rocks.Buffer.{
  copy_from_slice, store_two, copy_from_slice-append, copy_from_slice_panics, set?-append,
  set?-none,
}
use rocks.Error.{Foreign, Outcome}
use rocks.Socks5.{Socks5Error, error_code}
use rocks.Socks5.Reply.{final_response, send_final_response}
use rocks.Net.{Tcp, TcpLaws}
use rocks.Socks5.Wire.{Runs, write_all-Runs}

-- The address of a request or a reply on the wire (RFC 1928): its type, its bytes and the port.
abbrev pub addr_bytes : ReqAddr → Bytes → Bytes
addr_bytes (ip a) rest = elim a.ip [
  | v4 x y z w ↦ 1 ∷ x ∷ y ∷ z ∷ w ∷ be16 a.port rest
  | v6 x y z w p q r s ↦
      4 ∷ be16 x (be16 y (be16 z (be16 w (be16 p (be16 q (be16 r (be16 s (be16 a.port rest))))))))
]
addr_bytes (domain name p) rest = 3 ∷ length name ∷ (name ++ be16 p rest)

abbrev pub reply_bytes : Socks5Error → ReqAddr → Bytes
reply_bytes e r = 5 ∷ error_code e ∷ 0 ∷ addr_bytes r []

room :
    (n : ℕ) → n ≤ 254 → replicate {A = ℕ} 256 0 ≡ replicate n 0 ++ (0 ∷ 0 ∷ replicate (254 - n) 0)
room n h = ap (λ k. replicate {A = ℕ} k 0) split_at ∙ replicate-append n (suc (suc (254 - n))) 0
  where
    split_at : 256 ≡ n + suc (suc (254 - n))
    split_at = omega arith

copy_name :
    {F : Foreign} (code : ℕ) (name : Bytes)
    → length name ≤ 254
    → copy_from_slice {F = F}
        (5 ∷ code ∷ 0 ∷ 3 ∷ length name ∷ replicate 256 0)
        5
        (5 + length name)
        name
      ≡ Outcome.ok
          (5 ∷ code ∷ 0 ∷ 3 ∷ length name ∷ (name ++ (0 ∷ 0 ∷ replicate (254 - length name) 0)))
copy_name {F} code name h =
    subst
      (λ b.
        copy_from_slice {F = F} (5 ∷ code ∷ 0 ∷ 3 ∷ length name ∷ b) 5 (5 + length name) name
        ≡ Outcome.ok
            (5 ∷ code ∷ 0 ∷ 3 ∷ length name ∷ (name ++ (0 ∷ 0 ∷ replicate (254 - length name) 0))))
      (sym (room (length name) h))
      (copy_from_slice-append (5 ∷ code ∷ 0 ∷ 3 ∷ length name ∷ []) (replicate (length name) 0) _
        name (length-replicate (length name) 0))

module _ {F : Foreign} (e : Socks5Error) where
  final_response-v4 :
      (a b c d p : ℕ)
      → let r = ip (record { ip = v4 a b c d; port = p }) in
        final_response {F = F} e r ≡ Outcome.ok (reply_bytes e r)
  unfolding final_response
  final_response-v4 a b c d p = refl

  final_response-v6 :
      (a b c d f g h i p : ℕ)
      → let r = ip (record { ip = v6 a b c d f g h i; port = p }) in
        final_response {F = F} e r ≡ Outcome.ok (reply_bytes e r)
  unfolding final_response
  final_response-v6 a b c d f g h i p = refl

  final_response-domain :
      (name : Bytes) (p : ℕ)
      → length name ≤ 254
      → final_response {F = F} e (domain name p) ≡ Outcome.ok (reply_bytes e (domain name p))
  unfolding final_response
  final_response-domain name p h =
      let header : Bytes = 5 ∷ error_code e ∷ 0 ∷ 3 ∷ length name ∷ name in
      let fits : length name % 2 ^ 8 ≡ length name = omega arith in
      let ends : 5 + length name ≡ length header = omega arith in
      rw (fits, copy_name {F = F} (error_code e) name h, ends)
        (store_two header 0 0 (replicate (254 - length name) 0) (high_byte p) (low_byte p))

  final_response_255 :
      (name : Bytes) (p : ℕ)
      → length name ≡ 255
      → final_response {F = F} e (domain name p) ≡ Outcome.panic
  unfolding final_response
  final_response_255 name p h =
      let header : Bytes = 5 ∷ error_code e ∷ 0 ∷ 3 ∷ 255 ∷ name in
      let ends : 260 ≡ length header = omega arith in
      rw (h, ends, set?-append header 0 [] (high_byte p))
        (rw (
          set?-none (header ++ high_byte p ∷ []) 261 (low_byte p)
            (omega (arith, length-append header (high_byte p ∷ [])))))

  final_response_longer :
      (name : Bytes) (p : ℕ)
      → 255 < length name
      → final_response {F = F} e (domain name p) ≡ Outcome.panic
  unfolding final_response
  final_response_longer name p h =
      let differs : length name ≢ 5 + length name % 2 ^ 8 - 5 = omega arith in
      rw (
        copy_from_slice_panics {F = F}
          (5 ∷ error_code e ∷ 0 ∷ 3 ∷ length name % 2 ^ 8 ∷ replicate 256 0) name 5
          (5 + length name % 2 ^ 8) differs)

-- The length of the domain name, and 0 for an IP address.
abbrev pub name_length : ReqAddr → ℕ
name_length (ip a) = 0
name_length (domain name p) = length name

module _ {F : Foreign} (e : Socks5Error) where
  pub final_response-ok :
      (r : ReqAddr)
      → name_length r ≤ 254
      → final_response {F = F} e r ≡ Outcome.ok (reply_bytes e r)
  final_response-ok (domain name p) h = final_response-domain e name p h
  final_response-ok (ip a) h = by_ip a.ip a.port
    where
      by_ip :
          (i : IpAddr) (p : ℕ)
          → final_response {F = F} e (ip (record { ip = i; port = p }))
            ≡ Outcome.ok (reply_bytes e (ip (record { ip = i; port = p })))
      by_ip (v4 x y z w) p = final_response-v4 e x y z w p
      by_ip (v6 x y z w s t u v) p = final_response-v6 e x y z w s t u v p

  final_response-panics :
      (r : ReqAddr) → 254 < name_length r → final_response {F = F} e r ≡ Outcome.panic
  final_response-panics (ip a) h = absurd (omega arith)
  final_response-panics (domain name p) h = elim (ℕ_discrete (length name) 255) [
    | yes last ↦ final_response_255 e name p last
    | no other ↦ final_response_longer e name p (omega arith)
  ]

  -- A reply is built exactly if the domain name in it, if any, has at most 254 bytes, and then it is
  -- the reply of the protocol with this code and this address; otherwise building it panics.
  pub final_response_lem :
      (r : ReqAddr)
      → final_response {F = F} e r
        ≡ (if leb (name_length r) 254 then Outcome.ok (reply_bytes e r) else Outcome.panic)
  final_response_lem r = elim (dec_le (name_length r) 254) [
    | yes h ↦ rw (le→leb (name_length r) 254 h) (final_response-ok r h)
    | no h ↦
        rw (lt→leb_false (name_length r) 254 (omega arith)) (final_response-panics r (omega arith))
  ]

module _ {F : Foreign} {S : Type 0} {tcp : Tcp F S} (laws : TcpLaws tcp) (e : Socks5Error) where
  -- Sending a reply writes its bytes and reads nothing.
  pub send_final_response-Runs :
      (r : ReqAddr) (inp out : Bytes)
      → name_length r ≤ 254
      → Runs laws (send_final_response tcp e r) inp out (Outcome.ok tt) inp (out ++ reply_bytes e r)
  unfolding send_final_response
  send_final_response-Runs r inp out h =
      rw (final_response-ok {F = F} e r h) (write_all-Runs laws (reply_bytes e r) inp out)
