-- ===== src/Addr/Parse.antt =====
-- The parsers of src/req_addr.rs on the bytes of a request.
use native.Mathlib.Numerals.{add-one}
use rocks.Base.{
  ℕ, ◌+◌, ◌*◌, ◌^◌, ◌<◌, ◌≡◌, ◌↔◌, [], ◌∷◌, ◌++◌, Option, none, some, arith, length,
  get_elem?-append, get_elem?-append_next,
}
use rocks.Base.Words.{Bytes, join_u16_lem, join_u16-split, high_byte, low_byte}
use rocks.Addr.{ip, domain, v4, v6, u16_at, parse_address_v4, parse_address_v6, parse_domain}
use rocks.Buffer.{slice-append}
use rocks.Error.{Foreign, Outcome, utf8}

-- The two bytes of a port or segment, most significant first.
abbrev pub be16 : ℕ → Bytes → Bytes
be16 w rest = high_byte w ∷ low_byte w ∷ rest

module _ {F : Foreign} where
  -- On six bytes the IPv4 parser succeeds, with the address of the first four and, as the port, the
  -- big-endian number of the fourth and the fifth.
  pub parse_address_v4_lem :
      (a b c d p q : ℕ)
      → d < 256
      → p < 256
      → parse_address_v4 {F = F} (a ∷ b ∷ c ∷ d ∷ p ∷ q ∷ [])
        ≡ Outcome.ok (ip (record { ip = v4 a b c d; port = d * 256 + p }))
  unfolding parse_address_v4
  parse_address_v4_lem a b c d p q hd hp = rw (join_u16_lem d p hd hp)

  pub parse_address_v6_lem :
      (a b c d e f g h p : ℕ)
      → a < 2 ^ 16
      → b < 2 ^ 16
      → c < 2 ^ 16
      → d < 2 ^ 16
      → e < 2 ^ 16
      → f < 2 ^ 16
      → g < 2 ^ 16
      → h < 2 ^ 16
      → p < 2 ^ 16
      → parse_address_v6 {F = F}
          (be16 a (be16 b (be16 c (be16 d (be16 e (be16 f (be16 g (be16 h (be16 p [])))))))))
        ≡ Outcome.ok (ip (record { ip = v6 a b c d e f g h; port = p }))
  unfolding parse_address_v6
  parse_address_v6_lem a b c d e f g h p ha hb hc hd he hf hg hh hp = rw (
    join_u16-split a ha,
    join_u16-split b hb,
    join_u16-split c hc,
    join_u16-split d hd,
    join_u16-split e he,
    join_u16-split f hf,
    join_u16-split g hg,
    join_u16-split h hh,
    join_u16-split p hp,
  )

  -- The port that the IPv4 parser reports is the one that the client sent in the last two of the six
  -- bytes exactly when the fourth, fifth and sixth byte are the same.
  pub parse_address_v4-port_iff :
      (a b c d p q : ℕ)
      → d < 256
      → p < 256
      → q < 256
      → (parse_address_v4 {F = F} (a ∷ b ∷ c ∷ d ∷ p ∷ q ∷ [])
          ≡ Outcome.ok (ip (record { ip = v4 a b c d; port = p * 256 + q })))
        ↔ ((d ≡ p) × (p ≡ q))
  parse_address_v4-port_iff a b c d p q hd hp hq =
      rw (parse_address_v4_lem a b c d p q hd hp) (ground arith)

u16_at-append :
    {F : Foreign} (xs : Bytes) (w : ℕ) (ys : Bytes)
    → w < 2 ^ 16
    → u16_at {F = F} (xs ++ be16 w ys) (length xs) (length xs + 1) ≡ Outcome.ok w
unfolding u16_at
u16_at-append xs w ys h = rw (
  add-one (length xs),
  get_elem?-append xs (high_byte w) (low_byte w ∷ ys),
  get_elem?-append_next xs (high_byte w) (low_byte w) ys,
  join_u16-split w h,
)

module _ {F : Foreign} (utf8_error : Bytes → Option F.Utf8Error) (name rest : Bytes) where
  -- A name that is UTF-8, with a port behind it, is parsed to just these.
  pub parse_domain_lem :
      (p : ℕ)
      → p < 2 ^ 16
      → utf8_error name ≡ none
      → parse_domain {F = F} utf8_error (length name) (name ++ be16 p rest)
        ≡ Outcome.ok (domain name p)
  unfolding parse_domain
  parse_domain_lem p h valid =
      rw (slice-append {F = F} name (be16 p rest), valid, u16_at-append {F = F} name p rest h)

  -- A name that is not UTF-8 is an error.
  pub parse_domain_invalid :
      (e : F.Utf8Error)
      → utf8_error name ≡ some e
      → parse_domain {F = F} utf8_error (length name) (name ++ rest) ≡ Outcome.err (utf8 e)
  unfolding parse_domain
  parse_domain_invalid e invalid = rw (slice-append {F = F} name rest, invalid)
