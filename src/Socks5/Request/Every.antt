-- ===== src/Socks5/Request/Every.antt =====
-- `get_request` on every input.
use native.Mathlib.Decide.{dec_le, ℕ_discrete}
use rocks.Base.{
  ℕ, ◌+◌, ◌≤◌, ◌≡◌, ◌⊎◌, inl, inr, refl, sym, ap, subst, [], ◌∷◌, arith, Bool, Option, length,
  Option-cases,
}
use rocks.Base.Words.{Bytes, IsBytes}
use rocks.Addr.{ReqAddr, domain}
use rocks.Net.{Tcp, TcpLaws}
use rocks.Error.{Foreign, Outcome}
use rocks.Socks5.Reply.Encode.{addr_bytes}
use rocks.Socks5.Wire.{Runs}
use rocks.Socks5.Wire.Breaks.{Breaks}
use rocks.Socks5.Request.{get_request}
use rocks.Socks5.Request.Parts.{Word, front, then_word, name_front}
use rocks.Socks5.Request.Decides.{
  Cut, head, in_v4, in_v6, in_name, Verdict, other_protocol, other_command, other_type, an_ipv4,
  an_ipv6, a_name, no_utf8, long_name, Verdict-Runs, Cut-Breaks,
}

module _ (F : Foreign) (utf8_error : Bytes → Option F.Utf8Error) (debug : Bool) (out : Bytes) where
  abbrev pub Judged : Bytes → Type 0
  Judged inp =
      (r : Outcome F ReqAddr) × (left : Bytes) × (out' : Bytes) × Verdict F utf8_error debug out inp
        r left out'

  same-Judged :
      {inp inp' left out' : Bytes} {r : Outcome F ReqAddr}
      → inp' ≡ inp
      → Verdict F utf8_error debug out inp' r left out'
      → Judged inp
  same-Judged {left = left} {out' = out'} {r = r} same v =
      (r, left, out', subst (λ i. Verdict F utf8_error debug out i r left out') same v)

  judge_v4 :
      (reserved b0 : ℕ) (rest : Bytes)
      → IsBytes rest
      → Cut (5 ∷ 1 ∷ reserved ∷ 1 ∷ b0 ∷ rest) ⊎ Judged (5 ∷ 1 ∷ reserved ∷ 1 ∷ b0 ∷ rest)
  judge_v4 reserved a [] h = inl (in_v4 (omega arith))
  judge_v4 reserved a (b ∷ []) h = inl (in_v4 (omega arith))
  judge_v4 reserved a (b ∷ c ∷ []) h = inl (in_v4 (omega arith))
  judge_v4 reserved a (b ∷ c ∷ d ∷ []) h = inl (in_v4 (omega arith))
  judge_v4 reserved a (b ∷ c ∷ d ∷ p ∷ []) h = inl (in_v4 (omega arith))
  judge_v4 reserved a (b ∷ c ∷ d ∷ p ∷ q ∷ rest) h =
      inr (_, _, _, an_ipv4 reserved a b c d p q rest h.1.1.0 h.1.1.1.0)

  from_words :
      (reserved b0 : ℕ) (rest : Bytes) (a : Word 16 (b0 ∷ rest)) (b : Word 14 a.after)
      (c : Word 12 b.after) (d : Word 10 c.after) (e : Word 8 d.after) (f : Word 6 e.after)
      (g : Word 4 f.after) (u : Word 2 g.after) (port : Word 0 u.after)
      → Judged (5 ∷ 1 ∷ reserved ∷ 4 ∷ b0 ∷ rest)
  from_words reserved b0 rest a b c d e f g u port =
      same-Judged
        (ap (λ xs. 5 ∷ 1 ∷ reserved ∷ 4 ∷ xs)
          (sym (
            then_word a (
              then_word b (
                then_word c (
                  then_word d (
                    then_word e
                      (then_word f (then_word g (then_word u (then_word port refl)))))))))))
        (an_ipv6 reserved a.word b.word c.word d.word e.word f.word g.word u.word port.word
          port.after ((a.fits, b.fits, c.fits, d.fits, e.fits, f.fits, g.fits, u.fits), port.fits))

  judge_v6 :
      (reserved b0 : ℕ) (rest : Bytes)
      → IsBytes (b0 ∷ rest)
      → Cut (5 ∷ 1 ∷ reserved ∷ 4 ∷ b0 ∷ rest) ⊎ Judged (5 ∷ 1 ∷ reserved ∷ 4 ∷ b0 ∷ rest)
  judge_v6 reserved b0 rest h = elim (dec_le 17 (length rest)) [
    | no short ↦ inl (in_v6 (omega arith))
    | yes enough ↦
        let a = front 16 (b0 ∷ rest) (omega arith) h in
        let b = front 14 a.after a.room a.are_bytes in
        let c = front 12 b.after b.room b.are_bytes in
        let d = front 10 c.after c.room c.are_bytes in
        let e = front 8 d.after d.room d.are_bytes in
        let f = front 6 e.after e.room e.are_bytes in
        let g = front 4 f.after f.room f.are_bytes in
        let u = front 2 g.after g.room g.are_bytes in
        let port = front 0 u.after u.room u.are_bytes in
        inr (from_words reserved b0 rest a b c d e f g u port)
  ]

  judge_name :
      (reserved len : ℕ) (rest : Bytes)
      → IsBytes rest
      → Cut (5 ∷ 1 ∷ reserved ∷ 3 ∷ len ∷ rest) ⊎ Judged (5 ∷ 1 ∷ reserved ∷ 3 ∷ len ∷ rest)
  judge_name reserved len rest h = elim (dec_le len 253) [
    | no long ↦ inr (_, _, _, long_name reserved len rest (omega arith))
    | yes room ↦ elim (dec_le (len + 2) (length rest)) [
      | no short ↦ inl (in_name room (omega arith))
      | yes enough ↦
          let n = name_front len rest (omega arith) h in
          let port = front 0 n.after (omega (arith, n.longer)) n.are_bytes in
          let same : 5 ∷ 1 ∷ reserved ∷ addr_bytes (domain n.name port.word) port.after
              ≡ 5 ∷ 1 ∷ reserved ∷ 3 ∷ len ∷ rest =
            cc (n.begins, n.is_long, port.begins) in
          let fits : length n.name ≤ 253 = omega (arith, n.is_long) in
          elim (Option-cases (utf8_error n.name)) [
            | inl valid ↦ inr (
                same-Judged same (a_name reserved port.word n.name port.after fits port.fits valid))
            | inr (e, invalid) ↦
                inr (same-Judged same (no_utf8 reserved port.word n.name port.after fits invalid))
          ]
    ]
  ]

  judge_type :
      (reserved t b0 : ℕ) (rest : Bytes)
      → IsBytes (b0 ∷ rest)
      → Cut (5 ∷ 1 ∷ reserved ∷ t ∷ b0 ∷ rest) ⊎ Judged (5 ∷ 1 ∷ reserved ∷ t ∷ b0 ∷ rest)
  judge_type reserved t b0 rest h = elim (ℕ_discrete t 1) [
    | yes is_v4 ↦ rw is_v4 (judge_v4 reserved b0 rest h.1)
    | no not_v4 ↦ elim (ℕ_discrete t 3) [
      | yes is_name ↦ rw is_name (judge_name reserved b0 rest h.1)
      | no not_name ↦ elim (ℕ_discrete t 4) [
        | yes is_v6 ↦ rw is_v6 (judge_v6 reserved b0 rest h)
        | no not_v6 ↦ inr (_, _, _, other_type reserved t b0 rest not_v4 not_name not_v6)
      ]
    ]
  ]

  judge_head :
      (p cmd reserved t b0 : ℕ) (rest : Bytes)
      → IsBytes (b0 ∷ rest)
      → Cut (p ∷ cmd ∷ reserved ∷ t ∷ b0 ∷ rest) ⊎ Judged (p ∷ cmd ∷ reserved ∷ t ∷ b0 ∷ rest)
  judge_head p cmd reserved t b0 rest h = elim (ℕ_discrete p 5) [
    | no wrong ↦ inr (_, _, _, other_protocol p cmd reserved t b0 rest wrong)
    | yes right ↦ elim (ℕ_discrete cmd 1) [
      | no other ↦ rw right (inr (_, _, _, other_command cmd reserved t b0 rest other))
      | yes connect ↦ rw (right, connect) (judge_type reserved t b0 rest h)
    ]
  ]

  pub judge : (inp : Bytes) → IsBytes inp → Cut inp ⊎ Judged inp
  judge [] h = inl (head (omega arith))
  judge (p ∷ []) h = inl (head (omega arith))
  judge (p ∷ cmd ∷ []) h = inl (head (omega arith))
  judge (p ∷ cmd ∷ r ∷ []) h = inl (head (omega arith))
  judge (p ∷ cmd ∷ r ∷ t ∷ []) h = inl (head (omega arith))
  judge (p ∷ cmd ∷ r ∷ t ∷ b0 ∷ rest) h = judge_head p cmd r t b0 rest h.1.1.1.1

  -- Whatever bytes are there to read, over a connection that has not failed: either they end before
  -- the request does, by its own lengths, and then the call fails with an error of the stream and
  -- writes nothing; or the call comes to what `Verdict` says of them. That is the address that the
  -- client sent, for an IPv6 address or a name of at most 253 bytes of UTF-8, and for an IPv4 address
  -- with a port that is made of the last byte of the address and the first of the port; an error, for
  -- another protocol, another command, an unknown address type or, with the log below the debug
  -- level, a name that is not UTF-8; or a panic, for a longer name or, with the log at that level, one
  -- that is not UTF-8. What is left to read and what is written then is what `Verdict` says, too.
  pub get_request_decides :
      {S : Type 0} {tcp : Tcp F S} (laws : TcpLaws tcp) (inp : Bytes)
      → IsBytes inp
      → (Cut inp × Breaks laws (get_request tcp utf8_error debug) inp out out)
        ⊎ ((r : Outcome F ReqAddr) × (left : Bytes) × (out' : Bytes) × Verdict F utf8_error debug
              out inp r left out'
            × Runs laws (get_request tcp utf8_error debug) inp out r left out')
  get_request_decides laws inp h = elim (judge inp h) [
    | inl cut ↦ inl (cut, Cut-Breaks F utf8_error debug out laws cut)
    | inr (r, left, out', v) ↦ inr (r, left, out', v, Verdict-Runs F utf8_error debug out laws v)
  ]
