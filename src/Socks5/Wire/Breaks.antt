-- ===== src/Socks5/Wire/Breaks.antt =====
-- Calls that the stream breaks off, by ending before the bytes that are wanted.
use rocks.Base.{ℕ, ◌-◌, ◌≤◌, ◌<◌, ◌≡◌, refl, ap, ◌∙◌, some, length, le→leb}
use rocks.Base.Words.{Bytes}
use rocks.Net.{Tcp, TcpLaws}
use rocks.Socks5.{Connected, read_exact, read_into}
use rocks.Error.{Foreign, Outcome, Action, ◌>>=◌, >>=-ok, >>=-err, io, io_outcome}
use rocks.Socks5.Wire.{OnWire, Runs, read_exact-eq}

module _ {F : Foreign} {S : Type 0} {tcp : Tcp F S} (laws : TcpLaws tcp) where
  -- A call has failed with an error of the stream, and `out` is all that was ever written.
  abbrev pub Broken : {A : Type 0} → Outcome F A × Connected S → Bytes → Type 0
  Broken r out =
      (e : F.IoError) × (s : S) × (r.0 ≡ Outcome.err (io e))
      × (r.1.stream ≡ some s)
      × (laws.sent s ≡ out)

  -- Whatever client is on the wire with `inp` to read and `out` written, `m` fails so.
  pub record Breaks {A : Type 0} (m : Action F (Connected S) A) (inp out out' : Bytes)
      : Type 0 where
    pub breaks : (c : Connected S) → OnWire laws c inp out → Broken (m c) out'

  after_error :
      {A B : Type 0} (m : Action F (Connected S) A) (f : A → Action F (Connected S) B)
      (c : Connected S) (out : Bytes)
      → Broken (m c) out
      → Broken ((m >>= f) c) out
  after_error m f c out (e, s, p, q, r) = rw (>>=-err m f c p) (e, s, refl, q, r)

  module _ {A B : Type 0} {m : Action F (Connected S) A} (f : A → Action F (Connected S) B)
      {inp out out' : Bytes} where
    pub Breaks-first : Breaks m inp out out' → Breaks (m >>= f) inp out out'
    Breaks-first p = record { breaks = λ c w. after_error m f c out' (p.breaks c w) }

    pub Breaks-later :
        {a : A} {inp' mid : Bytes}
        → Runs laws m inp out (Outcome.ok a) inp' mid
        → Breaks (f a) inp' mid out'
        → Breaks (m >>= f) inp out out'
    Breaks-later p q = record {
      breaks = λ c w. rw (>>=-ok m f c (p.run c w).0) (q.breaks (m c).1 (p.run c w).1);
    }

  read_exact-Breaks :
      (n : ℕ) (inp out : Bytes) → length inp < n → Breaks (read_exact tcp n) inp out out
  read_exact-Breaks n inp out h = record { breaks = λ c w. at_end c w }
    where
      at_end : (c : Connected S) → OnWire laws c inp out → Broken (read_exact tcp n c) out
      at_end c w =
          let s = w.tcp_stream in
          let short : length (laws.pending s) < n = rw w.pending_is h in
          let (e, ended) = laws.read_eof s n w.is_healthy short in
          rw (read_exact-eq laws c n w.connected)
            (e, (tcp.read_exact s n).1, ap io_outcome ended, refl, laws.read_sent s n ∙ w.sent_is)

  -- The stream ends before the bytes that are wanted.
  pub read_into-Breaks :
      (buf : Bytes) (lo hi : ℕ) (inp out : Bytes)
      → lo ≤ hi
      → hi ≤ length buf
      → length inp < hi - lo
      → Breaks (read_into tcp buf lo hi) inp out out
  unfolding read_into
  read_into-Breaks buf lo hi inp out a b h =
      rw (le→leb lo hi a, le→leb hi (length buf) b)
        (Breaks-first _ (read_exact-Breaks (hi - lo) inp out h))
