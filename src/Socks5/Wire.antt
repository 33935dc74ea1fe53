-- ===== src/Socks5/Wire.antt =====
-- The wire under a connected client: what a call reads and writes of it. `Runs` and its rules stand
-- for the laws of the stream in the proofs about the handshake, the request and the replies.
pub mod Breaks
use rocks.Base.{
  ℕ, Bool, false, ◌-◌, ◌≤◌, ◌<◌, ◌≡◌, refl, ap, ◌∙◌, true, ◌++◌, some, arith, length, take-append,
  drop-append, length-append, le→leb, lt→leb_false,
}
use rocks.Base.Words.{Bytes}
use rocks.Buffer.{fill, slice, slice-fill}
use rocks.Net.{Tcp, TcpLaws}
use rocks.Socks5.{Connected, read_from, read_exact, read_into, write_to, write_all}
use rocks.Error.{
  Foreign, Error, Outcome, Action, ◌>>=◌, ◌>>◌, when, try, attempt, >>=-ok, >>=-err, >>=-panic,
  lift, io, io_outcome,
}

-- The client is connected by a healthy stream, with `inp` to read and `out` written so far.
pub record OnWire {F : Foreign} {S : Type 0} {tcp : Tcp F S} (laws : TcpLaws tcp) (c : Connected S)
    (inp out : Bytes) : Type 0 where
  pub tcp_stream : S
  pub connected : c.stream ≡ some tcp_stream
  pub is_healthy : laws.healthy tcp_stream ≡ true
  pub pending_is : laws.pending tcp_stream ≡ inp
  pub sent_is : laws.sent tcp_stream ≡ out

module _ {F : Foreign} {S : Type 0} {tcp : Tcp F S} (laws : TcpLaws tcp) where
  -- Whatever client is on the wire with `inp` to read and `out` written, `m` ends with `r`, and then
  -- `inp'` is to be read and `out'` written.
  pub record Runs {A : Type 0} (m : Action F (Connected S) A) (inp out : Bytes) (r : Outcome F A)
      (inp' out' : Bytes) : Type 0 where
    pub run :
        (c : Connected S) → OnWire laws c inp out → ((m c).0 ≡ r) × OnWire laws (m c).1 inp' out'

  module _ {A B : Type 0} {m : Action F (Connected S) A} (f : A → Action F (Connected S) B)
      {inp out inp' out' : Bytes} where
    pub Runs-bind :
        {a : A} {r : Outcome F B} {inp'' out'' : Bytes}
        → Runs m inp out (Outcome.ok a) inp' out'
        → Runs (f a) inp' out' r inp'' out''
        → Runs (m >>= f) inp out r inp'' out''
    Runs-bind p q = record {
      run = λ c w. rw (>>=-ok m f c (p.run c w).0) (q.run (m c).1 (p.run c w).1);
    }

    pub Runs-err :
        {e : Error F}
        → Runs m inp out (Outcome.err e) inp' out'
        → Runs (m >>= f) inp out (Outcome.err e) inp' out'
    Runs-err p = record { run = λ c w. rw (>>=-err m f c (p.run c w).0) (refl, (p.run c w).1) }

    pub Runs-panic :
        Runs m inp out Outcome.panic inp' out' → Runs (m >>= f) inp out Outcome.panic inp' out'
    Runs-panic p = record { run = λ c w. rw (>>=-panic m f c (p.run c w).0) (refl, (p.run c w).1) }

  module _ {A : Type 0} {b : Bool} (m : Action F (Connected S) (Unit {0}))
      (k : Action F (Connected S) A) {inp out inp' out' : Bytes} where
    -- `if b { m }` where `m` returns from the method, and where it is skipped.
    pub Runs-when :
        {e : Error F}
        → b ≡ true
        → Runs m inp out (Outcome.err e) inp' out'
        → Runs (when b m >> k) inp out (Outcome.err e) inp' out'
    Runs-when h p = rw h (Runs-err (λ _. k) p)

    pub Runs-unless :
        {r : Outcome F A}
        → b ≡ false
        → Runs k inp out r inp' out'
        → Runs (when b m >> k) inp out r inp' out'
    Runs-unless h p = rw h p

  pub Runs-lift : {A : Type 0} (r : Outcome F A) (inp out : Bytes) → Runs (lift r) inp out r inp out
  Runs-lift r inp out = record { run = λ c w. (refl, w) }

  pub Runs-try :
      {A : Type 0} {m : Action F (Connected S) A} {inp out inp' out' : Bytes} {r : Outcome F A}
      → Runs m inp out r inp' out'
      → Runs (try m) inp out (attempt r) inp' out'
  Runs-try p = record { run = λ c w. (ap attempt (p.run c w).0, (p.run c w).1) }

  pub Runs-pure :
      {A : Type 0} {q r : Outcome F A} (inp out : Bytes) → q ≡ r → Runs (lift q) inp out r inp out
  Runs-pure inp out e = record { run = λ c w. (e, w) }

  read_exact-eq :
      (c : Connected S) (n : ℕ) {s : S}
      → c.stream ≡ some s
      → read_exact tcp n c
        ≡ (io_outcome (tcp.read_exact s n).0, record c { stream = some (tcp.read_exact s n).1 })
  unfolding read_exact
  read_exact-eq c n e = ap (λ o. read_from tcp o n c) e

  write_all-eq :
      (c : Connected S) (bs : Bytes) {s : S}
      → c.stream ≡ some s
      → write_all tcp bs c
        ≡ (io_outcome (tcp.write_all s bs).0, record c { stream = some (tcp.write_all s bs).1 })
  unfolding write_all
  write_all-eq c bs e = ap (λ o. write_to tcp o bs c) e

  read_exact-Runs :
      (n : ℕ) (bs rest out : Bytes)
      → n ≡ length bs
      → Runs (read_exact tcp n) (bs ++ rest) out (Outcome.ok bs) rest out
  read_exact-Runs n bs rest out h = record { run = λ c w. read_step c w }
    where
      read_step :
          (c : Connected S)
          → OnWire laws c (bs ++ rest) out
          → ((read_exact tcp n c).0 ≡ Outcome.ok bs) × OnWire laws (read_exact tcp n c).1 rest out
      read_step c w =
          let s = w.tcp_stream in
          let enough : n ≤ length (laws.pending s) =
            rw (w.pending_is, length-append bs rest) (omega arith) in
          rw (read_exact-eq c n w.connected) (
            ap io_outcome (laws.read_result s n w.is_healthy enough)
                ∙ rw (w.pending_is, h) (ap Outcome.ok (take-append bs rest)),
            record {
              tcp_stream = (tcp.read_exact s n).1;
              connected = refl;
              is_healthy = laws.read_healthy s n w.is_healthy enough;
              pending_is =
                  laws.read_pending s n w.is_healthy enough
                  ∙ rw (w.pending_is, h) (drop-append bs rest);
              sent_is = laws.read_sent s n ∙ w.sent_is;
            },
          )

  pub write_all-Runs :
      (bs inp out : Bytes) → Runs (write_all tcp bs) inp out (Outcome.ok tt) inp (out ++ bs)
  write_all-Runs bs inp out = record { run = λ c w. write_step c w }
    where
      write_step :
          (c : Connected S)
          → OnWire laws c inp out
          → ((write_all tcp bs c).0 ≡ Outcome.ok tt)
            × OnWire laws (write_all tcp bs c).1 inp (out ++ bs)
      write_step c w =
          let s = w.tcp_stream in
          rw (write_all-eq c bs w.connected) (
            ap io_outcome (laws.write_result s bs w.is_healthy),
            record {
              tcp_stream = (tcp.write_all s bs).1;
              connected = refl;
              is_healthy = laws.write_healthy s bs w.is_healthy;
              pending_is = laws.write_pending s bs ∙ w.pending_is;
              sent_is = laws.write_sent s bs w.is_healthy ∙ rw w.sent_is;
            },
          )

  -- `self.read_exact(&mut buf[lo..hi])` with enough bytes to come.
  pub read_into-Runs :
      (buf : Bytes) (lo hi : ℕ) (bs rest out : Bytes)
      → lo ≤ hi
      → hi ≤ length buf
      → hi - lo ≡ length bs
      → Runs (read_into tcp buf lo hi) (bs ++ rest) out (Outcome.ok (fill buf lo bs)) rest out
  unfolding read_into
  read_into-Runs buf lo hi bs rest out a b h =
      rw (le→leb lo hi a, le→leb hi (length buf) b)
        (Runs-bind _ (read_exact-Runs (hi - lo) bs rest out h) (Runs-lift _ rest out))

  -- Reading into the start of a buffer, and going on with just the bytes that were read.
  pub read_prefix-Runs :
      {A : Type 0} (buf : Bytes) (n : ℕ) (bs rest out : Bytes)
      (k : Bytes → Action F (Connected S) A) {r : Outcome F A} {inp' out' : Bytes}
      → n ≡ length bs
      → n ≤ length buf
      → Runs (k bs) rest out r inp' out'
      → Runs
          (read_into tcp buf 0 n >>= (λ buf. lift (slice buf 0 n) >>= k))
          (bs ++ rest)
          out
          r
          inp'
          out'
  read_prefix-Runs buf n bs rest out k e h p =
      Runs-bind _ (read_into-Runs buf 0 n bs rest out (omega arith) h (omega arith))
        (rw (e, slice-fill {F = F} buf bs) p)

  -- Slicing the buffer beyond its end panics before anything is read.
  pub read_into_panics :
      (buf : Bytes) (lo hi : ℕ) (inp out : Bytes)
      → lo ≤ hi
      → length buf < hi
      → Runs (read_into tcp buf lo hi) inp out Outcome.panic inp out
  unfolding read_into
  read_into_panics buf lo hi inp out a h =
      rw (le→leb lo hi a, lt→leb_false hi (length buf) h) (Runs-lift Outcome.panic inp out)
