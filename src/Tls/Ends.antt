-- ===== src/Tls/Ends.antt =====
-- The calls of src/tls_stream.rs return: from some fuel on, they give a value, and always the same.
use rocks.Base.{
  ℕ, zero, suc, max, ◌≤◌, ◌<◌, ◌≡◌, refl, ◌∙◌, [], ◌∷◌, Bool, true, false, not, ◌&&◌, Bool-cases,
  Option-cases, inl, inr, Option, none, some, arith, length, if◌then◌else◌,
}
use rocks.Base.Words.{Bytes}
use rocks.Error.{Result}
use rocks.Tls.{
  ◌>>=◌, would_block, invalid_data, other, Poll, Session, TlsStream, Io, after_read, read_round,
  check_read, write_round, check_write, complete_io, unblocked, written, read, write, flush,
  shutdown,
}
use rocks.Tls.Flush.{WriteLaws, shorter}
use rocks.Tls.Rounds.{write_off, write_stop, write_on, read_off, read_stop, read_on}

pub record Settles {A : Type 0} (f : ℕ → Option A) : Type 0 where
  pub value : A
  pub enough : ℕ
  pub settled : (fuel : ℕ) → enough ≤ fuel → f fuel ≡ some value

-- `available` bounds the bytes that the socket gives before it would block, fails or ends.
pub record ReadLaws {E X S T : Type 0} (tls : Session E X S T) : Type 0 where
  pub available : T → ℕ
  pub read_tls_progress :
      (s : S) (t : T) {n : ℕ}
      → (tls.read_tls s t).0 ≡ Result.ok (suc n)
      → available (tls.read_tls s t).2 < available t

-- Fuel spent on one round more.
Settles-suc :
    {A : Type 0} (f : ℕ → Option A) (value : A) (enough : ℕ)
    → ((fuel : ℕ) → enough ≤ fuel → f (suc fuel) ≡ some value)
    → Settles f
Settles-suc f value enough h = record { value = value; enough = suc enough; settled = from }
  where
    from : (fuel : ℕ) → suc enough ≤ fuel → f fuel ≡ some value
    from zero k = absurd (omega arith)
    from (suc fuel) k = h fuel (omega arith)

Settles-more :
    {A : Type 0} {f g : ℕ → Option A} → ((fuel : ℕ) → f (suc fuel) ≡ g fuel) → Settles g → Settles f
Settles-more {f = f} h s = Settles-suc f s.value s.enough (λ fuel k. h fuel ∙ s.settled fuel k)

Settles-now :
    {A : Type 0} (f : ℕ → Option A) (a : A) → ((fuel : ℕ) → f (suc fuel) ≡ some a) → Settles f
Settles-now f a h = Settles-suc f a 0 (λ fuel k. h fuel)

constant : {A : Type 0} (a : A) → Settles (λ fuel. some a)
constant a = record { value = a; enough = 0; settled = λ fuel k. refl }

Settles-if :
    {A : Type 0} (b : Bool) {f g : ℕ → Option A}
    → Settles f
    → Settles g
    → Settles (λ fuel. if b then f fuel else g fuel)
Settles-if true s r = s
Settles-if false s r = r

Settles-result :
    {E B A : Type 0} (r : Result E B) {f : B → ℕ → Option A} {g : E → ℕ → Option A}
    → ((b : B) → Settles (f b))
    → ((e : E) → Settles (g e))
    → Settles (λ fuel. elim r [ Result.ok b ↦ f b fuel | Result.err e ↦ g e fuel ])
Settles-result (Result.ok b) s r = s b
Settles-result (Result.err e) s r = r e

Settles-bind :
    {A B : Type 0} (f : ℕ → Option A) (k : ℕ → A → Option B)
    → Settles f
    → ((a : A) → Settles (λ fuel. k fuel a))
    → Settles (λ fuel. f fuel >>= k fuel)
Settles-bind f k s next =
    let n = next s.value in
    record {
      value = n.value;
      enough = max s.enough n.enough;
      settled = λ fuel h. rw (s.settled fuel (omega arith), ◌>>=◌) (n.settled fuel (omega arith));
    }

module _ {E X S T : Type 0} (tls : Session E X S T) where
  after_read-none :
      (r : Io tls ℕ) (t : TlsStream S T)
      → (after_read tls r t).0 ≡ none
      → (n : ℕ) × (r ≡ Result.ok (suc n)) × ((after_read tls r t).1.stream ≡ t.stream)
  unfolding after_read
  after_read-none (Result.ok zero) t h = cc
  after_read-none (Result.ok (suc n)) t h = (n, refl, ground arith)
  after_read-none (Result.err would_block) t h = cc
  after_read-none (Result.err (invalid_data e)) t h = cc
  after_read-none (Result.err (other x)) t h = cc

  resumed :
      {A : Type 0} (k : ℕ → TlsStream S T → Option (Io tls A × TlsStream S T))
      → ((t : TlsStream S T) → Settles (λ fuel. k fuel t))
      → (p : Poll (Io tls (Unit {0}))) (t : TlsStream S T)
      → Settles (λ fuel. unblocked tls (some (p, t)) (k fuel))
  unfolding unblocked
  resumed k next Poll.pending t = constant _
  resumed k next (Poll.ready (Result.ok u)) t = next t
  resumed k next (Poll.ready (Result.err e)) t = constant _

  unblocked-Settles :
      {A : Type 0} (f : ℕ → Option (Poll (Io tls (Unit {0})) × TlsStream S T))
      (k : ℕ → TlsStream S T → Option (Io tls A × TlsStream S T))
      → Settles f
      → ((t : TlsStream S T) → Settles (λ fuel. k fuel t))
      → Settles (λ fuel. unblocked tls (f fuel) (k fuel))
  unblocked-Settles f k s next =
      let r = resumed k next s.value.0 s.value.1 in
      record {
        value = r.value;
        enough = max s.enough r.enough;
        settled = λ fuel h. rw (s.settled fuel (omega arith)) (r.settled fuel (omega arith));
      }

module _ {E X S T : Type 0} {tls : Session E X S T} (reads : ReadLaws tls)
    (writes : WriteLaws tls) where
  check_write-Settles :
      (k : ℕ) (t : TlsStream S T)
      → length (writes.queued t.session) < k
      → Settles (λ fuel. check_write tls fuel t)
  check_write-Settles zero t h = absurd (omega arith)
  check_write-Settles (suc k) t h = elim (Bool-cases (tls.wants_write t.session)) [
    | inr off ↦ Settles-now _ _ (λ fuel. write_off tls t fuel off)
    | inl on ↦ elim (Option-cases (write_round tls t).0) [
      | inr (p, stop) ↦ Settles-now _ _ (λ fuel. write_stop tls t fuel on stop)
      | inl more ↦
          Settles-more (λ fuel. write_on tls t fuel on more)
            (check_write-Settles k (write_round tls t).1 (omega (arith, shorter writes t on more)))
    ]
  ]

  went_down :
      (t : TlsStream S T)
      → (read_round tls t).0 ≡ none
      → reads.available (read_round tls t).1.stream < reads.available t.stream
  unfolding read_round
  went_down t h =
      let (n, took, same) = after_read-none tls (tls.read_tls t.session t.stream).0 _ h in
      rw same (reads.read_tls_progress t.session t.stream took)

  check_read-Settles :
      (k : ℕ) (t : TlsStream S T)
      → reads.available t.stream < k
      → Settles (λ fuel. check_read tls fuel t)
  check_read-Settles zero t h = absurd (omega arith)
  check_read-Settles (suc k) t h = elim (Bool-cases (not t.eof && tls.wants_read t.session)) [
    | inr off ↦ Settles-now _ _ (λ fuel. read_off tls t fuel off)
    | inl on ↦ elim (Option-cases (read_round tls t).0) [
      | inr (p, stop) ↦ Settles-now _ _ (λ fuel. read_stop tls t fuel on stop)
      | inl more ↦
          Settles-more (λ fuel. read_on tls t fuel on more)
            (check_read-Settles k (read_round tls t).1 (omega (arith, went_down t more)))
    ]
  ]

  check_reads : (t : TlsStream S T) → Settles (λ fuel. check_read tls fuel t)
  check_reads t = check_read-Settles (suc (reads.available t.stream)) t (omega arith)

  check_writes : (t : TlsStream S T) → Settles (λ fuel. check_write tls fuel t)
  check_writes t = check_write-Settles (suc (length (writes.queued t.session))) t (omega arith)

  complete_io-Settles : (t : TlsStream S T) → Settles (λ fuel. complete_io tls fuel t)
  unfolding complete_io
  complete_io-Settles t =
      Settles-bind (λ fuel. check_read tls fuel t) _ (check_reads t)
        λ p. Settles-bind (λ fuel. check_write tls fuel p.1) _ (check_writes p.1) λ q. constant _

  written-Settles : (r : Io tls ℕ) (t : TlsStream S T) → Settles (λ fuel. written tls fuel r t)
  unfolding written
  written-Settles (Result.ok n) t =
      unblocked-Settles tls (λ fuel. check_write tls fuel t) _ (check_writes t) λ u. constant _
  written-Settles (Result.err e) t = constant _

  write-Settles : (t : TlsStream S T) (buf : Bytes) → Settles (λ fuel. write tls fuel t buf)
  unfolding write
  write-Settles t [] = constant _
  write-Settles t (b ∷ bs) = Settles-if t.eof (constant _) (
      unblocked-Settles tls (λ fuel. complete_io tls fuel t) _ (complete_io-Settles t)
        λ u. written-Settles _ _)

  read-Settles : (t : TlsStream S T) (n : ℕ) → Settles (λ fuel. read tls fuel t n)
  unfolding read
  read-Settles t n =
      unblocked-Settles tls (λ fuel. complete_io tls fuel t) _ (complete_io-Settles t)
        λ u. Settles-if u.eof (constant _) (constant _)

  flush-Settles : (t : TlsStream S T) → Settles (λ fuel. flush tls fuel t)
  unfolding flush
  flush-Settles t = Settles-bind (λ fuel. check_write tls fuel t) _ (check_writes t) λ p. constant _

  shutdown-Settles : (t : TlsStream S T) → Settles (λ fuel. shutdown tls fuel t)
  unfolding shutdown
  shutdown-Settles t =
      Settles-result (tls.poll_shutdown t.stream).0 (λ u. complete_io-Settles _) (λ e. constant _)

  -- Every call on the stream returns: there is an amount of fuel from which on the result is always
  -- the same one.
  pub calls_end :
      (t : TlsStream S T) (n : ℕ) (buf : Bytes)
      → Settles (λ fuel. read tls fuel t n)
        × Settles (λ fuel. write tls fuel t buf)
        × Settles (λ fuel. flush tls fuel t)
        × Settles (λ fuel. shutdown tls fuel t)
  calls_end t n buf = (read-Settles t n, write-Settles t buf, flush-Settles t, shutdown-Settles t)
