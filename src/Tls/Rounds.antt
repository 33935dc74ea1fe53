-- ===== src/Tls/Rounds.antt =====
-- The loops of src/tls_stream.rs round by round, and what they leave as it is.
use rocks.Base.{
  ℕ, zero, suc, ◌≡◌, refl, sym, ◌∙◌, ◌≢◌, ◌⊎◌, true, false, not, ◌&&◌, Bool-cases, Option-cases,
  inl, inr, Option, none, some,
}
use rocks.Error.{Result}
use rocks.Tls.{
  ◌>>=◌, Poll, Session, TlsStream, Io, read_round, check_read, write_round, check_write,
  complete_io, unblocked,
}

module _ {E X S T : Type 0} (tls : Session E X S T) where
  pub write_off :
      (t : TlsStream S T) (fuel : ℕ)
      → tls.wants_write t.session ≡ false
      → check_write tls (suc fuel) t ≡ some (Poll.ready (Result.ok tt), t)
  unfolding check_write
  write_off t fuel off = rw (off, check_write) refl

  pub write_stop :
      (t : TlsStream S T) (fuel : ℕ) {p : Poll (Io tls (Unit {0}))}
      → tls.wants_write t.session ≡ true
      → (write_round tls t).0 ≡ some p
      → check_write tls (suc fuel) t ≡ some (p, (write_round tls t).1)
  unfolding check_write
  write_stop t fuel on stop = rw (on, check_write, stop) refl

  pub write_on :
      (t : TlsStream S T) (fuel : ℕ)
      → tls.wants_write t.session ≡ true
      → (write_round tls t).0 ≡ none
      → check_write tls (suc fuel) t ≡ check_write tls fuel (write_round tls t).1
  unfolding check_write
  write_on t fuel on more = rw (on, check_write, more) refl

  pub read_off :
      (t : TlsStream S T) (fuel : ℕ)
      → (not t.eof && tls.wants_read t.session) ≡ false
      → check_read tls (suc fuel) t ≡ some (Poll.ready (Result.ok tt), t)
  unfolding check_read
  read_off t fuel off = rw (off, check_read) refl

  pub read_stop :
      (t : TlsStream S T) (fuel : ℕ) {p : Poll (Io tls (Unit {0}))}
      → (not t.eof && tls.wants_read t.session) ≡ true
      → (read_round tls t).0 ≡ some p
      → check_read tls (suc fuel) t ≡ some (p, (read_round tls t).1)
  unfolding check_read
  read_stop t fuel on stop = rw (on, check_read, stop) refl

  pub read_on :
      (t : TlsStream S T) (fuel : ℕ)
      → (not t.eof && tls.wants_read t.session) ≡ true
      → (read_round tls t).0 ≡ none
      → check_read tls (suc fuel) t ≡ check_read tls fuel (read_round tls t).1
  unfolding check_read
  read_on t fuel on more = rw (on, check_read, more) refl

pub >>=-eq-some :
    {A B : Type 0} (m : Option A) (f : A → Option B) {b : B}
    → (m >>= f) ≡ some b
    → (a : A) × (m ≡ some a) × (f a ≡ some b)
>>=-eq-some none f h = cc
>>=-eq-some (some a) f h = (a, refl, h)

module _ {E X S T : Type 0} (tls : Session E X S T) {V : Type 0} (view : TlsStream S T → V) where
  -- What no round of a loop changes, the loop does not change.
  pub check_write_keeps :
      ((t : TlsStream S T) → view (write_round tls t).1 ≡ view t)
      → (fuel : ℕ) (t : TlsStream S T) {p : Poll (Io tls (Unit {0}))} {u : TlsStream S T}
      → check_write tls fuel t ≡ some (p, u)
      → view u ≡ view t
  unfolding check_write
  check_write_keeps keep zero t h = cc
  check_write_keeps keep (suc fuel) t h = elim (Bool-cases (tls.wants_write t.session)) [
    | inr off ↦ cc (write_off tls t fuel off)
    | inl on ↦ elim (Option-cases (write_round tls t).0) [
      | inr (p, stop) ↦ cc (write_stop tls t fuel on stop, keep t)
      | inl more ↦
          check_write_keeps keep fuel (write_round tls t).1 (sym (write_on tls t fuel on more) ∙ h)
          ∙ keep t
    ]
  ]

  pub check_read_keeps :
      ((t : TlsStream S T) → view (read_round tls t).1 ≡ view t)
      → (fuel : ℕ) (t : TlsStream S T) {p : Poll (Io tls (Unit {0}))} {u : TlsStream S T}
      → check_read tls fuel t ≡ some (p, u)
      → view u ≡ view t
  unfolding check_read
  check_read_keeps keep zero t h = cc
  check_read_keeps keep (suc fuel) t h = elim (Bool-cases (not t.eof && tls.wants_read t.session)) [
    | inr off ↦ cc (read_off tls t fuel off)
    | inl on ↦ elim (Option-cases (read_round tls t).0) [
      | inr (p, stop) ↦ cc (read_stop tls t fuel on stop, keep t)
      | inl more ↦
          check_read_keeps keep fuel (read_round tls t).1 (sym (read_on tls t fuel on more) ∙ h)
          ∙ keep t
    ]
  ]

  pub complete_io_keeps :
      ((t : TlsStream S T) → view (read_round tls t).1 ≡ view t)
      → ((t : TlsStream S T) → view (write_round tls t).1 ≡ view t)
      → (fuel : ℕ) (t : TlsStream S T) {p : Poll (Io tls (Unit {0}))} {u : TlsStream S T}
      → complete_io tls fuel t ≡ some (p, u)
      → view u ≡ view t
  unfolding complete_io
  complete_io_keeps reads writes fuel t h =
      let ((r, t'), was_read, rest) = >>=-eq-some (check_read tls fuel t) _ h in
      let ((w, v), was_written, same) = >>=-eq-some (check_write tls fuel t') _ rest in
      cc (check_read_keeps reads fuel t was_read, check_write_keeps writes fuel t' was_written)

module _ {E X S T : Type 0} (tls : Session E X S T) {A : Type 0} where
  -- What comes of `Self::check_would_block(..)?` and the rest: the error, or the rest was run.
  pub unblocked-eq-some :
      (m : Option (Poll (Io tls (Unit {0})) × TlsStream S T))
      (k : TlsStream S T → Option (Io tls A × TlsStream S T)) {r : Io tls A} {u : TlsStream S T}
      → unblocked tls m k ≡ some (r, u)
      → (p : Poll (Io tls (Unit {0}))) × (t : TlsStream S T) × (m ≡ some (p, t))
        × (((t ≡ u) × ((a : A) → r ≢ Result.ok a)) ⊎ (k t ≡ some (r, u)))
  unfolding unblocked
  unblocked-eq-some none k h = cc
  unblocked-eq-some (some (Poll.pending, t)) k h = (Poll.pending, t, refl, inl (cc, λ a e. cc))
  unblocked-eq-some (some (Poll.ready (Result.ok v), t)) k h = (_, t, refl, inr h)
  unblocked-eq-some (some (Poll.ready (Result.err e), t)) k h = (_, t, refl, inl (cc, λ a e. cc))
