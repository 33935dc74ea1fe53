-- ===== src/Tls/Closed.antt =====
-- A stream whose peer has ended it.
use rocks.Base.{
  ℕ, zero, suc, ◌≡◌, refl, sym, ◌∙◌, ap, [], Bool, true, false, not, ◌&&◌, inl, inr, some,
  if◌then◌else◌,
}
use rocks.Base.Words.{Bytes}
use rocks.Error.{Result}
use rocks.Tls.{
  Poll, Session, TlsStream, Io, write_round, check_read, check_write, complete_io, read,
}
use rocks.Tls.Rounds.{>>=-eq-some, check_write_keeps, unblocked-eq-some, read_off}

pub if_true : {A : Type 0} {b : Bool} (x y : A) → b ≡ true → (if b then x else y) ≡ x
if_true x y h = rw h refl

pub if_false : {A : Type 0} {b : Bool} (x y : A) → b ≡ false → (if b then x else y) ≡ y
if_false x y h = rw h refl

module _ {E X S T : Type 0} (tls : Session E X S T) where
  pub write_round-eof : (t : TlsStream S T) → (write_round tls t).1.eof ≡ t.eof
  unfolding write_round
  write_round-eof t = refl

  check_read-eof :
      (fuel : ℕ) (t : TlsStream S T) {p : Poll (Io tls (Unit {0}))} {u : TlsStream S T}
      → t.eof ≡ true
      → check_read tls fuel t ≡ some (p, u)
      → u ≡ t
  unfolding check_read
  check_read-eof zero t closed h = cc
  check_read-eof (suc fuel) t closed h =
      cc (read_off tls t fuel (ap (λ b. not b && tls.wants_read t.session) closed))

  -- Without the peer nothing is read: only the loop that writes is run.
  complete_io-eof :
      (fuel : ℕ) (t : TlsStream S T) {p : Poll (Io tls (Unit {0}))} {u : TlsStream S T}
      → t.eof ≡ true
      → complete_io tls fuel t ≡ some (p, u)
      → (w : Poll (Io tls (Unit {0}))) × (check_write tls fuel t ≡ some (w, u))
  unfolding complete_io
  complete_io-eof fuel t closed h =
      let ((r, t'), was_read, rest) = >>=-eq-some (check_read tls fuel t) _ h in
      let ((w, v), was_written, same) = >>=-eq-some (check_write tls fuel t') _ rest in
      (w, cc (check_read-eof fuel t closed was_read))

  -- Once the peer has ended the stream, a read that returns has run only the loop that writes, leaves
  -- the stream ended, and gives no bytes.
  pub read_closed :
      (fuel : ℕ) (t : TlsStream S T) (n : ℕ) {r : Io tls Bytes} {u : TlsStream S T}
      → t.eof ≡ true
      → read tls fuel t n ≡ some (r, u)
      → ((w : Poll (Io tls (Unit {0}))) × (check_write tls fuel t ≡ some (w, u)))
        × (u.eof ≡ true)
        × ((bs : Bytes) → r ≡ Result.ok bs → bs ≡ [])
  unfolding read
  read_closed fuel t n {r} {u} closed h =
      let (p, t', done, next) = unblocked-eq-some tls (complete_io tls fuel t) _ h in
      let (w, was_written) = complete_io-eof fuel t closed done in
      let still : t'.eof ≡ true =
        check_write_keeps tls (λ s. s.eof) write_round-eof fuel t was_written ∙ closed in
      elim next [
        | inl (same, failed) ↦ ((w, cc), cc, λ bs e. absurd (failed bs e))
        | inr given ↦ let ended = sym (if_true _ _ still) ∙ given in ((w, cc), cc, λ bs e. cc)
      ]
