-- ===== src/Tls/Accepted.antt =====
-- The bytes that the session takes to send, against what `write` reports.
use rocks.Base.{
  ℕ, zero, suc, ◌≡◌, refl, sym, ◌∙◌, ap, [], ◌∷◌, ◌++◌, append-nil, false, Bool-cases, inl, inr,
  some, arith, take,
}
use rocks.Base.Words.{Bytes}
use rocks.Error.{Result}
use rocks.Tls.{
  would_block, invalid_data, other, Poll, Session, TlsStream, Io, after_read, shut, read_round,
  write_round, check_write, complete_io, written, write_some, write,
}
use rocks.Tls.Closed.{if_true, if_false}
use rocks.Tls.Rounds.{check_write_keeps, complete_io_keeps, unblocked-eq-some}

-- What rustls promises of the plain bytes that a session has taken to send: only `write` adds to
-- them, and it adds as many bytes of its argument as it says.
pub record AcceptLaws {E X S T : Type 0} (tls : Session E X S T) : Type 0 where
  pub accepted : S → Bytes
  pub read_tls_accepted : (s : S) (t : T) → accepted (tls.read_tls s t).1 ≡ accepted s
  pub process_accepted : (s : S) → accepted (tls.process_new_packets s).1 ≡ accepted s
  pub write_tls_accepted : (s : S) (t : T) → accepted (tls.write_tls s t).1 ≡ accepted s
  pub write_accepted :
      (s : S) (buf : Bytes) {n : ℕ}
      → (tls.write s buf).0 ≡ Result.ok n
      → accepted (tls.write s buf).1 ≡ accepted s ++ take n buf

module _ {E X S T : Type 0} {tls : Session E X S T} (laws : AcceptLaws tls) where
  abbrev pub taken : TlsStream S T → Bytes
  taken t = laws.accepted t.session

  taken-after_read : (r : Io tls ℕ) (t : TlsStream S T) → taken (after_read tls r t).1 ≡ taken t
  unfolding after_read
  taken-after_read (Result.ok zero) t = refl
  taken-after_read (Result.ok (suc n)) t = ground (arith, laws.process_accepted t.session)
  taken-after_read (Result.err would_block) t = refl
  taken-after_read (Result.err (invalid_data e)) t = refl
  taken-after_read (Result.err (other x)) t = refl

  taken-read_round : (t : TlsStream S T) → taken (read_round tls t).1 ≡ taken t
  unfolding read_round
  taken-read_round t =
      taken-after_read (tls.read_tls t.session t.stream).0 _
      ∙ laws.read_tls_accepted t.session t.stream

  taken-write_round : (t : TlsStream S T) → taken (write_round tls t).1 ≡ taken t
  unfolding write_round
  taken-write_round t = laws.write_tls_accepted t.session t.stream

  taken-complete_io :
      (fuel : ℕ) (t : TlsStream S T) {p : Poll (Io tls (Unit {0}))} {u : TlsStream S T}
      → complete_io tls fuel t ≡ some (p, u)
      → taken u ≡ taken t
  taken-complete_io = complete_io_keeps tls taken taken-read_round taken-write_round

  -- The end of a write: the session has said how many bytes it took, and the loop has run.
  written-ok :
      (fuel : ℕ) (r : Io tls ℕ) (t : TlsStream S T) {n : ℕ} {u : TlsStream S T}
      → written tls fuel r t ≡ some (Result.ok n, u)
      → (r ≡ Result.ok n) × (taken u ≡ taken t)
  unfolding written
  written-ok fuel (Result.err e) t h = cc
  written-ok fuel (Result.ok m) t {n} h =
      let (p, t', ran, next) = unblocked-eq-some tls (check_write tls fuel t) _ h in
      let same = check_write_keeps tls taken taken-write_round fuel t ran in
      elim next [ inl (stopped, failed) ↦ absurd (failed n refl) | inr given ↦ (cc, cc) ]

  shut-ok : (r : Io tls (Unit {0})) {n : ℕ} → shut tls r ≡ Result.ok n → n ≡ 0
  unfolding shut
  shut-ok (Result.ok a) h = cc
  shut-ok (Result.err e) h = cc

  take_none : (xs ys : Bytes) {n : ℕ} → n ≡ 0 → xs ≡ xs ++ take n ys
  take_none xs ys h = rw h (sym (append-nil xs))

  write_some_takes :
      (fuel : ℕ) (t : TlsStream S T) (buf : Bytes) {n : ℕ} {u : TlsStream S T}
      → write_some tls fuel t buf ≡ some (Result.ok n, u)
      → taken u ≡ taken t ++ take n buf
  unfolding write_some
  write_some_takes fuel t buf {n} h =
      let (p, t', ran, next) = unblocked-eq-some tls (complete_io tls fuel t) _ h in
      let same = taken-complete_io fuel t ran in
      elim next [
        | inl (stopped, failed) ↦ absurd (failed n refl)
        | inr given ↦
            let (took, kept) = written-ok fuel (tls.write t'.session buf).0 _ given in
            kept ∙ laws.write_accepted t'.session buf took ∙ ap (λ xs. xs ++ take n buf) same
      ]

  -- If a write succeeds, the session has taken just the bytes that are reported.
  pub write_takes :
      (fuel : ℕ) (t : TlsStream S T) (buf : Bytes) {n : ℕ} {u : TlsStream S T}
      → write tls fuel t buf ≡ some (Result.ok n, u)
      → taken u ≡ taken t ++ take n buf
  unfolding write
  write_takes fuel t [] {n} {u} h =
      let none_sent = shut-ok (tls.shutdown t.stream).0 {n = n} (cc) in
      let same : u ≡ record t { stream = (tls.shutdown t.stream).1 } = cc in
      ap taken same ∙ take_none (taken t) [] none_sent
  write_takes fuel t (b ∷ bs) {n} {u} h = elim (Bool-cases t.eof) [
    | inl closed ↦
        let ended = sym (if_true _ _ closed) ∙ h in
        let same : u ≡ t = cc in ap taken same ∙ take_none (taken t) (b ∷ bs) (cc)
    | inr going ↦ write_some_takes fuel t (b ∷ bs) (sym (if_false _ _ going) ∙ h)
  ]

  -- A write on a stream that has not ended, and on which `complete_io` succeeds before it takes any:
  -- if the session takes a part of the bytes and the socket then blocks, the write reports that it
  -- would block, as if nothing had been taken. If the same bytes are therefore written again, whatever
  -- has become of the socket by then, and that succeeds, the session has taken the front of the bytes
  -- twice in a row: the part from the first write, and behind it, from the start again, as many as the
  -- second write reports.
  pub write_blocked :
      (fuel : ℕ) (t : TlsStream S T) (b : ℕ) (bs : Bytes) {n : ℕ} {u v : TlsStream S T} (fuel' : ℕ)
      (again : TlsStream S T) {m : ℕ} {w : TlsStream S T}
      → t.eof ≡ false
      → complete_io tls fuel t ≡ some (Poll.ready (Result.ok tt), u)
      → (tls.write u.session (b ∷ bs)).0 ≡ Result.ok n
      → check_write tls fuel (record u { session = (tls.write u.session (b ∷ bs)).1 })
        ≡ some (Poll.pending, v)
      → again.session ≡ v.session
      → write tls fuel' again (b ∷ bs) ≡ some (Result.ok m, w)
      → (write tls fuel t (b ∷ bs) ≡ some (Result.err would_block, v))
        × (taken w ≡ (taken t ++ take n (b ∷ bs)) ++ take m (b ∷ bs))
  unfolding write write_some written
  write_blocked fuel t b bs {n} {u} {v} fuel' again {m} going done took blocked same retried = (
    if_false _ _ going ∙ rw (done, took, blocked) refl,
    write_takes fuel' again (b ∷ bs) retried
        ∙ ap (λ xs. xs ++ take m (b ∷ bs)) (ap (λ s. laws.accepted s) same ∙ first_part),
  )
    where
      first_part : taken v ≡ taken t ++ take n (b ∷ bs)
      first_part =
          check_write_keeps tls taken taken-write_round fuel _ blocked
          ∙ laws.write_accepted u.session (b ∷ bs) took
          ∙ ap (λ xs. xs ++ take n (b ∷ bs)) (taken-complete_io fuel t done)
