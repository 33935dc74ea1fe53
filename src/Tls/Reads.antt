-- ===== src/Tls/Reads.antt =====
-- What the loops of src/tls_stream.rs do to the plaintext of the peer that has not been read.
pub mod Front
pub mod Calls
use rocks.Base.{
  ℕ, zero, suc, ◌≡◌, refl, ◌∷◌, append_assoc, ◌<◌, lt→ltb, sym, ap, subst, ◌∙◌, [], ◌++◌,
  append-nil, Bool, true, false, not, ◌&&◌, ◌==◌, ==_iff, ◌⊎◌, Bool-cases, Option-cases, inl, inr,
  Option, none, some, arith, ltb, length, if◌then◌else◌,
}
use rocks.Base.Words.{Bytes}
use rocks.Error.{Result}
use rocks.Tls.{
  IoFailure, would_block, invalid_data, other, Poll, Session, TlsStream, Io, after_packets,
  after_read, read_round, check_read, write_round, check_write, both_done, complete_io,
  check_would_block, unblocked, some_bytes, read,
}
use rocks.Tls.Closed.{write_round-eof, if_true, if_false}
use rocks.Tls.Rounds.{
  read_off, read_stop, read_on, >>=-eq-some, check_write_keeps, unblocked-eq-some,
}

-- What rustls documents of a session and its socket: `plaintext` are the bytes that are decrypted and
-- not read yet, and `to_come` those that the rest of the peer's stream stands for. A session wants to
-- read more only if no plaintext waits.
pub record PlainLaws {E X S T : Type 0} (tls : Session E X S T) : Type 0 where
  pub plaintext : S → Bytes
  pub to_come : S → T → Bytes
  pub wants_read_empty : (s : S) → tls.wants_read s ≡ true → plaintext s ≡ []
  pub read_tls_plaintext : (s : S) (t : T) → plaintext (tls.read_tls s t).1 ≡ plaintext s
  pub read_tls_to_come :
      (s : S) (t : T) → to_come (tls.read_tls s t).1 (tls.read_tls s t).2 ≡ to_come s t
  pub read_tls_end :
      (s : S) (t : T)
      → tls.wants_read s ≡ true
      → (tls.read_tls s t).0 ≡ Result.ok 0
      → to_come s t ≡ []
  pub process_decrypts :
      (s : S) (t : T)
      → (tls.process_new_packets s).0 ≡ Result.ok tt
      → plaintext (tls.process_new_packets s).1 ++ to_come (tls.process_new_packets s).1 t
        ≡ plaintext s ++ to_come s t
  pub write_tls_plaintext : (s : S) (t : T) → plaintext (tls.write_tls s t).1 ≡ plaintext s
  pub write_tls_to_come :
      (s : S) (t : T) → to_come (tls.write_tls s t).1 (tls.write_tls s t).2 ≡ to_come s t
  pub read_takes :
      (s : S) (n : ℕ) {bs : Bytes}
      → (tls.read s n).0 ≡ Result.ok bs
      → plaintext s ≡ bs ++ plaintext (tls.read s n).1
  pub read_fails :
      (s : S) (n : ℕ) {e : IoFailure E X}
      → (tls.read s n).0 ≡ Result.err e
      → plaintext (tls.read s n).1 ≡ plaintext s
  pub read_to_come : (s : S) (t : T) (n : ℕ) → to_come (tls.read s n).1 t ≡ to_come s t

module _ {E X S T : Type 0} {tls : Session E X S T} (laws : PlainLaws tls) where
  -- All of the peer's plaintext that has not been read.
  abbrev pub unread : TlsStream S T → Bytes
  unread t = laws.plaintext t.session ++ laws.to_come t.session t.stream

  -- A stream is only taken for ended if all of it was read.
  abbrev pub IsHonest : TlsStream S T → Type 0
  IsHonest t = t.eof ≡ true → unread t ≡ []

  abbrev pub Refuses : {A : Type 0} → Option (Poll (Io tls A)) → Type 0
  Refuses o = (e : E) × (o ≡ some (Poll.ready (Result.err (invalid_data e))))

  abbrev pub Held : TlsStream S T → TlsStream S T → Type 0
  Held t u = (unread u ≡ unread t) × IsHonest u

  unread-write_round : (t : TlsStream S T) → unread (write_round tls t).1 ≡ unread t
  unfolding write_round
  unread-write_round t =
      rw (laws.write_tls_plaintext, laws.write_tls_to_come t.session t.stream) refl

  packets-Held :
      (q : Result E (Unit {0})) (t : TlsStream S T)
      → t.eof ≡ false
      → (tls.process_new_packets t.session).0 ≡ q
      → Refuses (after_packets tls q)
        ⊎ Held t (record t { session = (tls.process_new_packets t.session).1 })
  unfolding after_packets
  packets-Held (Result.ok v) t going h = inr (laws.process_decrypts t.session t.stream h, λ e. cc)
  packets-Held (Result.err e) t going h = inl (e, refl)

  after_read-Held :
      (r : Io tls ℕ) (t : TlsStream S T)
      → t.eof ≡ false
      → (r ≡ Result.ok 0 → unread t ≡ [])
      → Refuses (after_read tls r t).0 ⊎ Held t (after_read tls r t).1
  unfolding after_read
  after_read-Held (Result.ok n) t going ends = elim (Bool-cases (n == 0)) [
    | inl over ↦ rw over (inr (refl, λ e. ends (ap Result.ok ((==_iff n 0).0 over))))
    | inr more ↦ rw more (packets-Held (tls.process_new_packets t.session).0 t going refl)
  ]
  after_read-Held (Result.err would_block) t going ends = inr (refl, λ e. cc)
  after_read-Held (Result.err (invalid_data e)) t going ends = inl (e, refl)
  after_read-Held (Result.err (other x)) t going ends = inr (refl, λ e. cc)

  read_round-Held :
      (t : TlsStream S T)
      → (not t.eof && tls.wants_read t.session) ≡ true
      → Refuses (read_round tls t).0 ⊎ Held t (read_round tls t).1
  unfolding read_round
  read_round-Held t on =
      let s = (tls.read_tls t.session t.stream).1 in
      let that : TlsStream S T = record t {
        session = s;
        stream = (tls.read_tls t.session t.stream).2;
      } in
      let wants : tls.wants_read t.session ≡ true = ground arith in
      let no_plaintext = laws.wants_read_empty t.session wants in
      let same : unread that ≡ unread t =
        rw (laws.read_tls_plaintext, laws.read_tls_to_come t.session t.stream) refl in
      let ends : (tls.read_tls t.session t.stream).0 ≡ Result.ok 0 → unread that ≡ [] =
        λ h. same ∙ rw (no_plaintext, laws.read_tls_end t.session t.stream wants h) refl in
      elim (after_read-Held (tls.read_tls t.session t.stream).0 that (ground arith) ends) [
        | inl refused ↦ inl refused
        | inr (kept, honest) ↦ inr (kept ∙ same, honest)
      ]

  check_read-Held :
      (fuel : ℕ) (t : TlsStream S T) {p : Poll (Io tls (Unit {0}))} {u : TlsStream S T}
      → IsHonest t
      → check_read tls fuel t ≡ some (p, u)
      → Refuses (some p) ⊎ Held t u
  unfolding check_read
  check_read-Held zero t honest h = cc
  check_read-Held (suc fuel) t {p = p} {u = u} honest h =
      elim (Bool-cases (not t.eof && tls.wants_read t.session)) [
        | inr off ↦
            let same : t ≡ u = cc (read_off tls t fuel off) in
            inr (subst (Held t) same (refl, honest))
        | inl on ↦ elim (Option-cases (read_round tls t).0) [
          | inr (q, stop) ↦
              let same : ◌≡◌ {A = Option (Poll (Io tls (Unit {0})) × TlsStream S T)}
                  (some (q, (read_round tls t).1)) (some (p, u)) =
                sym (read_stop tls t fuel on stop) ∙ h in
              let last : (read_round tls t).1 ≡ u = cc in
              elim (read_round-Held t on) [
                | inl (e, refused) ↦ inl (e, cc)
                | inr held ↦ inr (subst (Held t) last held)
              ]
          | inl more ↦ elim (read_round-Held t on) [
            | inl (e, refused) ↦ cc
            | inr (kept, still) ↦
                elim (check_read-Held fuel (read_round tls t).1 still
                  (sym (read_on tls t fuel on more) ∙ h)) [
                    | inl refused ↦ inl refused
                    | inr (kept', honest') ↦ inr (kept' ∙ kept, honest')
                  ]
          ]
        ]
      ]

  pub check_write-Held :
      (fuel : ℕ) (t : TlsStream S T) {p : Poll (Io tls (Unit {0}))} {u : TlsStream S T}
      → IsHonest t
      → check_write tls fuel t ≡ some (p, u)
      → Held t u
  check_write-Held fuel t honest h =
      let kept = check_write_keeps tls unread unread-write_round fuel t h in
      let same_eof = check_write_keeps tls (λ s. s.eof) (write_round-eof tls) fuel t h in
      (kept, λ over. kept ∙ honest (sym same_eof ∙ over))

  refusal_first :
      (r w : Poll (Io tls (Unit {0}))) (handshaking : Bool)
      → Refuses (some r)
      → Refuses (some (both_done tls r w handshaking))
  unfolding both_done
  refusal_first r w handshaking (e, h) =
      let first : r ≡ Poll.ready (Result.err (invalid_data e)) = cc in (e, rw first refl)

  pub complete_io-Held :
      (fuel : ℕ) (t : TlsStream S T) {p : Poll (Io tls (Unit {0}))} {u : TlsStream S T}
      → IsHonest t
      → complete_io tls fuel t ≡ some (p, u)
      → Refuses (some p) ⊎ Held t u
  unfolding complete_io
  complete_io-Held fuel t {u = u} honest h =
      let ((r, t'), was_read, rest) = >>=-eq-some (check_read tls fuel t) _ h in
      let ((w, v), was_written, same) = >>=-eq-some (check_write tls fuel t') _ rest in
      elim (check_read-Held fuel t honest was_read) [
        | inl refused ↦
            let (e, first) = refusal_first r w (tls.is_handshaking v.session) refused in inl (e, cc)
        | inr (kept, still) ↦
            let (kept', still') = check_write-Held fuel t' still was_written in
            let last : v ≡ u = cc in inr (subst (Held t) last (kept' ∙ kept, still'))
      ]
