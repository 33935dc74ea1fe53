-- ===== src/Tls/Reads/Front.antt =====
-- What a read of a stream of src/tls_stream.rs gives: the plaintext of the peer, in order.
use rocks.Base.{
  ℕ, suc, ◌≡◌, refl, ◌∷◌, append_assoc, lt→ltb, sym, ap, subst, ◌∙◌, [], ◌++◌, false, ◌⊎◌,
  Bool-cases, inl, inr, Option, some, arith, length, if◌then◌else◌,
}
use rocks.Base.Words.{Bytes}
use rocks.Error.{Result}
use rocks.Tls.{
  invalid_data, Poll, Session, TlsStream, Io, complete_io, check_would_block, unblocked, some_bytes,
  read,
}
use rocks.Tls.Closed.{if_true, if_false}
use rocks.Tls.Rounds.{unblocked-eq-some}
use rocks.Tls.Flush.{WriteLaws}
use rocks.Tls.Ends.{Settles, ReadLaws, calls_end}
use rocks.Tls.Reads.{PlainLaws, unread, IsHonest, Refuses, Held, complete_io-Held}

abbrev pub given : {E : Type 0} → Result E Bytes → Bytes
given (Result.ok bs) = bs
given (Result.err e) = []

module _ {E X S T : Type 0} {tls : Session E X S T} (laws : PlainLaws tls) where
  -- What a read leaves behind: what it has given and what is unread then are all that was, and nothing
  -- is given only at the end.
  abbrev pub TakesFront : TlsStream S T → Io tls Bytes → TlsStream S T → Type 0
  TakesFront t r u =
      (unread laws t ≡ given r ++ unread laws u)
      × IsHonest laws u
      × (r ≡ Result.ok [] → unread laws u ≡ [])

  module _ (n : ℕ) where
    abbrev from_session : TlsStream S T → Option (Io tls Bytes × TlsStream S T)
    from_session t =
        if t.eof
        then some (Result.ok [], t)
        else some (
          some_bytes tls (tls.read t.session n).0,
          record t { session = (tls.read t.session n).1 },
        )

    as_result :
        (t : TlsStream S T) {q r : Io tls Bytes} {v u : TlsStream S T}
        → ◌≡◌ {A = Option (Io tls Bytes × TlsStream S T)} (some (q, v)) (some (r, u))
        → TakesFront t q v
        → TakesFront t r u
    as_result t {q = q} {r = r} {v = v} {u = u} h taken =
        let same : q ≡ r = cc in
        let last : v ≡ u = cc in
        subst (λ x. TakesFront t x u) same (subst (λ x. TakesFront t q x) last taken)

    session-TakesFront :
        (q : Io tls Bytes) (t : TlsStream S T)
        → t.eof ≡ false
        → (tls.read t.session n).0 ≡ q
        → TakesFront t (some_bytes tls q) (record t { session = (tls.read t.session n).1 })
    unfolding some_bytes
    session-TakesFront (Result.ok []) t going h = (
      rw (laws.read_takes t.session n h, laws.read_to_come t.session t.stream n) refl,
      λ e. cc,
      λ e. cc,
    )
    session-TakesFront (Result.ok (b ∷ bs)) t going h =
        rw (lt→ltb 0 (suc (length bs)) (omega arith)) (
          rw (laws.read_takes t.session n h, laws.read_to_come t.session t.stream n)
              (append_assoc (b ∷ bs) _ _),
          λ e. cc,
          λ e. cc,
        )
    session-TakesFront (Result.err e) t going h = (
      rw (laws.read_fails t.session n h, laws.read_to_come t.session t.stream n) refl,
      λ e. cc,
      λ e. cc,
    )

    from_session-TakesFront :
        (t : TlsStream S T) {r : Io tls Bytes} {u : TlsStream S T}
        → IsHonest laws t
        → from_session t ≡ some (r, u)
        → TakesFront t r u
    from_session-TakesFront t {r} {u} honest h = elim (Bool-cases t.eof) [
      | inl over ↦
          let end : ◌≡◌ {A = Option (Io tls Bytes × TlsStream S T)} (some (Result.ok [], t))
              (some (r, u)) =
            sym (if_true _ _ over) ∙ h in
          as_result t end (refl, honest, λ _. honest over)
      | inr going ↦
          as_result t (sym (if_false _ _ going) ∙ h)
            (session-TakesFront (tls.read t.session n).0 t going refl)
    ]

    after_io :
        (p : Poll (Io tls (Unit {0}))) (t that : TlsStream S T) {r : Io tls Bytes}
        {u : TlsStream S T}
        → Refuses laws (some p) ⊎ Held laws t that
        → unblocked tls (some (p, that)) from_session ≡ some (r, u)
        → ((e : E) × (r ≡ Result.err (invalid_data e))) ⊎ TakesFront t r u
    unfolding unblocked check_would_block
    after_io p t that {r = r} {u = u} (inl (e, refused)) h =
        let first : p ≡ Poll.ready (Result.err (invalid_data e)) = cc in
        let over : unblocked tls (some (Poll.ready (Result.err (invalid_data e)), that))
              from_session
            ≡ some (r, u) =
          rw first at h in
        inl (e, cc)
    after_io Poll.pending t that (inr (kept, honest)) h =
        inr (as_result t h (sym kept, honest, λ e. cc))
    after_io (Poll.ready (Result.err e)) t that (inr (kept, honest)) h =
        inr (as_result t h (sym kept, honest, λ e. cc))
    after_io (Poll.ready (Result.ok v)) t that (inr (kept, honest)) h =
        let (front, still, end) = from_session-TakesFront that honest h in
        inr (sym kept ∙ front, still, end)

  pub read-TakesFront :
      (fuel : ℕ) (t : TlsStream S T) (n : ℕ) {r : Io tls Bytes} {u : TlsStream S T}
      → IsHonest laws t
      → read tls fuel t n ≡ some (r, u)
      → ((e : E) × (r ≡ Result.err (invalid_data e))) ⊎ TakesFront t r u
  unfolding read
  read-TakesFront fuel t n {r} {u} honest h =
      let (p, that, done, _) = unblocked-eq-some tls (complete_io tls fuel t) (from_session n) h in
      after_io n p t that (complete_io-Held laws fuel t honest done)
        (sym (ap (λ m. unblocked tls m (from_session n)) done) ∙ h)

  -- On a stream that is taken for ended only if all was read, a read returns. Unless the session refuses
  -- a packet of the peer, and then the read says so, no byte of the peer's plaintext is lost, repeated
  -- or overtaken: what the read gives, and then what is unread, are what was unread before. It succeeds
  -- with nothing only if nothing is left, and the stream is taken for ended again only if all was read.
  pub read_in_sequence :
      (read_laws : ReadLaws tls) (write_laws : WriteLaws tls) (t : TlsStream S T) (n : ℕ)
      → IsHonest laws t
      → (s : Settles (λ fuel. read tls fuel t n)) × (((e : E) × (s.value.0
              ≡ Result.err (invalid_data e)))
          ⊎ TakesFront t s.value.0 s.value.1)
  read_in_sequence read_laws write_laws t n honest =
      let s = (calls_end read_laws write_laws t n []).0 in
      (s, read-TakesFront s.enough t n honest (s.settled s.enough (omega arith)))
