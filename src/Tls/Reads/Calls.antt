-- ===== src/Tls/Reads/Calls.antt =====
-- What a sequence of calls on a stream of src/tls_stream.rs reads: the plaintext of the peer, in order.
use rocks.Base.{
  ℕ, ◌≡◌, refl, ◌∷◌, append_assoc, sym, ap, subst, ◌∙◌, [], ◌++◌, ◌⊎◌, Bool-cases, inl, inr, Option,
  some, none,
}
use rocks.Base.Words.{Bytes}
use rocks.Error.{Result}
use rocks.Tls.{
  IoFailure, invalid_data, Poll, Session, TlsStream, Io, complete_io, check_write,
  check_would_block, unblocked, written, write_some, read, write, flush,
}
use rocks.Tls.Closed.{if_true, if_false}
use rocks.Tls.Rounds.{>>=-eq-some}
use rocks.Tls.Flush.{WriteLaws}
use rocks.Tls.Ends.{Settles, ReadLaws}
use rocks.Tls.Reads.{PlainLaws, unread, IsHonest, Refuses, Held, complete_io-Held, check_write-Held}
use rocks.Tls.Reads.Front.{given, read-TakesFront, read_in_sequence}

-- What is written leaves what is to be read as it is.
pub record WriteKeeps {E X S T : Type 0} {tls : Session E X S T} (laws : PlainLaws tls)
    : Type 0 where
  pub write_plaintext : (s : S) (bs : Bytes) → laws.plaintext (tls.write s bs).1 ≡ laws.plaintext s
  pub write_to_come :
      (s : S) (t : T) (bs : Bytes) → laws.to_come (tls.write s bs).1 t ≡ laws.to_come s t
  pub shutdown_to_come : (s : S) (t : T) → laws.to_come s (tls.shutdown t).1 ≡ laws.to_come s t

-- A call that fails for a packet that the session refuses.
abbrev pub Fails : {E X A : Type 0} → Result (IoFailure E X) A → Type 0
Fails {E = E} r = (e : E) × (r ≡ Result.err (invalid_data e))

module _ {E X S T : Type 0} {tls : Session E X S T} (laws : PlainLaws tls) where
  Held-trans : (t u v : TlsStream S T) → Held laws t u → Held laws u v → Held laws t v
  Held-trans t u v (kept, _) (kept', honest) = (kept' ∙ kept, honest)

  module _ {A : Type 0} (t : TlsStream S T) where
    Ended : Option (Io tls A × TlsStream S T) → Type 0
    Ended o = (r : Io tls A) (u : TlsStream S T) → o ≡ some (r, u) → Fails r ⊎ Held laws t u

    now-Ended : (r : Io tls A) (u : TlsStream S T) → Fails r ⊎ Held laws t u → Ended (some (r, u))
    unfolding Ended
    now-Ended r u h r' u' e =
        let same : r ≡ r' = cc in
        let last : u ≡ u' = cc in
        subst (λ x. Fails x ⊎ Held laws t u') same (subst (λ x. Fails r ⊎ Held laws t x) last h)

    unblocked-Ended :
        (p : Poll (Io tls (Unit {0}))) (that : TlsStream S T)
        (k : TlsStream S T → Option (Io tls A × TlsStream S T))
        → Refuses laws (some p) ⊎ Held laws t that
        → (Held laws t that → Ended (k that))
        → Ended (unblocked tls (some (p, that)) k)
    unfolding unblocked check_would_block
    unblocked-Ended (Poll.ready (Result.ok v)) that k (inl (e, h)) next = cc
    unblocked-Ended (Poll.ready (Result.ok v)) that k (inr held) next = next held
    unblocked-Ended (Poll.ready (Result.err x)) that k (inl (e, h)) next =
        now-Ended (Result.err x) that (inl (e, cc))
    unblocked-Ended (Poll.ready (Result.err x)) that k (inr held) next =
        now-Ended (Result.err x) that (inr held)
    unblocked-Ended Poll.pending that k (inl (e, h)) next = cc
    unblocked-Ended Poll.pending that k (inr held) next = now-Ended _ that (inr held)

    io-Ended :
        (m : Option (Poll (Io tls (Unit {0})) × TlsStream S T))
        (k : TlsStream S T → Option (Io tls A × TlsStream S T))
        → ((p : Poll (Io tls (Unit {0}))) (that : TlsStream S T)
            → m ≡ some (p, that)
            → Refuses laws (some p) ⊎ Held laws t that)
        → ((that : TlsStream S T) → Held laws t that → Ended (k that))
        → Ended (unblocked tls m k)
    unfolding unblocked Ended
    io-Ended none k io next = λ r u e. cc
    io-Ended (some (p, that)) k io next = unblocked-Ended p that k (io p that refl) (next that)

  module _ (keeps : WriteKeeps laws) (fuel : ℕ) (t : TlsStream S T) (honest : IsHonest laws t) where
    written-Ended :
        (r : Io tls ℕ) (that : TlsStream S T) → Held laws t that → Ended t (written tls fuel r that)
    unfolding written
    written-Ended (Result.ok n) that held =
        io-Ended t (check_write tls fuel that) (λ u. some (Result.ok n, u))
          (λ p u e. inr (Held-trans t that u held (check_write-Held laws fuel that held.1 e)))
          (λ u h. now-Ended t (Result.ok n) u (inr h))
    written-Ended (Result.err e) that held = now-Ended t (Result.err e) that (inr held)

    write_some-Ended : (bs : Bytes) → Ended t (write_some tls fuel t bs)
    unfolding write_some
    write_some-Ended bs =
        io-Ended t (complete_io tls fuel t) _ (λ p u e. complete_io-Held laws fuel t honest e)
          λ that (kept, still).
            let same : unread laws (record that { session = (tls.write that.session bs).1 })
                ≡ unread laws that =
              rw (keeps.write_plaintext, keeps.write_to_come that.session that.stream bs) refl in
            written-Ended (tls.write that.session bs).0 _ (same ∙ kept, λ over. same ∙ still over)

    write-Ended : (bs : Bytes) → Ended t (write tls fuel t bs)
    unfolding write
    write-Ended [] =
        let same : unread laws (record t { stream = (tls.shutdown t.stream).1 }) ≡ unread laws t =
          rw (keeps.shutdown_to_come t.session t.stream) refl in
        now-Ended t _ _ (inr (same, λ over. same ∙ honest over))
    write-Ended (b ∷ bs) = elim (Bool-cases t.eof) [
      | inl over ↦
          subst (Ended t) (sym (if_true _ _ over))
            (now-Ended t (Result.ok 0) t (inr (refl, honest)))
      | inr going ↦ subst (Ended t) (sym (if_false _ _ going)) (write_some-Ended (b ∷ bs))
    ]

    flush-Held :
        {r : Io tls (Unit {0})} {u : TlsStream S T} → flush tls fuel t ≡ some (r, u) → Held laws t u
    unfolding flush
    flush-Held {u = u} h =
        let ((p, that), was_written, same) = >>=-eq-some (check_write tls fuel t) _ h in
        let last : that ≡ u = cc in
        subst (Held laws t) last (check_write-Held laws fuel t honest was_written)

module _ {E X S T : Type 0} (tls : Session E X S T) where
  -- Calls on a stream that return, one after the other, and the bytes that the reads among them give. A
  -- call may fail, but no read or write by the session's refusal of a packet.
  pub data Runs : TlsStream S T → Bytes → TlsStream S T → Type 0 where
    done : (t : TlsStream S T) → Runs t [] t
    reads :
        (fuel n : ℕ) {t u v : TlsStream S T} {r : Io tls Bytes} {bs : Bytes}
        → read tls fuel t n ≡ some (r, u)
        → ¬ Fails r
        → Runs u bs v
        → Runs t (given r ++ bs) v
    writes :
        (fuel : ℕ) (buf : Bytes) {t u v : TlsStream S T} {r : Io tls ℕ} {bs : Bytes}
        → write tls fuel t buf ≡ some (r, u)
        → ¬ Fails r
        → Runs u bs v
        → Runs t bs v
    flushes :
        (fuel : ℕ) {t u v : TlsStream S T} {r : Io tls (Unit {0})} {bs : Bytes}
        → flush tls fuel t ≡ some (r, u)
        → Runs u bs v
        → Runs t bs v

  calls_in_sequence :
      (laws : PlainLaws tls) (keeps : WriteKeeps laws) {t v : TlsStream S T} {bs : Bytes}
      → IsHonest laws t
      → Runs t bs v
      → (unread laws t ≡ bs ++ unread laws v) × IsHonest laws v
  unfolding Ended
  calls_in_sequence laws keeps honest (done t) = (refl, honest)
  calls_in_sequence laws keeps honest (reads fuel n {t = t} {r = r} {bs = bs} call fine runs) =
      elim (read-TakesFront laws fuel t n honest call) [
        | inl refused ↦ absurd (fine refused)
        | inr (front, still, _) ↦
            let (rest, last) = calls_in_sequence laws keeps still runs in
            (front ∙ ap (λ x. given r ++ x) rest ∙ sym (append_assoc (given r) bs _), last)
      ]
  calls_in_sequence laws keeps honest (writes fuel buf {t = t} {u = u} {r = r} call fine runs) =
      elim (write-Ended laws keeps fuel t honest buf r u call) [
        | inl refused ↦ absurd (fine refused)
        | inr (kept, still) ↦
            let (rest, last) = calls_in_sequence laws keeps still runs in (sym kept ∙ rest, last)
      ]
  calls_in_sequence laws keeps honest (flushes fuel {t = t} {u = u} {r = r} call runs) =
      let (kept, still) = flush-Held laws keeps fuel t honest call in
      let (rest, last) = calls_in_sequence laws keeps still runs in (sym kept ∙ rest, last)

  -- Let a stream be taken for ended only if all was read, and let any sequence of reads, writes and
  -- flushes have returned on it, no read or write with the session's refusal of a packet. One more read
  -- then returns. Unless the session refuses a packet of the peer, and then the read says so, no byte of the
  -- peer's plaintext is lost, repeated or overtaken by all these calls: what the reads gave, then what
  -- this read gives, and then what is unread, are what was unread at first. The read succeeds with
  -- nothing only if nothing is left, and the stream is taken for ended again only if all was read.
  pub reads_in_sequence :
      (laws : PlainLaws tls) (keeps : WriteKeeps laws) (read_laws : ReadLaws tls)
      (write_laws : WriteLaws tls) {t v : TlsStream S T} {bs : Bytes} (n : ℕ)
      → IsHonest laws t
      → Runs t bs v
      → (s : Settles (λ fuel. read tls fuel v n)) × (Fails s.value.0
          ⊎ ((unread laws t ≡ (bs ++ given s.value.0) ++ unread laws s.value.1)
              × IsHonest laws s.value.1
              × (s.value.0 ≡ Result.ok [] → unread laws s.value.1 ≡ [])))
  reads_in_sequence laws keeps read_laws write_laws {v = v} {bs = bs} n honest runs =
      let (before, still) = calls_in_sequence laws keeps honest runs in
      let (s, taken) = read_in_sequence laws read_laws write_laws v n still in
      (
        s,
        elim taken [
          | inl refused ↦ inl refused
          | inr (front, rest, end) ↦ inr (
            before ∙ ap (λ x. bs ++ x) front ∙ sym (append_assoc bs (given s.value.0) _),
            rest,
            end,
          )
        ],
      )
