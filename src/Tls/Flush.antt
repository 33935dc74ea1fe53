-- ===== src/Tls/Flush.antt =====
-- The writing loop of src/tls_stream.rs: what is queued goes to the socket, nothing lost or repeated.
use rocks.Base.{
  ℕ, zero, suc, ◌<◌, ◌≡◌, refl, sym, ◌∙◌, ap, ◌++◌, [], true, false, Bool-cases, inl, inr, none,
  some, Option-cases, append-nil, arith, length,
}
use rocks.Base.Words.{Bytes}
use rocks.Error.{Result}
use rocks.Tls.{
  would_block, invalid_data, other, Poll, Session, TlsStream, Io, after_write, write_round,
  check_write, check_would_block, flush,
}

-- What rustls promises of a session and its socket: `queued` are the bytes that the session still has
-- to write, `sent` those that the socket took. A write moves bytes from the one to the other, at
-- least one if it succeeds with something to write, and none if it fails.
pub record WriteLaws {E X S T : Type 0} (tls : Session E X S T) : Type 0 where
  pub queued : S → Bytes
  pub sent : T → Bytes
  pub wants_write_false : (s : S) → tls.wants_write s ≡ false → queued s ≡ []
  pub write_tls_moves :
      (s : S) (t : T)
      → sent (tls.write_tls s t).2 ++ queued (tls.write_tls s t).1 ≡ sent t ++ queued s
  pub write_tls_progress :
      (s : S) (t : T) {n : ℕ}
      → tls.wants_write s ≡ true
      → (tls.write_tls s t).0 ≡ Result.ok n
      → length (queued (tls.write_tls s t).1) < length (queued s)

module _ {E X S T : Type 0} {tls : Session E X S T} (laws : WriteLaws tls) where
  -- All that was to be sent, in order: what the socket took and what the session still has.
  abbrev pub outgoing : TlsStream S T → Bytes
  outgoing t = laws.sent t.stream ++ laws.queued t.session

  -- The stream `u` that a call leaves behind, if it has written some of what was queued in `t`.
  pub record Flushed (t u : TlsStream S T) (p : Poll (Io tls (Unit {0}))) : Type 0 where
    pub kept : outgoing u ≡ outgoing t
    pub same_eof : u.eof ≡ t.eof
    pub emptied : p ≡ Poll.ready (Result.ok tt) → laws.queued u.session ≡ []

  pub record Writes (fuel : ℕ) (t : TlsStream S T) : Type 0 where
    pub result : Poll (Io tls (Unit {0}))
    pub after : TlsStream S T
    pub returns : check_write tls fuel t ≡ some (result, after)
    pub flushed : Flushed t after result

  round_kept : (t : TlsStream S T) → outgoing (write_round tls t).1 ≡ outgoing t
  unfolding write_round
  round_kept t = laws.write_tls_moves t.session t.stream

  stop-Flushed :
      (t : TlsStream S T) (r : Io tls ℕ) {p : Poll (Io tls (Unit {0}))}
      → after_write tls r ≡ some p
      → p ≡ Poll.ready (Result.ok tt)
      → laws.queued (write_round tls t).1.session ≡ []
  unfolding after_write
  stop-Flushed t (Result.ok n) h k = cc
  stop-Flushed t (Result.err would_block) h k = cc
  stop-Flushed t (Result.err (invalid_data e)) h k = cc
  stop-Flushed t (Result.err (other x)) h k = cc

  go_on-ok : (r : Io tls ℕ) → after_write tls r ≡ none → (n : ℕ) × (r ≡ Result.ok n)
  unfolding after_write
  go_on-ok (Result.ok n) h = (n, refl)
  go_on-ok (Result.err would_block) h = cc
  go_on-ok (Result.err (invalid_data e)) h = cc
  go_on-ok (Result.err (other x)) h = cc

  unblocked-ok :
      (p : Poll (Io tls (Unit {0})))
      → check_would_block tls p ≡ Result.ok tt
      → p ≡ Poll.ready (Result.ok tt)
  unfolding check_would_block
  unblocked-ok Poll.pending h = cc
  unblocked-ok (Poll.ready r) h = cc

  idle : (fuel : ℕ) (t : TlsStream S T) → tls.wants_write t.session ≡ false → Writes (suc fuel) t
  unfolding check_write
  idle fuel t off = record {
    result = Poll.ready (Result.ok tt);
    after = t;
    returns = rw (off, check_write) refl;
    flushed = record {
      kept = refl;
      same_eof = refl;
      emptied = λ _. laws.wants_write_false t.session off;
    };
  }

  stopped :
      (fuel : ℕ) (t : TlsStream S T) (p : Poll (Io tls (Unit {0})))
      → tls.wants_write t.session ≡ true
      → (write_round tls t).0 ≡ some p
      → Writes (suc fuel) t
  unfolding check_write write_round
  stopped fuel t p on stop = record {
    result = p;
    after = (write_round tls t).1;
    returns = rw (on, check_write, stop) refl;
    flushed = record {
      kept = round_kept t;
      same_eof = refl;
      emptied = stop-Flushed t (tls.write_tls t.session t.stream).0 stop;
    };
  }

  went_on :
      (fuel : ℕ) (t : TlsStream S T)
      → tls.wants_write t.session ≡ true
      → (write_round tls t).0 ≡ none
      → Writes fuel (write_round tls t).1
      → Writes (suc fuel) t
  unfolding check_write write_round
  went_on fuel t on more w = record {
    result = w.result;
    after = w.after;
    returns = rw (on, check_write, more) w.returns;
    flushed = record {
      kept = w.flushed.kept ∙ round_kept t;
      same_eof = w.flushed.same_eof;
      emptied = w.flushed.emptied;
    };
  }

  pub shorter :
      (t : TlsStream S T)
      → tls.wants_write t.session ≡ true
      → (write_round tls t).0 ≡ none
      → length (laws.queued (write_round tls t).1.session) < length (laws.queued t.session)
  unfolding write_round
  shorter t on more =
      let (n, took) = go_on-ok (tls.write_tls t.session t.stream).0 more in
      laws.write_tls_progress t.session t.stream on took

  pub check_write-Writes :
      (fuel : ℕ) (t : TlsStream S T) → length (laws.queued t.session) < fuel → Writes fuel t
  check_write-Writes zero t k = absurd (omega arith)
  check_write-Writes (suc fuel) t k = elim (Bool-cases (tls.wants_write t.session)) [
    | inr off ↦ idle fuel t off
    | inl on ↦ elim (Option-cases (write_round tls t).0) [
      | inr (p, stop) ↦ stopped fuel t p on stop
      | inl more ↦
          went_on fuel t on more
            (check_write-Writes fuel (write_round tls t).1 (omega (arith, shorter t on more)))
    ]
  ]

  -- With more fuel than bytes are queued, `flush` returns. Whatever it returns, the bytes that the
  -- socket took and those still queued are those from before, in order; and if it succeeds, none is
  -- queued any more.
  pub flush_lem :
      (fuel : ℕ) (t : TlsStream S T)
      → length (laws.queued t.session) < fuel
      → (r : Io tls (Unit {0})) × (u : TlsStream S T) × (flush tls fuel t ≡ some (r, u))
        × (outgoing u ≡ outgoing t)
        × (r ≡ Result.ok tt → laws.sent u.stream ≡ outgoing t)
  unfolding flush
  flush_lem fuel t k =
      let w = check_write-Writes fuel t k in
      (
        check_would_block tls w.result,
        w.after,
        rw w.returns refl,
        w.flushed.kept,
        λ ok.
            sym (append-nil (laws.sent w.after.stream))
            ∙ sym (
                ap (λ bs. laws.sent w.after.stream ++ bs)
                  (w.flushed.emptied (unblocked-ok w.result ok)))
            ∙ w.flushed.kept,
      )
