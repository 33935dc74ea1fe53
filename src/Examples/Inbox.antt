-- ===== src/Examples/Inbox.antt =====
-- A session that decrypts nothing, over a socket that gives a byte at a time up to the end of its bytes.
use rocks.Base.{
  ℕ, zero, suc, ◌<◌, ◌≡◌, refl, ap, [], ◌∷◌, ◌++◌, append_assoc, arith, Bool, true, false, ◌&&◌,
  ◌⊎◌, length, take, drop,
}
use rocks.Base.Words.{Bytes}
use rocks.Error.{Result}
use rocks.Tls.{
  IoFailure, Session, TlsStream, new, read, write, flush, complete_io, check_read, check_write,
}
use rocks.Tls.Flush.{WriteLaws}
use rocks.Tls.Ends.{Settles, ReadLaws}
use rocks.Tls.Reads.{PlainLaws, unread, IsHonest}
use rocks.Tls.Reads.Front.{given}
use rocks.Tls.Reads.Calls.{Fails, WriteKeeps, Runs, done, reads, writes, flushes, reads_in_sequence}

record Inbox : Type 0 where
  packets : Bytes
  plain : Bytes

abbrev Done : Type 0
Done = Result (IoFailure ℕ ℕ) ℕ

abbrev is_empty : Bytes → Bool
is_empty [] = true
is_empty (b ∷ bs) = false

abbrev arrive : Inbox → Bytes → Done × Inbox × Bytes
arrive s [] = (Result.ok 0, s, [])
arrive s (b ∷ bs) = (Result.ok 1, record s { packets = s.packets ++ b ∷ [] }, bs)

abbrev inbox : Session ℕ ℕ Inbox Bytes
inbox = record {
  wants_read = λ s. is_empty s.plain && is_empty s.packets;
  wants_write = λ s. false;
  is_handshaking = λ s. false;
  read_tls = arrive;
  process_new_packets = λ s. (Result.ok tt, record { packets = []; plain = s.plain ++ s.packets });
  write_tls = λ s t. (Result.ok 0, s, t);
  read = λ s n. (Result.ok (take n s.plain), record s { plain = drop n s.plain });
  write = λ s bs. (Result.ok (length bs), s);
  shutdown = λ t. (Result.ok tt, t);
  poll_shutdown = λ t. (Result.ok tt, t);
}

no_plaintext : (a b : Bytes) → (is_empty a && is_empty b) ≡ true → a ≡ []
no_plaintext [] b h = refl
no_plaintext (x ∷ a) b h = cc

same_plaintext : (s : Inbox) (t : Bytes) → (arrive s t).1.plain ≡ s.plain
same_plaintext s [] = refl
same_plaintext s (b ∷ bs) = refl

same_to_come : (s : Inbox) (t : Bytes) → (arrive s t).1.packets ++ (arrive s t).2 ≡ s.packets ++ t
same_to_come s [] = refl
same_to_come s (b ∷ bs) = append_assoc s.packets (b ∷ []) bs

no_packets :
    (a b t : Bytes) (s : Inbox)
    → (is_empty a && is_empty b) ≡ true
    → (arrive s t).0 ≡ Result.ok 0
    → b ++ t ≡ []
no_packets [] [] [] s h k = refl
no_packets [] [] (x ∷ t) s h k = ground arith
no_packets [] (y ∷ b) t s h k = cc
no_packets (x ∷ a) b t s h k = cc

append-take-drop : (n : ℕ) (xs : Bytes) → xs ≡ take n xs ++ drop n xs
append-take-drop zero xs = refl
append-take-drop (suc n) [] = refl
append-take-drop (suc n) (x ∷ xs) = ap (λ ys. x ∷ ys) (append-take-drop n xs)

taken_front :
    (n : ℕ) (xs : Bytes) {bs : Bytes}
    → ◌≡◌ {A = Result (IoFailure ℕ ℕ) Bytes} (Result.ok (take n xs)) (Result.ok bs)
    → xs ≡ bs ++ drop n xs
taken_front n xs {bs} h = let e : take n xs ≡ bs = cc in rw (← e) (append-take-drop n xs)

no_failure :
    (s : Inbox) (n : ℕ) {e : IoFailure ℕ ℕ}
    → ◌≡◌ {A = Result (IoFailure ℕ ℕ) Bytes} (Result.ok (take n s.plain)) (Result.err e)
    → drop n s.plain ≡ s.plain
no_failure s n h = cc

abbrev inbox_plain : PlainLaws inbox
inbox_plain = record {
  plaintext = λ s. s.plain;
  to_come = λ s t. s.packets ++ t;
  wants_read_empty = λ s h. no_plaintext s.plain s.packets h;
  read_tls_plaintext = same_plaintext;
  read_tls_to_come = same_to_come;
  read_tls_end = λ s t h k. no_packets s.plain s.packets t s h k;
  process_decrypts = λ s t h. append_assoc s.plain s.packets t;
  write_tls_plaintext = λ s t. refl;
  write_tls_to_come = λ s t. refl;
  read_takes = λ s n h. taken_front n s.plain h;
  read_fails = no_failure;
  read_to_come = λ s t n. refl;
}

fewer :
    (s : Inbox) (t : Bytes) {n : ℕ}
    → (arrive s t).0 ≡ Result.ok (suc n)
    → length (arrive s t).2 < length t
fewer s [] h = ground arith
fewer s (b ∷ bs) h = omega arith

abbrev inbox_reads : ReadLaws inbox
inbox_reads = record { available = length; read_tls_progress = λ s t h. fewer s t h }

none_wanted : false ≡ true → ◌<◌ zero zero
none_wanted h = cc

abbrev inbox_writes : WriteLaws inbox
inbox_writes = record {
  queued = λ s. [];
  sent = λ t. [];
  wants_write_false = λ s h. refl;
  write_tls_moves = λ s t. refl;
  write_tls_progress = λ s t on h. none_wanted on;
}

abbrev arriving : TlsStream Inbox Bytes
arriving = new (7 ∷ 8 ∷ []) (record { packets = []; plain = [] })

abbrev one_left : TlsStream Inbox Bytes
one_left = new (8 ∷ []) (record { packets = []; plain = [] })

abbrev inbox_keeps : WriteKeeps inbox_plain
inbox_keeps = record {
  write_plaintext = λ s bs. refl;
  write_to_come = λ s t bs. refl;
  shutdown_to_come = λ s t. refl;
}

-- The write takes the first byte from the socket, and the read gives it.
write_then_read : Runs inbox arriving (7 ∷ []) one_left
unfolding write read flush complete_io check_read check_write
write_then_read =
    writes 3 (5 ∷ []) {r = Result.ok 1} refl (λ (e, h). cc)
      (reads 3 4 {r = Result.ok (7 ∷ [])} refl (λ (e, h). cc)
        (flushes 1 {r = Result.ok tt} refl (done one_left)))

reads_in_sequence_example :
    (s : Settles (λ fuel. read inbox fuel one_left 4)) × (Fails s.value.0
      ⊎ ((unread inbox_plain arriving
            ≡ ((7 ∷ []) ++ given s.value.0) ++ unread inbox_plain s.value.1)
          × IsHonest inbox_plain s.value.1
          × (s.value.0 ≡ Result.ok [] → unread inbox_plain s.value.1 ≡ [])))
reads_in_sequence_example =
    reads_in_sequence inbox inbox_plain inbox_keeps inbox_reads inbox_writes 4 (λ h. cc)
      write_then_read
