-- ===== src/Examples/Tls.antt =====
-- A session that sends what it is given as it is, a byte at a time, over a socket with little room.
use rocks.Base.{
  ℕ, zero, suc, ◌<◌, ◌≡◌, refl, ap, [], ◌∷◌, ◌++◌, append_assoc, arith, Bool, true, false, some,
  length, take, take_all,
}
use rocks.Base.Words.{Bytes}
use rocks.Error.{Result}
use rocks.Tls.{
  IoFailure, would_block, Session, TlsStream, Io, new, read, write, flush, shutdown, check_read,
  check_write, complete_io,
}
use rocks.Tls.Flush.{WriteLaws, outgoing, flush_lem}
use rocks.Tls.Ends.{Settles, ReadLaws, calls_end}
use rocks.Tls.Accepted.{AcceptLaws, taken, write_blocked}

record Plain : Type 0 where
  out : Bytes
  plain : Bytes

record Narrow : Type 0 where
  sent : Bytes
  room : ℕ
  input : ℕ

abbrev Done : Type 0
Done = Result (IoFailure ℕ ℕ) ℕ

abbrev is_nonempty : Bytes → Bool
is_nonempty [] = false
is_nonempty (b ∷ bs) = true

abbrev take_in : ℕ → Plain → Narrow → Done × Plain × Narrow
take_in zero s t = (Result.err would_block, s, t)
take_in (suc n) s t = (Result.ok 1, s, record t { input = n })

abbrev give_out : Bytes → ℕ → Plain → Narrow → Done × Plain × Narrow
give_out [] room s t = (Result.ok 0, s, t)
give_out (b ∷ bs) zero s t = (Result.err would_block, s, t)
give_out (b ∷ bs) (suc r) s t =
    (Result.ok 1, record s { out = bs }, record t { sent = t.sent ++ b ∷ []; room = r })

abbrev narrow : Session ℕ ℕ Plain Narrow
narrow = record {
  wants_read = λ s. true;
  wants_write = λ s. is_nonempty s.out;
  is_handshaking = λ s. false;
  read_tls = λ s t. take_in t.input s t;
  process_new_packets = λ s. (Result.ok tt, s);
  write_tls = λ s t. give_out s.out t.room s t;
  read = λ s n. (Result.ok [], s);
  write = λ s bs. (Result.ok (length bs), record s { out = s.out ++ bs; plain = s.plain ++ bs });
  shutdown = λ t. (Result.ok tt, t);
  poll_shutdown = λ t. (Result.ok tt, t);
}

moves :
    (bs : Bytes) (room : ℕ) (s : Plain) (t : Narrow)
    → s.out ≡ bs
    → (give_out bs room s t).2.sent ++ (give_out bs room s t).1.out ≡ t.sent ++ bs
moves [] room s t h = rw h refl
moves (b ∷ bs) zero s t h = rw h refl
moves (b ∷ bs) (suc r) s t h = append_assoc t.sent (b ∷ []) bs

progress :
    (bs : Bytes) (room : ℕ) (s : Plain) (t : Narrow) {n : ℕ}
    → is_nonempty bs ≡ true
    → (give_out bs room s t).0 ≡ Result.ok n
    → length (give_out bs room s t).1.out < length bs
progress [] room s t h k = cc
progress (b ∷ bs) zero s t h k = cc
progress (b ∷ bs) (suc r) s t h k = omega arith

empty_out : (bs : Bytes) → is_nonempty bs ≡ false → bs ≡ []
empty_out [] h = refl
empty_out (b ∷ bs) h = cc

abbrev narrow_writes : WriteLaws narrow
narrow_writes = record {
  queued = λ s. s.out;
  sent = λ t. t.sent;
  wants_write_false = λ s h. empty_out s.out h;
  write_tls_moves = λ s t. moves s.out t.room s t refl;
  write_tls_progress = λ s t on h. progress s.out t.room s t on h;
}

less_input :
    (i : ℕ) (s : Plain) (t : Narrow) {n : ℕ}
    → (take_in i s t).0 ≡ Result.ok (suc n)
    → (take_in i s t).2.input < i
less_input zero s t h = cc
less_input (suc i) s t h = omega arith

abbrev narrow_reads : ReadLaws narrow
narrow_reads = record {
  available = λ t. t.input;
  read_tls_progress = λ s t h. less_input t.input s t h;
}

same_plain_in : (i : ℕ) (s : Plain) (t : Narrow) → (take_in i s t).1.plain ≡ s.plain
same_plain_in zero s t = refl
same_plain_in (suc i) s t = refl

same_plain_out :
    (bs : Bytes) (room : ℕ) (s : Plain) (t : Narrow) → (give_out bs room s t).1.plain ≡ s.plain
same_plain_out [] room s t = refl
same_plain_out (b ∷ bs) zero s t = refl
same_plain_out (b ∷ bs) (suc r) s t = refl

all_taken :
    (xs bs : Bytes) {n : ℕ}
    → ◌≡◌ {A = Done} (Result.ok (length bs)) (Result.ok n)
    → xs ++ bs ≡ xs ++ take n bs
all_taken xs bs {n} h =
    let e : length bs ≡ n = cc in ap (λ ys. xs ++ ys) (rw (← e) (rw (take_all bs) refl))

abbrev narrow_accepts : AcceptLaws narrow
narrow_accepts = record {
  accepted = λ s. s.plain;
  read_tls_accepted = λ s t. same_plain_in t.input s t;
  process_accepted = λ s. refl;
  write_tls_accepted = λ s t. same_plain_out s.out t.room s t;
  write_accepted = λ s bs h. all_taken s.plain bs h;
}

abbrev half_sent : TlsStream Plain Narrow
half_sent =
    new (record { sent = 1 ∷ []; room = 1; input = 3 }) (record { out = 2 ∷ 3 ∷ []; plain = [] })

flush_lem_example :
    (r : Io narrow (Unit {0})) × (u : TlsStream Plain Narrow) × (flush narrow 3 half_sent
      ≡ some (r, u))
    × (outgoing narrow_writes u ≡ 1 ∷ 2 ∷ 3 ∷ [])
    × (r ≡ Result.ok tt → u.stream.sent ≡ 1 ∷ 2 ∷ 3 ∷ [])
flush_lem_example = flush_lem narrow_writes 3 half_sent (omega arith)

calls_end_example :
    Settles (λ fuel. read narrow fuel half_sent 4)
    × Settles (λ fuel. write narrow fuel half_sent (7 ∷ []))
    × Settles (λ fuel. flush narrow fuel half_sent)
    × Settles (λ fuel. shutdown narrow fuel half_sent)
calls_end_example = calls_end narrow_reads narrow_writes half_sent 4 (7 ∷ [])

abbrev ended : TlsStream Plain Narrow
ended = record half_sent { eof = true }

abbrev one_more : TlsStream Plain Narrow
one_more = record {
  stream = record { sent = 1 ∷ 2 ∷ []; room = 0; input = 3 };
  session = record { out = 3 ∷ []; plain = [] };
  eof = true;
}

abbrev fresh : TlsStream Plain Narrow
fresh = new (record { sent = []; room = 1; input = 0 }) (record { out = []; plain = [] })

-- After the first byte of two the socket is full.
abbrev stuck : TlsStream Plain Narrow
stuck =
    new (record { sent = 8 ∷ []; room = 0; input = 0 })
      (record { out = 9 ∷ []; plain = 8 ∷ 9 ∷ [] })

-- The same, once the socket has room again, and after the bytes were written again.
abbrev freed : TlsStream Plain Narrow
freed = record stuck { stream = record { sent = 8 ∷ []; room = 5; input = 0 } }

abbrev doubled : TlsStream Plain Narrow
doubled =
    new (record { sent = 8 ∷ 9 ∷ 8 ∷ 9 ∷ []; room = 2; input = 0 })
      (record { out = []; plain = 8 ∷ 9 ∷ 8 ∷ 9 ∷ [] })

write_blocked_example :
    (write narrow 5 fresh (8 ∷ 9 ∷ []) ≡ some (Result.err would_block, stuck))
    × (taken narrow_accepts doubled ≡ (8 ∷ 9 ∷ []) ++ (8 ∷ 9 ∷ []))
write_blocked_example =
    write_blocked narrow_accepts 5 fresh 8 (9 ∷ []) {u = fresh} 5 freed {m = 2} {w = doubled} refl
      (unfold complete_io check_read check_write in refl) refl (unfold check_write in refl) refl
      (unfold write complete_io check_read check_write in refl)

abbrev roomy : TlsStream Plain Narrow
roomy = new (record { sent = []; room = 3; input = 0 }) (record { out = []; plain = 7 ∷ [] })

abbrev all_sent : TlsStream Plain Narrow
all_sent =
    new (record { sent = 8 ∷ 9 ∷ []; room = 1; input = 0 })
      (record { out = []; plain = 7 ∷ 8 ∷ 9 ∷ [] })
