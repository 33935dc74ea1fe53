-- ===== src/Futures/Ends.antt =====
-- When the combined futures are ready, and with what.
use rocks.Base.{ℕ, suc, min, max, ◌≡◌, refl, subst, Option, none, some, arith, leb, if◌then◌else◌}
use rocks.Futures.{Poll, Future, start_join, poll_alt, poll_join}

-- The future is pending for so many polls and then ready with this value. What a poll after that
-- does is left open.
pub data Finishes {S T : Type 0} (f : Future S T) : S → ℕ → T → Type 0 where
  now : {s : S} {v : T} → (f s).0 ≡ Poll.ready v → Finishes f s 0 v
  later :
      {s : S} {n : ℕ} {v : T}
      → (f s).0 ≡ Poll.pending
      → Finishes f (f s).1 n v
      → Finishes f s (suc n) v

pub Finishes-at :
    {S T : Type 0} {f : Future S T} {s : S} {m n : ℕ} {v w : T}
    → m ≡ n
    → v ≡ w
    → Finishes f s m v
    → Finishes f s n w
Finishes-at {f = f} {s = s} {m = m} {w = w} p q h =
    subst (λ k. Finishes f s k w) p (subst (λ x. Finishes f s m x) q h)

module _ {S1 S2 T1 T2 : Type 0} (f1 : Future S1 T1) (f2 : Future S2 T2) where
  join_wait_second :
      {s2 : S2} {n : ℕ} {v2 : T2} (s1 : S1) (v1 : T1)
      → Finishes f2 s2 n v2
      → Finishes
          (poll_join f1 f2)
          (record { fst = s1; snd = s2; done_fst = some v1; done_snd = none })
          n
          (v1, v2)
  unfolding poll_join
  join_wait_second s1 v1 (Finishes.now h) = Finishes.now (rw h)
  join_wait_second s1 v1 (Finishes.later h more) =
      Finishes.later (rw h) (rw h (join_wait_second s1 v1 more))

  join_wait_first :
      {s1 : S1} {n : ℕ} {v1 : T1} (s2 : S2) (v2 : T2)
      → Finishes f1 s1 n v1
      → Finishes
          (poll_join f1 f2)
          (record { fst = s1; snd = s2; done_fst = none; done_snd = some v2 })
          n
          (v1, v2)
  unfolding poll_join
  join_wait_first s2 v2 (Finishes.now h) = Finishes.now (rw h)
  join_wait_first s2 v2 (Finishes.later h more) =
      Finishes.later (rw h) (rw h (join_wait_first s2 v2 more))

  -- For two futures that are ready after so many polls each, `join` is ready when the later of the two
  -- is, with both values; what a finished future does when polled again does not matter.
  pub poll_join-Finishes :
      {s1 : S1} {s2 : S2} {m n : ℕ} {v1 : T1} {v2 : T2}
      → Finishes f1 s1 m v1
      → Finishes f2 s2 n v2
      → Finishes (poll_join f1 f2) (start_join s1 s2) (max m n) (v1, v2)
  unfolding poll_join
  poll_join-Finishes (Finishes.now h) (Finishes.now k) =
      Finishes-at {m = 0} (omega arith) refl (Finishes.now (rw (h, k)))
  poll_join-Finishes {s1 = s1} {v1 = v1} (Finishes.now h) (Finishes.later {n = n} k more) =
      Finishes-at {m = suc n} (omega arith) refl
        (Finishes.later (rw (h, k)) (rw (h, k) (join_wait_second (f1 s1).1 v1 more)))
  poll_join-Finishes {s2 = s2} {v2 = v2} (Finishes.later {n = m} h more) (Finishes.now k) =
      Finishes-at {m = suc m} (omega arith) refl
        (Finishes.later (rw (h, k)) (rw (h, k) (join_wait_first (f2 s2).1 v2 more)))
  poll_join-Finishes (Finishes.later {n = m} h p) (Finishes.later {n = n} k q) =
      Finishes-at {m = suc (max m n)} (omega arith) refl
        (Finishes.later (rw (h, k)) (rw (h, k) (poll_join-Finishes p q)))

  -- What `alt` gives for futures that are ready at these polls.
  abbrev pub alt_value : ℕ → T1 → ℕ → T2 → Option T1 × Option T2
  alt_value m v1 n v2 = (if leb m n then some v1 else none, if leb n m then some v2 else none)

  alt_value-suc :
      (m n : ℕ) (v1 : T1) (v2 : T2) → alt_value m v1 n v2 ≡ alt_value (suc m) v1 (suc n) v2
  alt_value-suc m n v1 v2 = ground arith

  -- For two futures that are ready after so many polls each, `alt` is ready when the earlier of the
  -- two is, with the values of those that are.
  pub poll_alt-Finishes :
      {s1 : S1} {s2 : S2} {m n : ℕ} {v1 : T1} {v2 : T2}
      → Finishes f1 s1 m v1
      → Finishes f2 s2 n v2
      → Finishes (poll_alt f1 f2) (record { fst = s1; snd = s2 }) (min m n) (alt_value m v1 n v2)
  unfolding poll_alt
  poll_alt-Finishes {v1 = v1} {v2 = v2} (Finishes.now h) (Finishes.now k) =
      Finishes-at {m = 0} {v = (some v1, some v2)} (omega arith) (ground arith)
        (Finishes.now (rw (h, k)))
  poll_alt-Finishes {v1 = v1} {v2 = v2} (Finishes.now h) (Finishes.later k more) =
      Finishes-at {m = 0} {v = (some v1, none)} (omega arith) (ground arith)
        (Finishes.now (rw (h, k)))
  poll_alt-Finishes {v1 = v1} {v2 = v2} (Finishes.later h more) (Finishes.now k) =
      Finishes-at {m = 0} {v = (none, some v2)} (omega arith) (ground arith)
        (Finishes.now (rw (h, k)))
  poll_alt-Finishes {v1 = v1} {v2 = v2} (Finishes.later {n = m} h p) (Finishes.later {n = n} k q) =
      Finishes-at {m = suc (min m n)} {v = alt_value m v1 n v2} (omega arith)
        (alt_value-suc m n v1 v2) (Finishes.later (rw (h, k)) (poll_alt-Finishes p q))
