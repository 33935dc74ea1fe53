-- ===== src/Futures/OnOk.antt =====
-- When `join_on_ok` is ready, and with what.
use rocks.Base.{ℕ, suc, max, ◌≡◌, Bool, true, false, ◌&&◌, none, some, arith, ltb, if◌then◌else◌}
use rocks.Error.{Result}
use rocks.Futures.{Future, start_join, poll_join_on_ok, Joined}
use rocks.Futures.Ends.{Finishes, Finishes-at}

abbrev is_err : {E A : Type 0} → Result E A → Bool
is_err (Result.ok _) = false
is_err (Result.err _) = true

module _ {S1 S2 T1 T2 E1 E2 : Type 0} (f1 : Future S1 (Result E1 T1))
    (f2 : Future S2 (Result E2 T2)) where
  -- The poll at which it is ready: an error ends it at once, and a value waits for the other.
  abbrev pub ready_at : ℕ → Result E1 T1 → ℕ → Result E2 T2 → ℕ
  ready_at m r1 n r2 =
      if ltb m n && is_err r1 then m else if ltb n m && is_err r2 then n else max m n

  -- What is given for each: nothing for the one that an earlier error did not wait for.
  abbrev pub ready_with : ℕ → Result E1 T1 → ℕ → Result E2 T2 → Joined f1 f2
  ready_with m r1 n r2 =
      if ltb m n && is_err r1
      then (some r1, none)
      else if ltb n m && is_err r2
      then (none, some r2)
      else (some r1, some r2)

  ready_at-suc :
      (m n : ℕ) (r1 : Result E1 T1) (r2 : Result E2 T2)
      → suc (ready_at m r1 n r2) ≡ ready_at (suc m) r1 (suc n) r2
  ready_at-suc m n r1 r2 = ground arith

  ready_with-suc :
      (m n : ℕ) (r1 : Result E1 T1) (r2 : Result E2 T2)
      → ready_with m r1 n r2 ≡ ready_with (suc m) r1 (suc n) r2
  ready_with-suc m n r1 r2 = ground arith

  ok_wait_second :
      {s2 : S2} {n : ℕ} {r2 : Result E2 T2} (s1 : S1) (v1 : T1)
      → Finishes f2 s2 n r2
      → Finishes
          (poll_join_on_ok f1 f2)
          (record { fst = s1; snd = s2; done_fst = some v1; done_snd = none })
          n
          (some (Result.ok v1), some r2)
  unfolding poll_join_on_ok
  ok_wait_second s1 v1 (Finishes.now h) = Finishes.now (rw h)
  ok_wait_second s1 v1 (Finishes.later h more) =
      Finishes.later (rw h) (rw h (ok_wait_second s1 v1 more))

  ok_wait_first :
      {s1 : S1} {n : ℕ} {r1 : Result E1 T1} (s2 : S2) (v2 : T2)
      → Finishes f1 s1 n r1
      → Finishes
          (poll_join_on_ok f1 f2)
          (record { fst = s1; snd = s2; done_fst = none; done_snd = some v2 })
          n
          (some r1, some (Result.ok v2))
  unfolding poll_join_on_ok
  ok_wait_first s2 v2 (Finishes.now h) = Finishes.now (rw h)
  ok_wait_first s2 v2 (Finishes.later h more) =
      Finishes.later (rw h) (rw h (ok_wait_first s2 v2 more))

  -- For two futures that are ready after so many polls each, `join_on_ok` ends with an error that
  -- comes before the other future is ready, without the other's result, and else when the later of the
  -- two is ready, with both results.
  pub poll_join_on_ok-Finishes :
      {s1 : S1} {s2 : S2} {m n : ℕ} {r1 : Result E1 T1} {r2 : Result E2 T2}
      → Finishes f1 s1 m r1
      → Finishes f2 s2 n r2
      → Finishes
          (poll_join_on_ok f1 f2)
          (start_join s1 s2)
          (ready_at m r1 n r2)
          (ready_with m r1 n r2)
  unfolding poll_join_on_ok
  poll_join_on_ok-Finishes {r1 = r1} {r2 = r2} (Finishes.now h) (Finishes.now k) =
      Finishes-at {m = 0} {v = (some r1, some r2)} (ground arith) (ground arith)
        (Finishes.now (rw (h, k)))
  poll_join_on_ok-Finishes {s1 = s1} {r1 = Result.ok v1} {r2 = r2} (Finishes.now h)
        (Finishes.later {n = n} k more) =
      Finishes-at {m = suc n} {v = (some (Result.ok v1), some r2)} (ground arith) (ground arith)
        (Finishes.later (rw (h, k)) (rw (h, k) (ok_wait_second (f1 s1).1 v1 more)))
  poll_join_on_ok-Finishes {r1 = Result.err e1} (Finishes.now h) (Finishes.later {n = n} k more) =
      Finishes-at {m = 0} {v = (some (Result.err e1), none)} (ground arith) (ground arith)
        (Finishes.now (rw (h, k)))
  poll_join_on_ok-Finishes {s2 = s2} {r1 = r1} {r2 = Result.ok v2} (Finishes.later {n = m} h more)
        (Finishes.now k) =
      Finishes-at {m = suc m} {v = (some r1, some (Result.ok v2))} (ground arith) (ground arith)
        (Finishes.later (rw (h, k)) (rw (h, k) (ok_wait_first (f2 s2).1 v2 more)))
  poll_join_on_ok-Finishes {r2 = Result.err e2} (Finishes.later {n = m} h more) (Finishes.now k) =
      Finishes-at {m = 0} {v = (none, some (Result.err e2))} (ground arith) (ground arith)
        (Finishes.now (rw (h, k)))
  poll_join_on_ok-Finishes {r1 = r1} {r2 = r2} (Finishes.later {n = m} h p)
        (Finishes.later {n = n} k q) =
      Finishes-at {m = suc (ready_at m r1 n r2)} {v = ready_with m r1 n r2} (ready_at-suc m n r1 r2)
        (ready_with-suc m n r1 r2)
        (Finishes.later (rw (h, k)) (rw (h, k) (poll_join_on_ok-Finishes p q)))
