-- ===== src/Examples/Futures.antt =====
-- The combined futures on futures that count their polls down.
use rocks.Base.{ℕ, zero, suc, refl, Option, none, some}
use rocks.Error.{Result}
use rocks.Futures.{Poll, Future, JoinFuture, poll_join, poll_join_on_ok, start_join}
use rocks.Futures.Ends.{Finishes}
use rocks.Futures.OnOk.{poll_join_on_ok-Finishes}
use rocks.Futures.Safe.{BothDone, Reach, joins_safe}

-- Pending for so many polls, then ready with `t`; a poll after that panics.
abbrev countdown : {T : Type 0} → T → Future (Option ℕ) T
countdown t none = (Poll.panic, none)
countdown t (some zero) = (Poll.ready t, none)
countdown t (some (suc n)) = (Poll.pending, some n)

abbrev seven : ℕ
seven = 7

abbrev eight : ℕ
eight = 8

abbrev good : Result ℕ ℕ
good = Result.ok 7

abbrev bad : Result ℕ ℕ
bad = Result.err 8

poll_join_on_ok-Finishes_example :
    Finishes
      (poll_join_on_ok (countdown good) (countdown bad))
      (start_join (some 3) (some 1))
      1
      (none, some bad)
poll_join_on_ok-Finishes_example =
    poll_join_on_ok-Finishes (countdown good) (countdown bad)
      (Finishes.later refl (Finishes.later refl (Finishes.later refl (Finishes.now refl))))
      (Finishes.later refl (Finishes.now refl))

joins_safe_example :
    ((this : JoinFuture (Option ℕ) (Option ℕ) (Result ℕ ℕ) (Result ℕ ℕ))
      → Reach (poll_join (countdown good) (countdown bad)) (start_join (some 3) (some 1)) this
      → ¬ BothDone this)
    × ((this : JoinFuture (Option ℕ) (Option ℕ) ℕ ℕ)
        → Reach
            (poll_join_on_ok (countdown good) (countdown bad))
            (start_join (some 3) (some 1))
            this
        → ¬ BothDone this)
joins_safe_example = joins_safe (countdown good) (countdown bad) (some 3) (some 1)
