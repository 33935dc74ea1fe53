-- ===== src/Examples/Store.antt =====
-- Two stored connections, by ids that are numbers.
use native.Mathlib.Decide.{ℕ_discrete}
use rocks.Base.{ℕ, ◌≡◌, false, List, [], ◌∷◌, none, some}
use rocks.Error.{Result}
use rocks.Store.{not_implemented, ConnectionManager, find}
use rocks.Store.Refine.{Call, run, abstract_run, run_refines}

abbrev two : ConnectionManager ℕ ℕ
two = record { conns = (1, 10) ∷ (2, 20) ∷ []; is_poisoned = false }

abbrev calls : List (Call ℕ ℕ)
calls = Call.get 1 ∷ Call.add 1 11 ∷ Call.get 3 ∷ []

run_refines_example :
    ((run ℕ_discrete calls two).0
      ≡ Result.ok (some 10) ∷ Result.ok none ∷ Result.err not_implemented ∷ [])
    × (find ℕ_discrete (run ℕ_discrete calls two).1.conns
        ≡ (abstract_run ℕ_discrete false calls (find ℕ_discrete two.conns)).1)
    × ((run ℕ_discrete calls two).1.is_poisoned ≡ false)
unfolding find ℕ_discrete
run_refines_example = run_refines ℕ_discrete calls two
