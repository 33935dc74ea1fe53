-- ===== src/Store.antt =====
-- src/rocks/connection_manager.rs: the connections by their ids. The map of the standard library is a
-- list of pairs, read from its front; the ids, of the uuid crate, are any type with equality.
pub mod Taken
pub mod Refine
use rocks.Base.{Bool, true, false, List, [], ◌∷◌, Option, none, some, if◌then◌else◌}
use rocks.Error.{Result}

-- The texts of the errors.
pub data Refusal : Type 0 where
  no_connections_found not_implemented connection_exists mutex_poisoned : Refusal

-- `ConnectionManager`, and whether a thread has panicked while it held the lock.
pub record ConnectionManager (Key C : Type 0) : Type 0 where
  pub conns : List (Key × C)
  pub is_poisoned : Bool

-- `ConnectionManager::new`
abbrev pub new : {Key C : Type 0} → ConnectionManager Key C
new = record { conns = []; is_poisoned = false }

module _ {Key C : Type 0} (dec : Discrete Key) where
  -- `HashMap::get`
  unfoldable pub find : List (Key × C) → Key → Option C
  find [] k = none
  find ((i, c) ∷ cs) k = elim (dec i k) [ yes _ ↦ some c | no _ ↦ find cs k ]

  -- What `HashMap::remove` leaves.
  unfoldable pub without : List (Key × C) → Key → List (Key × C)
  without [] k = []
  without ((i, c) ∷ cs) k = elim (dec i k) [ yes _ ↦ without cs k | no _ ↦ (i, c) ∷ without cs k ]

  abbrev pub contains_key : List (Key × C) → Key → Bool
  contains_key cs k = elim (find cs k) [ none ↦ false | some _ ↦ true ]

  take_out : Option C → ConnectionManager Key C → Key → Result Refusal C × ConnectionManager Key C
  unfolding without
  take_out (some conn) m k = (Result.ok conn, record m { conns = without m.conns k })
  take_out none m k = (Result.err no_connections_found, record m { conns = without m.conns k })

  unfoldable pub get_connection :
      ConnectionManager Key C → Key → Result Refusal C × ConnectionManager Key C
  unfolding take_out find
  get_connection m k =
      if m.is_poisoned
      then (Result.err mutex_poisoned, m)
      else if contains_key m.conns k
      then take_out (find m.conns k) m k
      else (Result.err not_implemented, m)

  unfoldable pub add_connection :
      ConnectionManager Key C → Key → C → Result Refusal (Unit {0}) × ConnectionManager Key C
  unfolding find
  add_connection m k conn =
      if m.is_poisoned
      then (Result.err mutex_poisoned, m)
      else if contains_key m.conns k
      then (Result.err connection_exists, m)
      else (Result.ok tt, record m { conns = (k, conn) ∷ m.conns })
