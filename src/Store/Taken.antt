-- ===== src/Store/Taken.antt =====
-- A connection is handed out once.
use rocks.Base.{◌≡◌, ◌≢◌, refl, sym, ◌∙◌, false, List, [], ◌∷◌, none, some, arith}
use rocks.Error.{Result}
use rocks.Store.{
  Refusal, no_connections_found, ConnectionManager, find, without, contains_key, take_out,
  get_connection, add_connection,
}

module _ {Key C : Type 0} (dec : Discrete Key) where
  pub find-without_self : (cs : List (Key × C)) (k : Key) → find dec (without dec cs k) k ≡ none
  unfolding find without
  find-without_self [] k = refl
  find-without_self ((i, c) ∷ cs) k = ground (arith, find-without_self cs k)

  pub find-without_ne :
      (cs : List (Key × C)) (k i : Key) → i ≢ k → find dec (without dec cs k) i ≡ find dec cs i
  unfolding find without
  find-without_ne [] k i ne = refl
  find-without_ne ((j, c) ∷ cs) k i ne = ground (arith, find-without_ne cs k i)

  pub find_head : (cs : List (Key × C)) (k : Key) (c : C) → find dec ((k, c) ∷ cs) k ≡ some c
  unfolding find
  find_head cs k c = ground arith

  pub find_tail :
      (cs : List (Key × C)) (k i : Key) (c : C) → i ≢ k → find dec ((k, c) ∷ cs) i ≡ find dec cs i
  unfolding find
  find_tail cs k i c ne = ground arith

  -- While the lock is not poisoned, a stored connection is handed out, is then no longer stored, and
  -- the others still are.
  pub get_connection_takes :
      (m : ConnectionManager Key C) (k : Key) (c : C)
      → m.is_poisoned ≡ false
      → find dec m.conns k ≡ some c
      → ((get_connection dec m k).0 ≡ Result.ok c)
        × (find dec (get_connection dec m k).1.conns k ≡ none)
        × ((i : Key) → i ≢ k → find dec (get_connection dec m k).1.conns i ≡ find dec m.conns i)
  unfolding get_connection take_out
  get_connection_takes m k c free found =
      rw (free, contains_key, found) (refl, find-without_self m.conns k, find-without_ne m.conns k)

  pub add_new :
      (m : ConnectionManager Key C) (k : Key) (c : C)
      → m.is_poisoned ≡ false
      → find dec m.conns k ≡ none
      → add_connection dec m k c ≡ (Result.ok tt, record m { conns = (k, c) ∷ m.conns })
  unfolding add_connection
  add_new m k c free absent = rw (free, contains_key, absent) refl

  -- While the lock is not poisoned, a connection that is added under a new id is handed out by the next
  -- call for it, and what is stored is then, for every id, what was stored before.
  pub add_connection-get_connection :
      (m : ConnectionManager Key C) (k : Key) (c : C)
      → m.is_poisoned ≡ false
      → find dec m.conns k ≡ none
      → ((add_connection dec m k c).0 ≡ Result.ok tt)
        × ((get_connection dec (add_connection dec m k c).1 k).0 ≡ Result.ok c)
        × ((i : Key)
            → find dec (get_connection dec (add_connection dec m k c).1 k).1.conns i
              ≡ find dec m.conns i)
  add_connection-get_connection m k c free absent =
      let added : ConnectionManager Key C = record m { conns = (k, c) ∷ m.conns } in
      let (taken, gone, others) = get_connection_takes added k c free (find_head m.conns k c) in
      rw (add_new m k c free absent) (
        refl,
        taken,
        λ i. elim (dec i k) [
          | yes same ↦ rw same (gone ∙ sym absent)
          | no other ↦ others i other ∙ find_tail m.conns k i c other
        ],
      )

  -- A call of `get_connection` that is refused changes nothing, and the text that is given for a connection that vanished
  -- between the two lookups is never used.
  pub get_connection_refused :
      (m : ConnectionManager Key C) (k : Key) (e : Refusal)
      → (get_connection dec m k).0 ≡ Result.err e
      → ((get_connection dec m k).1 ≡ m) × (e ≢ no_connections_found)
  unfolding get_connection take_out
  get_connection_refused m k e h = ground arith
