-- ===== src/Store/Refine.antt =====
-- The list of pairs implements a partial map from ids to connections.
use mathlib.Core.Path.{fun_ext, ap₂}
use rocks.Base.{
  ◌≡◌, refl, sym, ◌∙◌, Bool, Bool-cases, true, false, List, [], ◌∷◌, Option, none, some,
  Option-cases, inl, inr,
}
use rocks.Error.{Result}
use rocks.Store.{
  Refusal, not_implemented, connection_exists, mutex_poisoned, ConnectionManager, find, without,
  contains_key, take_out, get_connection, add_connection,
}
use rocks.Store.Taken.{find-without_self, find-without_ne, find_head, find_tail, add_new}

-- A call, and what it gives: the connection that was taken out, or none for one that was added.
pub data Call (Key C : Type 0) : Type 0 where
  add : Key → C → Call Key C
  get : Key → Call Key C

abbrev pub Reply : Type 0 → Type 0
Reply C = Result Refusal (Option C)

-- The partial map.
abbrev pub Stored : Type 0 → Type 0 → Type 0
Stored Key C = Key → Option C

module _ {Key C : Type 0} (dec : Discrete Key) where
  added : Result Refusal (Unit {0}) → Reply C
  added (Result.ok _) = Result.ok none
  added (Result.err e) = Result.err e

  taken : Result Refusal C → Reply C
  taken (Result.ok c) = Result.ok (some c)
  taken (Result.err e) = Result.err e

  pub call : Call Key C → ConnectionManager Key C → Reply C × ConnectionManager Key C
  unfolding added taken
  call (add k c) m = (added (add_connection dec m k c).0, (add_connection dec m k c).1)
  call (get k) m = (taken (get_connection dec m k).0, (get_connection dec m k).1)

  pub run : List (Call Key C) → ConnectionManager Key C → List (Reply C) × ConnectionManager Key C
  run [] m = ([], m)
  run (c ∷ cs) m = let rest = run cs (call c m).1 in ((call c m).0 ∷ rest.0, rest.1)

  abbrev pub put : Key → Option C → Stored Key C → Stored Key C
  put k o f i = elim (dec k i) [ yes _ ↦ o | no _ ↦ f i ]

  -- A call of the map, behind a lock that is poisoned or not.
  abbrev pub abstract_call : Bool → Call Key C → Stored Key C → Reply C × Stored Key C
  abstract_call true c f = (Result.err mutex_poisoned, f)
  abstract_call false (add k c) f = elim (f k) [
    | none ↦ (Result.ok none, put k (some c) f)
    | some _ ↦ (Result.err connection_exists, f)
  ]
  abstract_call false (get k) f = elim (f k) [
    | none ↦ (Result.err not_implemented, f)
    | some c ↦ (Result.ok (some c), put k none f)
  ]

  abbrev pub abstract_run : Bool → List (Call Key C) → Stored Key C → List (Reply C) × Stored Key C
  abstract_run poisoned [] f = ([], f)
  abstract_run poisoned (c ∷ cs) f =
      let rest = abstract_run poisoned cs (abstract_call poisoned c f).1 in
      ((abstract_call poisoned c f).0 ∷ rest.0, rest.1)

  without-put :
      (cs : List (Key × C)) (k : Key) → find dec (without dec cs k) ≡ put k none (find dec cs)
  without-put cs k = fun_ext λ i.
      elim (dec k i)
        as (λ d. find dec (without dec cs k) i ≡ elim d [ yes _ ↦ none | no _ ↦ find dec cs i ]) [
          | yes same ↦ rw (← same) (find-without_self dec cs k)
          | no other ↦ find-without_ne dec cs k i (λ e. other (sym e))
        ]

  cons-put :
      (cs : List (Key × C)) (k : Key) (c : C)
      → find dec ((k, c) ∷ cs) ≡ put k (some c) (find dec cs)
  cons-put cs k c = fun_ext λ i.
      elim (dec k i)
        as (λ d. find dec ((k, c) ∷ cs) i ≡ elim d [ yes _ ↦ some c | no _ ↦ find dec cs i ]) [
          | yes same ↦ rw (← same) (find_head dec cs k c)
          | no other ↦ find_tail dec cs k i c (λ e. other (sym e))
        ]

  get_found :
      (m : ConnectionManager Key C) (k : Key) {c : C}
      → m.is_poisoned ≡ false
      → find dec m.conns k ≡ some c
      → get_connection dec m k ≡ (Result.ok c, record m { conns = without dec m.conns k })
  unfolding get_connection take_out
  get_found m k free found = rw (free, contains_key, found) refl

  get_absent :
      (m : ConnectionManager Key C) (k : Key)
      → m.is_poisoned ≡ false
      → find dec m.conns k ≡ none
      → get_connection dec m k ≡ (Result.err not_implemented, m)
  unfolding get_connection
  get_absent m k free absent = rw (free, contains_key, absent) refl

  add_present :
      (m : ConnectionManager Key C) (k : Key) (c : C) {d : C}
      → m.is_poisoned ≡ false
      → find dec m.conns k ≡ some d
      → add_connection dec m k c ≡ (Result.err connection_exists, m)
  unfolding add_connection
  add_present m k c free found = rw (free, contains_key, found) refl

  -- A call gives the same on both, and leaves the map of the one to be the other's.
  record Simulates (c : Call Key C) (m : ConnectionManager Key C) : Type 0 where
    same_reply : (call c m).0 ≡ (abstract_call m.is_poisoned c (find dec m.conns)).0
    same_map : find dec (call c m).1.conns ≡ (abstract_call m.is_poisoned c (find dec m.conns)).1
    same_lock : (call c m).1.is_poisoned ≡ m.is_poisoned

  free-Simulates :
      (c : Call Key C) (m : ConnectionManager Key C) → m.is_poisoned ≡ false → Simulates c m
  unfolding call
  free-Simulates (get k) m free = elim (Option-cases (find dec m.conns k)) [
    | inl absent ↦ record {
      same_reply = rw (get_absent m k free absent, free, abstract_call, absent) refl;
      same_map = rw (get_absent m k free absent, free, abstract_call, absent) refl;
      same_lock = rw (get_absent m k free absent) refl;
    }
    | inr (c, found) ↦ record {
      same_reply = rw (get_found m k free found, free, abstract_call, found) refl;
      same_map = rw (get_found m k free found, free, abstract_call, found) (without-put m.conns k);
      same_lock = rw (get_found m k free found) refl;
    }
  ]
  free-Simulates (add k c) m free = elim (Option-cases (find dec m.conns k)) [
    | inl absent ↦ record {
      same_reply = rw (add_new dec m k c free absent, free, abstract_call, absent) refl;
      same_map =
          rw (add_new dec m k c free absent, free, abstract_call, absent) (cons-put m.conns k c);
      same_lock = rw (add_new dec m k c free absent) refl;
    }
    | inr (d, found) ↦ record {
      same_reply = rw (add_present m k c free found, free, abstract_call, found) refl;
      same_map = rw (add_present m k c free found, free, abstract_call, found) refl;
      same_lock = rw (add_present m k c free found) refl;
    }
  ]

  poisoned-Simulates :
      (c : Call Key C) (m : ConnectionManager Key C) → m.is_poisoned ≡ true → Simulates c m
  unfolding call get_connection add_connection
  poisoned-Simulates (get k) m stuck = record {
    same_reply = rw stuck refl;
    same_map = rw stuck refl;
    same_lock = rw stuck refl;
  }
  poisoned-Simulates (add k c) m stuck = record {
    same_reply = rw stuck refl;
    same_map = rw stuck refl;
    same_lock = rw stuck refl;
  }

  call-Simulates : (c : Call Key C) (m : ConnectionManager Key C) → Simulates c m
  call-Simulates c m = elim (Bool-cases m.is_poisoned) [
    | inl stuck ↦ poisoned-Simulates c m stuck
    | inr free ↦ free-Simulates c m free
  ]

  -- Any calls give the replies of a partial map from ids to connections, behind a lock that stays
  -- poisoned if it is, and then each call fails; and they leave behind the map that it then is.
  pub run_refines :
      (cs : List (Call Key C)) (m : ConnectionManager Key C)
      → ((run cs m).0 ≡ (abstract_run m.is_poisoned cs (find dec m.conns)).0)
        × (find dec (run cs m).1.conns ≡ (abstract_run m.is_poisoned cs (find dec m.conns)).1)
        × ((run cs m).1.is_poisoned ≡ m.is_poisoned)
  unfolding run
  run_refines [] m = (refl, refl, refl)
  run_refines (c ∷ cs) m =
      let s = call-Simulates c m in
      let (replies, final, lock) = run_refines cs (call c m).1 in
      let replies' = rw (s.same_lock, s.same_map) at replies in
      let final' = rw (s.same_lock, s.same_map) at final in
      (ap₂ (λ r rs. r ∷ rs) s.same_reply replies', final', lock ∙ s.same_lock)
