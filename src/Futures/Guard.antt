-- ===== src/Futures/Guard.antt =====
-- `drop_guard` of src/future_ext.rs: a closure that is called when its guard is dropped.
use rocks.Base.{◌≡◌, refl, List, [], ◌∷◌, Option, none, some}

-- `MaybeUninit`
data MaybeUninit (F : Type 0) : Type 0 where
  uninit : MaybeUninit F
  init : F → MaybeUninit F

-- `DropGuard`
record DropGuard (F : Type 0) : Type 0 where
  slot : MaybeUninit F

abbrev drop_guard : {F : Type 0} → F → DropGuard F
drop_guard f = record { slot = init f }

-- A closure is called on what it changes.
module _ {F W : Type 0} (call : F → W → W) where
  -- `assume_init`, and the call; none where nothing is there, which is undefined behaviour.
  abbrev call_init : MaybeUninit F → W → Option W
  call_init uninit w = none
  call_init (init f) w = some (call f w)

  -- `Drop::drop`, with the slot that is left empty.
  drop : DropGuard F → W → Option W × DropGuard F
  drop guard w = (call_init guard.slot w, record guard { slot = uninit })

  -- The guards of some closures, dropped in turn.
  drop_all : List F → W → Option W
  drop_all [] w = some w
  drop_all (f ∷ fs) w = elim (drop (drop_guard f) w).0 [ none ↦ none | some w' ↦ drop_all fs w' ]

  abbrev call_all : List F → W → W
  call_all [] w = w
  call_all (f ∷ fs) w = call_all fs (call f w)

  -- Each closure is called, once and in turn, and never one that is not there.
  drop_all-calls : (fs : List F) (w : W) → drop_all fs w ≡ some (call_all fs w)
  unfolding drop_all drop
  drop_all-calls [] w = refl
  drop_all-calls (f ∷ fs) w = drop_all-calls fs (call f w)

  -- A guard that has been dropped has nothing to call.
  drop_spent : (guard : DropGuard F) (w w' : W) → (drop (drop guard w).1 w').0 ≡ none
  unfolding drop
  drop_spent guard w w' = refl
