-- ===== src/Futures/Flag.antt =====
-- `FlagFuture` of src/future_ext.rs: clones share one flag, so the calls on any of them are one list.
use rocks.Base.{Bool, true, false, ◌||◌, ◌≡◌, refl, ap, List, [], ◌∷◌, ◌++◌, if◌then◌else◌}
use rocks.Futures.{Poll}

-- A call on one of the clones.
pub data Call : Type 0 where
  set is_set poll : Call

-- What a call gives.
pub data Seen : Type 0 where
  done : Seen
  flag : Bool → Seen
  polled : Poll (Unit {0}) → Seen

abbrev pub poll_flag : Bool → Poll (Unit {0})
poll_flag shared = if shared then Poll.ready tt else Poll.pending

-- `FlagFuture`'s methods, on the flag that the clones share.
abbrev pub call : Call → Bool → Seen × Bool
call set shared = (done, true)
call is_set shared = (flag shared, shared)
call poll shared = (polled (poll_flag shared), shared)

unfoldable pub run : List Call → Bool → List Seen
run [] shared = []
run (c ∷ cs) shared = (call c shared).0 ∷ run cs (call c shared).1

abbrev pub has_set : List Call → Bool
has_set [] = false
has_set (set ∷ cs) = true
has_set (is_set ∷ cs) = has_set cs
has_set (poll ∷ cs) = has_set cs

-- Among the calls on the clones of a flag, a poll is ready exactly if the flag was set at first or
-- some call before it was a `set`, on whichever clone.
pub run_poll :
    (before after : List Call) (shared : Bool)
    → run (before ++ poll ∷ after) shared
      ≡ run before shared
        ++ polled (poll_flag (shared || has_set before)) ∷ run after (shared || has_set before)
unfolding run
run_poll [] after true = refl
run_poll [] after false = refl
run_poll (set ∷ cs) after true = ap (λ xs. done ∷ xs) (run_poll cs after true)
run_poll (set ∷ cs) after false = ap (λ xs. done ∷ xs) (run_poll cs after true)
run_poll (is_set ∷ cs) after shared = ap (λ xs. flag shared ∷ xs) (run_poll cs after shared)
run_poll (poll ∷ cs) after shared =
    ap (λ xs. polled (poll_flag shared) ∷ xs) (run_poll cs after shared)
