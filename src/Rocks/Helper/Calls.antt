-- ===== src/Rocks/Helper/Calls.antt =====
-- When the two kinds of services of src/rocks/hyper_service_helper.rs answer alike.
use rocks.Base.{◌≡◌, refl, ap, List, [], ◌∷◌, map}
use rocks.Rocks.Helper.{
  FnOnce, FnMut, ServiceFnOnceClone, service_fn_once_clone, ServiceFnMut, service_fn_mut, call_once,
  call_mut,
}

module _ {F Req Ret Fut : Type 0} (ret_into_future : Ret → Fut) (once : FnOnce F Req Ret)
    (mutable : FnMut F Req Ret) where
  -- The futures that a service gives for these requests, one after the other.
  pub all_once : List Req → ServiceFnOnceClone F → List Fut
  all_once [] this = []
  all_once (req ∷ reqs) this =
      let (fut, after) = call_once ret_into_future once this req in fut ∷ all_once reqs after

  pub all_mut : List Req → ServiceFnMut F → List Fut
  all_mut [] this = []
  all_mut (req ∷ reqs) this =
      let (fut, after) = call_mut ret_into_future mutable this req in fut ∷ all_mut reqs after

  -- A service that clones its closure answers each request as if it were the first, and a service
  -- that may change its closure does the same where the closure does not change itself.
  pub all_mut-all_once :
      (f : F) (reqs : List Req)
      → ((req : Req) → mutable.run_mut f req ≡ (once.run_once f req, f))
      → (all_once reqs (service_fn_once_clone f)
          ≡ map (λ req. ret_into_future (once.run_once f req)) reqs)
        × (all_mut reqs (service_fn_mut f) ≡ all_once reqs (service_fn_once_clone f))
  unfolding all_once all_mut call_once call_mut
  all_mut-all_once f [] same = (refl, refl)
  all_mut-all_once f (req ∷ reqs) same =
      let (each, alike) = all_mut-all_once f reqs same in
      (
        ap (λ l. ret_into_future (once.run_once f req) ∷ l) each,
        rw (same req) (ap (λ l. ret_into_future (once.run_once f req) ∷ l) alike),
      )
