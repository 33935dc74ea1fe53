-- ===== src/Rocks/Helper.antt =====
-- src/rocks/hyper_service_helper.rs: hyper services out of functions. `IntoFuture` of what they return
-- is a parameter.
pub mod Calls
use rocks.Base.{List, [], ◌∷◌}
use rocks.Error.{Result}

-- A closure of type `F`: `FnOnce` uses it up, and `FnMut` may change it.
pub record FnOnce (F Req Ret : Type 0) : Type 0 where
  pub run_once : F → Req → Ret

pub record FnMut (F Req Ret : Type 0) : Type 0 where
  pub run_mut : F → Req → Ret × F

-- `ServiceFnOnceClone`, and what `service_fn_once_clone` makes.
pub record ServiceFnOnceClone (F : Type 0) : Type 0 where
  pub f : F

abbrev pub service_fn_once_clone : {F : Type 0} → F → ServiceFnOnceClone F
service_fn_once_clone f = record { f = f }

-- `ServiceFnMut`, and what `service_fn_mut` makes.
pub record ServiceFnMut (F : Type 0) : Type 0 where
  pub f : F

abbrev pub service_fn_mut : {F : Type 0} → F → ServiceFnMut F
service_fn_mut f = record { f = f }

-- `IntoFuture for ServiceFnMut`: a future that is ready with the service.
abbrev pub into_future : {F E : Type 0} → ServiceFnMut F → Result E (ServiceFnMut F)
into_future this = Result.ok this

module _ {F Req Ret Fut : Type 0} (ret_into_future : Ret → Fut) where
  -- `ServiceFnOnceClone::call`: a clone of the closure is used up.
  unfoldable pub call_once :
      FnOnce F Req Ret → ServiceFnOnceClone F → Req → Fut × ServiceFnOnceClone F
  call_once fn this req = (ret_into_future (fn.run_once this.f req), this)

  -- `ServiceFnMut::call`
  unfoldable pub call_mut : FnMut F Req Ret → ServiceFnMut F → Req → Fut × ServiceFnMut F
  call_mut fn this req =
      let (ret, f) = fn.run_mut this.f req in (ret_into_future ret, record { f = f })
