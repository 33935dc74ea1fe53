-- ===== src/Rocks/Service/Serving.antt =====
-- The future of `serve_rocks_async` in src/rocks/hyper_svr.rs, poll by poll. A body is what its polls
-- give: `none` where nothing is there yet, and else the next chunk, or the error in its place.
pub mod Answered
use rocks.Base.{ℕ, ◌==◌, not, List, [], ◌∷◌, Option, none, some, if◌then◌else◌}
use rocks.Error.{Result}
use rocks.Rocks.Helper.{FnMut, ServiceFnMut, service_fn_mut, call_mut}
use rocks.Rocks.Service.{
  WrapFuture, Request, Headers, ServeError, length_not_match, Response, not_found, hello, Served,
  form_length,
}

-- Where the future stands: not polled yet, in the loop over the body, or at its end.
pub data Serving (W V D : Type 0) : Type 0 where
  start : Request W V (Option D) → Serving W V D
  draining : List (Option D) → Serving W V D
  finished : Serving W V D

-- The errors of the code, and the panic of a future that is polled after its end.
pub data Failure (S P : Type 0) : Type 0 where
  serve_error : ServeError S P → Failure S P
  resumed : Failure S P

abbrev pub Step : Type 0 → Type 0 → Type 0 → Type 0 → Type 0 → Type 0
Step W V D S P = Option (Result (Failure S P) Response) × Serving W V D

abbrev pub as_failure : {S P A : Type 0} → Served S P A → Result (Failure S P) A
as_failure (Result.ok a) = Result.ok a
as_failure (Result.err e) = Result.err (serve_error e)

-- The `while let` over the body, and the answer behind it.
pub poll_body : {W V D S P : Type 0} → List (Option D) → Step W V D S P
poll_body [] = (some (Result.ok not_found), finished)
poll_body (none ∷ cs) = (none, draining cs)
poll_body (some d ∷ cs) = poll_body cs

-- With the header's length at hand.
pub poll_length : {W V D S P : Type 0} → Served S P ℕ → Option ℕ → List (Option D) → Step W V D S P
unfolding poll_body
poll_length (Result.err e) claimed chunks = (some (Result.err (serve_error e)), finished)
poll_length (Result.ok n) none chunks = (some (Result.ok not_found), finished)
poll_length (Result.ok n) (some l) chunks =
    if not (n == l)
    then (some (Result.err (serve_error length_not_match)), finished)
    else poll_body chunks

pub poll_form :
    {W V D S P : Type 0} → Option (Served S P ℕ) → Request W V (Option D) → Step W V D S P
unfolding poll_length
poll_form (some len) req = poll_length len req.content_length req.chunks
poll_form none req = (some (Result.ok not_found), finished)

module _ {W V S P : Type 0} (values : Headers W V S P) where
  -- A poll of the future.
  unfoldable pub poll_serving : {D : Type 0} → Serving W V D → Step W V D S P
  unfolding poll_form
  poll_serving (start req) =
      if values.uri_equals req.uri "/rocks"
      then poll_form (form_length values req.content_type_header req.content_length_header) req
      else (some (Result.ok hello), finished)
  poll_serving (draining cs) = poll_body cs
  poll_serving finished = (some (Result.err resumed), finished)

-- `serve_rocks`: the future of a request, wrapped for the thread `tid`.
abbrev pub serve_rocks_wrapped :
    {W V D T : Type 0} → Request W V (Option D) → T → WrapFuture (Serving W V D) T
serve_rocks_wrapped req tid = record { inner = start req; wakes = 0; home = tid }

-- The closure in `start_server`, which holds the id of the thread that the server was started on.
abbrev pub rocks_fn :
    {W V D T : Type 0} → FnMut T (Request W V (Option D)) (WrapFuture (Serving W V D) T)
rocks_fn = record { run_mut = λ tid req. (serve_rocks_wrapped req tid, tid) }

-- The service that `start_server` gives to hyper, and a call of it. The futures are tokio's already.
abbrev pub rocks_service : {T : Type 0} → T → ServiceFnMut T
rocks_service tid = service_fn_mut tid

pub call_service :
    {W V D T : Type 0}
    → ServiceFnMut T
    → Request W V (Option D)
    → WrapFuture (Serving W V D) T × ServiceFnMut T
unfolding call_mut
call_service this req = call_mut (λ fut. fut) rocks_fn this req
