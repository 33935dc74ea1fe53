-- ===== src/Rocks/Service/Serving/Answered.antt =====
-- When a request of the hyper server is answered, and with what, through the future of its handler and
-- the one that keeps that on its thread.
use rocks.Base.{
  ℕ, suc, ◌≡◌, refl, ap, sym, subst, ◌∙◌, Bool-cases, inl, inr, Bool, true, false, List, [], ◌∷◌,
  ◌++◌, Option, none, some, ◌==◌, ◌&&◌, not, if◌then◌else◌,
}
use rocks.Error.{Result}
use rocks.Rocks.Service.{
  Request, Headers, ServeError, length_not_match, Response, not_found, hello, Served, drain,
  checked_body, not_found_unless, form_length, form_body, handle_rocks, serve_rocks, Async, ready,
  not_ready, failed, as_async,
}
use rocks.Rocks.Service.Answers.{Refused, serve_rocks_refuses}
use rocks.Rocks.Service.Serving.{
  Serving, start, finished, Failure, serve_error, Step, as_failure, poll_body, poll_length,
  poll_form, poll_serving, serve_rocks_wrapped, rocks_service, call_service,
}
use rocks.Rocks.Service.Thread.{repeat, polls, poll_times, at_home, given_home, polls_home}

-- How often a body is not there yet.
abbrev pub waits : {D : Type 0} → List (Option D) → ℕ
waits [] = 0
waits (none ∷ cs) = suc (waits cs)
waits (some d ∷ cs) = waits cs

-- The header's length is a number, and the one that the body claims.
abbrev pub is_claimed : {S P : Type 0} → Option (Served S P ℕ) → Option ℕ → Bool
is_claimed (some (Result.ok n)) (some l) = n == l
is_claimed _ _ = false

-- What polls come to: what they give, and the future after them.
abbrev pub Polled : Type 0 → Type 0 → Type 0 → Type 0 → Type 0 → Type 0
Polled W V D S P = List (Async Response (Failure S P)) × Serving W V D

-- Not ready so many times, and then `r`.
abbrev pub answered_after :
    {W V D S P : Type 0} → ℕ → Result (Failure S P) Response → Polled W V D S P
answered_after n r = (repeat n not_ready ++ as_async (some r) ∷ [], finished)

module _ {W V S P : Type 0} (values : Headers W V S P) {D : Type 0} where
  -- How often the future of a request is not ready: as often as its body, if it reads the body.
  abbrev pub pauses : Request W V (Option D) → ℕ
  pauses req =
      if values.uri_equals req.uri "/rocks"
        && is_claimed (form_length values req.content_type_header req.content_length_header)
            req.content_length
      then waits req.chunks
      else 0

  -- What a request is answered by: the error that it is refused with, the answer that there is nothing
  -- on the path of the service, or, elsewhere, the page.
  pub data AnsweredBy (req : Request W V (Option D)) : Async Response (Failure S P) → Type 0 where
    by_error :
        (e : ServeError S P)
        → values.uri_equals req.uri "/rocks" ≡ true
        → Refused values req e
        → AnsweredBy req (failed (serve_error e))
    by_nothing :
        values.uri_equals req.uri "/rocks" ≡ true
        → ((e : ServeError S P) → ¬ Refused values req e)
        → AnsweredBy req (
            ready (record {
              status = 404;
              header_name = "Connection";
              header_value = "close";
              body = "";
            }))
    by_page :
        values.uri_equals req.uri "/rocks" ≡ false
        → AnsweredBy req (
            ready (record {
              status = 200;
              header_name = "Context-Type";
              header_value = "text/html";
              body = "Hello";
            }))

  result-AnsweredBy :
      (req : Request W V (Option D)) (r : Served S P Response)
      → (serve_rocks values req).0 ≡ r
      → AnsweredBy req (as_async (some (as_failure r)))
  result-AnsweredBy req (Result.err e) h =
      let (on_path, refused) = ((serve_rocks_refuses values req).0 e).0 h in
      by_error e on_path refused
  result-AnsweredBy req (Result.ok a) h = elim (Bool-cases (values.uri_equals req.uri "/rocks")) [
    | inl on_path ↦
        let same : a ≡ not_found = (serve_rocks_refuses values req).1 a h ∙ rw on_path refl in
        let none_refused : (e : ServeError S P) → ¬ Refused values req e =
          λ e refused. cc (((serve_rocks_refuses values req).0 e).1 (on_path, refused)) in
        subst (λ x. AnsweredBy req (ready x)) (sym same) (by_nothing on_path none_refused)
    | inr off ↦
        let same : a ≡ hello = (serve_rocks_refuses values req).1 a h ∙ rw off refl in
        subst (λ x. AnsweredBy req (ready x)) (sym same) (by_page off)
  ]

  module _ {T : Type 0} (dec : Discrete T) where
    -- A poll that came to `step`, and so many more.
    and_polls : ℕ → Step W V D S P → Polled W V D S P
    and_polls n step =
        let rest = poll_times dec (poll_serving values) n step.1 in
        (as_async step.0 ∷ rest.0, rest.1)

    Takes : ℕ → Step W V D S P → Result (Failure S P) Response → Type 0
    Takes n step r = and_polls n step ≡ answered_after n r

    poll_body-Takes : (cs : List (Option D)) → Takes (waits cs) (poll_body cs) (Result.ok not_found)
    unfolding Takes and_polls poll_body poll_serving
    poll_body-Takes [] = refl
    poll_body-Takes (none ∷ cs) = ap (λ (xs, f). (not_ready ∷ xs, f)) (poll_body-Takes cs)
    poll_body-Takes (some d ∷ cs) = poll_body-Takes cs

    matched-Takes :
        (b : Bool) (cs : List (Option D))
        → Takes
            (if b then waits cs else 0)
            (if not b
              then (some (Result.err (serve_error length_not_match)), finished)
              else poll_body cs)
            (as_failure (
              not_found_unless
                (if◌then◌else◌ {A = Served S P (Unit {0}) × List (Option D)}
                  (not b)
                  (Result.err length_not_match, cs)
                  (Result.ok tt, drain cs)).0))
    unfolding Takes and_polls not_found_unless
    matched-Takes true cs = poll_body-Takes cs
    matched-Takes false cs = refl

    poll_length-Takes :
        (len : Served S P ℕ) (claimed : Option ℕ) (cs : List (Option D))
        → Takes
            (if is_claimed (some len) claimed then waits cs else 0)
            (poll_length len claimed cs)
            (as_failure (not_found_unless (checked_body len claimed cs).0))
    unfolding Takes and_polls poll_length not_found_unless checked_body
    poll_length-Takes (Result.err e) claimed cs = refl
    poll_length-Takes (Result.ok n) none cs = refl
    poll_length-Takes (Result.ok n) (some l) cs = matched-Takes (n == l) cs

    poll_form-Takes :
        (len : Option (Served S P ℕ)) (req : Request W V (Option D))
        → Takes
            (if is_claimed len req.content_length then waits req.chunks else 0)
            (poll_form len req)
            (as_failure (not_found_unless (form_body values len req).0))
    unfolding Takes and_polls poll_form form_body not_found_unless
    poll_form-Takes (some len) req = poll_length-Takes len req.content_length req.chunks
    poll_form-Takes none req = refl

    routed-Takes :
        (req : Request W V (Option D)) (b : Bool)
        → Takes
            (if b
                && is_claimed
                    (form_length values req.content_type_header req.content_length_header)
                    req.content_length
              then waits req.chunks
              else 0)
            (if b
              then poll_form
                  (form_length values req.content_type_header req.content_length_header)
                  req
              else (some (Result.ok hello), finished))
            (as_failure (if b then handle_rocks values req else (Result.ok hello, req.chunks)).0)
    unfolding handle_rocks Takes and_polls
    routed-Takes req true =
        poll_form-Takes (form_length values req.content_type_header req.content_length_header) req
    routed-Takes req false = refl

    start-Takes :
        (req : Request W V (Option D))
        → Takes
            (pauses req)
            (poll_serving values (start req))
            (as_failure (serve_rocks values req).0)
    unfolding poll_serving serve_rocks
    start-Takes req = routed-Takes req (values.uri_equals req.uri "/rocks")

    polled_at_home :
        (req : Request W V (Option D)) (home : T) (ts : List T)
        → at_home dec home ts ≡ suc (pauses req)
        → (given_home dec home ts
              (polls dec (poll_serving values) ts (call_service (rocks_service home) req).0).0
            ≡ repeat (pauses req) not_ready
              ++ as_async (some (as_failure (serve_rocks values req).0)) ∷ [])
    unfolding Takes and_polls call_service
    polled_at_home req home ts enough =
        (polls_home dec (poll_serving values) ts (serve_rocks_wrapped req home)).answers
        ∙ rw enough (ap (λ r. r.0) (start-Takes req))

    -- The service that the server was started with on a thread takes each request, and stays as it is.
    -- A request whose future is polled on this thread once more than its body is not there yet, if the
    -- body is read, and on whatever other threads between, is not ready until its last poll on this
    -- thread. That poll gives its answer: the error of a request that is refused, and otherwise "not
    -- found" on the path of the service and the page elsewhere.
    pub served_at_home :
        (req : Request W V (Option D)) (home : T) (ts : List T)
        → at_home dec home ts ≡ suc (pauses req)
        → ((call_service {D = D} (rocks_service home) req).1 ≡ rocks_service home)
          × ((answer : Async Response (Failure S P)) × AnsweredBy req answer
              × (given_home dec home ts
                    (polls dec (poll_serving values) ts (call_service (rocks_service home) req).0).0
                  ≡ repeat (pauses req) not_ready ++ answer ∷ []))
    unfolding call_service
    served_at_home req home ts enough = (
      refl,
      (
        as_async (some (as_failure (serve_rocks values req).0)),
        result-AnsweredBy req (serve_rocks values req).0 refl,
        polled_at_home req home ts enough,
      ),
    )
