-- ===== src/Rocks/Service.antt =====
-- src/rocks/hyper_svr.rs: what a request is answered with, and the future that stays on its thread.
-- hyper's requests, bodies and header values are parameters.
pub mod Answers
pub mod Payload
pub mod Serving
pub mod Thread
use Prim.Native.String.{String}
use rocks.Base.{
  ℕ, ◌+◌, ◌==◌, not, Bool, true, false, List, [], ◌∷◌, Option, none, some, if◌then◌else◌,
}
use rocks.Error.{Result}

-- A request with a URI of type `W` and header values of type `V`; `content_length` is what the body says of its size, and
-- `chunks` what it will give.
pub record Request (W V D : Type 0) : Type 0 where
  pub uri : W
  pub content_type_header : Option V
  pub content_length_header : Option V
  pub content_length : Option ℕ
  pub chunks : List D

-- What is called of hyper and of the standard library: a URI and a header value against a text,
-- `to_str`, and `parse::<u64>`.
pub record Headers (W V StrError ParseError : Type 0) : Type 0 where
  pub uri_equals : W → String → Bool
  pub equals : V → String → Bool
  pub to_str : V → Result StrError String
  pub parse_u64 : String → Result ParseError ℕ

pub data ServeError (StrError ParseError : Type 0) : Type 0 where
  to_str_error : StrError → ServeError StrError ParseError
  parse_error : ParseError → ServeError StrError ParseError
  length_not_match : ServeError StrError ParseError

-- `Response`: the status, its one header, and the body.
pub record Response : Type 0 where
  pub status : ℕ
  pub header_name : String
  pub header_value : String
  pub body : String

abbrev pub not_found : Response
not_found = record { status = 404; header_name = "Connection"; header_value = "close"; body = "" }

abbrev pub hello : Response
hello = record {
  status = 200;
  header_name = "Context-Type";
  header_value = "text/html";
  body = "Hello";
}

abbrev pub form_type : String
form_type = "application/x-www-form-urlencoded"

abbrev pub Served : Type 0 → Type 0 → Type 0 → Type 0
Served S P A = Result (ServeError S P) A

-- The `while let` that reads the body to its end: what is left of it.
unfoldable pub drain : {D : Type 0} → List D → List D
drain [] = []
drain (c ∷ cs) = drain cs

unfoldable pub read_length : {S P : Type 0} → Result P ℕ → Served S P ℕ
read_length (Result.ok n) = Result.ok n
read_length (Result.err e) = Result.err (parse_error e)

-- With the header's length at hand: it is compared with the size that the body claims, if any.
pub checked_body :
    {D S P : Type 0} → Served S P ℕ → Option ℕ → List D → Served S P (Unit {0}) × List D
unfolding drain
checked_body (Result.err e) claimed chunks = (Result.err e, chunks)
checked_body (Result.ok n) none chunks = (Result.ok tt, chunks)
checked_body (Result.ok n) (some l) chunks =
    if not (n == l) then (Result.err length_not_match, chunks) else (Result.ok tt, drain chunks)

pub not_found_unless : {S P : Type 0} → Served S P (Unit {0}) → Served S P Response
not_found_unless (Result.ok _) = Result.ok not_found
not_found_unless (Result.err e) = Result.err e

module _ {W V S P : Type 0} (values : Headers W V S P) where
  unfoldable pub parse_text : Result S String → Served S P ℕ
  unfolding read_length
  parse_text (Result.ok text) = read_length (values.parse_u64 text)
  parse_text (Result.err e) = Result.err (to_str_error e)

  -- `hdrs["content-length"].to_str()?.parse::<u64>()?`
  unfoldable pub header_length : V → Served S P ℕ
  unfolding parse_text
  header_length v = parse_text (values.to_str v)

  -- The test of the headers, and the length where it holds.
  unfoldable pub form_length : Option V → Option V → Option (Served S P ℕ)
  unfolding header_length
  form_length (some t) (some l) = if values.equals t form_type then some (header_length l) else none
  form_length _ _ = none

  pub form_body :
      {D : Type 0} → Option (Served S P ℕ) → Request W V D → Served S P (Unit {0}) × List D
  unfolding checked_body
  form_body (some len) req = checked_body len req.content_length req.chunks
  form_body none req = (Result.ok tt, req.chunks)

  -- `handle_rocks`, with what is left of the body.
  unfoldable pub handle_rocks : {D : Type 0} → Request W V D → Served S P Response × List D
  unfolding form_length form_body not_found_unless
  handle_rocks req =
      let (r, left) =
        form_body (form_length req.content_type_header req.content_length_header) req in
      (not_found_unless r, left)

  -- `serve_rocks_async`, with `handle_static_files`.
  unfoldable pub serve_rocks : {D : Type 0} → Request W V D → Served S P Response × List D
  serve_rocks req =
      if values.uri_equals req.uri "/rocks" then handle_rocks req else (Result.ok hello, req.chunks)

-- `WrapFuture`: the future, how often the waker was called, and the thread that it belongs to.
pub record WrapFuture (F T : Type 0) : Type 0 where
  pub inner : F
  pub wakes : ℕ
  pub home : T

-- What a poll of `TokioFuture` gives: `Async` or an error.
pub data Async (A E : Type 0) : Type 0 where
  ready : A → Async A E
  not_ready : Async A E
  failed : E → Async A E

abbrev pub as_async : {A E : Type 0} → Option (Result E A) → Async A E
as_async (some (Result.ok t)) = ready t
as_async (some (Result.err e)) = failed e
as_async none = not_ready

module _ {F T A E : Type 0} (dec : Discrete T) (poll_inner : F → Option (Result E A) × F) where
  pub poll_on : {X : Type 0} → Dec X → WrapFuture F T → Async A E × WrapFuture F T
  poll_on (yes _) this =
      let (answer, f) = poll_inner this.inner in (as_async answer, record this { inner = f })
  poll_on (no _) this = (not_ready, record this { wakes = this.wakes + 1 })

  -- `WrapFuture::poll` on the thread `current`; the inner future is pending where it gives none.
  unfoldable pub poll_wrapped : T → WrapFuture F T → Async A E × WrapFuture F T
  unfolding poll_on
  poll_wrapped current this = poll_on (dec current this.home) this
