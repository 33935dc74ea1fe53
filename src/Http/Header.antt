-- ===== src/Http/Header.antt =====
-- `HttpHeaderParser` of src/http_parse/mod.rs. `httparse` and hyper's request builder are parameters.
pub mod Read
pub mod Chunks
pub mod Pieces
use rocks.Base.{
  ℕ, zero, suc, ◌+◌, ◌-◌, Bool, List, [], ◌∷◌, ◌++◌, Option, none, some, drop, take, length,
}
use rocks.Base.Words.{Bytes}
use rocks.Error.{Result}
use rocks.Http.Line.{LineParser, Parsed, line, more, new, parse_line_http}

pub data Version : Type 0 where
  http_09 http_10 http_11 : Version

-- The request of `httparse` after it is parsed.
pub record Request : Type 0 where
  pub version : Option ℕ
  pub method : Option Bytes
  pub path : Option Bytes
  pub headers : List (Bytes × Bytes)

-- `httparse::Status`, with the request
pub data Status : Type 0 where
  complete : ℕ → Request → Status
  partial : Status

-- `parse` with room for so many headers, and `HyperRequest::builder` with what is set on it.
pub record Libraries (E B R : Type 0) : Type 0 where
  pub parse : ℕ → Bytes → Result E Status
  pub build : Version → Bytes → Bytes → List (Bytes × Bytes) → Result B R

-- The errors, with the texts of those that the function makes itself.
pub data HeaderError (E B : Type 0) : Type 0 where
  unsupported_version method_is_empty path_is_empty : HeaderError E B
  parse_error : E → HeaderError E B
  build_error : B → HeaderError E B

-- How a call ends: `Ok`, `Err` or a panic.
pub data Answer (E B R : Type 0) : Type 0 where
  ok : Option (R × ℕ) → Answer E B R
  err : HeaderError E B → Answer E B R
  panic : Answer E B R

-- `HttpHeaderParser`; `collected` is its `data`.
pub record HttpHeaderParser : Type 0 where
  pub collected : Bytes
  pub lines_cnt : ℕ
  pub line_parser : LineParser

-- `HttpHeaderParser::new`
abbrev pub new_parser : HttpHeaderParser
new_parser = record { collected = []; lines_cnt = 0; line_parser = new }

module _ {E B R : Type 0} (libraries : Libraries E B R) where
  checked_version : Option ℕ → Result (HeaderError E B) Version
  checked_version none = Result.ok http_09
  checked_version (some zero) = Result.ok http_10
  checked_version (some (suc zero)) = Result.ok http_11
  checked_version (some (suc (suc n))) = Result.err unsupported_version

  -- `ok_or_else` and `?`
  required : HeaderError E B → Option Bytes → Result (HeaderError E B) Bytes
  required e (some bs) = Result.ok bs
  required e none = Result.err e

  built : ℕ → Result B R → Answer E B R
  built n (Result.ok r) = Answer.ok (some (r, n))
  built n (Result.err e) = Answer.err (build_error e)

  -- The branch of `Status::Complete`: the version, the method and the path are looked at in this
  -- order.
  build_request :
      ℕ
      → Result (HeaderError E B) Version
      → Result (HeaderError E B) Bytes
      → Result (HeaderError E B) Bytes
      → List (Bytes × Bytes)
      → Answer E B R
  unfolding built
  build_request n (Result.err e) _ _ headers = Answer.err e
  build_request n _ (Result.err e) _ headers = Answer.err e
  build_request n _ _ (Result.err e) headers = Answer.err e
  build_request n (Result.ok v) (Result.ok m) (Result.ok p) headers =
      built n (libraries.build v m p headers)

  pub answered : Result E Status → Answer E B R
  unfolding build_request checked_version required
  answered (Result.err e) = Answer.err (parse_error e)
  answered (Result.ok partial) = Answer.ok none
  answered (Result.ok (complete n r)) =
      build_request n (checked_version r.version) (required method_is_empty r.method)
        (required path_is_empty r.path) r.headers

  -- After the empty line: all that was collected is parsed, with a header for each line but one.
  unfoldable pub end_of_head : HttpHeaderParser → Answer E B R
  unfolding answered
  end_of_head p = answered (libraries.parse (p.lines_cnt - 1) p.collected)

  -- The `loop`, on what is left of the input; `none` means that the fuel ran out.
  unfoldable pub parse_lines :
      ℕ → HttpHeaderParser → Bytes → Option (Answer E B R × HttpHeaderParser)
  parse_lines zero p input = none
  parse_lines (suc fuel) p input = elim (parse_line_http p.line_parser input).0 [
    | more ↦
        some (Answer.ok none, record p { line_parser = (parse_line_http p.line_parser input).1 })
    | Parsed.panic ↦
        some (Answer.panic, record p { line_parser = (parse_line_http p.line_parser input).1 })
    | line l n ↦ elim l [
      | [] ↦
          let q = record p {
            collected = p.collected ++ take n input;
            line_parser = (parse_line_http p.line_parser input).1;
          } in
          some (end_of_head q, q)
      | b ∷ bs ↦
          parse_lines fuel
            (record p {
              collected = p.collected ++ take n input;
              lines_cnt = p.lines_cnt + 1;
              line_parser = (parse_line_http p.line_parser input).1;
            })
            (drop n input)
    ]
  ]

  -- `parse_http`; each round but the last reads at least one byte.
  unfoldable pub parse_http : HttpHeaderParser → Bytes → Option (Answer E B R × HttpHeaderParser)
  parse_http p input = parse_lines (suc (length input)) p input
