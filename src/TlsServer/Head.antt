-- ===== src/TlsServer/Head.antt =====
-- The request that `temp` of src/hyper_tls_server.rs builds of a head that httparse has parsed. The
-- builder is hyper's, and is a parameter.
pub mod Version
use rocks.Base.{
  ℕ, zero, suc, Bool, true, false, List, [], ◌∷◌, Option, none, some, not, ◌&&◌, ◌==◌,
  if◌then◌else◌,
}
use rocks.Base.Words.{Bytes}

-- `Version`, as far as a request has one.
pub data HttpVersion : Type 0 where
  http_09 http_10 http_11 http_2 : HttpVersion

-- A header is its name and its value; the empty one has neither.
abbrev pub Header : Type 0
Header = Bytes × Bytes

-- The request of httparse after it is parsed.
pub record ParsedHead : Type 0 where
  pub method : Option Bytes
  pub path : Option Bytes
  pub version : Option ℕ
  pub headers : List Header

-- `hyper::Request::builder`, and what is set on it.
pub record Builder (B : Type 0) : Type 0 where
  pub builder : B
  pub set_version : HttpVersion → B → B
  pub set_method : Bytes → B → B
  pub set_uri : Bytes → B → B
  pub add_header : Header → B → B

unfoldable pub is_text : Bytes → Bytes → Bool
is_text [] [] = true
is_text [] (c ∷ cs) = false
is_text (b ∷ bs) [] = false
is_text (b ∷ bs) (c ∷ cs) = (b == c) && is_text bs cs

abbrev pub is_header : Header → Header → Bool
is_header (name, value) (n, v) = is_text name n && is_text value v

-- The header `Upgrade: h2c`, and `httparse::EMPTY_HEADER`.
abbrev pub h2c : Header
h2c = (85 ∷ 112 ∷ 103 ∷ 114 ∷ 97 ∷ 100 ∷ 101 ∷ [], 104 ∷ 50 ∷ 99 ∷ [])

abbrev pub empty_header : Header
empty_header = ([], [])

unfoldable pub has_header : Header → List Header → Bool
has_header h [] = false
has_header h (i ∷ is) = let rest = has_header h is in if is_header h i then true else rest

-- The version that the request is built with.
abbrev pub http_version : Option ℕ → List Header → HttpVersion
http_version (some zero) headers = http_10
http_version (some (suc zero)) headers = if has_header h2c headers then http_2 else http_11
http_version (some (suc (suc n))) headers = http_09
http_version none headers = http_09

module _ {B : Type 0} (builder : Builder B) where
  -- The `for` over the headers.
  unfoldable pub with_headers : List Header → B → B
  with_headers [] bd = bd
  with_headers (h ∷ hs) bd =
      let rest = with_headers hs bd in
      let added = with_headers hs (builder.add_header h bd) in
      if is_header h empty_header then rest else added

  -- The `match` on what httparse has found: none where the request is incomplete.
  unfoldable pub request : Option Bytes → Option Bytes → ParsedHead → Option B
  unfolding with_headers
  request (some method) (some path) req = some (
      with_headers req.headers (
        builder.set_uri path (
          builder.set_method method
            (builder.set_version (http_version req.version req.headers) builder.builder))))
  request _ _ req = none
