-- ===== src/Examples/Lines.antt =====
-- Lines cut into chunks, and tests of the line parser.
use rocks.Base.{◌≡◌, refl, List, [], ◌∷◌, arith, true}
use rocks.Base.Words.{Bytes}
use rocks.Http.Line.{LineParser, Parsed, new, parse_line_http}
use rocks.Http.Line.Split.{IsUnbroken}
use rocks.Http.Line.Chunks.{AsksOn, parse_line_http_chunks}
use rocks.Http.Line.Stale.{parse_line_http_stale}

abbrev digits : Bytes
digits = 49 ∷ 13 ∷ 50 ∷ []

digits-IsUnbroken : IsUnbroken digits
digits-IsUnbroken =
    IsUnbroken.longer (λ a. absurd (omega arith))
      (IsUnbroken.longer (λ a b. absurd (omega arith)) (IsUnbroken.single 50))

-- The second chunk is empty.
abbrev chunks : List Bytes
chunks = (49 ∷ []) ∷ [] ∷ (13 ∷ []) ∷ []

parse_line_http_chunks_example :
    (p : LineParser) × AsksOn new chunks p
    × ((parse_line_http p (50 ∷ 13 ∷ 10 ∷ 51 ∷ [])).0 ≡ Parsed.line digits 3)
parse_line_http_chunks_example =
    parse_line_http_chunks digits chunks (50 ∷ 13 ∷ 10 ∷ 51 ∷ []) (51 ∷ []) digits-IsUnbroken refl
      (omega arith) (omega arith)

parse_line_http_stale_example :
    ((parse_line_http (record { buf = 49 ∷ 13 ∷ []; saw_return = true }) (10 ∷ 10 ∷ 51 ∷ [])).0
      ≡ Parsed.line (49 ∷ []) 1)
    × ((parse_line_http
          (parse_line_http (record { buf = 49 ∷ 13 ∷ []; saw_return = true }) (10 ∷ 10 ∷ 51 ∷ [])).1
          (10 ∷ 51 ∷ [])).0
        ≡ Parsed.panic)
parse_line_http_stale_example =
    parse_line_http_stale (49 ∷ []) 51 [] (record { buf = 49 ∷ 13 ∷ []; saw_return = true }) refl

-- The test of the source.
parse_line_http_test :
    (parse_line_http (record { buf = 49 ∷ 13 ∷ 50 ∷ 13 ∷ []; saw_return = true }) (10 ∷ 55 ∷ [])).0
    ≡ Parsed.line digits 1
unfolding parse_line_http
parse_line_http_test = refl
