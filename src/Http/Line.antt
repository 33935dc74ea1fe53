-- ===== src/Http/Line.antt =====
-- `LineParser` of src/http_parse/line_parser.rs. `\r` is 13 and `\n` is 10.
pub mod Split
pub mod Chunks
pub mod Stale
use rocks.Base.{
  ℕ, suc, ◌+◌, ◌-◌, Bool, false, ◌&&◌, [], ◌∷◌, ◌++◌, Option, none, some, length, take, ltb, ◌==◌,
  if◌then◌else◌,
}
use rocks.Base.Words.{Bytes}

abbrev pub carriage_return : ℕ
carriage_return = b'\r'

abbrev pub line_feed : ℕ
line_feed = b'\n'

pub record LineParser : Type 0 where
  pub buf : Bytes
  pub saw_return : Bool

-- `LineParser::new`
abbrev pub new : LineParser
new = record { buf = []; saw_return = false }

-- How a call ends: `Some((line, consumed))`, `None`, or a panic.
pub data Parsed : Type 0 where
  line : Bytes → ℕ → Parsed
  more : Parsed
  panic : Parsed

-- `data[i] == b'\n'`, and whether `i` is in range.
abbrev pub starts_with_feed : Bytes → Bool
starts_with_feed [] = false
starts_with_feed (x ∷ xs) = x == line_feed

-- The `for` loop from position `i` on, with the flag: the position behind `\r\n`, if it is found,
-- and the flag after the loop.
unfoldable pub scan : Bytes → ℕ → Bool → Option ℕ × Bool
scan [] i saw = (none, saw)
scan (x ∷ xs) i saw =
    let rest = scan xs (suc i) (x == carriage_return) in
    if x == carriage_return && starts_with_feed xs then (some (i + 2), saw) else rest

-- `r.remove(r.len() - 1)`, which panics on an empty vector.
abbrev pub remove_last : Bytes → Option Bytes
remove_last [] = none
remove_last (x ∷ []) = some []
remove_last (x ∷ y ∷ ys) = elim (remove_last (y ∷ ys)) [ some zs ↦ some (x ∷ zs) | none ↦ none ]

-- The early return, with the buffer emptied.
abbrev pub split_at_feed : LineParser → Parsed × LineParser
split_at_feed p = elim (remove_last p.buf) [
  | some r ↦ (line r 1, record p { buf = [] })
  | none ↦ (panic, record p { buf = [] })
]

-- After the loop.
abbrev pub end_scan : LineParser → Bytes → Option ℕ × Bool → Parsed × LineParser
end_scan p input (some pos, saw) =
    (line (p.buf ++ take (pos - 2) input) pos, record { buf = []; saw_return = saw })
end_scan p input (none, saw) = (more, record { buf = p.buf ++ input; saw_return = saw })

unfoldable pub parse_line_http : LineParser → Bytes → Parsed × LineParser
parse_line_http p input =
    if p.saw_return && ltb 1 (length input) && starts_with_feed input
    then split_at_feed p
    else end_scan p input (scan input 0 p.saw_return)
