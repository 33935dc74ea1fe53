-- ===== src/Http/Line/Split.antt =====
-- One call of `parse_line_http`, for each way that it ends.
use rocks.Base.{
  ℕ, suc, ◌+◌, ◌-◌, ◌≡◌, refl, ap, ◌∙◌, ◌≢◌, Bool, true, false, ◌&&◌, [], ◌∷◌, ◌++◌, Option, none,
  some, arith, length, take, take-append, ltb, lt→ltb, ◌==◌,
}
use rocks.Base.Words.{Bytes}
use rocks.Http.Line.{
  LineParser, Parsed, carriage_return, line_feed, starts_with_feed, scan, remove_last,
  split_at_feed, parse_line_http,
}

-- The bytes contain no `\r\n`.
pub data IsUnbroken : Bytes → Type 0 where
  empty : IsUnbroken []
  single : (x : ℕ) → IsUnbroken (x ∷ [])
  longer :
      {x y : ℕ} {ys : Bytes}
      → (x ≡ carriage_return → y ≢ line_feed)
      → IsUnbroken (y ∷ ys)
      → IsUnbroken (x ∷ y ∷ ys)

-- Whether the bytes end in `\r`, and `saw` for none.
abbrev pub last_return : Bytes → Bool → Bool
last_return [] saw = saw
last_return (x ∷ xs) saw = last_return xs (x == carriage_return)

pub no_end :
    (x y : ℕ)
    → (x ≡ carriage_return → y ≢ line_feed)
    → ((x == carriage_return) && (y == line_feed)) ≡ false
no_end x y h = ground arith

and_false : (b : Bool) → (b && false) ≡ false
and_false true = refl
and_false false = refl

found_at : {p q : ℕ} {saw : Bool} → p ≡ q → ◌≡◌ {A = Option ℕ × Bool} (some p, saw) (some q, saw)
found_at {saw = saw} h = ap (λ p. (some p, saw)) h

scan-IsUnbroken :
    {xs : Bytes} (i : ℕ) (saw : Bool) → IsUnbroken xs → scan xs i saw ≡ (none, last_return xs saw)
unfolding scan
scan-IsUnbroken i saw IsUnbroken.empty = refl
scan-IsUnbroken i saw (IsUnbroken.single x) = rw (and_false (x == carriage_return)) refl
scan-IsUnbroken i saw (IsUnbroken.longer {x = x} {y = y} h more) =
    rw (no_end x y h) (scan-IsUnbroken (suc i) (x == carriage_return) more)

scan_found :
    {pre : Bytes} (i : ℕ) (saw : Bool) (rest : Bytes)
    → IsUnbroken pre
    → scan (pre ++ carriage_return ∷ line_feed ∷ rest) i saw
      ≡ (some (i + length pre + 2), last_return pre saw)
unfolding scan
scan_found i saw rest IsUnbroken.empty = found_at (omega arith)
scan_found i saw rest (IsUnbroken.single x) =
    rw (and_false (x == carriage_return)) (found_at (omega arith))
scan_found i saw rest (IsUnbroken.longer {x = x} {y = y} {ys = ys} h more) =
    rw (no_end x y h) (scan_found (suc i) (x == carriage_return) rest more ∙ found_at (omega arith))

-- The call takes the early return.
abbrev pub ends_early : LineParser → Bytes → Bool
ends_early p input = p.saw_return && ltb 1 (length input) && starts_with_feed input

-- Input without a line end goes to the buffer, unless it is taken for the end of a buffered line.
pub parse_line_http_more :
    {xs : Bytes} (p : LineParser)
    → IsUnbroken xs
    → ends_early p xs ≡ false
    → parse_line_http p xs
      ≡ (Parsed.more, record { buf = p.buf ++ xs; saw_return = last_return xs p.saw_return })
unfolding parse_line_http
parse_line_http_more p unbroken h = rw (h, scan-IsUnbroken 0 p.saw_return unbroken)

before_end : (pre rest : Bytes) → take (0 + length pre + 2 - 2) (pre ++ rest) ≡ pre
before_end pre rest = ap (λ n. take n (pre ++ rest)) (omega arith) ∙ take-append pre rest

-- If the input has a line end, and does not begin with the second byte of one that began in the
-- buffer, the line is what is buffered and what stands before the first line end of the input, and
-- both bytes of the end count as read. The buffer is empty then, and the flag says what the byte
-- before the end was.
pub parse_line_http_found :
    {pre : Bytes} (p : LineParser) (rest : Bytes)
    → IsUnbroken pre
    → ends_early p (pre ++ carriage_return ∷ line_feed ∷ rest) ≡ false
    → parse_line_http p (pre ++ carriage_return ∷ line_feed ∷ rest) ≡ (
      Parsed.line (p.buf ++ pre) (length pre + 2),
      record { buf = []; saw_return = last_return pre p.saw_return },
    )
unfolding parse_line_http
parse_line_http_found {pre = pre} p rest unbroken h =
    rw
      (
        h,
        scan_found 0 p.saw_return rest unbroken,
        before_end pre (carriage_return ∷ line_feed ∷ rest),
      )
      (ap
        (λ n. (
          Parsed.line (p.buf ++ pre) n,
          record { buf = []; saw_return = last_return pre p.saw_return },
        ))
        (omega arith))

remove_last-append : (xs : Bytes) (x : ℕ) → remove_last (xs ++ x ∷ []) ≡ some xs
remove_last-append [] x = refl
remove_last-append (y ∷ []) x = refl
remove_last-append (y ∷ z ∷ xs) x = rw (remove_last-append (z ∷ xs) x)

-- A line end of which the first byte is buffered and the second comes with more input.
pub parse_line_http_shared :
    (acc : Bytes) (y : ℕ) (rest : Bytes)
    → parse_line_http
        (record { buf = acc ++ carriage_return ∷ []; saw_return = true })
        (line_feed ∷ y ∷ rest)
      ≡ (Parsed.line acc 1, record { buf = []; saw_return = true })
unfolding parse_line_http
parse_line_http_shared acc y rest = rw (
  lt→ltb 1 (length (line_feed ∷ y ∷ rest)) (omega arith),
  split_at_feed,
  remove_last-append acc carriage_return,
)
