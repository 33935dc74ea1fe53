-- ===== src/Http/Header/Read.antt =====
-- A head that comes in one piece, and the end of the loop.
use rocks.Base.{
  ℕ, zero, suc, ◌+◌, ◌<◌, ◌≡◌, ◌⊎◌, refl, ◌∙◌, [], ◌∷◌, ◌++◌, Bool, true, false, Bool-cases,
  Option-cases, inl, inr, Option, none, some, arith, length, take, drop, length-drop, ◌==◌, ◌&&◌,
}
use rocks.Base.Words.{Bytes}
use rocks.Http.Line.{
  LineParser, Parsed, line, more, carriage_return, scan, split_at_feed, end_scan, remove_last,
  parse_line_http,
}
use rocks.Http.Line.Split.{ends_early}
use rocks.Http.Header.{Libraries, Answer, HttpHeaderParser, end_of_head, parse_lines, parse_http}

-- A line is given only if something of the input was read.
scan-some :
    (input : Bytes) (i : ℕ) (saw : Bool) (pos : ℕ) → (scan input i saw).0 ≡ some pos → 1 < pos
unfolding scan
scan-some [] i saw pos h = cc
scan-some (x ∷ xs) i saw pos h = ground (arith, scan-some xs (suc i) (x == carriage_return) pos)

split_at_feed-reads : (p : LineParser) {l : Bytes} {n : ℕ} → (split_at_feed p).0 ≡ line l n → 0 < n
split_at_feed-reads p {n = n} h = elim (Option-cases (remove_last p.buf)) [
  | inl gone ↦ cc (rw (gone, split_at_feed) at h)
  | inr (r, removed) ↦
      let e = rw (removed, split_at_feed) at h in let same : ◌≡◌ {A = ℕ} 1 n = cc in omega arith
]

end_scan-reads :
    (p : LineParser) (input : Bytes) (s : Option ℕ × Bool) {l : Bytes} {n : ℕ}
    → ((pos : ℕ) → s.0 ≡ some pos → 1 < pos)
    → (end_scan p input s).0 ≡ line l n
    → 0 < n
end_scan-reads p input (some pos, saw) {n = n} later h =
    let same : pos ≡ n = cc in omega (arith, later pos refl)
end_scan-reads p input (none, saw) later h = cc

parse_line_http-reads :
    (p : LineParser) (input : Bytes) {l : Bytes} {n : ℕ}
    → (parse_line_http p input).0 ≡ line l n
    → 0 < n
unfolding parse_line_http
parse_line_http-reads p input h = elim (Bool-cases (ends_early p input)) [
  | inl early ↦ split_at_feed-reads p (rw early at h)
  | inr not_early ↦
      end_scan-reads p input (scan input 0 p.saw_return) (scan-some input 0 p.saw_return)
        (rw not_early at h)
]

not_early_end : (b : Bool) → (b && false && false) ≡ false
not_early_end true = refl
not_early_end false = refl

parse_line_http-nonempty :
    (p : LineParser) (input : Bytes) {l : Bytes} {n : ℕ}
    → (parse_line_http p input).0 ≡ line l n
    → 0 < length input
unfolding parse_line_http scan
parse_line_http-nonempty p [] h = cc (rw (not_early_end p.saw_return) at h)
parse_line_http-nonempty p (x ∷ xs) h = omega arith

abbrev pub read_on : HttpHeaderParser → Bytes → ℕ → ℕ → HttpHeaderParser
read_on p input n lines = record {
  collected = p.collected ++ take n input;
  lines_cnt = lines;
  line_parser = (parse_line_http p.line_parser input).1;
}

Parsed-cases :
    (r : Parsed)
    → (r ≡ more)
      ⊎ (r ≡ Parsed.panic)
      ⊎ ((n : ℕ) × (r ≡ line [] n))
      ⊎ ((b : ℕ) × (bs : Bytes) × (n : ℕ) × (r ≡ line (b ∷ bs) n))
Parsed-cases more = inl refl
Parsed-cases Parsed.panic = inr (inl refl)
Parsed-cases (line [] n) = inr (inr (inl (n, refl)))
Parsed-cases (line (b ∷ bs) n) = inr (inr (inr (b, bs, n, refl)))

module _ {E B R : Type 0} (libraries : Libraries E B R) where
  pub lines_more :
      (fuel : ℕ) (p : HttpHeaderParser) (input : Bytes)
      → (parse_line_http p.line_parser input).0 ≡ more
      → parse_lines libraries (suc fuel) p input
        ≡ some (Answer.ok none, record p { line_parser = (parse_line_http p.line_parser input).1 })
  unfolding parse_lines
  lines_more fuel p input h = rw (h, parse_lines) refl

  lines_panic :
      (fuel : ℕ) (p : HttpHeaderParser) (input : Bytes)
      → (parse_line_http p.line_parser input).0 ≡ Parsed.panic
      → parse_lines libraries (suc fuel) p input
        ≡ some (Answer.panic, record p { line_parser = (parse_line_http p.line_parser input).1 })
  unfolding parse_lines
  lines_panic fuel p input h = rw (h, parse_lines) refl

  pub lines_last :
      (fuel : ℕ) (p : HttpHeaderParser) (input : Bytes) {n : ℕ}
      → (parse_line_http p.line_parser input).0 ≡ line [] n
      → parse_lines libraries (suc fuel) p input
        ≡ some
            (end_of_head libraries (read_on p input n p.lines_cnt), read_on p input n p.lines_cnt)
  unfolding parse_lines
  lines_last fuel p input h = rw (h, parse_lines) refl

  pub lines_next :
      (fuel : ℕ) (p : HttpHeaderParser) (input : Bytes) {b : ℕ} {bs : Bytes} {n : ℕ}
      → (parse_line_http p.line_parser input).0 ≡ line (b ∷ bs) n
      → parse_lines libraries (suc fuel) p input
        ≡ parse_lines libraries fuel (read_on p input n (p.lines_cnt + 1)) (drop n input)
  unfolding parse_lines
  lines_next fuel p input h = rw (h, parse_lines) refl

  pub parse_lines_ends :
      (fuel : ℕ) (p : HttpHeaderParser) (input : Bytes)
      → length input < fuel
      → (a : Answer E B R × HttpHeaderParser) × (parse_lines libraries fuel p input ≡ some a)
  parse_lines_ends zero p input h = absurd (omega arith)
  parse_lines_ends (suc fuel) p input h =
      elim (Parsed-cases (parse_line_http p.line_parser input).0) [
        | inl e ↦ (_, lines_more fuel p input e)
        | inr (inl e) ↦ (_, lines_panic fuel p input e)
        | inr (inr (inl (n, e))) ↦ (_, lines_last fuel p input e)
        | inr (inr (inr (b, bs, n, e))) ↦
            let (a, ended) =
              parse_lines_ends fuel (read_on p input n (p.lines_cnt + 1)) (drop n input) (
                omega (
                  arith,
                  length-drop n input,
                  parse_line_http-reads p.line_parser input e,
                  parse_line_http-nonempty p.line_parser input e,
                )) in
            (a, lines_next fuel p input e ∙ ended)
      ]

  -- Every call of `parse_http` returns.
  pub parse_http_ends :
      (p : HttpHeaderParser) (input : Bytes)
      → (a : Answer E B R × HttpHeaderParser) × (parse_http libraries p input ≡ some a)
  unfolding parse_http
  parse_http_ends p input = parse_lines_ends (suc (length input)) p input (omega arith)
