-- ===== src/Http/Header/Chunks.antt =====
-- A head in one piece, and one that comes in two.
use native.Mathlib.Nat.{suc-add}
use mathlib.Core.Path.{ap₂}
use rocks.Base.{
  zero, ℕ, suc, ◌+◌, ◌-◌, ◌<◌, ◌≡◌, ◌≢◌, refl, ap, ◌∙◌, [], ◌∷◌, ◌++◌, append_assoc, List, false,
  Option, none, some, arith, length, take, drop, length-append, ne→==_false,
}
use rocks.Base.Words.{Bytes}
use rocks.Http.Line.{LineParser, line, new, carriage_return, line_feed}
use rocks.Http.Line.Split.{IsUnbroken, last_return, parse_line_http_found, parse_line_http_more}
use rocks.Http.Header.{
  Libraries, Answer, HttpHeaderParser, new_parser, answered, end_of_head, parse_lines, parse_http,
}
use rocks.Http.Header.Read.{lines_more, lines_last, lines_next}

-- The lines with their ends, the empty line, and what follows.
abbrev pub request_bytes : List Bytes → Bytes → Bytes
request_bytes [] rest = carriage_return ∷ line_feed ∷ rest
request_bytes (l ∷ ls) rest = l ++ carriage_return ∷ line_feed ∷ request_bytes ls rest

abbrev pub HasNoReturn : Bytes → Type 0
HasNoReturn [] = Unit
HasNoReturn (x ∷ xs) = (x ≢ carriage_return) × HasNoReturn xs

-- Lines of a head: none is empty, and none has a `\r` in it.
pub data AreLines : List Bytes → Type 0 where
  none_left : AreLines []
  one_more :
      {x : ℕ} {xs : Bytes} {ls : List Bytes}
      → HasNoReturn (x ∷ xs)
      → AreLines ls
      → AreLines ((x ∷ xs) ∷ ls)

HasNoReturn-IsUnbroken : (xs : Bytes) → HasNoReturn xs → IsUnbroken xs
HasNoReturn-IsUnbroken [] h = IsUnbroken.empty
HasNoReturn-IsUnbroken (x ∷ []) h = IsUnbroken.single x
HasNoReturn-IsUnbroken (x ∷ y ∷ ys) h =
    IsUnbroken.longer (λ e. absurd (h.0 e)) (HasNoReturn-IsUnbroken (y ∷ ys) h.1)

last_return-HasNoReturn : (xs : Bytes) → HasNoReturn xs → last_return xs false ≡ false
last_return-HasNoReturn [] h = refl
last_return-HasNoReturn (x ∷ xs) h =
    rw (ne→==_false x carriage_return h.0) (last_return-HasNoReturn xs h.1)

take-line :
    (l rest : Bytes)
    → take (length l + 2) (l ++ carriage_return ∷ line_feed ∷ rest)
      ≡ l ++ carriage_return ∷ line_feed ∷ []
take-line [] rest = refl
take-line (x ∷ l) rest = rw (suc-add (length l) 2) (ap (λ xs. x ∷ xs) (take-line l rest))

drop-line : (l rest : Bytes) → drop (length l + 2) (l ++ carriage_return ∷ line_feed ∷ rest) ≡ rest
drop-line [] rest = refl
drop-line (x ∷ l) rest = rw (suc-add (length l) 2) (drop-line l rest)

pub fewer_lines : (ls : List Bytes) (rest : Bytes) → length ls < length (request_bytes ls rest)
fewer_lines [] rest = omega arith
fewer_lines (l ∷ ls) rest = omega (
  arith,
  fewer_lines ls rest,
  length-append l (carriage_return ∷ line_feed ∷ request_bytes ls rest),
)

module _ {E B R : Type 0} (libraries : Libraries E B R) where
  -- The line `pre` after what is buffered.
  abbrev pub buffering : Bytes → Bytes → ℕ → HttpHeaderParser
  buffering a c k = record {
    collected = c;
    lines_cnt = k;
    line_parser = record { buf = a; saw_return = false };
  }

  pub one_line :
      (fuel : ℕ) (a pre rest c : Bytes) (k : ℕ) {b : ℕ} {bs : Bytes}
      → HasNoReturn pre
      → a ++ pre ≡ b ∷ bs
      → parse_lines libraries
          (suc fuel)
          (buffering a c k)
          (pre ++ carriage_return ∷ line_feed ∷ rest)
        ≡ parse_lines libraries fuel
            (buffering [] (c ++ (pre ++ carriage_return ∷ line_feed ∷ [])) (k + 1))
            rest
  one_line fuel a pre rest c k clean whole =
      let p : LineParser = record { buf = a; saw_return = false } in
      let found = parse_line_http_found p rest (HasNoReturn-IsUnbroken pre clean) refl in
      let parsed = ap (λ r. r.0) found ∙ ap (λ l. line l (length pre + 2)) whole in
      lines_next libraries fuel (buffering a c k) _ parsed
      ∙ rw (found, take-line pre rest, drop-line pre rest, last_return-HasNoReturn pre clean) refl

  abbrev pub finished : HttpHeaderParser → Option (Answer E B R × HttpHeaderParser)
  finished q = some (end_of_head libraries q, q)

  pub lines_read :
      {ls : List Bytes} (fuel : ℕ) (c rest : Bytes) (k : ℕ)
      → AreLines ls
      → length ls < fuel
      → parse_lines libraries fuel (buffering [] c k) (request_bytes ls rest)
        ≡ some (
          end_of_head libraries (buffering [] (c ++ request_bytes ls []) (k + length ls)),
          buffering [] (c ++ request_bytes ls []) (k + length ls),
        )
  lines_read zero c rest k lines h = absurd (omega arith)
  lines_read (suc fuel) c rest k none_left h =
      let found = parse_line_http_found {pre = []} new rest IsUnbroken.empty refl in
      lines_last libraries fuel (buffering [] c k) _ (ap (λ r. r.0) found)
      ∙ rw found (
          ap (λ n. finished (buffering [] (c ++ carriage_return ∷ line_feed ∷ []) n)) (omega arith))
  lines_read {ls = (x ∷ xs) ∷ ls} (suc fuel) c rest k (one_more clean lines) h =
      one_line fuel [] (x ∷ xs) (request_bytes ls rest) c k clean refl
      ∙ lines_read fuel (c ++ (x ∷ xs ++ carriage_return ∷ line_feed ∷ [])) rest (k + 1) lines
          (omega arith)
      ∙ ap finished (
          ap₂ (λ bs n. buffering [] bs n)
            (append_assoc c (x ∷ xs ++ carriage_return ∷ line_feed ∷ []) (request_bytes ls [])
              ∙ ap (λ bs. c ++ bs)
                  (append_assoc (x ∷ xs) (carriage_return ∷ line_feed ∷ []) (request_bytes ls [])))
            (omega arith))

  -- A head that comes in one piece is handed to the library whole, and nothing of what follows it,
  -- with room for a header for each line but the first.
  pub parse_http_whole :
      {ls : List Bytes} (rest : Bytes)
      → AreLines ls
      → parse_http libraries new_parser (request_bytes ls rest)
        ≡ some (
          answered libraries (libraries.parse (length ls - 1) (request_bytes ls [])),
          buffering [] (request_bytes ls []) (length ls),
        )
  unfolding parse_http end_of_head
  parse_http_whole {ls} rest lines =
      lines_read (suc (length (request_bytes ls rest))) [] rest 0 lines
        (omega (arith, fewer_lines ls rest))
      ∙ ap (λ n. finished (buffering [] (request_bytes ls []) n)) (omega arith)

  -- If a head comes in two pieces, the first of which ends within the first line, what is handed to
  -- the library lacks the first piece.
  pub parse_http_cut :
      (a pre rest : Bytes) {b : ℕ} {bs : Bytes} {ls : List Bytes}
      → HasNoReturn a
      → HasNoReturn pre
      → a ++ pre ≡ b ∷ bs
      → AreLines ls
      → (parse_http libraries new_parser a ≡ some (Answer.ok none, buffering a [] 0))
        × (parse_http libraries (buffering a [] 0) (request_bytes (pre ∷ ls) rest)
            ≡ finished (buffering [] (request_bytes (pre ∷ ls) []) (suc (length ls))))
  unfolding parse_http
  parse_http_cut a pre rest {ls = ls} clean_a clean_pre whole lines =
      let buffered = parse_line_http_more new (HasNoReturn-IsUnbroken a clean_a) refl in
      let input = request_bytes (pre ∷ ls) rest in
      (
        lines_more libraries (length a) new_parser a (ap (λ r. r.0) buffered)
            ∙ rw (buffered, last_return-HasNoReturn a clean_a) refl,
        one_line (length input) a pre (request_bytes ls rest) [] 0 clean_pre whole
            ∙ lines_read (length input) (pre ++ carriage_return ∷ line_feed ∷ []) rest 1 lines (
                omega (
                  arith,
                  fewer_lines ls rest,
                  length-append pre (carriage_return ∷ line_feed ∷ request_bytes ls rest),
                ))
            ∙ ap finished (
                ap₂ (λ bs n. buffering [] bs n)
                  (append_assoc pre (carriage_return ∷ line_feed ∷ []) (request_bytes ls []))
                  (omega arith)),
      )
