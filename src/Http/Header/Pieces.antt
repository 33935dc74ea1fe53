-- ===== src/Http/Header/Pieces.antt =====
-- A head that comes in pieces, each of whole lines.
use mathlib.Core.Path.{ap₂}
use rocks.Base.{
  ℕ, zero, suc, ◌+◌, ◌-◌, ◌<◌, ◌≡◌, refl, sym, ap, subst, ◌∙◌, [], ◌∷◌, ◌++◌, append-nil,
  append_assoc, List, none, some, arith, length, length-append,
}
use rocks.Base.Words.{Bytes}
use rocks.Http.Line.{new, carriage_return, line_feed}
use rocks.Http.Line.Split.{IsUnbroken, parse_line_http_more}
use rocks.Http.Header.{
  Libraries, Answer, HttpHeaderParser, new_parser, answered, end_of_head, parse_lines, parse_http,
}
use rocks.Http.Header.Read.{lines_more}
use rocks.Http.Header.Chunks.{
  request_bytes, AreLines, none_left, one_more, fewer_lines, buffering, finished, one_line,
  lines_read,
}

-- Lines with their ends.
abbrev pub lines_bytes : List Bytes → Bytes
lines_bytes [] = []
lines_bytes (l ∷ ls) = l ++ carriage_return ∷ line_feed ∷ lines_bytes ls

-- The lines of all pieces.
abbrev pub all_lines : List (List Bytes) → List Bytes
all_lines [] = []
all_lines (piece ∷ pieces) = piece ++ all_lines pieces

abbrev pub AreAllLines : List (List Bytes) → Type 0
AreAllLines [] = Unit {0}
AreAllLines (piece ∷ pieces) = AreLines piece × AreAllLines pieces

lines_bytes-append : (a b : List Bytes) → lines_bytes (a ++ b) ≡ lines_bytes a ++ lines_bytes b
lines_bytes-append [] b = refl
lines_bytes-append (l ∷ a) b =
    rw (lines_bytes-append a b)
      (sym (append_assoc l (carriage_return ∷ line_feed ∷ lines_bytes a) (lines_bytes b)))

request_bytes-append :
    (a b : List Bytes) → request_bytes (a ++ b) [] ≡ lines_bytes a ++ request_bytes b []
request_bytes-append [] b = refl
request_bytes-append (l ∷ a) b =
    rw (request_bytes-append a b)
      (sym (append_assoc l (carriage_return ∷ line_feed ∷ lines_bytes a) (request_bytes b [])))

few_lines : (ls : List Bytes) → length ls < suc (length (lines_bytes ls))
few_lines [] = omega arith
few_lines (l ∷ ls) =
    omega (arith, few_lines ls, length-append l (carriage_return ∷ line_feed ∷ lines_bytes ls))

module _ {E B R : Type 0} (libraries : Libraries E B R) where
  -- Lines alone are collected, and more is asked for.
  lines_collected :
      {ls : List Bytes} (fuel : ℕ) (c : Bytes) (k : ℕ)
      → AreLines ls
      → length ls < fuel
      → parse_lines libraries fuel (buffering libraries [] c k) (lines_bytes ls)
        ≡ some (Answer.ok none, buffering libraries [] (c ++ lines_bytes ls) (k + length ls))
  lines_collected zero c k lines h = absurd (omega arith)
  lines_collected (suc fuel) c k none_left h =
      let empty = parse_line_http_more new IsUnbroken.empty refl in
      lines_more libraries fuel (buffering libraries [] c k) [] (ap (λ r. r.0) empty)
      ∙ rw empty (
          ap (λ q. some (Answer.ok none, q))
            (ap₂ (λ bs n. buffering libraries [] bs n) (sym (append-nil c)) (omega arith)))
  lines_collected {ls = (x ∷ xs) ∷ ls} (suc fuel) c k (one_more clean lines) h =
      one_line libraries fuel [] (x ∷ xs) (lines_bytes ls) c k clean refl
      ∙ lines_collected fuel (c ++ (x ∷ xs ++ carriage_return ∷ line_feed ∷ [])) (k + 1) lines
          (omega arith)
      ∙ ap (λ q. some (Answer.ok none, q))
          (ap₂ (λ bs n. buffering libraries [] bs n)
            (append_assoc c (x ∷ xs ++ carriage_return ∷ line_feed ∷ []) (lines_bytes ls)
              ∙ ap (λ bs. c ++ bs)
                  (append_assoc (x ∷ xs) (carriage_return ∷ line_feed ∷ []) (lines_bytes ls)))
            (omega arith))

  -- The parser is given the pieces in turn and asks for more each time, and is this one then.
  abbrev pub Collects : HttpHeaderParser → List (List Bytes) → HttpHeaderParser → Type 0
  Collects p [] q = p ≡ q
  Collects p (piece ∷ pieces) q =
      (after : HttpHeaderParser) × (parse_http libraries p (lines_bytes piece)
        ≡ some (Answer.ok none, after))
      × Collects after pieces q

  pieces_collected :
      (pieces : List (List Bytes)) (c : Bytes) (k : ℕ)
      → AreAllLines pieces
      → Collects (buffering libraries [] c k) pieces (
          buffering libraries []
            (c ++ lines_bytes (all_lines pieces))
            (k + length (all_lines pieces)))
  unfolding parse_http
  pieces_collected [] c k lines =
      ap₂ (λ bs n. buffering libraries [] bs n) (sym (append-nil c)) (omega arith)
  pieces_collected (piece ∷ pieces) c k (lines, later) = (
    buffering libraries [] (c ++ lines_bytes piece) (k + length piece),
    lines_collected (suc (length (lines_bytes piece))) c k lines (few_lines piece),
    subst
        (λ q.
          Collects (buffering libraries [] (c ++ lines_bytes piece) (k + length piece)) pieces q)
        (ap₂ (λ bs n. buffering libraries [] bs n)
          (append_assoc c (lines_bytes piece) (lines_bytes (all_lines pieces))
            ∙ ap (λ bs. c ++ bs) (sym (lines_bytes-append piece (all_lines pieces))))
          (omega (arith, length-append piece (all_lines pieces))))
        (pieces_collected pieces (c ++ lines_bytes piece) (k + length piece) later),
  )

  -- A head whose lines are not empty and have no `\r` in them comes in any number of pieces, each but
  -- the last of whole lines, the last with the rest of its lines, the empty line and what follows. Each
  -- call but the last asks for more, and the last one hands the whole head to the library, and nothing
  -- of what follows it, with room for a header for each line but the first.
  pub parse_http_pieces :
      (pieces : List (List Bytes)) {ls : List Bytes} (rest : Bytes)
      → AreAllLines pieces
      → AreLines ls
      → (q : HttpHeaderParser) × Collects new_parser pieces q
        × (parse_http libraries q (request_bytes ls rest)
            ≡ some (
              answered libraries (
                  libraries.parse
                    (length (all_lines pieces ++ ls) - 1)
                    (request_bytes (all_lines pieces ++ ls) [])),
              buffering libraries []
                  (request_bytes (all_lines pieces ++ ls) [])
                  (length (all_lines pieces ++ ls)),
            ))
  unfolding parse_http end_of_head
  parse_http_pieces pieces {ls} rest before lines = (
    buffering libraries [] (lines_bytes (all_lines pieces)) (0 + length (all_lines pieces)),
    pieces_collected pieces [] 0 before,
    lines_read libraries (suc (length (request_bytes ls rest))) (lines_bytes (all_lines pieces))
          rest (0 + length (all_lines pieces)) lines (omega (arith, fewer_lines ls rest))
        ∙ ap (finished libraries) (
            ap₂ (λ bs n. buffering libraries [] bs n)
              (sym (request_bytes-append (all_lines pieces) ls))
              (omega (arith, length-append (all_lines pieces) ls))),
  )
