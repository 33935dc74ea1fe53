-- ===== src/Examples/Heads.antt =====
-- Heads of requests, with a library that counts the headers that it has room for.
use rocks.Base.{ℕ, ◌≡◌, refl, [], ◌∷◌, List, some, none, arith, length}
use rocks.Base.Words.{Bytes}
use rocks.Error.{Result}
use rocks.Http.Header.{
  complete, Libraries, Answer, HttpHeaderParser, new_parser, answered, parse_http,
}
use rocks.Http.Header.Chunks.{one_more, none_left, buffering, finished, parse_http_cut}
use rocks.Http.Header.Pieces.{AreAllLines, Collects, parse_http_pieces}

abbrev counting : Libraries ℕ ℕ (ℕ × Bytes)
counting = record {
  parse = λ room bs. Result.ok (
      complete (length bs)
        (record { version = some 1; method = some bs; path = some []; headers = [] }));
  build = λ v m p hs. Result.ok (length hs, m);
}

-- "GA", and "b" in a second piece.
abbrev first_piece : List (List Bytes)
first_piece = ((71 ∷ 65 ∷ []) ∷ []) ∷ []

first_piece-AreAllLines : AreAllLines first_piece
first_piece-AreAllLines = (
  one_more {x = 71} {xs = 65 ∷ []} (λ e. absurd (omega arith), (λ e. absurd (omega arith), tt))
      none_left,
  tt,
)

abbrev head : Bytes
head = 71 ∷ 65 ∷ 13 ∷ 10 ∷ 98 ∷ 13 ∷ 10 ∷ 13 ∷ 10 ∷ []

parse_http_pieces_example :
    (q : HttpHeaderParser) × Collects counting new_parser first_piece q
    × (parse_http counting q (98 ∷ 13 ∷ 10 ∷ 13 ∷ 10 ∷ 7 ∷ [])
        ≡ some (answered counting (counting.parse 1 head), buffering counting [] head 2))
parse_http_pieces_example =
    parse_http_pieces counting first_piece (7 ∷ []) first_piece-AreAllLines
      (one_more {x = 98} {xs = []} (λ e. absurd (omega arith), tt) none_left)

-- "G", and then the rest of the head: the "G" is gone.
parse_http_cut_example :
    (parse_http counting new_parser (71 ∷ [])
      ≡ some (Answer.ok none, buffering counting (71 ∷ []) [] 0))
    × (parse_http counting
          (buffering counting (71 ∷ []) [] 0)
          (65 ∷ 13 ∷ 10 ∷ 98 ∷ 13 ∷ 10 ∷ 13 ∷ 10 ∷ [])
        ≡ finished counting (buffering counting [] (65 ∷ 13 ∷ 10 ∷ 98 ∷ 13 ∷ 10 ∷ 13 ∷ 10 ∷ []) 2))
parse_http_cut_example =
    parse_http_cut counting (71 ∷ []) (65 ∷ []) [] (λ e. absurd (omega arith), tt)
      (λ e. absurd (omega arith), tt) refl
      (one_more {x = 98} {xs = []} (λ e. absurd (omega arith), tt) none_left)
