-- ===== src/Http/Line/Stale.antt =====
-- What the flag that stays set does to the calls after a line end that two chunks shared.
use rocks.Base.{
  ℕ, ◌≡◌, refl, ap, append_assoc, ◌&&◌, Bool, true, false, [], ◌∷◌, ◌++◌, arith, length, lt→ltb,
}
use rocks.Base.Words.{Bytes}
use rocks.Http.Line.{
  LineParser, Parsed, new, carriage_return, line_feed, split_at_feed, parse_line_http,
}
use rocks.Http.Line.Chunks.{first_chunk, IsUnbroken-return}
use rocks.Http.Line.Split.{IsUnbroken, last_return, parse_line_http_more, parse_line_http_shared}

empty_panics :
    (y : ℕ) (rest : Bytes)
    → (parse_line_http (record { buf = []; saw_return = true }) (line_feed ∷ y ∷ rest)).0
      ≡ Parsed.panic
unfolding parse_line_http
empty_panics y rest =
    rw (lt→ltb 1 (length (line_feed ∷ y ∷ rest)) (omega arith), split_at_feed) refl

-- After a line whose end two chunks shared, the flag still says that a `\r` is buffered: if the rest
-- of the chunk, of two bytes or more, begins with a line feed, the next call panics.
pub parse_line_http_stale :
    (acc : Bytes) (y : ℕ) (rest : Bytes) (p : LineParser)
    → p ≡ record { buf = acc ++ carriage_return ∷ []; saw_return = true }
    → ((parse_line_http p (line_feed ∷ line_feed ∷ y ∷ rest)).0 ≡ Parsed.line acc 1)
      × ((parse_line_http
            (parse_line_http p (line_feed ∷ line_feed ∷ y ∷ rest)).1
            (line_feed ∷ y ∷ rest)).0
          ≡ Parsed.panic)
parse_line_http_stale acc y rest p h =
    rw (h, parse_line_http_shared acc line_feed (y ∷ rest)) (refl, empty_panics y rest)

early_off : (saw : Bool) → (saw && false && true) ≡ false
early_off true = refl
early_off false = refl

-- After a line without a line end in it and a `\r`, a chunk that is just the line feed is not seen as
-- the end: the second call asks for more as the first did, and both bytes of the line end are in the
-- buffer, with the flag down.
pub parse_line_http_lone :
    (l : Bytes)
    → IsUnbroken l
    → ((parse_line_http new (l ++ carriage_return ∷ [])).0 ≡ Parsed.more)
      × (parse_line_http (parse_line_http new (l ++ carriage_return ∷ [])).1 (line_feed ∷ []) ≡ (
        Parsed.more,
        record { buf = l ++ carriage_return ∷ line_feed ∷ []; saw_return = false },
      ))
parse_line_http_lone l unbroken =
    let buffered : LineParser = record {
      buf = l ++ carriage_return ∷ [];
      saw_return = last_return (l ++ carriage_return ∷ []) false;
    } in
    rw (first_chunk (l ++ carriage_return ∷ []) (IsUnbroken-return unbroken)) (
      refl,
      rw
          (parse_line_http_more buffered (IsUnbroken.single line_feed)
            (early_off buffered.saw_return))
          (ap (λ bs. (Parsed.more, record { buf = bs; saw_return = false }))
            (append_assoc l (carriage_return ∷ []) (line_feed ∷ []))),
    )
