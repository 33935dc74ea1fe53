-- ===== src/Http/Line/Chunks.antt =====
-- A line that comes in chunks.
use rocks.Base.{
  suc, ◌+◌, ◌-◌, ◌<◌, ◌≤◌, ◌≡◌, refl, sym, ap, subst, ◌∙◌, ◌⊎◌, inl, inr, Bool, true, false, ◌&&◌,
  List, [], ◌∷◌, ◌++◌, append-nil, append_assoc, arith, length, length-append, ltb, ◌==◌,
}
use rocks.Base.Words.{Bytes}
use rocks.Http.Line.{
  LineParser, Parsed, new, carriage_return, line_feed, starts_with_feed, parse_line_http,
}
use rocks.Http.Line.Split.{
  IsUnbroken, last_return, no_end, parse_line_http_more, parse_line_http_found,
  parse_line_http_shared,
}

-- Where a cut before the end of a line with its `\r\n` can be.
cut_cases :
    (l a b rest : Bytes)
    → l ++ carriage_return ∷ line_feed ∷ rest ≡ a ++ b
    → length a ≤ suc (length l)
    → ((pre : Bytes) × (l ≡ a ++ pre) × (b ≡ pre ++ carriage_return ∷ line_feed ∷ rest))
      ⊎ ((a ≡ l ++ carriage_return ∷ []) × (b ≡ line_feed ∷ rest))
cut_cases l [] b rest e k = inl (l, refl, sym e)
cut_cases [] (x ∷ []) b rest e k = inr (cc, cc)
cut_cases [] (x ∷ y ∷ a) b rest e k = absurd (omega arith)
cut_cases (z ∷ l) (x ∷ a) b rest e k = elim (cut_cases l a b rest (cc) (omega arith)) [
  | inl (pre, whole, tail) ↦ inl (pre, cc, tail)
  | inr (whole, tail) ↦ inr (cc, tail)
]

-- The part of an unbroken list before a cut.
IsUnbroken-append : (a : Bytes) {b : Bytes} → IsUnbroken (a ++ b) → IsUnbroken a × IsUnbroken b
IsUnbroken-append [] h = (IsUnbroken.empty, h)
IsUnbroken-append (x ∷ []) (IsUnbroken.single y) = (IsUnbroken.single x, IsUnbroken.empty)
IsUnbroken-append (x ∷ []) (IsUnbroken.longer p more) = (IsUnbroken.single x, more)
IsUnbroken-append (x ∷ y ∷ a) (IsUnbroken.longer p more) =
    let (l, r) = IsUnbroken-append (y ∷ a) more in (IsUnbroken.longer p l, r)

pub IsUnbroken-return : {a : Bytes} → IsUnbroken a → IsUnbroken (a ++ carriage_return ∷ [])
IsUnbroken-return IsUnbroken.empty = IsUnbroken.single carriage_return
IsUnbroken-return (IsUnbroken.single x) =
    IsUnbroken.longer (λ _ e. absurd (omega arith)) (IsUnbroken.single carriage_return)
IsUnbroken-return (IsUnbroken.longer p more) = IsUnbroken.longer p (IsUnbroken-return more)

last_return-return : (a : Bytes) (saw : Bool) → last_return (a ++ carriage_return ∷ []) saw ≡ true
last_return-return [] saw = refl
last_return-return (x ∷ a) saw = last_return-return a (x == carriage_return)

-- Where the input goes on without a line end, its first byte is not taken for one.
goes_on :
    (a b : Bytes) (saw : Bool)
    → IsUnbroken (a ++ b)
    → (saw && starts_with_feed b) ≡ false
    → (last_return a saw && starts_with_feed b) ≡ false
goes_on [] b saw h k = k
goes_on (x ∷ []) [] saw h k = ground arith
goes_on (x ∷ []) (y ∷ b) saw (IsUnbroken.longer p more) k = no_end x y p
goes_on (x ∷ y ∷ a) b saw (IsUnbroken.longer p more) k = goes_on (y ∷ a) b saw more k

no_early :
    (a b rest : Bytes)
    → IsUnbroken (a ++ b)
    → (last_return a false && starts_with_feed (b ++ carriage_return ∷ line_feed ∷ rest)) ≡ false
no_early a [] rest h = ground arith
no_early a (y ∷ b) rest h = goes_on a (y ∷ b) false h refl

not_early :
    (saw : Bool) (input : Bytes)
    → (saw && starts_with_feed input) ≡ false
    → (saw && ltb 1 (length input) && starts_with_feed input) ≡ false
not_early saw input h = ground arith

last_return-append :
    (a b : Bytes) (saw : Bool) → last_return (a ++ b) saw ≡ last_return b (last_return a saw)
last_return-append [] b saw = refl
last_return-append (x ∷ a) b saw = last_return-append a b (x == carriage_return)

-- A parser that was given these bytes and has found no line end in them.
abbrev pub given : Bytes → LineParser
given a = record { buf = a; saw_return = last_return a false }

given_more :
    (a b : Bytes)
    → IsUnbroken (a ++ b)
    → parse_line_http (given a) b ≡ (Parsed.more, given (a ++ b))
given_more a b unbroken =
    parse_line_http_more (given a) (IsUnbroken-append a unbroken).1
      (not_early (last_return a false) b (goes_on a b false unbroken refl))
    ∙ ap (λ saw. (Parsed.more, record { buf = a ++ b; saw_return = saw }))
        (sym (last_return-append a b false))

pub first_chunk : (a : Bytes) → IsUnbroken a → parse_line_http new a ≡ (Parsed.more, given a)
first_chunk a unbroken = given_more [] a unbroken

-- All of the chunks, one behind the other.
abbrev pub joined : List Bytes → Bytes
joined [] = []
joined (c ∷ cs) = c ++ joined cs

-- A parser is given the chunks in turn and asks for more each time, and is this one then.
abbrev pub AsksOn : LineParser → List Bytes → LineParser → Type 0
AsksOn p [] q = p ≡ q
AsksOn p (c ∷ cs) q = ((parse_line_http p c).0 ≡ Parsed.more) × AsksOn (parse_line_http p c).1 cs q

given_chunks :
    (a : Bytes) (cs : List Bytes)
    → IsUnbroken (a ++ joined cs)
    → AsksOn (given a) cs (given (a ++ joined cs))
given_chunks a [] unbroken = ap given (sym (append-nil a))
given_chunks a (c ∷ cs) unbroken =
    let whole : IsUnbroken ((a ++ c) ++ joined cs) = rw (append_assoc a c (joined cs)) unbroken in
    let first = (IsUnbroken-append (a ++ c) whole).0 in
    rw (given_more a c first)
      (refl, rw (← append_assoc a c (joined cs)) (given_chunks (a ++ c) cs whole))

cut_within :
    (a pre rest : Bytes)
    → IsUnbroken (a ++ pre)
    → (parse_line_http (given a) (pre ++ carriage_return ∷ line_feed ∷ rest)).0
      ≡ Parsed.line (a ++ pre) (length pre + 2)
cut_within a pre rest unbroken =
    rw
      (parse_line_http_found (given a) rest (IsUnbroken-append a unbroken).1 (
        not_early (last_return a false) (pre ++ carriage_return ∷ line_feed ∷ rest)
          (no_early a pre rest unbroken)))
      refl

cut_between :
    (l rest : Bytes)
    → 0 < length rest
    → (parse_line_http (given (l ++ carriage_return ∷ [])) (line_feed ∷ rest)).0 ≡ Parsed.line l 1
cut_between l [] k = absurd (omega arith)
cut_between l (y ∷ rest) k =
    rw (last_return-return l false) (rw (parse_line_http_shared l y rest) refl)

-- A line that has no line end in it is sent with its end, and with what follows, to a new parser in
-- any number of chunks. If what stands before the last chunk is at most the line and the first byte
-- of its end, and the last chunk has at least two bytes, each call but the last asks for more, and the
-- last one gives the line, with as many bytes read of its own chunk as the line and its end have left
-- there.
pub parse_line_http_chunks :
    (l : Bytes) (cs : List Bytes) (b rest : Bytes)
    → IsUnbroken l
    → l ++ carriage_return ∷ line_feed ∷ rest ≡ joined cs ++ b
    → length (joined cs) ≤ suc (length l)
    → 1 < length b
    → (p : LineParser) × AsksOn new cs p
      × ((parse_line_http p b).0 ≡ Parsed.line l (length l + 2 - length (joined cs)))
parse_line_http_chunks l cs b rest unbroken e k two = elim (cut_cases l (joined cs) b rest e k) [
  | inl (pre, whole, tail) ↦
      let inside = subst IsUnbroken whole unbroken in
      (
        given (joined cs),
        given_chunks [] cs (IsUnbroken-append (joined cs) inside).0,
        rw (tail, whole)
            (cut_within (joined cs) pre rest inside
              ∙ ap (Parsed.line (joined cs ++ pre)) (omega (arith, length-append (joined cs) pre))),
      )
  | inr (whole, tail) ↦ (
    given (joined cs),
    given_chunks [] cs (rw whole (IsUnbroken-return unbroken)),
    rw (whole, tail)
        (cut_between l rest (omega (arith, ap length tail))
          ∙ ap (Parsed.line l) (omega (arith, length-append l (carriage_return ∷ [])))),
  )
]

-- The same for two chunks.
pub parse_line_http_cut :
    (l a b rest : Bytes)
    → IsUnbroken l
    → l ++ carriage_return ∷ line_feed ∷ rest ≡ a ++ b
    → length a ≤ suc (length l)
    → 1 < length b
    → ((parse_line_http new a).0 ≡ Parsed.more)
      × ((parse_line_http (parse_line_http new a).1 b).0 ≡ Parsed.line l (length l + 2 - length a))
parse_line_http_cut l a b rest unbroken e k two =
    let same = append-nil a in
    let (p, (more, after), found) =
      parse_line_http_chunks l (a ∷ []) b rest unbroken (rw same e) (rw same k) two in
    (more, rw (after, found, same) refl)
