-- ===== src/Examples/Spins.antt =====
-- A client that sends two bytes and closes its stream, and one whose bytes hold an empty line.
use rocks.Base.{
  ℕ, zero, suc, ◌≤◌, ◌≡◌, refl, ap, length, arith, List, [], ◌∷◌, ◌++◌, Option, none, some,
}
use rocks.Base.Words.{Bytes}
use rocks.Error.{Result, ok_inj}
use rocks.TlsServer.Head.{
  HttpVersion, http_2, Header, ParsedHead, Builder, h2c, empty_header, is_text, has_header,
  with_headers, request,
}
use rocks.TlsServer.Rounds.{ReadsOn, Breaks, broken, serve_client_ends}
use rocks.TlsServer.Slices.{ReadLaws, Taken, read_head-Taken}
use rocks.TlsServer.{Ends, serve_client, Calls, fresh, read_head}

abbrev read_some : List Bytes → Result ℕ Bytes × List Bytes
read_some [] = (Result.ok [], [])
read_some (c ∷ cs) = (Result.ok c, cs)

abbrev line_of : Bytes → Option (Bytes × ℕ)
line_of [] = none
line_of (b ∷ bs) = elim b [ zero ↦ some ([], 1) | suc _ ↦ none ]

abbrev calls : Calls ℕ ℕ ℕ (List Bytes) ℕ
calls = record {
  next = λ l. (some (Result.ok l), l);
  accept = λ c. Result.ok ((7 ∷ 8 ∷ []) ∷ []);
  read = λ s n. read_some s;
  new_parser = 0;
  parse_line = λ p bs. (line_of bs, suc p);
  parse = λ n bs. Result.err 1;
  write_all = λ s bs. Result.ok tt;
  incomplete = 2;
}

all_of : List Bytes → Bytes
all_of [] = []
all_of (c ∷ cs) = c ++ all_of cs

chunks_in_order :
    (s : List Bytes) {got : Bytes}
    → (read_some s).0 ≡ Result.ok got
    → all_of s ≡ got ++ all_of (read_some s).1
unfolding all_of
chunks_in_order [] h = ap (λ l. l ++ []) (ok_inj h)
chunks_in_order (c ∷ cs) h = ap (λ l. l ++ all_of cs) (ok_inj h)

line_within : (bs : Bytes) {line : Bytes} {n : ℕ} → line_of bs ≡ some (line, n) → n ≤ length bs
line_within [] h = cc
line_within (zero ∷ bs) {n = n} h = let same : 1 ≡ n = cc in omega (arith, same)
line_within (suc b ∷ bs) h = cc

laws : ReadLaws calls
laws = record { remaining = all_of; reads = chunks_in_order; parses = λ lp bs h. line_within bs h }

read_head-Taken_example :
    Taken calls laws
      ([] ++ all_of ((0 ∷ 5 ∷ []) ∷ []))
      (read_head calls 9 (fresh 0) ((0 ∷ 5 ∷ []) ∷ []))
unfolding all_of laws
read_head-Taken_example = read_head-Taken calls laws 9 (fresh 0) ((0 ∷ 5 ∷ []) ∷ [])

-- A stream that gives its chunks and then an error, where the other has ended.
abbrev read_or_fail : List Bytes → Result ℕ Bytes × List Bytes
read_or_fail [] = (Result.err 8, [])
read_or_fail (c ∷ cs) = (Result.ok c, cs)

abbrev failing : Calls ℕ ℕ ℕ (List Bytes) ℕ
failing = record calls { read = λ s n. read_or_fail s }

reads_on : ReadsOn failing
reads_on lp [] line n h = cc
reads_on lp (zero ∷ bs) line n h =
    let same : 1 ≡ n = cc in (omega (arith, same), omega (arith, same))
reads_on lp (suc b ∷ bs) line n h = cc

serve_client_ends_example : (end : Ends ℕ (Unit {0})) × (serve_client failing 5000 3 ≡ some end)
serve_client_ends_example =
    serve_client_ends failing reads_on 5000 3 ((7 ∷ 8 ∷ []) ∷ []) 1 refl
      (Breaks.chunk refl (omega arith) (broken refl)) (omega arith)

-- A builder that lists what is set on it.
data Set : Type 0 where
  version : HttpVersion → Set
  method : Bytes → Set
  uri : Bytes → Set
  header : Header → Set

abbrev log : Builder (List Set)
log = record {
  builder = [];
  set_version = λ v bd. version v ∷ bd;
  set_method = λ m bd. method m ∷ bd;
  set_uri = λ u bd. uri u ∷ bd;
  add_header = λ h bd. header h ∷ bd;
}

-- `GET / HTTP/1.1` with an offer of HTTP/2 and room for one more header.
abbrev upgrading : ParsedHead
upgrading = record {
  method = some (71 ∷ 69 ∷ 84 ∷ []);
  path = some (47 ∷ []);
  version = some 1;
  headers = h2c ∷ empty_header ∷ [];
}

upgrading-request :
    request log upgrading.method upgrading.path upgrading
    ≡ some (header h2c ∷ uri (47 ∷ []) ∷ method (71 ∷ 69 ∷ 84 ∷ []) ∷ version http_2 ∷ [])
unfolding request with_headers has_header is_text
upgrading-request = refl
