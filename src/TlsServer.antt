-- ===== src/TlsServer.antt =====
-- `temp` of src/hyper_tls_server.rs: a server that reads the head of a request from each client, one
-- after the other, and answers it. Sockets, TLS, the line parser and httparse are parameters. The loops
-- run on fuel, and `none` means that it ran out.
pub mod Head
pub mod Spin
pub mod Slices
pub mod Rounds
pub mod Serving
use rocks.Base.{
  ℕ, zero, suc, ◌+◌, ltb, Bool, true, false, List, [], ◌∷◌, ◌++◌, Option, none, some, length, take,
  drop, if◌then◌else◌,
}
use rocks.Base.Words.{Bytes}
use rocks.Error.{Result}
use rocks.TlsServer.Head.{ParsedHead}

-- How a part of the server ends.
pub data Ends (E A : Type 0) : Type 0 where
  done : A → Ends E A
  failed : E → Ends E A
  panic : Ends E A

-- Clients of type `T` come from a listener of type `L`, and are streams of type `S` once accepted;
-- `parse_line` gives a line and how much it has read, and `parse` the request.
pub record Calls (E L T S P : Type 0) : Type 0 where
  pub next : L → Option (Result E T) × L
  pub accept : T → Result E S
  pub read : S → ℕ → Result E Bytes × S
  pub new_parser : P
  pub parse_line : P → Bytes → Option (Bytes × ℕ) × P
  pub parse : ℕ → Bytes → Result E ParsedHead
  pub write_all : S → Bytes → Result E (Unit {0})
  pub incomplete : E

-- What the inner loop comes to: the end of the head, or the need for more.
pub data Scanned (P : Type 0) : Type 0 where
  found : (s : ℕ) → (line_cnt : ℕ) → Scanned P
  more : P → (line_cnt : ℕ) → Scanned P
  out_of_range : Scanned P

-- The variables of the loop over the reads.
pub record Reading (P : Type 0) : Type 0 where
  pub lp : P
  pub buf : Bytes
  pub read_data : Bytes
  pub line_cnt : ℕ

-- `b"HTTP/1.1 200 OK\r\n\r\nHello"`
abbrev pub hello_response : Bytes
hello_response =
    72 ∷ 84 ∷ 84 ∷ 80 ∷ 47 ∷ 49 ∷ 46 ∷ 49 ∷ 32 ∷ 50 ∷ 48 ∷ 48 ∷ 32 ∷ 79 ∷ 75 ∷ 13 ∷ 10 ∷ 13 ∷ 10
    ∷ 72 ∷ 101 ∷ 108 ∷ 108 ∷ 111 ∷ []

abbrev pub buf_len : ℕ
buf_len = 4096

abbrev pub zeros : ℕ → Bytes
zeros zero = []
zeros (suc n) = 0 ∷ zeros n

abbrev pub is_empty : Bytes → Bool
is_empty [] = true
is_empty (b ∷ bs) = false

-- The variables before the first read.
abbrev pub fresh : {P : Type 0} → P → Reading P
fresh lp = record { lp = lp; buf = zeros buf_len; read_data = []; line_cnt = 0 }

infixl 5 ◌>>=◌
abbrev pub ◌>>=◌ :
    {E A B : Type 0} → Option (Ends E A) → (A → Option (Ends E B)) → Option (Ends E B)
some (done a) >>= f = f a
some (failed e) >>= f = some (failed e)
some panic >>= f = some panic
none >>= f = none

abbrev pub ends : {E A : Type 0} → Result E A → Option (Ends E A)
ends (Result.ok a) = some (done a)
ends (Result.err e) = some (failed e)

module _ {E L T S P : Type 0} (calls : Calls E L T S P) where
  -- The inner `loop`, over the bytes `chunk` that were read; `&buf[s..c]` panics past their end.
  pub scan : ℕ → P → Bytes → ℕ → ℕ → Option (Scanned P)
  scan zero lp chunk s cnt = none
  scan (suc fuel) lp chunk s cnt =
      if ltb (length chunk) s
      then some out_of_range
      else elim (calls.parse_line lp (drop s chunk)).0 [
        | none ↦ some (more (calls.parse_line lp (drop s chunk)).1 cnt)
        | some (line, n) ↦
            let rest = scan fuel (calls.parse_line lp (drop s chunk)).1 chunk (s + n) (suc cnt) in
            if is_empty line then some (found (s + n) (suc cnt)) else rest
      ]

  -- After the inner loop: the head is complete, or the loop goes on by `go`.
  pub head_end :
      Reading P
      → Bytes
      → S
      → (P → ℕ → Option (Ends E (Bytes × ℕ × S)))
      → Option (Scanned P)
      → Option (Ends E (Bytes × ℕ × S))
  head_end r buf after go none = none
  head_end r buf after go (some out_of_range) = some panic
  head_end r buf after go (some (found s cnt)) =
      if ltb (length buf) s then some panic else some (done (r.read_data ++ take s buf, cnt, after))
  head_end r buf after go (some (more lp cnt)) = go lp cnt

  -- The loop `'a`, which reads until the end of the head: its bytes, with the number of its lines.
  pub read_head : ℕ → Reading P → S → Option (Ends E (Bytes × ℕ × S))
  unfolding scan head_end
  read_head zero r stream = none
  read_head (suc fuel) r stream = elim (calls.read stream buf_len).0 [
    | Result.err e ↦ some (failed e)
    | Result.ok got ↦
        let after = (calls.read stream buf_len).1 in
        let buf : Bytes = got ++ drop (length got) r.buf in
        head_end r buf after
          (λ lp cnt.
            read_head fuel
              (record { lp = lp; buf = buf; read_data = r.read_data ++ got; line_cnt = cnt }) after)
          (scan fuel r.lp got 0 r.line_cnt)
  ]

  -- The `match` on what httparse has found, and the answer. The request that the source builds before
  -- it answers, `request` of TlsServer.Head, is dropped.
  pub answer : Option Bytes × Option Bytes → S → Option (Ends E (Unit {0}))
  answer (some method, some path) stream = ends (calls.write_all stream hello_response)
  answer _ stream = some (failed calls.incomplete)

  -- One round of the `while let`, for a client that is connected.
  unfoldable pub serve_client : ℕ → T → Option (Ends E (Unit {0}))
  unfolding read_head answer
  serve_client fuel client = ends (calls.accept client) >>= λ stream.
      read_head fuel (fresh calls.new_parser) stream >>= λ (read_data, cnt, after).
      ends (calls.parse cnt read_data) >>= λ req. answer (req.method, req.path) after

  -- `temp`: the first error of a client ends the server.
  unfoldable pub temp : ℕ → L → Option (Ends E (Unit {0}))
  temp zero l = none
  temp (suc fuel) l =
      let rest = temp fuel (calls.next l).1 in
      elim (calls.next l).0 [
        | none ↦ some (done tt)
        | some (Result.err e) ↦ some (failed e)
        | some (Result.ok client) ↦ serve_client fuel client >>= λ _. rest
      ]
