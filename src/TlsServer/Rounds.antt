-- ===== src/TlsServer/Rounds.antt =====
-- When the loops that read a head in src/hyper_tls_server.rs end.
use rocks.Base.{
  ℕ, zero, suc, ◌+◌, ◌≤◌, ◌<◌, ◌≡◌, refl, Bool, true, false, Option, none, some, length, drop, ltb,
  arith, Option-cases, inl, inr, length-drop, if◌then◌else◌,
}
use rocks.Base.Words.{Bytes}
use rocks.Error.{Result}
use rocks.TlsServer.{
  Ends, done, failed, panic, Calls, Scanned, found, more, out_of_range, Reading, buf_len, is_empty,
  scan, head_end, read_head, fresh, hello_response, answer, serve_client, ends, ◌>>=◌,
}
use rocks.TlsServer.Slices.{not_below}

abbrev Ended : {A : Type 0} → Option A → Type 0
Ended none = ⊥
Ended (some a) = Unit {0}

if-Ended :
    {A : Type 0} (b : Bool) (a : A) (o : Option A) → Ended o → Ended (if b then some a else o)
if-Ended true a o h = tt
if-Ended false a o h = h

module _ {E L T S P : Type 0} (calls : Calls E L T S P) where
  -- A line that the parser finds has an end, and so some of the bytes that it is given.
  abbrev pub ReadsOn : Type 0
  ReadsOn =
      (lp : P) (bs line : Bytes) (n : ℕ)
      → (calls.parse_line lp bs).0 ≡ some (line, n)
      → (1 ≤ n) × (n ≤ length bs)

  -- The stream gives at most so many chunks, each at most as long as the buffer, and then an error.
  pub data Breaks : S → ℕ → Type 0 where
    broken : {s : S} {n : ℕ} {e : E} → (calls.read s buf_len).0 ≡ Result.err e → Breaks s n
    chunk :
        {s : S} {n : ℕ} {got : Bytes}
        → (calls.read s buf_len).0 ≡ Result.ok got
        → length got ≤ buf_len
        → Breaks (calls.read s buf_len).1 n
        → Breaks s (suc n)

  module _ (reads_on : ReadsOn) where
    scan-Ended :
        (fuel : ℕ) (lp : P) (got : Bytes) (s cnt : ℕ)
        → s ≤ length got
        → length got < s + fuel
        → Ended (scan calls fuel lp got s cnt)
    unfolding scan
    scan-Ended zero lp got s cnt h enough = absurd (omega arith)
    scan-Ended (suc fuel) lp got s cnt h enough =
        elim (Option-cases (calls.parse_line lp (drop s got)).0) [
          | inl nothing ↦ rw (not_below (length got) s h, nothing, scan) tt
          | inr ((line, n), line_read) ↦
              let (some_read, not_more) = reads_on lp (drop s got) line n line_read in
              rw (not_below (length got) s h, line_read, scan)
                (if-Ended (is_empty line) _ _ (
                  scan-Ended fuel (calls.parse_line lp (drop s got)).1 got (s + n) (suc cnt)
                    (omega (arith, length-drop s got)) (omega arith)))
        ]

    head_end-Ended :
        (r : Reading P) (buf : Bytes) (after : S) (go : P → ℕ → Option (Ends E (Bytes × ℕ × S)))
        (o : Option (Scanned P))
        → Ended o
        → ((lp : P) (cnt : ℕ) → Ended (go lp cnt))
        → Ended (head_end calls r buf after go o)
    unfolding head_end
    head_end-Ended r buf after go none h goes = h
    head_end-Ended r buf after go (some out_of_range) h goes = tt
    head_end-Ended r buf after go (some (found s cnt)) h goes =
        if-Ended (ltb (length buf) s) panic _ tt
    head_end-Ended r buf after go (some (more lp cnt)) h goes = goes lp cnt

    read_head-Ended :
        (fuel : ℕ) (r : Reading P) (s : S) (n : ℕ)
        → Breaks s n
        → buf_len + n < fuel
        → Ended (read_head calls fuel r s)
    unfolding read_head
    read_head-Ended zero r s n b enough = absurd (omega arith)
    read_head-Ended (suc fuel) r s n (broken h) enough = rw (h, read_head) tt
    read_head-Ended (suc fuel) r s (suc n) (chunk {got = got} h short b) enough =
        rw (h, read_head)
          (head_end-Ended r _ _ _ _
            (scan-Ended fuel r.lp got 0 r.line_cnt (omega arith) (omega arith))
            (λ lp cnt. read_head-Ended fuel _ _ n b (omega arith)))

    returned : {A : Type 0} (o : Option A) → Ended o → (a : A) × (o ≡ some a)
    returned none h = absurd h
    returned (some a) h = (a, refl)

    bound-Ended :
        {A B : Type 0} (o : Option (Ends E A)) (f : A → Option (Ends E B))
        → Ended o
        → ((a : A) → Ended (f a))
        → Ended (o >>= f)
    bound-Ended none f h all = h
    bound-Ended (some (done a)) f h all = all a
    bound-Ended (some (failed e)) f h all = tt
    bound-Ended (some panic) f h all = tt

    ends-Ended : {A : Type 0} (r : Result E A) → Ended (ends r)
    ends-Ended (Result.ok a) = tt
    ends-Ended (Result.err e) = tt

    answer-Ended : (req : Option Bytes × Option Bytes) (s : S) → Ended (answer calls req s)
    unfolding answer
    answer-Ended (some m, some p) s = ends-Ended (calls.write_all s hello_response)
    answer-Ended (none, p) s = tt
    answer-Ended (some m, none) s = tt

    -- Where each line that the parser finds has a byte, a client whose stream gives so many chunks
    -- and then an error is served to an end, with fuel for each chunk and each byte of the buffer.
    pub serve_client_ends :
        (fuel : ℕ) (client : T) (s : S) (n : ℕ)
        → calls.accept client ≡ Result.ok s
        → Breaks s n
        → buf_len + n < fuel
        → (end : Ends E (Unit {0})) × (serve_client calls fuel client ≡ some end)
    unfolding serve_client
    serve_client_ends fuel client s n accepted b enough =
        returned (serve_client calls fuel client) (
          rw (accepted, serve_client)
            (bound-Ended (read_head calls fuel (fresh calls.new_parser) s) _
              (read_head-Ended fuel (fresh calls.new_parser) s n b enough)
              (λ (head, cnt, after).
                bound-Ended (ends (calls.parse cnt head)) _ (ends-Ended (calls.parse cnt head))
                  (λ req. answer-Ended (req.method, req.path) after))))
