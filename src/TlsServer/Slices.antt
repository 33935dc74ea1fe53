-- ===== src/TlsServer/Slices.antt =====
-- What `temp` of src/hyper_tls_server.rs takes out of its buffer.
use rocks.Base.{
  ℕ, zero, suc, ◌+◌, ◌≤◌, ◌≡◌, refl, sym, ap, ◌∙◌, Bool, true, false, [], ◌∷◌, ◌++◌, Option, none,
  some, length, length-drop, length-append, take, drop, ltb, arith, Option-cases, inl, inr,
  append_assoc, if◌then◌else◌,
}
use rocks.Base.Words.{Bytes}
use rocks.Error.{Result, Result-cases}
use rocks.TlsServer.{
  Ends, done, failed, panic, Calls, Scanned, found, more, out_of_range, Reading, buf_len, is_empty,
  scan, head_end, read_head,
}

pub not_below : (n s : ℕ) → s ≤ n → ltb n s ≡ false
not_below n s h = ground arith

after_line : (s n : ℕ) (got : Bytes) → n ≤ length (drop s got) → s ≤ length got → s + n ≤ length got
after_line s n got h k = omega (arith, length-drop s got)

split_within : (n : ℕ) (xs ys : Bytes) → n ≤ length xs → xs ≡ take n (xs ++ ys) ++ drop n xs
split_within zero xs ys h = refl
split_within (suc n) [] ys h = absurd (omega arith)
split_within (suc n) (x ∷ xs) ys h = ap (◌∷◌ x) (split_within n xs ys (omega arith))

-- No slice of the scan was out of range, nor will be that up to the end that it found.
abbrev Within : {P : Type 0} → ℕ → Option (Scanned P) → Type 0
Within n none = Unit {0}
Within n (some (found s cnt)) = s ≤ n
Within n (some (more lp cnt)) = Unit {0}
Within n (some out_of_range) = ⊥

if-Within :
    {P : Type 0} (b : Bool) (n s cnt : ℕ) (rest : Option (Scanned P))
    → s ≤ n
    → Within n rest
    → Within n (if b then some (found s cnt) else rest)
if-Within true n s cnt rest h ih = h
if-Within false n s cnt rest h ih = ih

module _ {E L T S P : Type 0} (calls : Calls E L T S P) where
  -- What the server relies on: the parser reads no more than it is given, and the reads of a stream
  -- give its bytes in order, of which `remaining` are to come.
  pub record ReadLaws : Type 0 where
    pub remaining : S → Bytes
    pub reads :
        (s : S) {got : Bytes}
        → (calls.read s buf_len).0 ≡ Result.ok got
        → remaining s ≡ got ++ remaining (calls.read s buf_len).1
    pub parses :
        (lp : P) (bs : Bytes) {line : Bytes} {n : ℕ}
        → (calls.parse_line lp bs).0 ≡ some (line, n)
        → n ≤ length bs

  module _ (laws : ReadLaws) where
    scan-Within :
        (fuel : ℕ) (lp : P) (got : Bytes) (s cnt : ℕ)
        → s ≤ length got
        → Within (length got) (scan calls fuel lp got s cnt)
    unfolding scan
    scan-Within zero lp got s cnt h = tt
    scan-Within (suc fuel) lp got s cnt h =
        elim (Option-cases (calls.parse_line lp (drop s got)).0) [
          | inl nothing ↦ rw (not_below (length got) s h, nothing, scan) tt
          | inr ((line, n), line_read) ↦
              rw (not_below (length got) s h, line_read, scan)
                (let in_range : s + n ≤ length got =
                    after_line s n got (laws.parses lp (drop s got) line_read) h in
                  if-Within (is_empty line) (length got) (s + n) (suc cnt) _ in_range (
                    scan-Within fuel (calls.parse_line lp (drop s got)).1 got (s + n) (suc cnt)
                      in_range))
        ]

    -- A head was taken from the front of what the stream gives, with the rest of its last read thrown
    -- away, and nothing panicked.
    pub Taken : Bytes → Option (Ends E (Bytes × ℕ × S)) → Type 0
    Taken given none = Unit {0}
    Taken given (some (failed e)) = Unit {0}
    Taken given (some panic) = ⊥
    Taken given (some (done (head, cnt, after))) =
        (rest : Bytes) × (given ≡ head ++ rest ++ laws.remaining after)

    -- The bytes that a read gave, with what is to come after it.
    after_read :
        (before : Bytes) (s : S) {got : Bytes}
        → (calls.read s buf_len).0 ≡ Result.ok got
        → before ++ laws.remaining s ≡ (before ++ got) ++ laws.remaining (calls.read s buf_len).1
    after_read before s {got} h =
        ap (λ l. before ++ l) (laws.reads s h) ∙ sym (append_assoc before got _)

    found-Taken :
        (r : Reading P) (s : S) (got old : Bytes) (end cnt : ℕ)
        → (go : P → ℕ → Option (Ends E (Bytes × ℕ × S))) → (calls.read s buf_len).0 ≡ Result.ok got
        → end ≤ length got
        → Taken
            (r.read_data ++ laws.remaining s)
            (head_end calls r (got ++ old) (calls.read s buf_len).1 go (some (found end cnt)))
    unfolding Taken head_end
    found-Taken r s got old end cnt go h k =
        rw (not_below (length (got ++ old)) end (omega (arith, length-append got old))) (
          drop end got,
          after_read r.read_data s h
              ∙ ap (λ l. (r.read_data ++ l) ++ laws.remaining (calls.read s buf_len).1)
                  (split_within end got old k)
              ∙ ap (λ l. l ++ laws.remaining (calls.read s buf_len).1)
                  (sym (append_assoc r.read_data (take end (got ++ old)) (drop end got))),
        )

    -- Whatever is found, where the rest of the loop does as it should.
    head_end-Taken :
        (r : Reading P) (s : S) (got old : Bytes) (o : Option (Scanned P))
        → (go : P → ℕ → Option (Ends E (Bytes × ℕ × S))) → (calls.read s buf_len).0 ≡ Result.ok got
        → Within (length got) o
        → ((lp : P) (cnt : ℕ)
            → Taken ((r.read_data ++ got) ++ laws.remaining (calls.read s buf_len).1) (go lp cnt))
        → Taken
            (r.read_data ++ laws.remaining s)
            (head_end calls r (got ++ old) (calls.read s buf_len).1 go o)
    unfolding Taken head_end
    head_end-Taken r s got old none go h w goes = tt
    head_end-Taken r s got old (some out_of_range) go h w goes = w
    head_end-Taken r s got old (some (found end cnt)) go h w goes =
        found-Taken r s got old end cnt go h w
    head_end-Taken r s got old (some (more lp cnt)) go h w goes =
        rw (after_read r.read_data s h) (goes lp cnt)

    -- Where the parser reads no more than it is given, the reading of a head never panics, and a head
    -- that it ends with is the front of what the stream had given: the bytes that were read before, then
    -- those of the stream in order, without those that stood behind the head in its last read.
    pub read_head-Taken :
        (fuel : ℕ) (r : Reading P) (s : S)
        → Taken (r.read_data ++ laws.remaining s) (read_head calls fuel r s)
    unfolding Taken read_head
    read_head-Taken zero r s = tt
    read_head-Taken (suc fuel) r s = elim (Result-cases (calls.read s buf_len).0) [
      | inl (e, h) ↦ rw (h, read_head) tt
      | inr (got, h) ↦
          rw (h, read_head)
            (head_end-Taken r s got (drop (length got) r.buf) _ _ h
              (scan-Within fuel r.lp got 0 r.line_cnt (omega arith))
              (λ lp cnt. read_head-Taken fuel _ _))
    ]
