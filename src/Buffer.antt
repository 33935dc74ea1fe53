-- ===== src/Buffer.antt =====
-- Rust's indexing, slices and `copy_from_slice` on a fixed buffer, each with the panic that it
-- raises out of range.
use rocks.Base.{
  ℕ, suc, zero, ◌+◌, ◌-◌, ◌≤◌, ◌≡◌, refl, ◌&&◌, [], ◌∷◌, ◌++◌, Option, some, none, arith, length,
  take, drop, take-append, drop-append, drop-add, ap, ◌∙◌, length-append, get_elem?, leb, ◌==◌,
  if◌then◌else◌, append_assoc, ◌≢◌, subst,
}
use native.Mathlib.Numerals.{add-one}
use rocks.Base.Words.{Bytes}
use rocks.Error.{Foreign, Outcome, and_then}

abbrev pub or_panic : {F : Foreign} {A : Type 0} → Option A → Outcome F A
or_panic (some x) = Outcome.ok x
or_panic none = Outcome.panic

-- `buf[i]`
abbrev pub at : {F : Foreign} → Bytes → ℕ → Outcome F ℕ
at buf i = or_panic (get_elem? buf i)

abbrev pub set? : Bytes → ℕ → ℕ → Option Bytes
set? [] i x = none
set? (y ∷ ys) zero x = some (x ∷ ys)
set? (y ∷ ys) (suc i) x = elim (set? ys i x) [ some zs ↦ some (y ∷ zs) | none ↦ none ]

-- `buf[i] = x`
abbrev pub store : {F : Foreign} → Bytes → ℕ → ℕ → Outcome F Bytes
store buf i x = or_panic (set? buf i x)

-- `&buf[lo..hi]`
abbrev pub slice : {F : Foreign} → Bytes → ℕ → ℕ → Outcome F Bytes
slice buf lo hi =
    if leb lo hi && leb hi (length buf)
    then Outcome.ok (take (hi - lo) (drop lo buf))
    else Outcome.panic

-- The buffer with `bs` written from position `lo` on.
abbrev pub fill : Bytes → ℕ → Bytes → Bytes
fill buf lo bs = take lo buf ++ (bs ++ drop (lo + length bs) buf)

-- `buf[lo..hi].copy_from_slice(src)`, which also panics if the lengths differ.
abbrev pub copy_from_slice : {F : Foreign} → Bytes → ℕ → ℕ → Bytes → Outcome F Bytes
copy_from_slice buf lo hi src =
    if leb lo hi && leb hi (length buf) && (length src == hi - lo)
    then Outcome.ok (fill buf lo src)
    else Outcome.panic

pub set?-append :
    (xs : Bytes) (y : ℕ) (ys : Bytes) (x : ℕ)
    → set? (xs ++ y ∷ ys) (length xs) x ≡ some (xs ++ x ∷ ys)
set?-append [] y ys x = refl
set?-append (z ∷ xs) y ys x = rw (set?-append xs y ys x)

pub set?-append_next :
    (xs : Bytes) (y z : ℕ) (ys : Bytes) (x : ℕ)
    → set? (xs ++ y ∷ z ∷ ys) (suc (length xs)) x ≡ some (xs ++ y ∷ x ∷ ys)
set?-append_next [] y z ys x = refl
set?-append_next (w ∷ xs) y z ys x = rw (set?-append_next xs y z ys x)

pub set?-none : (xs : Bytes) (i x : ℕ) → length xs ≤ i → set? xs i x ≡ none
set?-none [] i x h = refl
set?-none (z ∷ xs) zero x h = absurd (omega arith)
set?-none (z ∷ xs) (suc i) x h = rw (set?-none xs i x (omega arith))

-- The prefix of a buffer, up to where its first part ends.
pub slice-append :
    {F : Foreign} (xs ys : Bytes) → slice {F = F} (xs ++ ys) 0 (length xs) ≡ Outcome.ok xs
slice-append xs ys = ground (arith, take-append xs ys, length-append xs ys)

-- Writing at the start of a buffer that is long enough, and taking what was written.
pub slice-fill :
    {F : Foreign} (buf bs : Bytes) → slice {F = F} (fill buf 0 bs) 0 (length bs) ≡ Outcome.ok bs
slice-fill buf bs = slice-append bs (drop (0 + length bs) buf)

-- Storing two bytes behind the first part of a buffer, and taking the buffer up to them.
pub store_two :
    {F : Foreign} (xs : Bytes) (y z : ℕ) (ys : Bytes) (hi lo : ℕ)
    → and_then
        (store {F = F} (xs ++ y ∷ z ∷ ys) (length xs) hi)
        (λ buf. and_then (store buf (length xs + 1) lo) (λ buf. slice buf 0 (length xs + 2)))
      ≡ Outcome.ok (xs ++ hi ∷ lo ∷ [])
store_two {F} xs y z ys hi lo =
    rw (set?-append xs y (z ∷ ys) hi, add-one (length xs), set?-append_next xs hi z ys lo)
      (subst (λ n. slice {F = F} (xs ++ hi ∷ lo ∷ ys) 0 n ≡ Outcome.ok (xs ++ hi ∷ lo ∷ []))
        (length-append xs (hi ∷ lo ∷ []))
        (rw (← append_assoc xs (hi ∷ lo ∷ []) ys) (slice-append (xs ++ hi ∷ lo ∷ []) ys)))

drop_behind :
    (xs old ys src : Bytes)
    → length old ≡ length src
    → drop (length xs + length src) (xs ++ (old ++ ys)) ≡ ys
drop_behind xs old ys src h =
    drop-add (length xs) (length src) (xs ++ (old ++ ys))
    ∙ ap (drop (length src)) (drop-append xs (old ++ ys))
    ∙ rw (← h) (drop-append old ys)

-- Copying over a part of the buffer that is as long as the source.
pub copy_from_slice-append :
    {F : Foreign} (xs old ys src : Bytes)
    → length old ≡ length src
    → copy_from_slice {F = F} (xs ++ (old ++ ys)) (length xs) (length xs + length src) src
      ≡ Outcome.ok (xs ++ (src ++ ys))
copy_from_slice-append xs old ys src h = ground (
  arith,
  take-append xs (old ++ ys),
  drop_behind xs old ys src h,
  length-append xs (old ++ ys),
  length-append old ys,
)

-- Copying from a source that is shorter or longer than the slice panics.
pub copy_from_slice_panics :
    {F : Foreign} (buf src : Bytes) (lo hi : ℕ)
    → length src ≢ hi - lo
    → copy_from_slice {F = F} buf lo hi src ≡ Outcome.panic
copy_from_slice_panics buf src lo hi h = ground arith
