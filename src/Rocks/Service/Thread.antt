-- ===== src/Rocks/Service/Thread.antt =====
-- On which threads `WrapFuture` of src/rocks/hyper_svr.rs polls the future in it.
use rocks.Base.{ℕ, zero, suc, ◌+◌, ◌≡◌, refl, ap, subst, ◌∙◌, arith, List, [], ◌∷◌, Option}
use rocks.Error.{Result}
use rocks.Rocks.Service.{WrapFuture, Async, not_ready, as_async, poll_on, poll_wrapped}

-- Counted, or kept in a list, where a test comes out.
abbrev pub count_yes : {X : Type 0} → Dec X → ℕ → ℕ
count_yes (yes _) n = suc n
count_yes (no _) n = n

abbrev pub count_no : {X : Type 0} → Dec X → ℕ → ℕ
count_no (yes _) n = n
count_no (no _) n = suc n

abbrev pub keep_yes : {X A : Type 0} → Dec X → A → List A → List A
keep_yes (yes _) x xs = x ∷ xs
keep_yes (no _) x xs = xs

abbrev pub keep_no : {X A : Type 0} → Dec X → A → List A → List A
keep_no (yes _) x xs = xs
keep_no (no _) x xs = x ∷ xs

abbrev pub repeat : {A : Type 0} → ℕ → A → List A
repeat zero x = []
repeat (suc n) x = x ∷ repeat n x

module _ {T : Type 0} (dec : Discrete T) where
  -- How many of the threads are the home, and how many are not.
  abbrev pub at_home : T → List T → ℕ
  at_home home [] = 0
  at_home home (t ∷ ts) = count_yes (dec t home) (at_home home ts)

  abbrev pub away : T → List T → ℕ
  away home [] = 0
  away home (t ∷ ts) = count_no (dec t home) (away home ts)

  -- The answers that were given at home, and those that were given elsewhere.
  abbrev pub given_home : {X : Type 0} → T → List T → List X → List X
  given_home home (t ∷ ts) (x ∷ xs) = keep_yes (dec t home) x (given_home home ts xs)
  given_home home _ _ = []

  abbrev pub given_away : {X : Type 0} → T → List T → List X → List X
  given_away home (t ∷ ts) (x ∷ xs) = keep_no (dec t home) x (given_away home ts xs)
  given_away home _ _ = []

module _ {F T A E : Type 0} (dec : Discrete T) (poll_inner : F → Option (Result E A) × F) where
  -- Polls on the threads of a list, with what each gives.
  unfoldable pub polls : List T → WrapFuture F T → List (Async A E) × WrapFuture F T
  polls [] this = ([], this)
  polls (t ∷ ts) this =
      let first = poll_wrapped dec poll_inner t this in
      let rest = polls ts first.1 in (first.0 ∷ rest.0, rest.1)

  -- So many polls of the future alone.
  abbrev pub poll_times : ℕ → F → List (Async A E) × F
  poll_times zero f = ([], f)
  poll_times (suc n) f =
      let rest = poll_times n (poll_inner f).1 in (as_async (poll_inner f).0 ∷ rest.0, rest.1)

  -- What polls of a future on these threads give and leave.
  pub record Stays (w : WrapFuture F T) (n m : ℕ) (home others : List (Async A E))
      (left : WrapFuture F T) : Type 0 where
    pub answers : home ≡ (poll_times n w.inner).0
    pub inner_left : left.inner ≡ (poll_times n w.inner).1
    pub nothing_else : others ≡ repeat m not_ready
    pub woken : left.wakes ≡ w.wakes + m
    pub stays_home : left.home ≡ w.home

  step-Stays :
      {X : Type 0} (d : Dec X) (w : WrapFuture F T) {n m : ℕ} {home others : List (Async A E)}
      {left : WrapFuture F T}
      → Stays (poll_on dec poll_inner d w).1 n m home others left
      → Stays w
          (count_yes d n)
          (count_no d m)
          (keep_yes d (poll_on dec poll_inner d w).0 home)
          (keep_no d (poll_on dec poll_inner d w).0 others)
          left
  unfolding poll_on
  step-Stays (yes _) w s = record {
    answers = ap (λ xs. as_async (poll_inner w.inner).0 ∷ xs) s.answers;
    inner_left = s.inner_left;
    nothing_else = s.nothing_else;
    woken = s.woken;
    stays_home = s.stays_home;
  }
  step-Stays (no _) w s = record {
    answers = s.answers;
    inner_left = s.inner_left;
    nothing_else = ap (λ xs. not_ready ∷ xs) s.nothing_else;
    woken = s.woken ∙ omega arith;
    stays_home = s.stays_home;
  }

  on_home :
      {X : Type 0} (d : Dec X) (w : WrapFuture F T) → (poll_on dec poll_inner d w).1.home ≡ w.home
  unfolding poll_on
  on_home (yes _) w = refl
  on_home (no _) w = refl

  -- That for the polls on the threads of a list, told apart by `h`.
  abbrev pub StaysOn : List T → WrapFuture F T → T → Type 0
  StaysOn ts w h =
      Stays w (at_home dec h ts) (away dec h ts) (given_home dec h ts (polls ts w).0)
        (given_away dec h ts (polls ts w).0) (polls ts w).1

  polls-Stays : (ts : List T) (w : WrapFuture F T) (h : T) → w.home ≡ h → StaysOn ts w h
  unfolding polls poll_wrapped
  polls-Stays [] w h same = record {
    answers = refl;
    inner_left = refl;
    nothing_else = refl;
    woken = omega arith;
    stays_home = refl;
  }
  polls-Stays (t ∷ ts) w h same =
      subst (StaysOn (t ∷ ts) w) same
        (step-Stays (dec t w.home) w (polls-Stays ts _ w.home (on_home (dec t w.home) w)))

  -- Whatever the threads are that the future is polled on, the future in it is polled once for each
  -- time that it is at home and not otherwise, these polls give what the future alone gives; each of
  -- the others gives "not ready" and calls the waker once.
  pub polls_home : (ts : List T) (w : WrapFuture F T) → StaysOn ts w w.home
  polls_home ts w = polls-Stays ts w w.home refl
