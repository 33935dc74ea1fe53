-- ===== src/Futures/Safe.antt =====
-- The `unreachable!` of `join` and of `join_on_ok` is not reached.
use rocks.Base.{◌≡◌, refl, Option, none, some, arith}
use rocks.Error.{Result}
use rocks.Futures.{
  Poll, Future, JoinFuture, start_join, join_both, join_second, join_first, join_step, poll_join,
  ok_both, ok_second, ok_first, ok_step, poll_join_on_ok,
}

-- Both futures of a joined one are done, as in the branch of `unreachable!`.
abbrev pub BothDone : {S1 S2 T1 T2 : Type 0} → JoinFuture S1 S2 T1 T2 → Type 0
BothDone {T1 = T1} {T2 = T2} this =
    (v1 : T1) × (v2 : T2) × (this.done_fst ≡ some v1) × (this.done_snd ≡ some v2)

-- The states that a future comes to by polls, from its start, as long as it is pending.
pub data Reach {S T : Type 0} (f : Future S T) (start : S) : S → Type 0 where
  here : Reach f start start
  polled : {s : S} → Reach f start s → (f s).0 ≡ Poll.pending → Reach f start (f s).1

module _ {S1 S2 T1 T2 : Type 0} (f1 : Future S1 T1) (f2 : Future S2 T2) where
  join_both-one :
      (r1 : Poll T1) (r2 : Poll T2) (this : JoinFuture S1 S2 T1 T2)
      → this.done_fst ≡ none
      → this.done_snd ≡ none
      → ¬ BothDone (join_both f1 f2 r1 r2 this).1
  unfolding join_both
  join_both-one r1 r2 this a b (v1, v2, p, q) = ground arith

  join_second-one :
      (v : T1) (r2 : Poll T2) (this : JoinFuture S1 S2 T1 T2)
      → this.done_snd ≡ none
      → ¬ BothDone (join_second f1 f2 v r2 this).1
  unfolding join_second
  join_second-one v r2 this b (v1, v2, p, q) = ground arith

  join_first-one :
      (v : T2) (r1 : Poll T1) (this : JoinFuture S1 S2 T1 T2)
      → this.done_fst ≡ none
      → ¬ BothDone (join_first f1 f2 v r1 this).1
  unfolding join_first
  join_first-one v r1 this a (v1, v2, p, q) = ground arith

  join_step-one :
      (o1 : Option T1) (o2 : Option T2) (this : JoinFuture S1 S2 T1 T2)
      → this.done_fst ≡ o1
      → this.done_snd ≡ o2
      → ¬ BothDone this
      → ¬ BothDone (join_step f1 f2 o1 o2 this).1
  unfolding join_step
  join_step-one (some v1) (some v2) this a b h = h
  join_step-one (some v1) none this a b h = join_second-one v1 (f2 this.snd).0 _ b
  join_step-one none (some v2) this a b h = join_first-one v2 (f1 this.fst).0 _ a
  join_step-one none none this a b h = join_both-one (f1 this.fst).0 (f2 this.snd).0 _ a b

  poll_join-one :
      (this : JoinFuture S1 S2 T1 T2) → ¬ BothDone this → ¬ BothDone (poll_join f1 f2 this).1
  unfolding poll_join
  poll_join-one this = join_step-one this.done_fst this.done_snd this refl refl

  poll_join_safe :
      {s1 : S1} {s2 : S2} {this : JoinFuture S1 S2 T1 T2}
      → Reach (poll_join f1 f2) (start_join s1 s2) this
      → ¬ BothDone this
  poll_join_safe here (v1, v2, p, q) = cc
  poll_join_safe (polled {s = s} r p) h = poll_join-one s (poll_join_safe r) h

module _ {S1 S2 T1 T2 E1 E2 : Type 0} (f1 : Future S1 (Result E1 T1))
    (f2 : Future S2 (Result E2 T2)) where
  ok_both-one :
      (r1 : Poll (Result E1 T1)) (r2 : Poll (Result E2 T2)) (this : JoinFuture S1 S2 T1 T2)
      → this.done_fst ≡ none
      → this.done_snd ≡ none
      → ¬ BothDone (ok_both f1 f2 r1 r2 this).1
  unfolding ok_both
  ok_both-one r1 r2 this a b (v1, v2, p, q) = ground arith

  ok_second-one :
      (v : T1) (r2 : Poll (Result E2 T2)) (this : JoinFuture S1 S2 T1 T2)
      → this.done_snd ≡ none
      → ¬ BothDone (ok_second f1 f2 v r2 this).1
  unfolding ok_second
  ok_second-one v r2 this b (v1, v2, p, q) = ground arith

  ok_first-one :
      (v : T2) (r1 : Poll (Result E1 T1)) (this : JoinFuture S1 S2 T1 T2)
      → this.done_fst ≡ none
      → ¬ BothDone (ok_first f1 f2 v r1 this).1
  unfolding ok_first
  ok_first-one v r1 this a (v1, v2, p, q) = ground arith

  ok_step-one :
      (o1 : Option T1) (o2 : Option T2) (this : JoinFuture S1 S2 T1 T2)
      → this.done_fst ≡ o1
      → this.done_snd ≡ o2
      → ¬ BothDone this
      → ¬ BothDone (ok_step f1 f2 o1 o2 this).1
  unfolding ok_step
  ok_step-one (some v1) (some v2) this a b h = h
  ok_step-one (some v1) none this a b h = ok_second-one v1 (f2 this.snd).0 _ b
  ok_step-one none (some v2) this a b h = ok_first-one v2 (f1 this.fst).0 _ a
  ok_step-one none none this a b h = ok_both-one (f1 this.fst).0 (f2 this.snd).0 _ a b

  poll_join_on_ok-one :
      (this : JoinFuture S1 S2 T1 T2) → ¬ BothDone this → ¬ BothDone (poll_join_on_ok f1 f2 this).1
  unfolding poll_join_on_ok
  poll_join_on_ok-one this = ok_step-one this.done_fst this.done_snd this refl refl

  poll_join_on_ok_safe :
      {s1 : S1} {s2 : S2} {this : JoinFuture S1 S2 T1 T2}
      → Reach (poll_join_on_ok f1 f2) (start_join s1 s2) this
      → ¬ BothDone this
  poll_join_on_ok_safe here (v1, v2, p, q) = cc
  poll_join_on_ok_safe (polled {s = s} r p) h = poll_join_on_ok-one s (poll_join_on_ok_safe r) h

  -- In no state that `join` or `join_on_ok` comes to by being polled are the values of both futures
  -- there: the `unreachable!` is never run, whatever the two futures do.
  pub joins_safe :
      (s1 : S1) (s2 : S2)
      → ((this : JoinFuture S1 S2 (Result E1 T1) (Result E2 T2))
          → Reach (poll_join f1 f2) (start_join s1 s2) this
          → ¬ BothDone this)
        × ((this : JoinFuture S1 S2 T1 T2)
            → Reach (poll_join_on_ok f1 f2) (start_join s1 s2) this
            → ¬ BothDone this)
  joins_safe s1 s2 = (λ this r. poll_join_safe f1 f2 r, λ this r. poll_join_on_ok_safe r)
