-- ===== src/Futures.antt =====
-- src/future_ext.rs: `join`, `alt` and `join_on_ok`. A future is its state with what `poll` does to it.
-- The context with its waker is left out: it says when to poll again, not what a poll returns. Behind a
-- panic the state is not used, so what it is there says nothing.
pub mod Ends
pub mod OnOk
pub mod Safe
pub mod Flag
pub mod Guard
use rocks.Base.{Option, none, some}
use rocks.Error.{Result}

-- What a poll gives, with the panic of a future that is polled when it should not be.
pub data Poll (T : Type 0) : Type 0 where
  pending : Poll T
  ready : T → Poll T
  panic : Poll T

abbrev pub Future : Type 0 → Type 0 → Type 0
Future S T = S → Poll T × S

-- `AltFuture`
pub record AltFuture (S1 S2 : Type 0) : Type 0 where
  pub fst : S1
  pub snd : S2

-- `JoinFuture`, of `join` and of `join_on_ok`, with the values of the futures that are done.
pub record JoinFuture (S1 S2 T1 T2 : Type 0) : Type 0 where
  pub fst : S1
  pub snd : S2
  pub done_fst : Option T1
  pub done_snd : Option T2

module _ {S1 S2 T1 T2 : Type 0} (f1 : Future S1 T1) (f2 : Future S2 T2) where
  alt_both : Poll T1 → Poll T2 → Poll (Option T1 × Option T2)
  alt_both Poll.panic _ = Poll.panic
  alt_both _ Poll.panic = Poll.panic
  alt_both Poll.pending Poll.pending = Poll.pending
  alt_both Poll.pending (Poll.ready v2) = Poll.ready (none, some v2)
  alt_both (Poll.ready v1) Poll.pending = Poll.ready (some v1, none)
  alt_both (Poll.ready v1) (Poll.ready v2) = Poll.ready (some v1, some v2)

  -- `AltFuture::poll`
  unfoldable pub poll_alt : Future (AltFuture S1 S2) (Option T1 × Option T2)
  unfolding alt_both
  poll_alt this = (
    alt_both (f1 this.fst).0 (f2 this.snd).0,
    record { fst = (f1 this.fst).1; snd = (f2 this.snd).1 },
  )

  join_both : Poll T1 → Poll T2 → JoinFuture S1 S2 T1 T2 → Poll (T1 × T2) × JoinFuture S1 S2 T1 T2
  join_both Poll.panic _ this = (Poll.panic, this)
  join_both _ Poll.panic this = (Poll.panic, this)
  join_both (Poll.ready v1) (Poll.ready v2) this = (Poll.ready (v1, v2), this)
  join_both (Poll.ready v1) Poll.pending this = (Poll.pending, record this { done_fst = some v1 })
  join_both Poll.pending (Poll.ready v2) this = (Poll.pending, record this { done_snd = some v2 })
  join_both Poll.pending Poll.pending this = (Poll.pending, this)

  join_second : T1 → Poll T2 → JoinFuture S1 S2 T1 T2 → Poll (T1 × T2) × JoinFuture S1 S2 T1 T2
  join_second v1 (Poll.ready v2) this = (Poll.ready (v1, v2), record this { done_fst = none })
  join_second v1 Poll.pending this = (Poll.pending, this)
  join_second v1 Poll.panic this = (Poll.panic, this)

  join_first : T2 → Poll T1 → JoinFuture S1 S2 T1 T2 → Poll (T1 × T2) × JoinFuture S1 S2 T1 T2
  join_first v2 (Poll.ready v1) this = (Poll.ready (v1, v2), record this { done_snd = none })
  join_first v2 Poll.pending this = (Poll.pending, this)
  join_first v2 Poll.panic this = (Poll.panic, this)

  join_step :
      Option T1 → Option T2 → JoinFuture S1 S2 T1 T2 → Poll (T1 × T2) × JoinFuture S1 S2 T1 T2
  unfolding join_both join_second join_first
  join_step (some _) (some _) this = (Poll.panic, this)
  join_step (some v1) none this =
      join_second v1 (f2 this.snd).0 (record this { snd = (f2 this.snd).1 })
  join_step none (some v2) this =
      join_first v2 (f1 this.fst).0 (record this { fst = (f1 this.fst).1 })
  join_step none none this =
      join_both (f1 this.fst).0 (f2 this.snd).0
        (record this { fst = (f1 this.fst).1; snd = (f2 this.snd).1 })

  -- `JoinFuture::poll` of `join`; `unreachable!` is a panic.
  unfoldable pub poll_join : Future (JoinFuture S1 S2 T1 T2) (T1 × T2)
  unfolding join_step
  poll_join this = join_step this.done_fst this.done_snd this

-- `join` and `join_on_ok` before they are polled.
abbrev pub start_join : {S1 S2 T1 T2 : Type 0} → S1 → S2 → JoinFuture S1 S2 T1 T2
start_join s1 s2 = record { fst = s1; snd = s2; done_fst = none; done_snd = none }

module _ {S1 S2 T1 T2 E1 E2 : Type 0} (f1 : Future S1 (Result E1 T1))
    (f2 : Future S2 (Result E2 T2)) where
  abbrev pub Joined : Type 0
  Joined = Option (Result E1 T1) × Option (Result E2 T2)

  ok_both :
      Poll (Result E1 T1)
      → Poll (Result E2 T2)
      → JoinFuture S1 S2 T1 T2
      → Poll Joined × JoinFuture S1 S2 T1 T2
  ok_both Poll.panic _ this = (Poll.panic, this)
  ok_both _ Poll.panic this = (Poll.panic, this)
  ok_both (Poll.ready v1) (Poll.ready v2) this = (Poll.ready (some v1, some v2), this)
  ok_both (Poll.ready (Result.ok v1)) Poll.pending this =
      (Poll.pending, record this { done_fst = some v1 })
  ok_both (Poll.ready (Result.err e1)) Poll.pending this =
      (Poll.ready (some (Result.err e1), none), this)
  ok_both Poll.pending (Poll.ready (Result.ok v2)) this =
      (Poll.pending, record this { done_snd = some v2 })
  ok_both Poll.pending (Poll.ready (Result.err e2)) this =
      (Poll.ready (none, some (Result.err e2)), this)
  ok_both Poll.pending Poll.pending this = (Poll.pending, this)

  ok_second :
      T1 → Poll (Result E2 T2) → JoinFuture S1 S2 T1 T2 → Poll Joined × JoinFuture S1 S2 T1 T2
  ok_second v1 (Poll.ready v2) this =
      (Poll.ready (some (Result.ok v1), some v2), record this { done_fst = none })
  ok_second v1 Poll.pending this = (Poll.pending, this)
  ok_second v1 Poll.panic this = (Poll.panic, this)

  ok_first :
      T2 → Poll (Result E1 T1) → JoinFuture S1 S2 T1 T2 → Poll Joined × JoinFuture S1 S2 T1 T2
  ok_first v2 (Poll.ready v1) this =
      (Poll.ready (some v1, some (Result.ok v2)), record this { done_snd = none })
  ok_first v2 Poll.pending this = (Poll.pending, this)
  ok_first v2 Poll.panic this = (Poll.panic, this)

  ok_step : Option T1 → Option T2 → JoinFuture S1 S2 T1 T2 → Poll Joined × JoinFuture S1 S2 T1 T2
  unfolding ok_both ok_second ok_first
  ok_step (some _) (some _) this = (Poll.panic, this)
  ok_step (some v1) none this = ok_second v1 (f2 this.snd).0 (record this { snd = (f2 this.snd).1 })
  ok_step none (some v2) this = ok_first v2 (f1 this.fst).0 (record this { fst = (f1 this.fst).1 })
  ok_step none none this =
      ok_both (f1 this.fst).0 (f2 this.snd).0
        (record this { fst = (f1 this.fst).1; snd = (f2 this.snd).1 })

  -- `JoinFuture::poll` of `join_on_ok`
  unfoldable pub poll_join_on_ok : Future (JoinFuture S1 S2 T1 T2) Joined
  unfolding ok_step
  poll_join_on_ok this = ok_step this.done_fst this.done_snd this
