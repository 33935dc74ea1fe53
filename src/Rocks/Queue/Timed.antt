-- ===== src/Rocks/Queue/Timed.antt =====
-- The future that `rocks_handler_impl` of src/rocks/actix_app.rs gives, poll by poll: the form of the
-- request, then the answer through `wrap_future`, within the time of tokio's `Timeout`. A poll that
-- gives `Async` or an error is a `Poll` of a result. The forms are actix's, and are a parameter.
pub mod Answered
use rocks.Base.{List, [], ◌∷◌, Option, none, some}
use rocks.Base.Words.{Bytes}
use rocks.Error.{Result}
use rocks.Futures.{Poll}
use rocks.Rocks.Packet.{Method, Field, Parsers, RocksPacket}
use rocks.Rocks.Queue.{
  SegQueue, Channels, HandlerError, TimeoutError, TimedError, timed_error, Shared, poll_receiver,
  rocks_handler_impl,
}

-- The form of a request.
abbrev pub Form : Type 0
Form = Field → Option Bytes

-- `Timeout`: it is given what a poll of its future has given, and has the state of its delay.
pub record Timeout (D T E A : Type 0) : Type 0 where
  pub poll : Poll (Result E A) → D → Poll (Result (TimeoutError T E) A) × D

-- What the future of a request waits for: its form, read in state `F`, or its answer.
pub data Handling (F R : Type 0) : Type 0 where
  reading_form : F → Handling F R
  receiving : R → Handling F R

-- The `match` of `FutureWrapper::poll`.
abbrev pub async_of : {A E : Type 0} → Poll A → Poll (Result E A)
async_of (Poll.ready v) = Poll.ready (Result.ok v)
async_of Poll.pending = Poll.pending
async_of Poll.panic = Poll.panic

-- The `map_err` behind the timeout.
abbrev pub map_timed :
    {T E A : Type 0} → Poll (Result (TimeoutError T E) A) → Poll (Result (TimedError T E) A)
map_timed (Poll.ready (Result.ok v)) = Poll.ready (Result.ok v)
map_timed (Poll.ready (Result.err e)) = Poll.ready (Result.err (timed_error e))
map_timed Poll.pending = Poll.pending
map_timed Poll.panic = Poll.panic

-- What the executor goes on with, and what it is given at last.
abbrev pub next : {B : Type 0} → Poll B → Option B → Option B
next (Poll.ready r) rest = some r
next Poll.pending rest = rest
next Poll.panic rest = none

module _ {Q H S R A X Uuid U P E F D T : Type 0} (parsers : Parsers Uuid U P E)
    (segqueue : SegQueue Q (RocksPacket Uuid S)) (chans : Channels H S R A)
    (poll_form : F → Poll (Result X Form) × F) (timeout : Timeout D T (HandlerError X U P) A) where
  abbrev pub Polled : Type 0 → Type 0
  Polled W = Poll (Result (HandlerError X U P) A) × (W × Shared Q H)

  -- A poll of `wrap_future(ReceiverFuture(receiver))`.
  pub poll_future_wrapper : R → Shared Q H → Polled (Handling F R)
  unfolding poll_receiver
  poll_future_wrapper r this =
      let (p, after) = poll_receiver chans r this in (async_of p, (receiving r, after))

  -- The closure's result is polled at once, if it is a future.
  pub on_queued : F → Result (HandlerError X U P) R × Shared Q H → Polled (Handling F R)
  unfolding poll_future_wrapper
  on_queued f (Result.ok r, this) = poll_future_wrapper r this
  on_queued f (Result.err e, this) = (Poll.ready (Result.err e), (reading_form f, this))

  pub on_form : Method → Poll (Result X Form) × F → Shared Q H → Polled (Handling F R)
  unfolding on_queued
  on_form m (Poll.ready map, f) this =
      on_queued f (rocks_handler_impl parsers segqueue chans m map this)
  on_form m (Poll.pending, f) this = (Poll.pending, (reading_form f, this))
  on_form m (Poll.panic, f) this = (Poll.panic, (reading_form f, this))

  -- A poll of what stands within the timeout.
  pub poll_request : Method → Handling F R → Shared Q H → Polled (Handling F R)
  unfolding on_form poll_future_wrapper
  poll_request m (reading_form f) this = on_form m (poll_form f) this
  poll_request m (receiving r) this = poll_future_wrapper r this

  -- A poll of the future of `rocks_handler_impl`.
  pub poll_handler :
      Method
      → Handling F R
      → D
      → Shared Q H
      → Poll (Result (TimedError T (HandlerError X U P)) A) × (Handling F R × D × Shared Q H)
  unfolding poll_request
  poll_handler m w d this =
      let (p, (v, after)) = poll_request m w this in
      let (q, rest) = timeout.poll p d in (map_timed q, (v, rest, after))

  -- The future is polled in turn with what others do to the queue and the channels: what it gives, if
  -- it does within these polls.
  pub drive :
      Method
      → List (Shared Q H → Shared Q H)
      → Handling F R
      → D
      → Shared Q H
      → Option (Result (TimedError T (HandlerError X U P)) A)
  unfolding poll_handler
  drive m [] w d this = none
  drive m (event ∷ events) w d this =
      let (p, (v, rest, after)) = poll_handler m w d (event this) in
      next p (drive m events v rest after)
