-- ===== src/Rocks/Queue/Timed/Answered.antt =====
-- When the future of a request to the service of src/rocks/actix_app.rs is answered.
use rocks.Base.{
  ℕ, zero, suc, ◌≡◌, refl, ap, ◌∙◌, Bool, true, false, List, [], ◌∷◌, ◌++◌, length, Option, none,
  some,
}
use rocks.Error.{Result}
use rocks.Futures.{Poll}
use rocks.Rocks.Packet.{Method, Parsers, RocksPacket, new}
use rocks.Rocks.Queue.{
  SegQueue, Channels, HandlerError, elapsed, TimedError, elapsed_text, Shared, poll_receiver,
  queued, with_form, rocks_handler_impl,
}
use rocks.Rocks.Queue.Timed.{
  Form, Timeout, Handling, reading_form, receiving, poll_future_wrapper, on_queued, on_form,
  poll_request, poll_handler, drive,
}

-- What crossbeam documents of a channel: it is empty at first, and a receive gives what waits in it.
pub record ChannelLaws {H S R A : Type 0} (chans : Channels H S R A) : Type 0 where
  pub waiting : H → R → Option A
  pub waiting-bounded : (h : H) → waiting (chans.bounded h).1 (chans.bounded h).0.1 ≡ none
  pub received : (r : R) (h : H) → (chans.try_recv r h).0 ≡ waiting h r
  pub stays_empty : (r : R) (h : H) → waiting h r ≡ none → waiting (chans.try_recv r h).1 r ≡ none

-- What tokio documents of `Timeout`: the value of its future counts, and else its time.
pub record TimeoutLaws {D T E A : Type 0} (timeout : Timeout D T E A) : Type 0 where
  pub is_elapsed : D → Bool
  pub in_time : (d : D) → is_elapsed d ≡ false → (timeout.poll Poll.pending d).0 ≡ Poll.pending
  pub too_late :
      (d : D)
      → is_elapsed d ≡ true
      → (timeout.poll Poll.pending d).0 ≡ Poll.ready (Result.err elapsed)
  pub has_value :
      (v : A) (d : D) → (timeout.poll (Poll.ready (Result.ok v)) d).0 ≡ Poll.ready (Result.ok v)

module _ {Q H S R A X Uuid U P E F D T : Type 0} (parsers : Parsers Uuid U P E)
    (segqueue : SegQueue Q (RocksPacket Uuid S)) (chans : Channels H S R A)
    (poll_form : F → Poll (Result X Form) × F) (timeout : Timeout D T (HandlerError X U P) A)
    (channel_laws : ChannelLaws chans) (laws : TimeoutLaws timeout) where
  abbrev Event : Type 0
  Event = Shared Q H → Shared Q H

  -- The delay after so many polls that find nothing.
  abbrev pub later : ℕ → D → D
  later zero d = d
  later (suc n) d = later n (timeout.poll Poll.pending d).1

  -- So many polls that find nothing are made before the time is over.
  abbrev pub InTime : ℕ → D → Type 0
  InTime zero d = Unit {0}
  InTime (suc n) d = (laws.is_elapsed d ≡ false) × InTime n (timeout.poll Poll.pending d).1

  -- What others do leaves the channel of `r` as it is.
  abbrev pub AllQuiet : R → List Event → Type 0
  AllQuiet r [] = Unit {0}
  AllQuiet r (event ∷ events) =
      ((this : Shared Q H)
        → channel_laws.waiting (event this).channels r ≡ channel_laws.waiting this.channels r)
      × AllQuiet r events

  module _ (m : Method) (r : R) where
    drives :
        List Event
        → Handling F R
        → D
        → Shared Q H
        → Option (Result (TimedError T (HandlerError X U P)) A)
    drives = drive parsers segqueue chans poll_form timeout m

    drives_answered :
        (event : Event) (events : List Event) (v : A) (d : D) (this : Shared Q H)
        → channel_laws.waiting (event this).channels r ≡ some v
        → drives (event ∷ events) (receiving r) d this ≡ some (Result.ok v)
    unfolding drives drive poll_handler poll_request poll_future_wrapper poll_receiver
    drives_answered event events v d this h =
        rw (channel_laws.received r (event this).channels, h, laws.has_value v d) refl

    -- The state behind a poll that finds nothing.
    empty_handed : Shared Q H → Shared Q H
    empty_handed this = record this { channels = (chans.try_recv r this.channels).1 }

    drives_on :
        (event : Event) (events : List Event) (d : D) (this : Shared Q H)
        → channel_laws.waiting (event this).channels r ≡ none
        → laws.is_elapsed d ≡ false
        → drives (event ∷ events) (receiving r) d this
          ≡ drives events (receiving r) (timeout.poll Poll.pending d).1 (empty_handed (event this))
    unfolding drives drive poll_handler poll_request poll_future_wrapper poll_receiver empty_handed
    drives_on event events d this h k =
        rw (channel_laws.received r (event this).channels, h, laws.in_time d k) refl

    drives_late :
        (event : Event) (events : List Event) (d : D) (this : Shared Q H)
        → channel_laws.waiting (event this).channels r ≡ none
        → laws.is_elapsed d ≡ true
        → drives (event ∷ events) (receiving r) d this ≡ some (Result.err elapsed_text)
    unfolding drives drive poll_handler poll_request poll_future_wrapper poll_receiver
    drives_late event events d this h k =
        rw (channel_laws.received r (event this).channels, h, laws.too_late d k) refl

    -- The polls that find nothing lead to a state in which nothing waits.
    waits_on :
        (before after : List Event) (d : D) (this : Shared Q H)
        → channel_laws.waiting this.channels r ≡ none
        → AllQuiet r before
        → InTime (length before) d
        → (that : Shared Q H) × (channel_laws.waiting that.channels r ≡ none)
          × (drives (before ++ after) (receiving r) d this
              ≡ drives after (receiving r) (later (length before) d) that)
    unfolding empty_handed
    waits_on [] after d this h quiet timely = (this, h, refl)
    waits_on (event ∷ before) after d this h quiet timely =
        let empty = quiet.0 this ∙ h in
        let (that, none_waits, same) =
          waits_on before after (timeout.poll Poll.pending d).1 (empty_handed (event this))
            (channel_laws.stays_empty r (event this).channels empty) quiet.1 timely.1 in
        (that, none_waits, drives_on event (before ++ after) d this empty timely.0 ∙ same)

  -- The channel that a request gets.
  abbrev pub channel_of : Shared Q H → S × R
  channel_of this = (chans.bounded this.channels).0

  module _ (m : Method) (map : Form) (this : Shared Q H) (pkt : RocksPacket Uuid S)
      (accepts : new parsers m map (channel_of this).0 ≡ Result.ok pkt) where
    -- The state once the packet is in the queue.
    with_packet : Shared Q H
    with_packet = record {
      queue = segqueue.push pkt this.queue;
      channels = (chans.bounded this.channels).1;
    }

    queues :
        rocks_handler_impl {X = X} parsers segqueue chans m (Result.ok map) this
        ≡ (Result.ok (channel_of this).1, with_packet)
    unfolding rocks_handler_impl with_form queued with_packet
    queues = rw accepts refl

    drives_queued :
        (f rest : F) (events : List Event) (d : D)
        → poll_form f ≡ (Poll.ready (Result.ok map), rest)
        → laws.is_elapsed d ≡ false
        → drives m (channel_of this).1 ((λ s. s) ∷ events) (reading_form f) d this
          ≡ drives m
              (channel_of this).1
              events
              (receiving (channel_of this).1)
              (timeout.poll Poll.pending d).1
              (empty_handed m (channel_of this).1 with_packet)
    unfolding drives drive poll_handler poll_request on_form on_queued poll_future_wrapper
        poll_receiver empty_handed with_packet
    drives_queued f rest events d h k =
        rw
          (
            h,
            queues,
            channel_laws.received (channel_of this).1 (chans.bounded this.channels).1,
            channel_laws.waiting-bounded this.channels,
            laws.in_time d k,
          )
          refl

    -- From the poll that has the form to the polls after those that find nothing.
    queued_waits :
        (f rest : F) (before after : List Event) (d : D)
        → poll_form f ≡ (Poll.ready (Result.ok map), rest)
        → AllQuiet (channel_of this).1 before
        → InTime (suc (length before)) d
        → (that : Shared Q H) × (channel_laws.waiting that.channels (channel_of this).1 ≡ none)
          × (drives m (channel_of this).1 ((λ s. s) ∷ before ++ after) (reading_form f) d this
              ≡ drives m
                  (channel_of this).1
                  after
                  (receiving (channel_of this).1)
                  (later (suc (length before)) d)
                  that)
    unfolding empty_handed with_packet
    queued_waits f rest before after d h quiet timely =
        let (that, none_waits, same) =
          waits_on m (channel_of this).1 before after (timeout.poll Poll.pending d).1
            (empty_handed m (channel_of this).1 with_packet)
            (channel_laws.stays_empty _ _ (channel_laws.waiting-bounded this.channels)) quiet
            timely.1 in
        (that, none_waits, drives_queued f rest (before ++ after) d h timely.0 ∙ same)

    -- Once the form of a request is there, the future is polled, and the form stands for a packet, the
    -- packet is put into the queue, with the sender of a new channel. If what others do before each of
    -- the next polls leaves that channel as it is, and an answer is then sent on it, and all polls that
    -- find none are made before the time of the request is over, the future gives that answer at the
    -- poll after it.
    pub request_answered :
        (f rest : F) (before after : List Event) (answer : Event) (v : A) (d : D)
        → poll_form f ≡ (Poll.ready (Result.ok map), rest)
        → AllQuiet (channel_of this).1 before
        → ((s : Shared Q H) → channel_laws.waiting (answer s).channels (channel_of this).1 ≡ some v)
        → InTime (suc (length before)) d
        → (rocks_handler_impl {X = X} parsers segqueue chans m (Result.ok map) this).1.queue
            ≡ segqueue.push pkt this.queue
          × drive parsers segqueue chans poll_form timeout m
              ((λ s. s) ∷ before ++ answer ∷ after)
              (reading_form f)
              d
              this
            ≡ some (Result.ok v)
    unfolding drives with_packet
    request_answered f rest before after answer v d h quiet sends timely =
        let (that, none_waits, same) =
          queued_waits f rest before (answer ∷ after) d h quiet timely in
        (
          ap (λ p. p.1.queue) queues,
          same
              ∙ drives_answered m (channel_of this).1 answer after v (later (suc (length before)) d)
                  that (sends that),
        )

    -- If nothing is sent on the channel until its time is over, the request fails for that reason at
    -- the first poll after it.
    pub request_times_out :
        (f rest : F) (before after : List Event) (last : Event) (d : D)
        → poll_form f ≡ (Poll.ready (Result.ok map), rest)
        → AllQuiet (channel_of this).1 before
        → AllQuiet (channel_of this).1 (last ∷ [])
        → InTime (suc (length before)) d
        → laws.is_elapsed (later (suc (length before)) d) ≡ true
        → drive parsers segqueue chans poll_form timeout m
            ((λ s. s) ∷ before ++ last ∷ after)
            (reading_form f)
            d
            this
          ≡ some (Result.err elapsed_text)
    unfolding drives
    request_times_out f rest before after last d h quiet still timely over =
        let (that, none_waits, same) = queued_waits f rest before (last ∷ after) d h quiet timely in
        same
        ∙ drives_late m (channel_of this).1 last after (later (suc (length before)) d) that
            (still.0 that ∙ none_waits) over
