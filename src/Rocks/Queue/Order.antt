-- ===== src/Rocks/Queue/Order.antt =====
-- In which order the reader of the queue gets the packets of the requests.
use rocks.Base.{
  ◌≡◌, refl, sym, ap, ◌∙◌, List, [], ◌∷◌, ◌++◌, append-nil, append_assoc, Option, none, some,
}
use rocks.Base.Words.{Bytes}
use rocks.Error.{Result}
use rocks.Futures.{Poll}
use rocks.Rocks.Packet.{Method, Field, Parsers, PacketError, RocksPacket, new}
use rocks.Rocks.Queue.{
  SegQueue, Channels, Shared, as_poll, poll_receiver, poll_segqueue, queued, with_form,
  rocks_handler_impl,
}

abbrev pub front : {A : Type 0} → Option A → List A
front none = []
front (some x) = x ∷ []

-- What crossbeam documents of the queue: a push appends, and a pop takes the first.
pub record QueueLaws {Q A : Type 0} (segqueue : SegQueue Q A) : Type 0 where
  pub contents : Q → List A
  pub contents-push : (x : A) (q : Q) → contents (segqueue.push x q) ≡ contents q ++ x ∷ []
  pub contents-pop : (q : Q) → contents q ≡ front (segqueue.pop q).0 ++ contents (segqueue.pop q).1

module _ {Q H S R A U P E Uuid : Type 0} (X : Type 0) (parsers : Parsers Uuid U P E)
    (segqueue : SegQueue Q (RocksPacket Uuid S)) (chans : Channels H S R A) where
  -- A request to the handler with its method and form, a poll of a request's future, or a poll of the
  -- reader's.
  pub data Call : Type 0 where
    request : Method → Result X (Field → Option Bytes) → Call
    receive : R → Call
    read : Call

  -- The packet that a request is for, if it is for one; the sender in it is of a channel of its own.
  abbrev pub accepted : Result (PacketError U P) (RocksPacket Uuid S) → List (RocksPacket Uuid S)
  accepted (Result.ok pkt) = pkt ∷ []
  accepted (Result.err e) = []

  abbrev pub asked :
      Method → Result X (Field → Option Bytes) → Shared Q H → List (RocksPacket Uuid S)
  asked m (Result.ok map) this = accepted (new parsers m map (chans.bounded this.channels).0.0)
  asked m (Result.err e) this = []

  abbrev pub polled : Poll (RocksPacket Uuid S) → List (RocksPacket Uuid S)
  polled (Poll.ready pkt) = pkt ∷ []
  polled Poll.pending = []
  polled Poll.panic = []

  -- The state after a call, the packets that it asks for, and those that it reads.
  abbrev pub after : Call → Shared Q H → Shared Q H
  after (request m form) this = (rocks_handler_impl parsers segqueue chans m form this).1
  after (receive r) this = (poll_receiver chans r this).1
  after read this = (poll_segqueue segqueue this).1

  abbrev pub asks : Call → Shared Q H → List (RocksPacket Uuid S)
  asks (request m form) this = asked m form this
  asks (receive r) this = []
  asks read this = []

  abbrev pub reads : Call → Shared Q H → List (RocksPacket Uuid S)
  reads (request m form) this = []
  reads (receive r) this = []
  reads read this = polled (poll_segqueue segqueue this).0

  -- The same of a sequence of calls.
  pub all_after : List Call → Shared Q H → Shared Q H
  all_after [] this = this
  all_after (c ∷ cs) this = all_after cs (after c this)

  pub all_asked : List Call → Shared Q H → List (RocksPacket Uuid S)
  all_asked [] this = []
  all_asked (c ∷ cs) this = asks c this ++ all_asked cs (after c this)

  pub all_read : List Call → Shared Q H → List (RocksPacket Uuid S)
  all_read [] this = []
  all_read (c ∷ cs) this = reads c this ++ all_read cs (after c this)

  module _ (laws : QueueLaws segqueue) where
    queued_contents :
        (r : Result (PacketError U P) (RocksPacket Uuid S)) (receiver : R) (this : Shared Q H)
        → laws.contents this.queue ++ accepted r
          ≡ laws.contents (queued {X = X} parsers segqueue chans r receiver this).1.queue
    unfolding queued
    queued_contents (Result.ok pkt) receiver this = sym (laws.contents-push pkt this.queue)
    queued_contents (Result.err e) receiver this = append-nil _

    request_contents :
        (m : Method) (form : Result X (Field → Option Bytes)) (this : Shared Q H)
        → laws.contents this.queue ++ asked m form this
          ≡ laws.contents (rocks_handler_impl parsers segqueue chans m form this).1.queue
    unfolding rocks_handler_impl with_form
    request_contents m (Result.ok map) this = queued_contents _ _ _
    request_contents m (Result.err e) this = append-nil _

    front-polled : (o : Option (RocksPacket Uuid S)) → front o ≡ polled (as_poll o)
    front-polled none = refl
    front-polled (some x) = refl

    -- What waits before a call and what it asks for is what it reads and what waits after it.
    call_contents :
        (c : Call) (this : Shared Q H)
        → laws.contents this.queue ++ asks c this
          ≡ reads c this ++ laws.contents (after c this).queue
    unfolding poll_receiver poll_segqueue
    call_contents (request m form) this = request_contents m form this
    call_contents (receive r) this = append-nil _
    call_contents read this =
        append-nil _
        ∙ laws.contents-pop this.queue
        ∙ ap (λ l. l ++ laws.contents (segqueue.pop this.queue).1)
            (front-polled (segqueue.pop this.queue).0)

    -- Whatever calls of the handlers, of their futures and of the reader's follow on each other, the
    -- packets that the reader gets, in order, and then those that still wait are those that waited at
    -- first and then the packets of the requests, in order: none is lost, repeated or overtaken, and a
    -- request that is refused leaves none.
    pub read_in_turn :
        (cs : List Call) (this : Shared Q H)
        → laws.contents this.queue ++ all_asked cs this
          ≡ all_read cs this ++ laws.contents (all_after cs this).queue
    unfolding all_after all_asked all_read
    read_in_turn [] this = append-nil _
    read_in_turn (c ∷ cs) this =
        sym (append_assoc (laws.contents this.queue) (asks c this) (all_asked cs (after c this)))
        ∙ ap (λ l. l ++ all_asked cs (after c this)) (call_contents c this)
        ∙ append_assoc (reads c this) (laws.contents (after c this).queue) _
        ∙ ap (λ l. reads c this ++ l) (read_in_turn cs (after c this))
        ∙ sym (append_assoc (reads c this) (all_read cs (after c this)) _)
