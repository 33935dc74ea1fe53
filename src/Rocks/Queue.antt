-- ===== src/Rocks/Queue.antt =====
-- The handler of src/rocks/actix_app.rs and the queue that it shares with the reader of the packets.
-- The queue and the channels are crossbeam's, and are parameters.
pub mod Order
pub mod Timed
use rocks.Base.{ℕ, Option, none, some}
use rocks.Base.Words.{Bytes}
use rocks.Error.{Result}
use rocks.Futures.{Poll}
use rocks.Rocks.Packet.{Method, Field, Parsers, PacketError, RocksPacket, new}

-- `SegQueue`; a pop gives none where the queue is empty.
pub record SegQueue (Q A : Type 0) : Type 0 where
  pub push : A → Q → Q
  pub pop : Q → Option A × Q

-- `bounded(1)` and `try_recv`, with what they change in `H`.
pub record Channels (H S R A : Type 0) : Type 0 where
  pub bounded : H → (S × R) × H
  pub try_recv : R → H → Option A × H

-- The errors of a handler: that of `urlencoded`, or that of `RocksPacket::new`.
pub data HandlerError (X U P : Type 0) : Type 0 where
  form_error : X → HandlerError X U P
  packet_error : PacketError U P → HandlerError X U P

-- The errors of `Timeout`, and what they become: `inner` is the handler's own.
pub data TimeoutError (T E : Type 0) : Type 0 where
  inner : E → TimeoutError T E
  elapsed : TimeoutError T E
  timer : T → TimeoutError T E

pub data TimedError (T E : Type 0) : Type 0 where
  from_inner : E → TimedError T E
  elapsed_text : TimedError T E
  from_timer : T → TimedError T E

abbrev pub timed_error : {T E : Type 0} → TimeoutError T E → TimedError T E
timed_error (inner e) = from_inner e
timed_error elapsed = elapsed_text
timed_error (timer e) = from_timer e

-- The queue and the channels.
pub record Shared (Q H : Type 0) : Type 0 where
  pub queue : Q
  pub channels : H

-- `ReceiverFuture::poll`, and `SegQueueFuture::poll`.
abbrev pub as_poll : {A : Type 0} → Option A → Poll A
as_poll (some t) = Poll.ready t
as_poll none = Poll.pending

-- A poll of `ReceiverFuture`.
unfoldable pub poll_receiver :
    {Q H S R A : Type 0} → Channels H S R A → R → Shared Q H → Poll A × Shared Q H
poll_receiver chans r this =
    let (t, h) = chans.try_recv r this.channels in (as_poll t, record this { channels = h })

-- A poll of `segqueue_future`.
unfoldable pub poll_segqueue : {Q H A : Type 0} → SegQueue Q A → Shared Q H → Poll A × Shared Q H
poll_segqueue segqueue this =
    let (t, q) = segqueue.pop this.queue in (as_poll t, record this { queue = q })

module _ {Q H S R A X Uuid U P E : Type 0} (parsers : Parsers Uuid U P E)
    (segqueue : SegQueue Q (RocksPacket Uuid S)) (chans : Channels H S R A) where
  pub queued :
      Result (PacketError U P) (RocksPacket Uuid S)
      → R
      → Shared Q H
      → Result (HandlerError X U P) R × Shared Q H
  queued (Result.ok pkt) receiver this =
      (Result.ok receiver, record this { queue = segqueue.push pkt this.queue })
  queued (Result.err e) receiver this = (Result.err (packet_error e), this)

  -- The closure that is run with the form of a request.
  pub with_form :
      Method → (Field → Option Bytes) → Shared Q H → Result (HandlerError X U P) R × Shared Q H
  unfolding queued
  with_form method map this =
      let ((sender, receiver), h) = chans.bounded this.channels in
      queued (new parsers method map sender) receiver (record this { channels = h })

  -- `rocks_handler_impl`: the receiver that its future waits on, or the error.
  unfoldable pub rocks_handler_impl :
      Method
      → Result X (Field → Option Bytes)
      → Shared Q H
      → Result (HandlerError X U P) R × Shared Q H
  unfolding with_form
  rocks_handler_impl method (Result.ok map) this = with_form method map this
  rocks_handler_impl method (Result.err e) this = (Result.err (form_error e), this)
