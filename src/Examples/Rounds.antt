-- ===== src/Examples/Rounds.antt =====
-- A listener that fails once, and the handlers of three requests with a reader between them.
use rocks.Base.{ℕ, suc, ◌≡◌, refl, List, [], ◌∷◌, ◌++◌, Option, none, some, arith}
use rocks.Base.Words.{Bytes}
use rocks.Addr.{v4}
use rocks.Error.{Result}
use rocks.Rocks.Packet.{Method, Field, RocksPacket}
use rocks.Store
use rocks.Rocks.Incoming.{RocksIncoming, Sockets, start_server, client, start_impl}
use rocks.Rocks.Incoming.Loop.{ends, gives, start_impl_spawns}
use rocks.Rocks.Queue.{SegQueue, Channels, Shared}
use rocks.Rocks.Queue.Order.{
  QueueLaws, front, Call, request, receive, read, all_after, all_asked, all_read, read_in_turn,
}
use rocks.Examples.Packets.{parsers, form}

abbrev first_of : {A : Type 0} → List A → Option A × List A
first_of [] = (none, [])
first_of (x ∷ xs) = (some x, xs)

-- A listener is what it will give.
abbrev sockets : Sockets ℕ ℕ ℕ (List (Result ℕ ℕ)) ℕ
sockets = record {
  bind = λ a. Result.ok (Result.ok 4 ∷ Result.err 2 ∷ Result.ok 6 ∷ []);
  next = first_of;
  new_session = λ c. c;
  connect = λ a. Result.err 1;
  copy = λ t s. Result.ok tt;
}

abbrev local : RocksIncoming ℕ ℕ ℕ
local = record {
  ssl_conf = 0;
  connection_manager = Store.new;
  listen_addr = record { ip = v4 127 0 0 1; port = 8443 };
  fallback_addr = record { ip = v4 127 0 0 1; port = 8888 };
}

start_impl_spawns_example :
    start_impl sockets 9 local
    ≡ some (
      Result.ok tt,
      start_server local.fallback_addr
          ∷ client (Result.ok 4)
          ∷ client (Result.err 2)
          ∷ client (Result.ok 6)
          ∷ [],
    )
start_impl_spawns_example =
    start_impl_spawns sockets local 9 refl (gives refl (gives refl (gives refl (ends refl))))
      (omega arith)

abbrev pub Waiting : Type 0
Waiting = List (RocksPacket ℕ ℕ)

abbrev pub segqueue : SegQueue Waiting (RocksPacket ℕ ℕ)
segqueue = record { push = λ x q. q ++ x ∷ []; pop = first_of }

-- Channels are numbered, and none has an answer.
abbrev chans : Channels ℕ ℕ ℕ Bytes
chans = record { bounded = λ h. ((h, h), suc h); try_recv = λ r h. (none, h) }

of_first : (q : Waiting) → q ≡ front (first_of q).0 ++ (first_of q).1
of_first [] = refl
of_first (x ∷ xs) = refl

abbrev queue_laws : QueueLaws segqueue
queue_laws = record { contents = λ q. q; contents-push = λ x q. refl; contents-pop = of_first }

abbrev of_conn : Field → Option Bytes
of_conn Field.conn = some (5 ∷ [])
of_conn _ = none

abbrev calls : List (Call {S = ℕ} {R = ℕ} ℕ parsers segqueue chans)
calls =
    request Method.other (Result.ok form)
    ∷ request Method.get (Result.err 3)
    ∷ read
    ∷ request Method.post (Result.ok of_conn)
    ∷ receive 0
    ∷ []

abbrev idle : Shared Waiting ℕ
idle = record { queue = []; channels = 0 }

read_in_turn_example :
    all_asked ℕ parsers segqueue chans calls idle
    ≡ all_read ℕ parsers segqueue chans calls idle
      ++ (all_after ℕ parsers segqueue chans calls idle).queue
read_in_turn_example = read_in_turn ℕ parsers segqueue chans queue_laws calls idle
