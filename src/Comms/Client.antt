-- ===== src/Comms/Client.antt =====
-- `ValidatorClientImpl` (include/comms/client.h, lib/comms/client.cc): one queue and one thread for
-- each server. The messages that the threads hand to the transport are collected in `delivered`.
use cosicoin.Base.{length, take, ◌%◌, ◌^◌, none, some, List, [], ◌∷◌, ◌++◌, list_eq, nat_eq}
use cosicoin.Base.Text.{Bytes}
use cosicoin.Base.Dict.{Dict, lookup, insert}
use cosicoin.Base.Result.{Result, ok, err, undefined_behaviour, ◌>>=◌}
use cosicoin.Blockchain.Message.{Message}

pub record Client : Type 0 where
  pub servers : List Bytes
  pub leader : Bytes
  pub message_queues : Dict Bytes (List Message)
  pub delivered : List (Bytes × Message)

-- The loop of `startThreads_`: an empty queue for each address.
unfoldable pub start_queues : List Bytes → Dict Bytes (List Message) → Dict Bytes (List Message)
start_queues [] q = q
start_queues (a ∷ rest) q = start_queues rest (insert a [] q)

-- The number of servers is kept in a `uint8_t`, so the others beyond it get no queue.
unfoldable pub start_threads : List Bytes → Dict Bytes (List Message)
unfolding start_queues
start_threads servers = start_queues (take (length servers % 2 ^ 8) servers) []

-- The constructor, with the addresses of the settings.
unfoldable pub new_client : List Bytes → Bytes → Client
unfolding start_threads
new_client servers leader = record {
  servers = servers;
  leader = leader;
  message_queues = start_threads servers;
  delivered = [];
}

-- `message_queues_[a]->push(m)`: without a queue a null pointer.
unfoldable pub push_to :
    Bytes → Message → Dict Bytes (List Message) → Result (Dict Bytes (List Message))
push_to a m q = elim (lookup a q) [
  | none ↦ err undefined_behaviour
  | some ms ↦ ok (insert a (ms ++ m ∷ []) q)
]

unfoldable pub push_all :
    List Bytes → Message → Dict Bytes (List Message) → Result (Dict Bytes (List Message))
push_all [] m q = ok q
push_all (a ∷ rest) m q = do q' ← push_to a m q; push_all rest m q'

-- `Broadcast`
unfoldable pub client_broadcast : Message → Client → Result Client
client_broadcast m c = do
  q ← push_all c.servers m c.message_queues
  ok (record c { message_queues = q })

-- `SendToLeader`
unfoldable pub send_to_leader : Message → Client → Result Client
send_to_leader m c = do
  q ← push_to c.leader m c.message_queues
  ok (record c { message_queues = q })

unfoldable pub pop_front : Bytes → List Message → Client → Client
pop_front a [] c = c
pop_front a (m ∷ ms) c = record c {
  message_queues = insert a ms c.message_queues;
  delivered = c.delivered ++ (a, m) ∷ [];
}

-- One turn of the thread of a server, `RunThread_`: it waits while the queue is empty.
unfoldable pub run_thread : Bytes → Client → Client
unfolding pop_front
run_thread a c = elim (lookup a c.message_queues) [ none ↦ c | some ms ↦ pop_front a ms c ]
