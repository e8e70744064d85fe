-- ===== src/Comms/Delivery.antt =====
-- Each server gets each message once and in order (lib/comms/client.cc).
use cosicoin.Base.{
  ◌≡◌, refl, sym, inl, inr, Bool, some, List, [], ◌∷◌, ◌++◌, arith, Bool-cases, Option-cases,
  nat_eq, list_eq, list_beq_iff, contains, Distinct, take, length, ◌%◌, ◌^◌, if◌then◌else◌, ◌==◌,
}
use mathlib.Core.Path.{subst}
use mathlib.Core.List.{append_assoc, append-nil}
use cosicoin.Base.Text.{Bytes}
use cosicoin.Base.Dict.{Dict, lookup, insert, at_or, lookup-insert}
use cosicoin.Base.Result.{ok, >>=-eq-ok}
use cosicoin.Blockchain.Message.{Message}
use cosicoin.Comms.Client.{
  Client, new_client, start_queues, push_to, push_all, client_broadcast, send_to_leader, pop_front,
  run_thread, start_threads,
}

-- What the thread of one server delivered.
unfoldable pub delivered_to : Bytes → List (Bytes × Message) → List Message
delivered_to a [] = []
delivered_to a (entry ∷ ds) =
    let rest = delivered_to a ds in if entry.0 == a then entry.1 ∷ rest else rest

-- One more message for the addresses that the test holds of.
abbrev pub more : (Bytes → Bool) → Message → (Bytes → List Message) → Bytes → List Message
more p m e a = if p a then e a ++ m ∷ [] else e a

-- The clients that the program reaches, with the messages meant for each address. The threads take
-- their turns in any order.
pub data Sends : Client → (Bytes → List Message) → Type 0 where
  starts :
      (servers : List Bytes) (leader : Bytes)
      → Distinct servers
      → Sends (new_client servers leader) (λ a. [])
  broadcasts :
      {c c' : Client} {e : Bytes → List Message} (m : Message)
      → Sends c e
      → client_broadcast m c ≡ ok c'
      → Sends c' (more (contains c.servers) m e)
  leads :
      {c c' : Client} {e : Bytes → List Message} (m : Message)
      → Sends c e
      → send_to_leader m c ≡ ok c'
      → Sends c' (more (λ a. c.leader == a) m e)
  runs : {c : Client} {e : Bytes → List Message} (a : Bytes) → Sends c e → Sends (run_thread a c) e

pub record IsDelivering (c : Client) (e : Bytes → List Message) : Type 0 where
  pub distinct : Distinct c.servers
  pub in_order : (a : Bytes) → e a ≡ delivered_to a c.delivered ++ at_or [] a c.message_queues

at_or-insert :
    (a b : Bytes) (ms : List Message) (q : Dict Bytes (List Message))
    → at_or [] b (insert a ms q) ≡ (if a == b then ms else at_or [] b q)
at_or-insert a b ms q = ground (arith, lookup-insert q a b ms)

push_to_lem :
    (a b : Bytes) (m : Message) (q q' : Dict Bytes (List Message))
    → push_to a m q ≡ ok q'
    → at_or [] b q' ≡ more (λ x. a == x) m (λ x. at_or [] x q) b
unfolding push_to
push_to_lem a b m q q' e = elim (Option-cases (lookup a q)) [
  | inl missing ↦ absurd (ground arith)
  | inr (ms, found) ↦ ground (arith, e, found, at_or-insert a b (ms ++ m ∷ []) q, list_beq_iff a b)
]

push_all_lem :
    (rest : List Bytes) (b : Bytes) (m : Message) (q q' : Dict Bytes (List Message))
    → Distinct rest
    → push_all rest m q ≡ ok q'
    → at_or [] b q' ≡ more (contains rest) m (λ x. at_or [] x q) b
unfolding push_all
push_all_lem [] b m q q' d e = ground (arith, e)
push_all_lem (a ∷ rest) b m q q' d e =
    let (q1, p, r) = >>=-eq-ok (push_to a m q) _ e in
    ground (arith, d, push_to_lem a b m q q1 p, push_all_lem rest b m q1 q' d.1 r, list_beq_iff a b)

start_queues_lem :
    (rest : List Bytes) (q : Dict Bytes (List Message))
    → ((a : Bytes) → at_or [] a q ≡ [])
    → (a : Bytes) → at_or [] a (start_queues rest q) ≡ []
unfolding start_queues
start_queues_lem [] q g a = g a
start_queues_lem (b ∷ rest) q g a =
    start_queues_lem rest (insert b [] q) (λ x. ground (arith, at_or-insert b x [] q, g x)) a

delivered_to-append :
    (a : Bytes) (xs ys : List (Bytes × Message))
    → delivered_to a (xs ++ ys) ≡ delivered_to a xs ++ delivered_to a ys
unfolding delivered_to
delivered_to-append a [] ys = refl
delivered_to-append a (x ∷ xs) ys = ground (arith, delivered_to-append a xs ys)

broadcast_inv :
    (m : Message) (c c' : Client)
    → Distinct c.servers
    → client_broadcast m c ≡ ok c'
    → (c'.servers ≡ c.servers)
      × (c'.delivered ≡ c.delivered)
      × ((a : Bytes)
          → at_or [] a c'.message_queues
            ≡ more (contains c.servers) m (λ x. at_or [] x c.message_queues) a)
unfolding client_broadcast
broadcast_inv m c c' d e =
    let (q, p, r) = >>=-eq-ok (push_all c.servers m c.message_queues) _ e in
    (
      ground (arith, r),
      ground (arith, r),
      λ a. ground (arith, r, push_all_lem c.servers a m c.message_queues q d p),
    )

send_to_leader_inv :
    (m : Message) (c c' : Client)
    → send_to_leader m c ≡ ok c'
    → (c'.servers ≡ c.servers)
      × (c'.delivered ≡ c.delivered)
      × ((a : Bytes)
          → at_or [] a c'.message_queues
            ≡ more (λ x. c.leader == x) m (λ x. at_or [] x c.message_queues) a)
unfolding send_to_leader
send_to_leader_inv m c c' e =
    let (q, p, r) = >>=-eq-ok (push_to c.leader m c.message_queues) _ e in
    (
      ground (arith, r),
      ground (arith, r),
      λ a. ground (arith, r, push_to_lem c.leader a m c.message_queues q p),
    )

-- One more message for some addresses keeps the order.
more-IsDelivering :
    (p : Bytes → Bool) (m : Message) (c c' : Client) (e : Bytes → List Message)
    → IsDelivering c e
    → c'.servers ≡ c.servers
    → c'.delivered ≡ c.delivered
    → ((a : Bytes) → at_or [] a c'.message_queues ≡ more p m (λ x. at_or [] x c.message_queues) a)
    → IsDelivering c' (more p m e)
more-IsDelivering p m c c' e v s d q = record {
  distinct = subst (λ l. Distinct l) (sym s) v.distinct;
  in_order = λ a. ground (
    arith,
    d,
    q a,
    v.in_order a,
    append_assoc (delivered_to a c.delivered) (at_or [] a c.message_queues) (m ∷ []),
  );
}

popped-order :
    (a b : Bytes) (m : Message) (ms : List Message) (c : Client) (expected : List Message)
    → lookup a c.message_queues ≡ some (m ∷ ms)
    → expected ≡ delivered_to b c.delivered ++ at_or [] b c.message_queues
    → expected
      ≡ delivered_to b (c.delivered ++ (a, m) ∷ []) ++ at_or [] b (insert a ms c.message_queues)
unfolding delivered_to
popped-order a b m ms c expected found p = elim (Bool-cases (a == b)) [
  | inl same ↦
      let eq : a ≡ b = (list_beq_iff a b).0 same in
      let here : at_or [] b c.message_queues ≡ m ∷ ms =
        subst (λ x. at_or [] x c.message_queues ≡ m ∷ ms) eq (rw (found, at_or) refl) in
      ground (
        arith,
        p,
        same,
        here,
        delivered_to-append b c.delivered ((a, m) ∷ []),
        at_or-insert a b ms c.message_queues,
        append_assoc (delivered_to b c.delivered) (m ∷ []) ms,
      )
  | inr other ↦ ground (
    arith,
    p,
    other,
    delivered_to-append b c.delivered ((a, m) ∷ []),
    at_or-insert a b ms c.message_queues,
    append-nil (delivered_to b c.delivered),
  )
]

popped-IsDelivering :
    (a : Bytes) (m : Message) (ms : List Message) (c : Client) (e : Bytes → List Message)
    → IsDelivering c e
    → lookup a c.message_queues ≡ some (m ∷ ms)
    → IsDelivering (pop_front a (m ∷ ms) c) e
unfolding pop_front
popped-IsDelivering a m ms c e v found = record {
  distinct = v.distinct;
  in_order = λ b. popped-order a b m ms c (e b) found (v.in_order b);
}

run_thread-IsDelivering :
    (a : Bytes) (c : Client) (e : Bytes → List Message)
    → IsDelivering c e
    → IsDelivering (run_thread a c) e
unfolding run_thread
run_thread-IsDelivering a c e v = elim (Option-cases (lookup a c.message_queues)) [
  | inl missing ↦ rw (missing, run_thread) v
  | inr ([], found) ↦ rw (found, run_thread) v
  | inr (m ∷ ms, found) ↦ rw (found, run_thread) (popped-IsDelivering a m ms c e v found)
]

-- For distinct servers, whatever the order of turns of the threads and of broadcasts and messages to
-- the leader that find their queues: what was delivered to an address, and then what is queued for it, are the messages that
-- were meant for it, each once and in order.
pub Sends-IsDelivering : {c : Client} {e : Bytes → List Message} → Sends c e → IsDelivering c e
unfolding new_client start_threads delivered_to lookup
Sends-IsDelivering (starts servers leader d) = record {
  distinct = d;
  in_order = λ a. sym (start_queues_lem (take (length servers % 2 ^ 8) servers) [] (λ x. refl) a);
}
Sends-IsDelivering (broadcasts {c = c} {c' = c'} {e = e} m before p) =
    let v = Sends-IsDelivering before in
    let (s, d, q) = broadcast_inv m c c' v.distinct p in
    more-IsDelivering (contains c.servers) m c c' e v s d q
Sends-IsDelivering (leads {c = c} {c' = c'} {e = e} m before p) =
    let (s, d, q) = send_to_leader_inv m c c' p in
    more-IsDelivering (λ a. c.leader == a) m c c' e (Sends-IsDelivering before) s d q
Sends-IsDelivering (runs {c = c} {e = e} a before) =
    run_thread-IsDelivering a c e (Sends-IsDelivering before)
