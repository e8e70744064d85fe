-- ===== src/Comms/Server.antt =====
-- `ChatServiceImpl` (include/comms/server.h, lib/comms/server.cc): the calls that wait in the
-- completion queue, and the queues that they fill. `Talk` and `NewTx` differ in the type that they
-- queue alone, so one definition stands for both. A request is given as the program decodes it.
use cosicoin.Base.{
  Option, ℕ, zero, suc, Bool, true, false, none, some, List, [], ◌∷◌, ◌++◌, get_elem?, erase_at,
  nat_eq,
}
use cosicoin.Base.Dict.{Dict, lookup}
use cosicoin.Base.Result.{Result, ok, err, undefined_behaviour, ◌>>=◌}
use cosicoin.Blockchain.Coins.{UtxoList}
use cosicoin.Blockchain.Transaction.{Transaction}
use cosicoin.Blockchain.Message.{Message}

pub data CallStatus : Type 0 where
  create start_process finish : CallStatus

-- A constructor calls `Proceed` at once: a new call waits for its request.
unfoldable pub new_call : List CallStatus → List CallStatus
new_call cs = cs ++ start_process ∷ []

unfoldable pub set_status : ℕ → CallStatus → List CallStatus → List CallStatus
set_status i c [] = []
set_status zero c (x ∷ cs) = c ∷ cs
set_status (suc i) c (x ∷ cs) = x ∷ set_status i c cs

module _ (A : Type 0) where
  -- The calls of one kind and their queue, the oldest first.
  pub record Intake : Type 0 where
    pub calls : List CallStatus
    pub queue : List A

module _ {A : Type 0} where
  -- What `HandleRpcs` starts with.
  abbrev pub first_intake : Intake A
  first_intake = record { calls = start_process ∷ []; queue = [] }

  -- `Proceed` of the call with this number, and whether it queued its request. A tag without a call
  -- is a dangling pointer.
  unfoldable pub proceed : ℕ → A → Intake A → Result (Bool × Intake A)
  unfolding new_call set_status
  proceed i a s = elim (get_elem? s.calls i) [
    | none ↦ err undefined_behaviour
    | some create ↦ ok (false, record s { calls = set_status i start_process s.calls })
    | some start_process ↦ ok (
      true,
      record s { calls = set_status i finish (new_call s.calls); queue = s.queue ++ a ∷ [] },
    )
    | some finish ↦ ok (false, record s { calls = erase_at s.calls i })
  ]

  -- `newRequests`, `newConsensusMessages`
  unfoldable pub has_new : Intake A → Bool
  has_new s = elim s.queue [ [] ↦ false | x ∷ xs ↦ true ]

  -- `getMessages`, `getTransactions`: whether there was something, the list filled, the rest.
  unfoldable pub take_all : List A → Intake A → Bool × List A × Intake A
  unfolding has_new
  take_all into s = (has_new s, into ++ s.queue, record s { queue = [] })

pub record Server : Type 0 where
  pub talk : Intake Message
  pub new_tx : Intake Transaction
  pub sync_calls : List CallStatus
  pub utxolists : Dict ℕ UtxoList

-- `setUTXOlists`
unfoldable pub server_set_utxolists : Dict ℕ UtxoList → Server → Server
server_set_utxolists us s = record s { utxolists = us }

-- `clearUTXOlists`
unfoldable pub server_clear_utxolists : Server → Server
server_clear_utxolists s = record s { utxolists = [] }

-- The answer to a sync: the empty list for an unknown wallet.
unfoldable pub sync_reply : ℕ → Server → UtxoList
sync_reply id s = elim (lookup id s.utxolists) [ none ↦ [] | some us ↦ us ]

-- `CallDataTalk::Proceed`
unfoldable pub talk_proceed : ℕ → Message → Server → Result Server
talk_proceed i m s = do (_, talk) ← proceed i m s.talk; ok (record s { talk = talk })

-- `CallDataNewTx::Proceed`
unfoldable pub new_tx_proceed : ℕ → Transaction → Server → Result Server
new_tx_proceed i t s = do (_, new_tx) ← proceed i t s.new_tx; ok (record s { new_tx = new_tx })

-- `CallDataSync::Proceed`, with the answer that it sends.
unfoldable pub sync_proceed : ℕ → ℕ → Server → Result (Option UtxoList × Server)
unfolding sync_reply
sync_proceed i id s = elim (get_elem? s.sync_calls i) [
  | none ↦ err undefined_behaviour
  | some create ↦ ok (none, record s { sync_calls = set_status i start_process s.sync_calls })
  | some start_process ↦ ok (
    some (sync_reply id s),
    record s { sync_calls = set_status i finish (new_call s.sync_calls) },
  )
  | some finish ↦ ok (none, record s { sync_calls = erase_at s.sync_calls i })
]

-- `getMessages`
unfoldable pub get_messages : List Message → Server → Bool × List Message × Server
get_messages into s =
    let (found, taken, talk) = take_all into s.talk in (found, taken, record s { talk = talk })

-- `getTransactions`
unfoldable pub get_transactions : List Transaction → Server → Bool × List Transaction × Server
get_transactions into s =
    let (found, taken, new_tx) = take_all into s.new_tx in
    (found, taken, record s { new_tx = new_tx })
