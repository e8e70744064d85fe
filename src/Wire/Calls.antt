-- ===== src/Wire/Calls.antt =====
-- The calls as they cross the wire: `ChatClient` of lib/comms/client.cc, and what `Proceed` of
-- lib/comms/server.cc does with a request.
use cosicoin.Base.{
  ℕ, Option, none, some, List, [], ◌∷◌, ◌++◌, ◌≡◌, refl, nat_eq, list_eq, get_elem?,
}
use cosicoin.Base.Result.{Result, ok, err, ◌>>=◌, >>=-eq-ok, undefined_behaviour}
use cosicoin.Comms.Server.{
  create, start_process, finish, Server, sync_proceed, sync_reply, talk_proceed, new_tx_proceed,
  set_status, new_call, proceed,
}
use mathlib.Core.Option
use cosicoin.Host.{Host}
use cosicoin.Wire.Proto.{ProtoMessage, ProtoTransaction, ProtoUtxo}
use cosicoin.Blockchain.Message.{Message, no_message}
use cosicoin.Blockchain.Transaction.{Transaction}
use cosicoin.Texts.Plain.{IsFaithful}
use cosicoin.Wallet.Create.{sync_wallet, Wallet}
use cosicoin.Wire.Convert.{
  message_to_proto, transaction_to_proto, utxolist_to_proto, utxolist_from_proto,
  message_from_proto, transaction_from_proto,
}
use cosicoin.Blockchain.Coins.{UtxoList}
use cosicoin.Wire.Sent.{
  IsSendable, IsSendableTransaction, arrived, message_arrives, transaction_arrives,
  utxolist_arrives,
}
use cosicoin.Texts.Blocks.{blank_transaction}
use cosicoin.Base.Dict.{at_or, lookup}

-- `CallDataTalk::Proceed` on a request: it is decoded once the call is served.
unfoldable pub talk_request : Host → ℕ → ProtoMessage → Server → Result Server
talk_request h i p s = elim (get_elem? s.talk.calls i) [
  | none ↦ err undefined_behaviour
  | some create ↦ talk_proceed i no_message s
  | some start_process ↦ do m ← message_from_proto h p; talk_proceed i m s
  | some finish ↦ talk_proceed i no_message s
]

-- `CallDataNewTx::Proceed` on a request.
unfoldable pub new_tx_request : Host → ℕ → ProtoTransaction → Server → Result Server
new_tx_request h i p s = elim (get_elem? s.new_tx.calls i) [
  | none ↦ err undefined_behaviour
  | some create ↦ new_tx_proceed i blank_transaction s
  | some start_process ↦ do t ← transaction_from_proto h p blank_transaction; new_tx_proceed i t s
  | some finish ↦ new_tx_proceed i blank_transaction s
]

-- The reply of `CallDataSync::Proceed`.
unfoldable pub sync_request : ℕ → ℕ → Server → Result (Option (List ProtoUtxo) × Server)
sync_request i id s = do
  (reply, s') ← sync_proceed i id s
  ok (Option.map (λ us. utxolist_to_proto us []) reply, s')

-- `ChatClient::Talk` up to the call.
unfoldable pub talk_call : Host → Message → Result ProtoMessage
talk_call h m = message_to_proto h m

-- `ChatClient::NewTx` up to the call.
unfoldable pub new_tx_call : Host → Transaction → Result ProtoTransaction
new_tx_call h t = transaction_to_proto h t

-- `ChatClient::Sync` after the call, into the list of the caller.
unfoldable pub sync_reply_read : List ProtoUtxo → UtxoList → UtxoList
sync_reply_read ps us = utxolist_from_proto ps us

module _ (h : Host) (faithful : IsFaithful h) where
  -- The JSON library reads back what it writes. A message that can be sent is put at the end of the
  -- server's queue, without the signatures of other validators, when a call waits for its request;
  -- queue and calls of transactions stay. A message of no type arrives as an ECHO.
  pub talk_delivers :
      (m : Message) (i : ℕ) (s : Server)
      → IsSendable m
      → get_elem? s.talk.calls i ≡ some start_process
      → (s' : Server) × ((talk_call h m >>= λ p. talk_request h i p s) ≡ ok s')
        × (s'.talk.queue ≡ s.talk.queue ++ arrived m ∷ [])
        × (s'.new_tx ≡ s.new_tx)
        × (s'.utxolists ≡ s.utxolists)
  unfolding talk_call talk_request talk_proceed set_status proceed new_call
  talk_delivers m i s w waits =
      let (p, sent, read) = >>=-eq-ok (message_to_proto h m) _ (message_arrives h faithful m w) in
      (
        record s {
          talk = record {
            calls = set_status i finish (new_call s.talk.calls);
            queue = s.talk.queue ++ arrived m ∷ [];
          };
        },
        rw (sent, talk_request, waits, read, talk_proceed, proceed, waits) refl,
        refl,
        refl,
        refl,
      )

  -- The same of a transaction.
  pub new_tx_delivers :
      (t : Transaction) (i : ℕ) (s : Server)
      → IsSendableTransaction t
      → get_elem? s.new_tx.calls i ≡ some start_process
      → (s' : Server) × ((new_tx_call h t >>= λ p. new_tx_request h i p s) ≡ ok s')
        × (s'.new_tx.queue ≡ s.new_tx.queue ++ t ∷ [])
        × (s'.talk ≡ s.talk)
        × (s'.utxolists ≡ s.utxolists)
  unfolding new_tx_call new_tx_request new_tx_proceed set_status proceed new_call
  new_tx_delivers t i s w waits =
      let (p, sent, read) = transaction_arrives h faithful t w in
      (
        record s {
          new_tx = record {
            calls = set_status i finish (new_call s.new_tx.calls);
            queue = s.new_tx.queue ++ t ∷ [];
          };
        },
        rw (sent, new_tx_request, waits, read, new_tx_proceed, proceed, waits) refl,
        refl,
        refl,
        refl,
      )

-- A wallet that syncs has the coins that the server keeps for it, none if it keeps none.
pub sync_delivers :
    (i id : ℕ) (s : Server)
    → get_elem? s.sync_calls i ≡ some start_process
    → (ps : List ProtoUtxo) × (s' : Server) × (sync_request i id s ≡ ok (some ps, s'))
      × ((w : Wallet)
          → (sync_wallet (sync_reply_read ps []) w).local_utxo ≡ at_or [] id s.utxolists)
unfolding sync_request sync_reply_read sync_wallet sync_proceed sync_reply utxolist_to_proto
    set_status lookup new_call
sync_delivers i id s waits = (
  utxolist_to_proto (at_or [] id s.utxolists) [],
  record s { sync_calls = set_status i finish (new_call s.sync_calls) },
  rw (sync_request, sync_proceed, waits) refl,
  λ w. utxolist_arrives (at_or [] id s.utxolists) [],
)
