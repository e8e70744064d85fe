-- ===== src/Wire/Served.antt =====
-- `HandleRpcs` of lib/comms/server.cc: the calls of the completion queue, one after another, each with
-- its request; and the messages that a node takes between two rounds (lib/bracha/node.cc).
use cosicoin.Base.{ℕ, List, [], ◌∷◌, nat_eq, list_eq}
use cosicoin.Base.Result.{Result, ok, ◌>>=◌}
use cosicoin.Comms.Server.{start_process, Server, first_intake, get_messages}
use cosicoin.Host.{Host}
use cosicoin.Wire.Proto.{ProtoMessage, ProtoTransaction}
use cosicoin.Wire.Calls.{talk_request, new_tx_request, sync_request}
use cosicoin.Blockchain.Message.{Message}

-- What the completion queue returns: the call, by its kind and number, and its request.
pub data Rpc : Type 0 where
  talk_rpc : ℕ → ProtoMessage → Rpc
  new_tx_rpc : ℕ → ProtoTransaction → Rpc
  sync_rpc : ℕ → ℕ → Rpc

-- A call of each kind waits.
abbrev pub first_server : Server
first_server = record {
  talk = first_intake;
  new_tx = first_intake;
  sync_calls = start_process ∷ [];
  utxolists = [];
}

module _ (h : Host) where
  -- `Proceed` on the right kind of call.
  unfoldable pub handle_rpc : Rpc → Server → Result Server
  handle_rpc (talk_rpc i p) s = talk_request h i p s
  handle_rpc (new_tx_rpc i p) s = new_tx_request h i p s
  handle_rpc (sync_rpc i id) s = do (_, s') ← sync_request i id s; ok s'

  -- `HandleRpcs`, on the calls that the queue returns.
  unfoldable pub handle_rpcs : List Rpc → Server → Result Server
  unfolding handle_rpc
  handle_rpcs [] s = ok s
  handle_rpcs (r ∷ rs) s = handle_rpc r s >>= handle_rpcs rs

  -- The batches that `RunTaskInWait` takes: before each the server has handled some calls.
  unfoldable pub message_batches : List (List Rpc) → Server → Result (List (List Message))
  unfolding handle_rpcs
  message_batches [] s = ok []
  message_batches (rs ∷ rss) s = do
    s' ← handle_rpcs rs s
    let (_, ms, rest) = get_messages [] s'
    batches ← message_batches rss rest
    ok (ms ∷ batches)
