-- ===== src/Validator/Listen.antt =====
-- The task that `Listen` registers by `OnRequest` (lib/cryptowallet/validator.cc), on the validator and
-- its server. It fills a list of `Listen` through a reference; the list is taken to be alive.
use cosicoin.Base.{true, false, List, [], ◌∷◌, ◌≡◌, refl, nat_eq, list_eq, if◌then◌else◌}
use cosicoin.Host.{Host}
use cosicoin.Comms.Server.{Server, get_transactions, take_all, has_new}
use cosicoin.Validator.State.{Validator}
use cosicoin.Validator.Pool.{on_tx_reply}
use cosicoin.Blockchain.Transaction.{Transaction}

-- `getTransactions` into the empty list, and `OnTxReply` if there was something.
unfoldable pub listen_task : Host → Server × Validator → Server × Validator
listen_task h (server, v) =
    let (found, txs, server') = get_transactions [] server in
    (server', if found then on_tx_reply h txs v else v)

-- The queue is empty afterwards, and its transactions were received in their order.
pub listen_task_drains :
    (h : Host) (server : Server) (v : Validator)
    → ((listen_task h (server, v)).0.new_tx.queue ≡ [])
      × ((listen_task h (server, v)).0.talk ≡ server.talk)
      × ((listen_task h (server, v)).1 ≡ on_tx_reply h server.new_tx.queue v)
unfolding listen_task get_transactions take_all has_new on_tx_reply
listen_task_drains h server v = (refl, refl, received server.new_tx.queue)
  where
    received :
        (q : List Transaction)
        → (if elim q [ [] ↦ false | x ∷ xs ↦ true ] then on_tx_reply h q v else v)
          ≡ on_tx_reply h q v
    received [] = refl
    received (t ∷ ts) = refl
