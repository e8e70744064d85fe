-- ===== src/Wallet/Paid.antt =====
-- A payment on its way: `CreateTx` of the wallet, the call `NewTx`, the queue of the server and the
-- task of `Listen` (lib/cryptowallet, lib/comms).
use cosicoin.Base.{
  ℕ, true, some, [], ◌∷◌, ◌++◌, ◌≡◌, sym, ap, ◌∙◌, arith, inr, nat_eq, list_eq, if◌then◌else◌, ◌<◌,
  ◌^◌, get_elem?,
}
use cosicoin.Base.Text.{Bytes}
use cosicoin.Base.Result.{ok, ◌>>=◌}
use cosicoin.Json.{Json}
use mathlib.Core.Path.{subst}
use cosicoin.Comms.Server.{start_process, Server}
use cosicoin.Wire.Sent.{IsSendableTransaction}
use cosicoin.Host.{Host}
use cosicoin.Texts.Plain.{IsFaithful, is_text}
use cosicoin.Signature.Keys.{KeyPair, key_gen}
use cosicoin.Signature.Lamport.{key_gen-IsPair}
use cosicoin.Validator.Pool.{on_tx_reply}
use cosicoin.Texts.KeysBack.{IsWritableKey}
use cosicoin.Wallet.Info.{TransInfo, trans_info_from_json}
use cosicoin.Wire.Generated.{generated-IsWritableKey}
use cosicoin.Wallet.Create.{Wallet, create_tx}
use cosicoin.Validator.State.{Validator, coins_of}
use cosicoin.Blockchain.Transaction.{Transaction, check_spending_conditions}
use cosicoin.Wallet.Accepted.{Asked, create_tx_judged}
use cosicoin.Wire.Calls.{new_tx_call, new_tx_request, new_tx_delivers}
use cosicoin.Validator.Listen.{listen_task, listen_task_drains}
use cosicoin.Validator.Admission.{on_recv_tx-Received}

module _ (h : Host) (faithful : IsFaithful h) (hex : (b : Bytes) → is_text (h.hash b) ≡ true) where
  -- The JSON library reads back what it writes, and digests are ASCII. A wallet has read a description
  -- and generates a pair. The transaction that it makes crosses the wire to a server with a waiting
  -- call and nothing queued; then the task of the listening validator empties the queue, and puts the
  -- transaction into the pool exactly when it is spendable.
  pub payment_arrives :
      (j : Json) (info : TransInfo) (w : Wallet) (p : KeyPair) (i : ℕ) (s : Server) (v : Validator)
      → trans_info_from_json j ≡ ok info
      → key_gen h w.entropy ≡ ok p
      → get_elem? s.new_tx.calls i ≡ some start_process
      → s.new_tx.queue ≡ []
      → (t : Transaction) × (w' : Wallet) × (s' : Server) × (create_tx h info w ≡ ok (t, w'))
        × Asked h info w t
        × ((new_tx_call h t >>= λ q. new_tx_request h i q s) ≡ ok s')
        × ((listen_task h (s', v)).0.new_tx.queue ≡ [])
        × ((listen_task h (s', v)).1.memory_pool ≡ (
            if check_spending_conditions t (coins_of t.sender_id v) v.wallets_ids
            then v.memory_pool ++ t ∷ []
            else v.memory_pool))
  unfolding on_tx_reply
  payment_arrives j info w p i s v e g waits idle =
      let (t, w', made, asked, _, judged, key) = create_tx_judged h j info w p v e g in
      let sendable : IsSendableTransaction t = record {
        sender = subst (λ n. n < 2 ^ 16) (sym asked.sender) (omega arith);
        key = inr (
            subst IsWritableKey (sym key)
              (generated-IsWritableKey h p hex (key_gen-IsPair h w.entropy p g)));
      } in
      let (s', sent, queued, _, _) = new_tx_delivers h faithful t i s sendable waits in
      let (drained, _, received) = listen_task_drains h s' v in
      let one : s'.new_tx.queue ≡ t ∷ [] = queued ∙ ap (λ l. l ++ t ∷ []) idle in
      let pooled = (on_recv_tx-Received h t v).pool in
      (
        t,
        w',
        s',
        made,
        asked,
        sent,
        drained,
        ap (λ (u : Validator). u.memory_pool) received
            ∙ ap (λ q. (on_tx_reply h q v).memory_pool) one
            ∙ pooled
            ∙ ap (λ b. if b then v.memory_pool ++ t ∷ [] else v.memory_pool) judged,
      )
