-- ===== src/Wire/Sent.antt =====
-- What arrives of a message, a transaction and a list of coins that are sent
-- (include/blockchain/{message,block,utxo}.h, lib/blockchain/transaction.cc).
use cosicoin.Base.{
  false, List, [], ◌∷◌, ◌++◌, ◌≡◌, refl, sym, ap, ◌∙◌, inl, inr, nat_eq, list_eq, All, ◌<◌, ◌^◌,
  map, ◌⊎◌,
}
use cosicoin.Base.Text.{Bytes}
use cosicoin.Base.Result.{ok, ◌>>=◌}
use cosicoin.Blockchain.Message.{MsgType, echo, send, ready, no_type, Message}
use mathlib.Core.List.{append-nil, append_assoc}
use cosicoin.Host.{Host}
use cosicoin.Wire.Convert.{
  utxolist_to_proto, utxolist_from_proto, input_from_proto, output_from_proto, utxo_to_proto,
  input_to_proto, output_to_proto, sender_key_text, utxo_from_proto, sender_key_from_text,
  transaction_to_proto, transactions_to_proto, block_to_proto, type_from_proto, message_to_proto,
  transaction_from_proto, transactions_from_proto, block_from_proto, type_to_proto,
  message_from_proto, header_to_proto, header_from_proto,
}
use cosicoin.Blockchain.Coins.{UtxoList, Input, Output}
use cosicoin.Blockchain.Transaction.{Transaction}
use cosicoin.Blockchain.Block.{Block, empty_block}
use cosicoin.Texts.Plain.{IsFaithful, parse_text}
use cosicoin.Wire.Proto.{ProtoUtxo, ProtoTransaction, ProtoBlock}
use cosicoin.Signature.Keys.{empty_key, is_set, SigKey, key_json}
use cosicoin.Texts.KeysBack.{IsWritableKey, key_to_string-dump, key_from_string-dump}
use cosicoin.Texts.Keys.{key_from_string}
use cosicoin.Base.Word.{mod_small}
use cosicoin.Texts.Blocks.{blank_transaction}

utxolist_to_proto-map :
    (us : UtxoList) (ps : List ProtoUtxo) → utxolist_to_proto us ps ≡ ps ++ map utxo_to_proto us
unfolding utxolist_to_proto
utxolist_to_proto-map [] ps = sym (append-nil ps)
utxolist_to_proto-map (u ∷ us) ps =
    utxolist_to_proto-map us (ps ++ utxo_to_proto u ∷ [])
    ∙ append_assoc ps (utxo_to_proto u ∷ []) (map utxo_to_proto us)

utxolist_from_proto-map :
    (us vs : UtxoList) → utxolist_from_proto (map utxo_to_proto us) vs ≡ vs ++ us
unfolding utxolist_from_proto utxo_to_proto utxo_from_proto
utxolist_from_proto-map [] vs = sym (append-nil vs)
utxolist_from_proto-map (u ∷ us) vs =
    utxolist_from_proto-map us (vs ++ u ∷ []) ∙ append_assoc vs (u ∷ []) us

-- The coins of a reply are put behind those of the list that they are read into.
pub utxolist_arrives :
    (us vs : UtxoList) → utxolist_from_proto (utxolist_to_proto us []) vs ≡ vs ++ us
utxolist_arrives us vs = rw (utxolist_to_proto-map us []) (utxolist_from_proto-map us vs)

inputs_arrive : (is : List Input) → map input_from_proto (map input_to_proto is) ≡ is
unfolding input_from_proto input_to_proto
inputs_arrive [] = refl
inputs_arrive (i ∷ is) = ap (◌∷◌ i) (inputs_arrive is)

outputs_arrive : (os : List Output) → map output_from_proto (map output_to_proto os) ≡ os
unfolding output_from_proto output_to_proto
outputs_arrive [] = refl
outputs_arrive (o ∷ os) = ap (◌∷◌ o) (outputs_arrive os)

-- A transaction whose sender fits, with no key or a whole one.
pub record IsSendableTransaction (t : Transaction) : Type 0 where
  pub sender : t.sender_id < 2 ^ 16
  pub key : (t.public_key ≡ empty_key) ⊎ IsWritableKey t.public_key

-- A closed block with the next key of its signer.
pub record IsSendableBlock (b : Block) : Type 0 where
  pub closed : b.is_mutable ≡ false
  pub txs : All IsSendableTransaction b.txs
  pub validator : b.validator_id < 2 ^ 16
  pub key : IsWritableKey b.validator_next_public_key

pub record IsSendable (m : Message) : Type 0 where
  pub block : IsSendableBlock m.block
  pub sender : m.sender_id < 2 ^ 64
  pub round : m.round < 2 ^ 32

-- What arrives of a block: all but the signatures of other validators.
abbrev pub arrived_block : Block → Block
arrived_block b = record b { validator_sigs = []; is_empty = false; is_mutable = false }

-- The kind that arrives; a message without one is sent as an ECHO.
abbrev pub sent_type : MsgType → MsgType
sent_type echo = echo
sent_type send = send
sent_type ready = ready
sent_type no_type = echo

-- What arrives of a message.
abbrev pub arrived : Message → Message
arrived m = record m {
  msg_type = sent_type m.msg_type;
  block = arrived_block m.block;
  is_empty = false;
}

module _ (h : Host) (faithful : IsFaithful h) where
  -- A text that is read as a key is not empty.
  read_key_text :
      (s : Bytes) (k old : SigKey)
      → key_from_string h s ≡ ok k
      → sender_key_from_text h s old ≡ ok k
  unfolding sender_key_from_text key_from_string parse_text
  read_key_text [] k old p = absurd (cc (p, faithful.parse-empty))
  read_key_text (c ∷ s) k old p = p

  key_text_arrives :
      (k : SigKey)
      → (k ≡ empty_key) ⊎ IsWritableKey k
      → (s : Bytes) × (sender_key_text h k ≡ ok s) × (sender_key_from_text h s empty_key ≡ ok k)
  unfolding sender_key_text is_set sender_key_from_text
  key_text_arrives k (inl e) = ([], rw e refl, ap ok (sym e))
  key_text_arrives k (inr w) = (
    h.dump (key_json k),
    rw (w.full0, w.full1, key_to_string-dump h k w) refl,
    read_key_text (h.dump (key_json k)) k empty_key (key_from_string-dump h k w faithful),
  )

  pub transaction_arrives :
      (t : Transaction)
      → IsSendableTransaction t
      → (p : ProtoTransaction) × (transaction_to_proto h t ≡ ok p)
        × (transaction_from_proto h p blank_transaction ≡ ok t)
  unfolding transaction_to_proto transaction_from_proto
  transaction_arrives t w =
      let (s, printed, read) = key_text_arrives t.public_key w.key in
      (
        record {
          tx_id = t.tx_id;
          input = map input_to_proto t.inputs;
          output = map output_to_proto t.outputs;
          sender_id = t.sender_id;
          sendersig = t.sender_sig;
          publickey = s;
        },
        rw printed refl,
        rw
            (
              read,
              inputs_arrive t.inputs,
              outputs_arrive t.outputs,
              mod_small t.sender_id (2 ^ 16) w.sender,
            )
            refl,
      )

  transactions_arrive :
      (ts : List Transaction)
      → All IsSendableTransaction ts
      → (ps : List ProtoTransaction) × (transactions_to_proto h ts ≡ ok ps)
        × (transactions_from_proto h ps ≡ ok ts)
  unfolding transactions_to_proto transactions_from_proto
  transactions_arrive [] a = ([], refl, refl)
  transactions_arrive (t ∷ ts) a =
      let (p, e, q) = transaction_arrives t a.0 in
      let (ps, es, qs) = transactions_arrive ts a.1 in (p ∷ ps, rw (e, es) refl, rw (q, qs) refl)

  block_arrives :
      (b : Block)
      → IsSendableBlock b
      → (p : ProtoBlock) × (block_to_proto h b ≡ ok p)
        × (block_from_proto h p empty_block ≡ ok (arrived_block b))
  unfolding block_to_proto block_from_proto header_to_proto header_from_proto
  block_arrives b w =
      let (ps, printed, read) = transactions_arrive b.txs w.txs in
      (
        record {
          header = header_to_proto b.header;
          block_id = b.id;
          transaction = ps;
          validator_sig = b.validator_sig;
          validator_id = b.validator_id;
          publickey = h.dump (key_json b.validator_next_public_key);
        },
        rw (w.closed, printed, key_to_string-dump h b.validator_next_public_key w.key) refl,
        rw
            (
              read,
              key_from_string-dump h b.validator_next_public_key w.key faithful,
              mod_small b.validator_id (2 ^ 16) w.validator,
            )
            refl,
      )

  type_arrives : (t : MsgType) → type_from_proto h (type_to_proto t) ≡ sent_type t
  unfolding type_from_proto type_to_proto
  type_arrives echo = refl
  type_arrives send = refl
  type_arrives ready = refl
  type_arrives no_type = refl

  -- A message with a closed and signed block is converted, and what is read back is the message, its
  -- kind, sender and round included, without the signatures of other validators.
  pub message_arrives :
      (m : Message)
      → IsSendable m
      → (message_to_proto h m >>= message_from_proto h) ≡ ok (arrived m)
  unfolding message_to_proto message_from_proto
  message_arrives m w =
      let (p, printed, read) = block_arrives m.block w.block in
      rw
        (
          printed,
          read,
          type_arrives m.msg_type,
          mod_small m.sender_id (2 ^ 64) w.sender,
          mod_small m.round (2 ^ 32) w.round,
        )
        refl
