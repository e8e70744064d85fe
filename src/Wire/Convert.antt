-- ===== src/Wire/Convert.antt =====
-- The conversions to and from protocol buffers: include/blockchain/{header,block,message,utxo}.h,
-- lib/blockchain/{input,output,transaction,block}.cc.
use cosicoin.Base.{
  ℕ, false, ltb, List, [], ◌∷◌, ◌++◌, nat_eq, list_eq, ◌==◌, if◌then◌else◌, ◌^◌, ◌%◌, map,
}
use cosicoin.Base.Text.{Bytes}
use cosicoin.Base.Result.{Result, ok, err, ◌>>=◌, mutable_block}
use cosicoin.Blockchain.Message.{MsgType, echo, send, ready, no_type, Message}
use cosicoin.Host.{Host}
use cosicoin.Wire.Proto.{
  ProtoInput, ProtoOutput, ProtoUtxo, ProtoHeader, ProtoTransaction, ProtoBlock, ProtoMessage,
}
use cosicoin.Blockchain.Coins.{Input, Output, Utxo, UtxoList}
use cosicoin.Blockchain.Header.{Header}
use cosicoin.Signature.Keys.{SigKey, is_set, key_to_string}
use cosicoin.Blockchain.Transaction.{Transaction}
use cosicoin.Blockchain.Block.{Block, empty_block}
use cosicoin.Texts.Keys.{key_from_string}
use cosicoin.Texts.Blocks.{blank_transaction}

-- `Input(proto_input)`
unfoldable pub input_from_proto : ProtoInput → Input
input_from_proto p = record { tx_id = p.tx_id; output_index = p.output_index }

unfoldable pub input_to_proto : Input → ProtoInput
input_to_proto i = record { tx_id = i.tx_id; output_index = i.output_index }

-- `Output(proto_output)`
unfoldable pub output_from_proto : ProtoOutput → Output
output_from_proto p = record { value = p.value; receiver_id = p.receiver_id }

unfoldable pub output_to_proto : Output → ProtoOutput
output_to_proto o = record { value = o.value; receiver_id = o.receiver_id }

-- `UTXO(proto_utxo)`: the index is the `int` of the same bits.
unfoldable pub utxo_from_proto : ProtoUtxo → Utxo
utxo_from_proto p = record {
  transaction_id = p.transaction_id;
  output_index = p.output_index;
  output = record { value = p.output_value; receiver_id = p.receiver_id };
}

-- `toProtoUTXO`
unfoldable pub utxo_to_proto : Utxo → ProtoUtxo
utxo_to_proto u = record {
  transaction_id = u.transaction_id;
  output_index = u.output_index;
  output_value = u.output.value;
  receiver_id = u.output.receiver_id;
}

-- `toProtoUTXOlist`, into a message that may hold entries already.
unfoldable pub utxolist_to_proto : UtxoList → List ProtoUtxo → List ProtoUtxo
utxolist_to_proto [] ps = ps
utxolist_to_proto (u ∷ us) ps = utxolist_to_proto us (ps ++ utxo_to_proto u ∷ [])

-- `fromProtoUTXOlist`: the entries are put behind those of the list.
unfoldable pub utxolist_from_proto : List ProtoUtxo → UtxoList → UtxoList
utxolist_from_proto [] us = us
utxolist_from_proto (p ∷ ps) us = utxolist_from_proto ps (us ++ utxo_from_proto p ∷ [])

-- `toProtoHeader`
unfoldable pub header_to_proto : Header → ProtoHeader
header_to_proto x = record { prev_block_digest = x.prev_block_digest; merkle_root = x.merkle_root }

-- `Header(proto_header)`
unfoldable pub header_from_proto : ProtoHeader → Header
header_from_proto p = record {
  prev_block_digest = p.prev_block_digest;
  merkle_root = p.merkle_root;
}

-- The number of a kind of message; without a kind it keeps its default.
unfoldable pub type_to_proto : MsgType → ℕ
type_to_proto echo = 0
type_to_proto send = 1
type_to_proto ready = 2
type_to_proto no_type = 0

-- The value of an enumeration with this representation.
unfoldable pub type_of_number : ℕ → MsgType
type_of_number n =
    if n == 0 then echo else if n == 1 then send else if n == 2 then ready else no_type

module _ (h : Host) where
  -- For any other number the source leaves the kind unset, and goes on.
  unfoldable pub type_from_proto : ℕ → MsgType
  unfolding type_of_number
  type_from_proto n = if ltb n 3 then type_of_number n else type_of_number (h.unset n)

  -- The text of a sender's key: empty unless both halves are there.
  unfoldable pub sender_key_text : SigKey → Result Bytes
  sender_key_text k = if is_set k then key_to_string h k else ok []

  -- `toProtoTransaction`, into a new message.
  unfoldable pub transaction_to_proto : Transaction → Result ProtoTransaction
  transaction_to_proto t = do
    publickey ← sender_key_text t.public_key
    ok (record {
      tx_id = t.tx_id;
      input = map input_to_proto t.inputs;
      output = map output_to_proto t.outputs;
      sender_id = t.sender_id;
      sendersig = t.sender_sig;
      publickey = publickey;
    })

  -- An empty text leaves the key as it was.
  unfoldable pub sender_key_from_text : Bytes → SigKey → Result SigKey
  sender_key_from_text [] old = ok old
  sender_key_from_text (c ∷ s) old = key_from_string h (c ∷ s)

  -- `fromProtoTransaction`: inputs and outputs are put behind those of the transaction.
  unfoldable pub transaction_from_proto : ProtoTransaction → Transaction → Result Transaction
  transaction_from_proto p t = do
    public_key ← sender_key_from_text p.publickey t.public_key
    ok (record {
      inputs = t.inputs ++ map input_from_proto p.input;
      outputs = t.outputs ++ map output_from_proto p.output;
      sender_sig = p.sendersig;
      sender_id = p.sender_id % 2 ^ 16;
      tx_id = p.tx_id;
      public_key = public_key;
    })

  unfoldable pub transactions_to_proto : List Transaction → Result (List ProtoTransaction)
  transactions_to_proto [] = ok []
  transactions_to_proto (t ∷ ts) = do
    p ← transaction_to_proto t
    ps ← transactions_to_proto ts
    ok (p ∷ ps)

  unfoldable pub transactions_from_proto : List ProtoTransaction → Result (List Transaction)
  transactions_from_proto [] = ok []
  transactions_from_proto (p ∷ ps) = do
    t ← transaction_from_proto p blank_transaction
    ts ← transactions_from_proto ps
    ok (t ∷ ts)

  -- `toProtoBlock`: the signatures of other validators are not sent.
  unfoldable pub block_to_proto : Block → Result ProtoBlock
  block_to_proto b = if b.is_mutable then err mutable_block else (do
    txs ← transactions_to_proto b.txs
    publickey ← key_to_string h b.validator_next_public_key
    ok (record {
      header = header_to_proto b.header;
      block_id = b.id;
      transaction = txs;
      validator_sig = b.validator_sig;
      validator_id = b.validator_id;
      publickey = publickey;
    }))

  -- `fromProtoBlock`: transactions are put behind those of the block, its signatures of other
  -- validators stay.
  unfoldable pub block_from_proto : ProtoBlock → Block → Result Block
  block_from_proto p b = do
    txs ← transactions_from_proto p.transaction
    key ← key_from_string h p.publickey
    ok (record b {
      header = header_from_proto p.header;
      txs = b.txs ++ txs;
      validator_sig = p.validator_sig;
      validator_id = p.validator_id % 2 ^ 16;
      validator_next_public_key = key;
      id = p.block_id;
      is_empty = false;
      is_mutable = false;
    })

  -- `Block(proto_block)`, the constructor.
  unfoldable pub new_block_from_proto : ProtoBlock → Result Block
  new_block_from_proto p = block_from_proto p empty_block

  -- `toProtoMessage`
  unfoldable pub message_to_proto : Message → Result ProtoMessage
  message_to_proto m = do
    block ← block_to_proto m.block
    ok (record {
      type = type_to_proto m.msg_type;
      sender_id = m.sender_id % 2 ^ 64;
      round = m.round % 2 ^ 32;
      block = block;
    })

  -- `Message(proto_message)`
  unfoldable pub message_from_proto : ProtoMessage → Result Message
  message_from_proto p = do
    block ← block_from_proto p.block empty_block
    ok (record {
      msg_type = type_from_proto p.type;
      block = block;
      sender_id = p.sender_id;
      round = p.round;
      is_empty = false;
    })
