-- ===== src/Wire/Proto.antt =====
-- The messages of protos/chat.proto, whose classes are generated. A repeated field is a list, a
-- signed number its bits.
use cosicoin.Base.{ℕ, List, nat_eq, list_eq}
use cosicoin.Base.Text.{Bytes}

pub record ProtoInput : Type 0 where
  pub tx_id : ℕ
  pub output_index : ℕ

pub record ProtoOutput : Type 0 where
  pub value : ℕ
  pub receiver_id : ℕ

pub record ProtoTransaction : Type 0 where
  pub tx_id : ℕ
  pub input : List ProtoInput
  pub output : List ProtoOutput
  pub sender_id : ℕ
  pub sendersig : List Bytes
  pub publickey : Bytes

pub record ProtoHeader : Type 0 where
  pub prev_block_digest : Bytes
  pub merkle_root : Bytes

pub record ProtoBlock : Type 0 where
  pub header : ProtoHeader
  pub block_id : ℕ
  pub transaction : List ProtoTransaction
  pub validator_sig : List Bytes
  pub validator_id : ℕ
  pub publickey : Bytes

pub record ProtoUtxo : Type 0 where
  pub transaction_id : ℕ
  pub output_index : ℕ
  pub output_value : ℕ
  pub receiver_id : ℕ

pub record ProtoMessage : Type 0 where
  pub type : ℕ
  pub sender_id : ℕ
  pub round : ℕ
  pub block : ProtoBlock
