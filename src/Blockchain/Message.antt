-- ===== src/Blockchain/Message.antt =====
-- `Message`: include/blockchain/message.h and lib/blockchain/message.cc.
use cosicoin.Base.{ℕ, Bool, false, true}
use cosicoin.Blockchain.Block.{Block, empty_block}
use cosicoin.Base.Text.{Bytes, text}

-- The last one stands for a variable of this type that holds none of the three.
pub data MsgType : Type 0 where
  echo send ready no_type : MsgType

pub record Message : Type 0 where
  pub msg_type : MsgType
  pub block : Block
  pub sender_id : ℕ
  pub round : ℕ
  pub is_empty : Bool

-- `Message(type, block, sender_id, round)`
unfoldable pub new_message : MsgType → Block → ℕ → ℕ → Message
new_message type block sender_id round = record {
  msg_type = type;
  block = block;
  sender_id = sender_id;
  round = round;
  is_empty = false;
}

-- `setType`
unfoldable pub set_type : MsgType → Message → Message
set_type type m = record m { msg_type = type }

-- `Message()`. The source leaves the kind, the sender and the round unset.
abbrev pub no_message : Message
no_message = record {
  msg_type = echo;
  block = empty_block;
  sender_id = 0;
  round = 0;
  is_empty = true;
}

-- `Msgtype2String`
unfoldable pub msgtype_to_string : MsgType → Bytes
msgtype_to_string send = text "SEND"
msgtype_to_string echo = text "ECHO"
msgtype_to_string ready = text "READY"
msgtype_to_string no_type = text "ERROR TYPE!"
