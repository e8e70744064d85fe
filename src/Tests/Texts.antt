-- ===== src/Tests/Texts.antt =====
-- Texts, files and calls at concrete inputs.
use cosicoin.Base.{
  ℕ, zero, suc, true, some, List, [], ◌∷◌, ◌≡◌, refl, arith, inr, nat_eq, list_eq, All, list_beq,
  replicate, contains, false, ◌⊎◌,
}
use cosicoin.Base.Text.{Bytes, text}
use cosicoin.Base.Result.{key_length_error, ok, err, json_error, ◌>>=◌, Error, >>=-eq-ok}
use cosicoin.Blockchain.Message.{ready, Message, new_message}
use cosicoin.Comms.Server.{start_process, Server, first_intake}
use cosicoin.Signature.Keys.{SigKey, is_set}
use cosicoin.Texts.Plain.{are_texts, is_text}
use cosicoin.Texts.SignaturesBack.{IsPart}
use cosicoin.Blockchain.Transaction.{Transaction}
use cosicoin.Texts.TransactionsBack.{IsWritableTransaction}
use cosicoin.Blockchain.Block.{Block, block_digest}
use cosicoin.Texts.Blocks.{block_to_string, block_from_string}
use cosicoin.Storage.Database.{
  Database, save, add_block, open_database, empty_database, get_block, append_block, continues,
}
use cosicoin.Signature.Bitset.{key_len}
use cosicoin.Texts.KeysBack.{IsWritableKey}
use cosicoin.Signature.Roundtrip.{IsByte}
use cosicoin.Tests.Sample.{payment, closed_block, host}
use cosicoin.Texts.BlocksBack.{IsWritableBlock, block_from_string-block_to_string}
use cosicoin.Host.{Host}
use cosicoin.Tests.Codec.{codec, codec-IsFaithful}
use cosicoin.Wire.Calls.{talk_call, talk_request, talk_delivers}
use cosicoin.Texts.Missing.{block_from_string_no_txs}
use cosicoin.Wire.Sent.{arrived, IsSendable, message_arrives}
use cosicoin.Wire.Proto.{ProtoMessage}
use cosicoin.Wire.Convert.{message_to_proto, message_from_proto}
use cosicoin.Wire.Served.{Rpc, talk_rpc, sync_rpc}
use cosicoin.Config.Settings.{Settings}
use cosicoin.Bracha.Node.{Node}
use cosicoin.Storage.Reload.{open_database-save}
use cosicoin.Storage.Unsigned.{add_block_unsigned}
use cosicoin.Base.Dict.{lookup}
use cosicoin.Signature.Sign.{has_length}

All-replicate {ℓ κ} : {A : Type ℓ} (P : A → Type κ) (n : ℕ) (a : A) → P a → All P (replicate n a)
All-replicate P zero a p = tt
All-replicate P (suc n) a p = (p, All-replicate P n a p)

-- A key of digests.
abbrev text_key : SigKey
text_key = record { s0 = replicate key_len (text "0a"); s1 = replicate key_len (text "1b") }

pub text_key-IsWritableKey : IsWritableKey text_key
unfolding are_texts is_text
text_key-IsWritableKey = record { full0 = refl; full1 = refl; text0 = refl; text1 = refl }

abbrev signature : List Bytes
signature = replicate 2 (replicate 32 200)

signature-parts : All IsPart signature
signature-parts =
    All-replicate IsPart 2 (replicate 32 200) (refl, All-replicate IsByte 32 200 (omega arith))

abbrev signed_payment : Transaction
signed_payment = record payment { sender_sig = signature; public_key = text_key }

signed_payment-IsWritableTransaction : IsWritableTransaction signed_payment
signed_payment-IsWritableTransaction = record {
  some_inputs = λ e. cc e;
  some_outputs = λ e. cc e;
  inputs = ((omega arith, omega arith), tt);
  outputs = ((omega arith, omega arith), ((omega arith, omega arith), tt));
  signature = signature-parts;
  sender = omega arith;
  id = omega arith;
  key = inr text_key-IsWritableKey;
}

abbrev pub full_block : Block
full_block = record closed_block {
  header = record { prev_block_digest = text "p"; merkle_root = text "m" };
  txs = signed_payment ∷ [];
  validator_sig = signature;
  validator_id = 2;
  validator_next_public_key = text_key;
  validator_sigs =
      record { signature = signature; public_key = text_key; validator_id = 3; round = 1 } ∷ [];
}

full_block-IsWritableBlock : IsWritableBlock full_block
unfolding is_text
full_block-IsWritableBlock = record {
  header = record { prev = refl; root = refl };
  some_txs = λ e. cc e;
  txs = (signed_payment-IsWritableTransaction, tt);
  signature = signature-parts;
  validator = omega arith;
  key = text_key-IsWritableKey;
  signatures = (
    record {
      signature = signature-parts;
      key = text_key-IsWritableKey;
      validator = omega arith;
      round = omega arith;
    },
    tt,
  );
  id = omega arith;
}

-- A block with a transaction, a signature and a signature of another validator.
block_from_string-block_to_string_example :
    (block_to_string codec full_block >>= block_from_string codec) ≡ ok full_block
block_from_string-block_to_string_example =
    block_from_string-block_to_string codec codec-IsFaithful full_block full_block-IsWritableBlock

abbrev one_block : Database
one_block = record { blocks = (text "d", full_block) ∷ []; digests = text "d" ∷ [] }

-- A database with one block.
open_database-save_example :
    (d : Database) × ((save codec true one_block >>= λ j. open_database codec (some j)) ≡ ok d)
    × (d.digests ≡ text "d" ∷ [])
    × ((x : Bytes) → contains one_block.digests x ≡ true → get_block x d ≡ get_block x one_block)
unfolding lookup list_beq
open_database-save_example =
    open_database-save codec codec-IsFaithful one_block (λ e. cc e)
      ((full_block, refl, full_block-IsWritableBlock, refl), tt)

-- A closed block without a signature.
add_block_unsigned_example :
    ((is_set closed_block.validator_next_public_key ≡ true)
      × (add_block host true closed_block empty_database ≡ (err key_length_error, empty_database)))
    ⊎ ((is_set closed_block.validator_next_public_key ≡ false)
        × (x : Bytes) × (e : Error) × (block_digest host closed_block ≡ ok x)
        × (add_block host true closed_block empty_database
            ≡ (err e, append_block x closed_block empty_database)))
unfolding continues has_length
add_block_unsigned_example = add_block_unsigned host true closed_block empty_database refl refl refl

abbrev bare_block : Block
bare_block = record full_block { txs = []; validator_sigs = [] }

-- A signed block without transactions.
block_from_string_no_txs_example :
    (s : Bytes) × (block_to_string codec bare_block ≡ ok s)
    × (block_from_string codec s ≡ err json_error)
unfolding is_text
block_from_string_no_txs_example =
    block_from_string_no_txs codec codec-IsFaithful bare_block refl
      (record { prev = refl; root = refl }) signature-parts (omega arith) text_key-IsWritableKey tt
      (omega arith)

abbrev full_message : Message
full_message = new_message ready full_block 1 4

abbrev pub waiting_server : Server
waiting_server = record {
  talk = first_intake;
  new_tx = first_intake;
  sync_calls = start_process ∷ [];
  utxolists = [];
}

full_message-IsSendable : IsSendable full_message
unfolding new_message
full_message-IsSendable = record {
  block = record {
    closed = refl;
    txs = (record { sender = omega arith; key = inr text_key-IsWritableKey }, tt);
    validator = omega arith;
    key = text_key-IsWritableKey;
  };
  sender = omega arith;
  round = omega arith;
}

-- A READY message to a server that waits.
talk_delivers_example :
    (s : Server) × ((talk_call codec full_message >>= λ p. talk_request codec 0 p waiting_server)
      ≡ ok s)
    × (s.talk.queue ≡ arrived full_message ∷ [])
    × (s.new_tx ≡ waiting_server.new_tx)
    × (s.utxolists ≡ waiting_server.utxolists)
unfolding new_message
talk_delivers_example =
    talk_delivers codec codec-IsFaithful full_message 0 waiting_server full_message-IsSendable refl

-- The message on the wire.
abbrev wired :
    (p : ProtoMessage) × (message_to_proto codec full_message ≡ ok p)
    × (message_from_proto codec p ≡ ok (arrived full_message))
wired =
    >>=-eq-ok (message_to_proto codec full_message) (message_from_proto codec)
      (message_arrives codec codec-IsFaithful full_message full_message-IsSendable)

-- Two calls with the message, one batch of both and one of none.
abbrev calls : List (List Rpc)
calls = (talk_rpc 0 wired.0 ∷ sync_rpc 0 4 ∷ talk_rpc 1 wired.0 ∷ []) ∷ [] ∷ []

abbrev settings : Settings
settings = record {
  leader_id = 1;
  validators = [];
  wallets = [];
  my_validator_id = 1;
  my_wallet_id = 4;
}
