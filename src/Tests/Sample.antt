-- ===== src/Tests/Sample.antt =====
-- A concrete host, keys, coins, transactions and blocks.
use cosicoin.Base.{ℕ, ◌%◌, ◌≡◌, refl, true, false, none, some, List, [], ◌∷◌, replicate, zero, suc}
use cosicoin.Base.Text.{Bytes, text}
use cosicoin.Base.Result.{ok}
use cosicoin.Host.{Host}
use cosicoin.Signature.Bitset.{key_len}
use cosicoin.Signature.Keys.{KeyPair, empty_key}
use cosicoin.Signature.Lamport.{IsPair, NeverFails, Differ}
use cosicoin.Blockchain.Coins.{Input, UtxoList}
use cosicoin.Blockchain.Transaction.{Transaction}
use cosicoin.Blockchain.Block.{Block, empty_block}
use cosicoin.Bracha.Node.{Node}

-- The hash puts a byte in front; random bytes count up.
abbrev pub host : Host
host = record {
  hash = λ b. 7 ∷ b;
  dump = λ j. text "json";
  parse = λ s. none;
  urandom = λ pos. some (pos % 256);
  freed = λ x. ok x;
  unset = λ n. 1;
}

pub host-NeverFails : NeverFails host
host-NeverFails pos = (pos % 256, refl)

abbrev pub pair : KeyPair
pair = record {
  public_key = record { s0 = replicate key_len (7 ∷ 0 ∷ []); s1 = replicate key_len (7 ∷ 1 ∷ []) };
  private_key = record { s0 = replicate key_len (0 ∷ []); s1 = replicate key_len (1 ∷ []) };
}

pub pair-IsPair : IsPair host pair
pair-IsPair = record { full0 = refl; full1 = refl; hashed0 = refl; hashed1 = refl }

pub Differ-replicate : (n : ℕ) (a b : Bytes) → (a ≡ b → ⊥) → Differ (replicate n a) (replicate n b)
Differ-replicate zero a b p = tt
Differ-replicate (suc n) a b p = (p, Differ-replicate n a b p)

-- Wallet 4 owns 30, wallet 5 owns 12.
abbrev pub coins : UtxoList
coins =
    record { transaction_id = 0; output_index = 0; output = record { value = 30; receiver_id = 4 } }
    ∷ record {
      transaction_id = 1;
      output_index = 0;
      output = record { value = 12; receiver_id = 5 };
    }
    ∷ []

abbrev pub wallets : List ℕ
wallets = 4 ∷ 5 ∷ []

abbrev pub first_coin : Input
first_coin = record { tx_id = 0; output_index = 0 }

abbrev pub second_coin : Input
second_coin = record { tx_id = 1; output_index = 0 }

-- Wallet 4 pays 25 to wallet 5 and keeps 5.
abbrev pub payment : Transaction
payment = record {
  inputs = first_coin ∷ [];
  outputs = record { value = 25; receiver_id = 5 } ∷ record { value = 5; receiver_id = 4 } ∷ [];
  sender_sig = [];
  sender_id = 4;
  tx_id = 7;
  public_key = empty_key;
}

-- Wallet 5 pays all of its 12 to wallet 4.
abbrev pub refund : Transaction
refund = record {
  inputs = second_coin ∷ [];
  outputs = record { value = 12; receiver_id = 4 } ∷ [];
  sender_sig = [];
  sender_id = 5;
  tx_id = 8;
  public_key = empty_key;
}

abbrev pub open_block : Block
open_block = record empty_block { txs = payment ∷ refund ∷ []; id = 3; is_empty = false }

abbrev pub closed_block : Block
closed_block = record open_block { is_mutable = false }

-- Node 1 of four, of which one may fail.
abbrev pub node : Node
node = record {
  id = 1;
  is_lead = false;
  n = 4;
  f = 1;
  blk_list = [];
  send_this_round = [];
  ready_this_round = [];
  echo_this_round = [];
  ready_sent = [];
  utxolist = coins;
  wallet_ids = wallets;
  voted_hash = [];
  should_broadcast = true;
  my_current_private_key = empty_key;
  my_current_public_key = empty_key;
  my_next_key_pair = pair;
  val_sig_keys = [];
  verified_blocks = [];
  blocks = [];
  accepted_blocks = [];
  sent = [];
  entropy = 0;
}
