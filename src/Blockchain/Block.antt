-- ===== src/Blockchain/Block.antt =====
-- `Block`: include/blockchain/block.h and lib/blockchain/block.cc.
use cosicoin.Base.{
  ℕ, Bool, true, false, not, ◌&&◌, ◌||◌, Option, none, some, List, [], ◌∷◌, ◌++◌, length, contains,
  ltb, if◌then◌else◌, ◌==◌, nat_eq, list_eq,
}
use cosicoin.Base.Text.{Bytes, to_string}
use cosicoin.Base.Word.{int_add, int_to_u64}
use cosicoin.Base.Result.{Result, ok, err, immutable_block, mutable_block, ◌>>=◌}
use cosicoin.Host.{Host}
use cosicoin.Signature.Keys.{SigKey, empty_key, key_ne, is_set, key_to_string}
use cosicoin.Signature.Sign
use cosicoin.Signature.Sign.{verify, is_one}
use cosicoin.Blockchain.Coins.{Input, UtxoList, input_eq}
use cosicoin.Blockchain.InputSet.{insert_range}
use cosicoin.Blockchain.Transaction.{Transaction, check_spending_conditions, transaction_beq}
use cosicoin.Blockchain.Header.{Header, header_ne, get_id, calculate_merkle_root}

pub record BlockSignature : Type 0 where
  pub signature : List Bytes
  pub public_key : SigKey
  pub validator_id : ℕ
  pub round : ℕ

pub record Block : Type 0 where
  pub header : Header
  pub txs : List Transaction
  pub validator_sigs : List BlockSignature
  pub validator_sig : List Bytes
  pub validator_id : ℕ
  pub validator_next_public_key : SigKey
  pub id : ℕ
  pub is_empty : Bool
  pub is_mutable : Bool

-- `Block()`. The source leaves the validator's id of an empty block unset; it is 0 here.
abbrev pub empty_block : Block
empty_block = record {
  header = record { prev_block_digest = []; merkle_root = [] };
  txs = [];
  validator_sigs = [];
  validator_sig = [];
  validator_id = 0;
  validator_next_public_key = empty_key;
  id = 0;
  is_empty = true;
  is_mutable = true;
}

-- `Block(id, prevBlockDigest)`
unfoldable pub new_block : ℕ → Bytes → Block
new_block id prev = record empty_block {
  header = record { prev_block_digest = prev; merkle_root = [] };
  id = id;
  is_empty = false;
}

-- `addTransaction`
unfoldable pub add_transaction : Transaction → Block → Result Block
add_transaction t b =
    if b.is_mutable then ok (record b { txs = b.txs ++ t ∷ [] }) else err immutable_block

-- The loop of `verify`: the running `int` count and the set; `none` is the early `return false`.
unfoldable pub verify_loop :
    List Transaction → UtxoList → List ℕ → ℕ → List Input → Option (ℕ × List Input)
verify_loop [] us ws n s = some (n, s)
verify_loop (t ∷ ts) us ws n s =
    let rest = verify_loop ts us ws (int_add n (length t.inputs)) (insert_range t.inputs s) in
    if check_spending_conditions t us ws then rest else none

-- `number_of_inputs != all_inputs.size()` compares an `int` with a 64-bit size.
unfoldable pub counts_agree : Option (ℕ × List Input) → Bool
counts_agree none = false
counts_agree (some (n, s)) = int_to_u64 n == length s

-- `Block::verify`
unfoldable pub verify_block : Block → UtxoList → List ℕ → Bool
unfolding counts_agree
verify_block b us ws = counts_agree (verify_loop b.txs us ws 0 [])

-- The loop over one transaction of the block: is an input among the new ones?
unfoldable pub some_input_in : List Input → List Input → Bool
some_input_in [] news = false
some_input_in (i ∷ is) news = contains news i || some_input_in is news

unfoldable pub consistent_with : List Transaction → List Input → Bool
consistent_with [] news = true
consistent_with (t ∷ ts) news =
    if some_input_in t.inputs news then false else consistent_with ts news

-- `verifyTxConsist`
unfoldable pub verify_tx_consist : Block → Transaction → Bool
verify_tx_consist b t = consistent_with b.txs t.inputs

-- `operator<`
unfoldable pub block_lt : Block → Block → Bool
block_lt a b = if a.is_empty && b.is_empty then false else ltb a.id b.id

-- `operator>`
unfoldable pub block_gt : Block → Block → Bool
block_gt a b = if a.is_empty && b.is_empty then false else ltb b.id a.id

-- The loops of `operator==`, over lists of one length.
unfoldable pub some_transaction_ne : List Transaction → List Transaction → Bool
some_transaction_ne [] ys = false
some_transaction_ne (x ∷ xs) [] = false
some_transaction_ne (x ∷ xs) (y ∷ ys) = not (transaction_beq x y) || some_transaction_ne xs ys

unfoldable pub block_signature_ne : BlockSignature → BlockSignature → Bool
block_signature_ne a b =
    not (a.validator_id == b.validator_id)
    || (not (a.signature == b.signature)
        || (not (a.round == b.round) || key_ne a.public_key b.public_key))

unfoldable pub some_signature_ne : List BlockSignature → List BlockSignature → Bool
some_signature_ne [] ys = false
some_signature_ne (x ∷ xs) [] = false
some_signature_ne (x ∷ xs) (y ∷ ys) = block_signature_ne x y || some_signature_ne xs ys

-- `operator==`
unfoldable pub block_beq : Block → Block → Bool
block_beq a b =
    if not (a.id == b.id)
    then false
    else if header_ne a.header b.header
    then false
    else if not (length a.txs == length b.txs)
    then false
    else if some_transaction_ne a.txs b.txs
    then false
    else if not (a.validator_sig == b.validator_sig)
    then false
    else if not (a.validator_id == b.validator_id)
    then false
    else if key_ne a.validator_next_public_key b.validator_next_public_key
    then false
    else if not (length a.validator_sigs == length b.validator_sigs)
    then false
    else if some_signature_ne a.validator_sigs b.validator_sigs
    then false
    else true

-- `addValidatorSignature`
unfoldable pub add_validator_signature : BlockSignature → Block → Block
add_validator_signature s b = record b { validator_sigs = b.validator_sigs ++ s ∷ [] }

-- `removeSignatures`
unfoldable pub remove_signatures : Block → Block
remove_signatures b = record b {
  validator_sig = [];
  validator_id = 0;
  validator_next_public_key = empty_key;
  validator_sigs = [];
}

module _ (h : Host) where
  -- `finalize`
  unfoldable pub finalize : Block → Result Block
  finalize b =
      if b.is_mutable
      then ok (record b { is_mutable = false; header = calculate_merkle_root h b.header b.txs })
      else err immutable_block

  -- The text of the next public key, which the digest covers when there is one.
  unfoldable pub next_key_text : SigKey → Result Bytes
  next_key_text k = if is_set k then key_to_string h k else ok []

  -- `Block::getDigest`
  unfoldable pub block_digest : Block → Result Bytes
  unfolding next_key_text
  block_digest b = if b.is_mutable then err mutable_block else do
    key ← next_key_text b.validator_next_public_key
    ok (h.hash (get_id h b.header ++ (to_string b.validator_id ++ key)))

  -- What `sign` does once the id and the next key are saved.
  unfoldable pub sign_digest : SigKey → Block → Result Block
  sign_digest signing_key b = do
    digest ← block_digest b
    ok (record b { validator_sig = Sign.sign digest signing_key })

  -- `Block::sign`. When the digest throws, the source has set the id and the next key of the block;
  -- here an exception says nothing of the block.
  unfoldable pub sign_block : SigKey → ℕ → SigKey → Block → Result Block
  sign_block signing_key validator_id next_public_key b =
      if b.is_mutable
      then err mutable_block
      else sign_digest signing_key
          (record b { validator_id = validator_id; validator_next_public_key = next_public_key })

  -- `Block::verifySignature`
  unfoldable pub verify_signature : Block → SigKey → Result Bool
  verify_signature b k = do digest ← block_digest b; ok (is_one (verify h digest b.validator_sig k))
