-- ===== src/Wallet/Info.antt =====
-- The description of a transaction: include/json/jsonparser.h and lib/json/jsonparser.cc.
use cosicoin.Base.{ℕ, ◌^◌, ◌≡◌, List, [], ◌∷◌, length, arith}
use cosicoin.Base.Text.{text, Bytes}
use cosicoin.Base.Result.{Result, ok, ◌>>=◌, >>=-eq-ok}
use cosicoin.Json.{Json, elements, at, number_at}

pub record TransInfo : Type 0 where
  pub walletid : ℕ
  pub out_value_list : List ℕ
  pub out_wallet_id_list : List ℕ
  pub in_out_idx_list : List ℕ
  pub in_tx_id_list : List ℕ

-- The loops of `from_json`: two numbers of each element, of 32 and 64 bits or the other way round.
unfoldable pub read_pairs : Bytes → ℕ → Bytes → ℕ → List Json → Result (List ℕ × List ℕ)
read_pairs k m l n [] = ok ([], [])
read_pairs k m l n (j ∷ js) = do
  a ← number_at k m j
  b ← number_at l n j
  (xs, ys) ← read_pairs k m l n js
  ok (a ∷ xs, b ∷ ys)

-- `jsonparser::from_json`, into an empty `TransInfo`.
unfoldable pub trans_info_from_json : Json → Result TransInfo
trans_info_from_json j = do
  id ← number_at (text "walletID") (2 ^ 32) j
  ins ← at (text "ins") j
  (tx_ids, idxs) ← read_pairs (text "txID") (2 ^ 32) (text "outIDX") (2 ^ 64) (elements ins)
  outs ← at (text "outs") j
  (values, wallets) ←
      read_pairs (text "value") (2 ^ 64) (text "outwalletID") (2 ^ 32) (elements outs)
  ok (record {
    walletid = id;
    out_value_list = values;
    out_wallet_id_list = wallets;
    in_out_idx_list = idxs;
    in_tx_id_list = tx_ids;
  })

read_pairs-length :
    (k l : Bytes) (m n : ℕ) (js : List Json) (xs ys : List ℕ)
    → read_pairs k m l n js ≡ ok (xs, ys)
    → length xs ≡ length ys
unfolding read_pairs
read_pairs-length k l m n [] xs ys e = ground (arith, e)
read_pairs-length k l m n (j ∷ js) us vs e =
    let (a, _, e1) = >>=-eq-ok (number_at k m j) _ e in
    let (b, _, e2) = >>=-eq-ok (number_at l n j) _ e1 in
    let ((xs, ys), p, e3) = >>=-eq-ok (read_pairs k m l n js) _ e2 in
    ground (arith, e3, read_pairs-length k l m n js xs ys p)

-- Both lists of inputs have one length, and so have both lists of outputs.
pub trans_info_from_json-length :
    (j : Json) (t : TransInfo)
    → trans_info_from_json j ≡ ok t
    → (length t.in_tx_id_list ≡ length t.in_out_idx_list)
      × (length t.out_value_list ≡ length t.out_wallet_id_list)
unfolding trans_info_from_json
trans_info_from_json-length j t e =
    let (id, _, e1) = >>=-eq-ok (number_at (text "walletID") (2 ^ 32) j) _ e in
    let (ins, _, e2) = >>=-eq-ok (at (text "ins") j) _ e1 in
    let ((xs, ys), p, e3) =
      >>=-eq-ok (read_pairs (text "txID") (2 ^ 32) (text "outIDX") (2 ^ 64) (elements ins)) _ e2 in
    let (outs, _, e4) = >>=-eq-ok (at (text "outs") j) _ e3 in
    let ((zs, ws), q, e5) =
      >>=-eq-ok (read_pairs (text "value") (2 ^ 64) (text "outwalletID") (2 ^ 32) (elements outs)) _
        e4 in
    (
      ground (
        arith,
        e5,
        read_pairs-length (text "txID") (text "outIDX") (2 ^ 32) (2 ^ 64) (elements ins) xs ys p,
      ),
      ground (
        arith,
        e5,
        read_pairs-length (text "value") (text "outwalletID") (2 ^ 64) (2 ^ 32) (elements outs) zs
            ws q,
      ),
    )
