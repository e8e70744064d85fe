-- ===== src/Tests/Services.antt =====
-- The wallet, the communication, the settings and the database at concrete inputs.
use cosicoin.Base.{
  ℕ, ◌≡◌, refl, true, false, [], ◌∷◌, arith, nat_eq, list_eq, list_beq, contains, if◌then◌else◌,
  ◌++◌,
}
use cosicoin.Base.Text.{Bytes, text}
use cosicoin.Base.Result.{ok, ◌>>=◌}
use cosicoin.Json.{Json, num, arr, obj, nil, cons, field, end, number_at, at, get_number, elements}
use cosicoin.Signature.Lamport.{key_gen-total}
use cosicoin.Blockchain.Transaction.{Transaction, check_spending_conditions}
use cosicoin.Blockchain.Message.{Message, echo, new_message}
use cosicoin.Validator.State.{Validator, coins_of}
use cosicoin.Validator.Pool.{on_recv_tx}
use cosicoin.Wallet.Info.{TransInfo, trans_info_from_json, read_pairs}
use cosicoin.Wallet.Create.{Wallet, create_tx}
use cosicoin.Wallet.Accepted.{Asked, create_tx_judged}
use cosicoin.Comms.Server.{Intake, first_intake, proceed, take_all, finish, start_process, Server}
use cosicoin.Comms.Intake.{IsReady, boot, completes, drains, Serves-IsReady}
use cosicoin.Comms.Client.{Client, new_client, client_broadcast, run_thread, push_all, push_to}
use cosicoin.Comms.Delivery.{IsDelivering, starts, broadcasts, runs, more, Sends-IsDelivering}
use cosicoin.Config.Settings.{Settings, settings_from_json, settings_to_json, infos}
use cosicoin.Config.Roundtrip.{settings_from_json-settings_to_json}
use cosicoin.Storage.Database.{empty_database, add_block}
use cosicoin.Storage.Links.{Linked, fresh, adds, Grown-Linked}
use cosicoin.Tests.Sample.{host, host-NeverFails, pair, closed_block, wallets, node}
use cosicoin.Base.Dict.{lookup, insert}
use cosicoin.Tests.Codec.{codec, codec-IsFaithful, codec-NeverFails, is_text-hash}
use cosicoin.Wire.Calls.{new_tx_call, new_tx_request}
use cosicoin.Validator.Listen.{listen_task}
use cosicoin.Wallet.Paid.{payment_arrives}

-- Wallet 4 pays 25 to wallet 5 and 5 to itself.
abbrev description : Json
description = obj (
    field (text "walletID") (num 4) (
      field (text "ins")
        (arr (cons (obj (field (text "txID") (num 0) (field (text "outIDX") (num 0) end))) nil))
        (field (text "outs")
          (arr (
            cons (obj (field (text "value") (num 25) (field (text "outwalletID") (num 5) end))) (
              cons (obj (field (text "value") (num 5) (field (text "outwalletID") (num 4) end)))
                nil)))
          end)))

abbrev info : TransInfo
info = record {
  walletid = 4;
  out_value_list = 25 ∷ 5 ∷ [];
  out_wallet_id_list = 5 ∷ 4 ∷ [];
  in_out_idx_list = 0 ∷ [];
  in_tx_id_list = 0 ∷ [];
}

abbrev wallet : Wallet
wallet = record {
  id = 4;
  tx_id = 100;
  pk_generator = pair;
  pk = pair.public_key;
  sk = pair.private_key;
  local_utxo = [];
  sent = [];
  entropy = 0;
}

abbrev judge : Validator
judge = record {
  wallets_ids = wallets;
  pk_sets = [];
  utxo_sets = [];
  memory_pool = [];
  blist = [];
  node = node;
  synced = [];
}

create_tx_judged_example :
    (t : Transaction) × (w' : Wallet) × (create_tx host info wallet ≡ ok (t, w'))
    × Asked host info wallet t
    × (w'.tx_id ≡ 101)
    × ((on_recv_tx host t judge).0
        ≡ check_spending_conditions t (coins_of t.sender_id judge) wallets)
    × (t.public_key ≡ (key_gen-total host host-NeverFails 0).0.public_key)
unfolding trans_info_from_json list_beq number_at at get_number read_pairs elements
create_tx_judged_example =
    create_tx_judged host description info wallet (key_gen-total host host-NeverFails 0).0 judge
      refl (key_gen-total host host-NeverFails 0).1

-- A request arrives, its call ends, and the queue is emptied.
abbrev after_request : Intake ℕ
after_request = record { calls = finish ∷ start_process ∷ []; queue = 7 ∷ [] }

Serves-IsReady_example :
    IsReady {A = ℕ} (record { calls = finish ∷ start_process ∷ []; queue = [] }) (7 ∷ []) (7 ∷ [])
unfolding proceed take_all
Serves-IsReady_example =
    Serves-IsReady
      (drains (completes {s = first_intake} {s' = after_request} {queued = true} 0 7 boot refl))

abbrev address_a : Bytes
address_a = 1 ∷ []

abbrev address_b : Bytes
address_b = 2 ∷ []

abbrev message : Message
message = new_message echo closed_block 1 1

abbrev client : Client
client = new_client (address_a ∷ address_b ∷ []) address_a

abbrev sending : Client
sending = record client {
  message_queues = (address_a, message ∷ []) ∷ (address_b, message ∷ []) ∷ [];
}

Sends-IsDelivering_example :
    IsDelivering
      (run_thread address_b sending)
      (more (contains (address_a ∷ address_b ∷ [])) message (λ a. []))
unfolding client_broadcast list_beq new_client push_all push_to lookup insert
Sends-IsDelivering_example = Sends-IsDelivering (
    runs address_b (
      broadcasts {c = client} {c' = sending} message
        (starts (address_a ∷ address_b ∷ []) address_a (refl, (refl, tt))) refl))

abbrev settings : Settings
settings = record {
  leader_id = 1;
  validators =
      (1, record { id = 1; address = text "localhost"; port = 50051; faulty = false })
      ∷ (2, record { id = 2; address = text "localhost"; port = 50052; faulty = true })
      ∷ [];
  wallets = wallets;
  my_validator_id = 2;
  my_wallet_id = 4;
}

settings_from_json-settings_to_json_example :
    settings_from_json (settings_to_json settings) ≡ ok settings
unfolding infos
settings_from_json-settings_to_json_example =
    settings_from_json-settings_to_json settings (λ e. cc e)
      (refl, (omega arith, tt), (refl, tt, tt))
      (record {
        leader = omega arith;
        my_validator = omega arith;
        my_wallet = omega arith;
        wallets = (omega arith, (omega arith, tt));
        validators = ((omega arith, omega arith), ((omega arith, omega arith), tt));
      })

Grown-Linked_example :
    Linked host
      (add_block host true closed_block empty_database).1.blocks
      (add_block host true closed_block empty_database).1.digests
Grown-Linked_example = Grown-Linked host (adds true closed_block (fresh) (λ x e. refl))

-- A server with a waiting call and nothing queued.
abbrev idle_server : Server
idle_server = record { talk = first_intake; new_tx = first_intake; sync_calls = []; utxolists = [] }

payment_arrives_example :
    (t : Transaction) × (w' : Wallet) × (s' : Server) × (create_tx codec info wallet ≡ ok (t, w'))
    × Asked codec info wallet t
    × ((new_tx_call codec t >>= λ q. new_tx_request codec 0 q idle_server) ≡ ok s')
    × ((listen_task codec (s', judge)).0.new_tx.queue ≡ [])
    × ((listen_task codec (s', judge)).1.memory_pool ≡ (
        if check_spending_conditions t (coins_of t.sender_id judge) wallets
        then [] ++ t ∷ []
        else []))
unfolding trans_info_from_json list_beq number_at at get_number read_pairs elements
payment_arrives_example =
    payment_arrives codec codec-IsFaithful is_text-hash description info wallet
      (key_gen-total codec codec-NeverFails 0).0 0 idle_server judge refl
      (key_gen-total codec codec-NeverFails 0).1 refl refl
