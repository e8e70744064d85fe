-- ===== src/Storage/Database.antt =====
-- `Database` (include/database/database.h, lib/database/database.cc). The file is the JSON value that
-- its text stands for, and whether it can be opened.
use cosicoin.Base.{
  ℕ, Bool, true, Option, none, some, List, [], ◌∷◌, ◌++◌, nat_eq, list_eq, ◌==◌, if◌then◌else◌,
  last_or,
}
use cosicoin.Base.Text.{Bytes, text}
use cosicoin.Base.Result.{Result, ok, err, guard, ◌>>=◌, ◌>>◌, file_error, no_such_block}
use cosicoin.Json.{Json, null, str, arr, obj, Items, nil, cons, field, end, at, string_of, elements}
use cosicoin.Host.{Host}
use cosicoin.Base.Dict.{Dict, lookup, insert, at_or}
use cosicoin.Blockchain.Block.{Block, block_digest, empty_block}
use cosicoin.Texts.Blocks.{block_to_string, block_from_string}

pub record Database : Type 0 where
  pub blocks : Dict Bytes Block
  -- The digests of the chain, the newest last.
  pub digests : List Bytes

-- A database without blocks.
abbrev pub empty_database : Database
empty_database = record { blocks = []; digests = [] }

-- `digests_.empty() || digests_.back() == prev`
unfoldable pub continues : List Bytes → Bytes → Bool
continues [] prev = true
continues (d ∷ ds) prev = last_or d ds == prev

-- The block appended under its digest.
unfoldable pub append_block : Bytes → Block → Database → Database
append_block digest b d = record d {
  blocks = insert digest b d.blocks;
  digests = d.digests ++ digest ∷ [];
}

-- The value that `to_json` fills: null until something is put into it.
unfoldable pub blockchain_json : Items → Json
blockchain_json nil = null
blockchain_json (cons j js) = obj (field (text "blockchain") (arr (cons j js)) end)

module _ (h : Host) where
  -- The loop of `to_json`; a digest without a block makes an empty one.
  unfoldable pub entries_json : Dict Bytes Block → List Bytes → Result Items
  entries_json m [] = ok nil
  entries_json m (x ∷ xs) = do
    b ← block_to_string h (at_or empty_block x m)
    js ← entries_json m xs
    ok (cons (obj (field (text "block") (str b) (field (text "digest") (str x) end))) js)

  -- `to_json`
  unfoldable pub database_to_json : Database → Result Json
  unfolding blockchain_json
  database_to_json d = do js ← entries_json d.blocks d.digests; ok (blockchain_json js)

  -- `save`: what is written, if the file can be opened.
  unfoldable pub save : Bool → Database → Result Json
  save writable d = do j ← database_to_json d; guard writable file_error; ok j

  -- The loop of `from_json`.
  unfoldable pub read_entries : List Json → Database → Result Database
  unfolding append_block
  read_entries [] d = ok d
  read_entries (j ∷ js) d = do
    x ← at (text "digest") j
    digest ← string_of x
    b ← at (text "block") j
    s ← string_of b
    block ← block_from_string h s
    read_entries js (append_block digest block d)

  -- `from_json`
  unfoldable pub database_from_json : Json → Result Database
  database_from_json j = do
    entries ← at (text "blockchain") j
    read_entries (elements entries) empty_database

  -- `Database(filename)` and `load`, on the file if there is one.
  unfoldable pub open_database : Option Json → Result Database
  open_database none = ok empty_database
  open_database (some j) = database_from_json j

  unfoldable pub add_digested : Bool → Block → Database → Result Bytes → Result ℕ × Database
  unfolding append_block
  add_digested writable b d (err e) = (err e, d)
  add_digested writable b d (ok digest) =
      let d' = append_block digest b d in (do _ ← save writable d'; ok 0, d')

  -- `addBlock`: its result, 0 or 1, or what it throws, and the database then.
  unfoldable pub add_block : Bool → Block → Database → Result ℕ × Database
  unfolding add_digested
  add_block writable b d =
      if continues d.digests b.header.prev_block_digest
      then add_digested writable b d (block_digest h b)
      else (ok 1, d)

-- `getBlock`
unfoldable pub get_block : Bytes → Database → Result Block
get_block digest d = elim (lookup digest d.blocks) [ none ↦ err no_such_block | some b ↦ ok b ]

-- `getBlockDigests`
unfoldable pub get_block_digests : Database → List Bytes
get_block_digests d = d.digests
