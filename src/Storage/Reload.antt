-- ===== src/Storage/Reload.antt =====
-- What `save` writes is what `Database(filename)` reads (lib/database/database.cc).
use mathlib.Core.List.{append-nil, append_assoc}
use cosicoin.Base.{
  true, some, List, [], ◌∷◌, ◌++◌, ◌≡◌, refl, sym, ap, ◌∙◌, arith, nat_eq, list_eq, All, list_beq,
  ◌≢◌, contains, contains-append, list_beq_iff,
}
use cosicoin.Base.Text.{Bytes, text}
use cosicoin.Base.Result.{ok, ◌>>=◌, >>=-eq-ok}
use cosicoin.Json.{
  Json, str, arr, obj, Items, nil, cons, field, end, at, items_list, find_field, string_of,
  elements, str_items,
}
use cosicoin.Host.{Host}
use cosicoin.Base.Dict.{Dict, lookup, lookup-insert, at_or, insert}
use cosicoin.Storage.Database.{
  append_block, read_entries, entries_json, Database, blockchain_json, save, get_block,
  database_to_json, open_database, database_from_json, empty_database,
}
use cosicoin.Texts.Plain.{IsFaithful}
use cosicoin.Blockchain.Block.{Block, empty_block}
use cosicoin.Texts.BlocksBack.{IsWritableBlock, as_read, block_text}
use cosicoin.Texts.Blocks.{
  block_from_string, block_to_string, block_json, texts_of_transactions, block_signature_items,
  header_to_string,
}
use cosicoin.Texts.Keys.{signature_to_json, all_short, signature_json}
use cosicoin.Signature.Keys.{key_to_string}
use cosicoin.Texts.Transactions.{member_unless_null, texts_json}

-- The block under a digest can be written, and is closed and not empty.
abbrev pub IsSavable : Dict Bytes Block → Bytes → Type 0
IsSavable m x = (b : Block) × (lookup x m ≡ some b) × IsWritableBlock b × (as_read b ≡ b)

-- The second database has the blocks of the first one under its own digests.
abbrev pub Agrees : Dict Bytes Block → Database → Type 0
Agrees m d = (y : Bytes) → contains d.digests y ≡ true → lookup y d.blocks ≡ lookup y m

Agrees-append_block :
    (m : Dict Bytes Block) (x : Bytes) (b : Block) (d : Database)
    → lookup x m ≡ some b
    → Agrees m d
    → Agrees m (append_block x b d)
unfolding append_block
Agrees-append_block m x b d p agrees y c = ground (
  arith,
  p,
  agrees y,
  lookup-insert d.blocks x y b,
  contains-append d.digests (x ∷ []) y,
  list_beq_iff x y,
)

module _ (h : Host) (faithful : IsFaithful h) where
  entry_read :
      (x s : Bytes) (b : Block) (js : List Json) (d : Database)
      → block_from_string h s ≡ ok b
      → read_entries h
          (obj (field (text "block") (str s) (field (text "digest") (str x) end)) ∷ js)
          d
        ≡ read_entries h js (append_block x b d)
  unfolding read_entries at find_field list_beq string_of
  entry_read x s b js d p = rw p refl

  entries_read :
      (m : Dict Bytes Block) (xs : List Bytes) (d : Database)
      → All (IsSavable m) xs
      → Agrees m d
      → (js : Items) × (entries_json h m xs ≡ ok js)
        × (d' : Database) × (read_entries h (items_list js) d ≡ ok d')
        × (d'.digests ≡ d.digests ++ xs)
        × Agrees m d'
  unfolding entries_json items_list read_entries append_block block_to_string insert
      Agrees-append_block block_json list_beq texts_of_transactions lookup signature_to_json
      all_short signature_json key_to_string str_items block_signature_items header_to_string
      member_unless_null texts_json
  entries_read m [] d a agrees = (nil, refl, d, refl, sym (append-nil d.digests), agrees)
  entries_read m (x ∷ xs) d a agrees =
      let (b, found, w, same) = a.0 in
      let (s, printed, read) = block_text h faithful b w in
      let (js, p, d', reads, digests, rest) =
        entries_read m xs (append_block x b d) a.1 (Agrees-append_block m x b d found agrees) in
      (
        cons (obj (field (text "block") (str s) (field (text "digest") (str x) end))) js,
        rw (at_or, found, printed, p) refl,
        d',
        entry_read x s b (items_list js) d (read ∙ ap ok same) ∙ reads,
        digests ∙ append_assoc d.digests (x ∷ []) xs,
        rest,
      )

  blockchain_json-cons :
      (m : Dict Bytes Block) (xs : List Bytes) (js : Items)
      → xs ≢ []
      → entries_json h m xs ≡ ok js
      → blockchain_json js ≡ obj (field (text "blockchain") (arr js) end)
  unfolding entries_json blockchain_json
  blockchain_json-cons m [] js n p = absurd (n refl)
  blockchain_json-cons m (x ∷ xs) (cons j js) n p = refl
  blockchain_json-cons m (x ∷ xs) nil n p =
      let (s, _, q) = >>=-eq-ok (block_to_string h (at_or empty_block x m)) _ p in
      let (js, _, r) = >>=-eq-ok (entries_json h m xs) _ q in absurd (cc r)

  file_read :
      (d d' : Database) (js : Items)
      → d.digests ≢ []
      → entries_json h d.blocks d.digests ≡ ok js
      → read_entries h (items_list js) empty_database ≡ ok d'
      → (j : Json) × (save h true d ≡ ok j) × (open_database h (some j) ≡ ok d')
  unfolding save database_to_json open_database database_from_json at find_field list_beq elements
  file_read d d' js n p q = (
    obj (field (text "blockchain") (arr js) end),
    rw (p, blockchain_json-cons d.blocks d.digests js n p) refl,
    q,
  )

  -- The JSON library reads back what it writes. A database with blocks, all of them under their digests
  -- and fit to be written, is saved, and the file is read into a database with the same digests in the
  -- same order and the same blocks.
  pub open_database-save :
      (d : Database)
      → d.digests ≢ []
      → All (IsSavable d.blocks) d.digests
      → (d' : Database) × ((save h true d >>= λ j. open_database h (some j)) ≡ ok d')
        × (d'.digests ≡ d.digests)
        × ((x : Bytes) → contains d.digests x ≡ true → get_block x d' ≡ get_block x d)
  unfolding get_block
  open_database-save d n a =
      let (js, p, d', reads, digests, agrees) =
        entries_read d.blocks d.digests empty_database a (λ y c. absurd (cc c)) in
      let (j, saved, opened) = file_read d d' js n p reads in
      (
        d',
        rw saved opened,
        digests,
        λ x c. rw (get_block, agrees x (ap (λ l. contains l x) digests ∙ c)) refl,
      )
