-- ===== src/Wire/Whole.antt =====
-- Whatever the server decodes is whole: `fromProtoBlock` of include/blockchain/block.h and
-- `CallDataTalk::Proceed` of lib/comms/server.cc.
use cosicoin.Base.{
  ℕ, zero, suc, some, List, [], ◌∷◌, ◌++◌, ◌≡◌, refl, sym, ap, ◌∙◌, arith, inl, inr, nat_eq,
  list_eq, length, All, eqb, ◌⊎◌, get_elem?, Option-cases, All-append,
}
use cosicoin.Base.Text.{Bytes, text}
use cosicoin.Base.Result.{
  ok, err, guard, ◌>>=◌, >>=-eq-ok, ok-inj, key_length_error, undefined_behaviour,
}
use cosicoin.Json.{Json, string_of, at, json_size, indexed}
use cosicoin.Comms.Server.{
  create, start_process, finish, talk_proceed, proceed, Server, set_status, new_call,
}
use cosicoin.Host.{Host}
use cosicoin.Texts.Keys.{strings_of, key_of_json, key_from_string}
use cosicoin.Wire.Convert.{message_from_proto, block_from_proto, transactions_from_proto}
use cosicoin.Wire.Calls.{talk_request}
use cosicoin.Signature.Keys.{SigKey}
use cosicoin.Signature.Bitset.{key_len}
use cosicoin.Wire.Proto.{ProtoMessage}
use cosicoin.Blockchain.Message.{Message}
use cosicoin.Bracha.Run.{IsWhole}
use mathlib.Core.Path.{subst}
use cosicoin.Blockchain.Block.{empty_block, Block}
use cosicoin.Texts.Plain.{parse_text}

length-strings_of :
    (n : ℕ) (js : List Json) (ss : List Bytes) → strings_of n js ≡ ok ss → length ss ≡ n
unfolding strings_of
length-strings_of zero js ss e = ap length (sym (ok-inj e))
length-strings_of (suc n) [] ss e = absurd (cc e)
length-strings_of (suc n) (j ∷ js) ss e =
    let (s, p, q) = >>=-eq-ok (string_of j) _ e in
    let (rest, r, t) = >>=-eq-ok (strings_of n js) _ q in
    ap length (sym (ok-inj t)) ∙ ap suc (length-strings_of n js rest r)

-- A key that is read has both halves in full, though the source does not test the second.
key_of_json-full :
    (j : Json) (k : SigKey)
    → key_of_json j ≡ ok k
    → (length k.s0 ≡ key_len) × (length k.s1 ≡ key_len)
unfolding key_of_json
key_of_json-full j k e =
    let (zeros, _, q) = >>=-eq-ok (at (text "S0") j) _ e in
    let (_, _, q1) = >>=-eq-ok (guard (eqb (json_size zeros) key_len) key_length_error) _ q in
    let (s0, p0, q2) = >>=-eq-ok (strings_of key_len (indexed zeros)) _ q1 in
    let (ones, _, q3) = >>=-eq-ok (at (text "S1") j) _ q2 in
    let (s1, p1, q4) = >>=-eq-ok (strings_of key_len (indexed ones)) _ q3 in
    let same : record { s0 = s0; s1 = s1 } ≡ k = ok-inj q4 in
    (
      ap (λ (x : SigKey). length x.s0) (sym same) ∙ length-strings_of key_len (indexed zeros) s0 p0,
      ap (λ (x : SigKey). length x.s1) (sym same) ∙ length-strings_of key_len (indexed ones) s1 p1,
    )

module _ (h : Host) where
  message_from_proto-IsWhole :
      (p : ProtoMessage) (m : Message) → message_from_proto h p ≡ ok m → IsWhole m
  unfolding message_from_proto block_from_proto key_from_string
  message_from_proto-IsWhole p m e =
      let (b, q, r) = >>=-eq-ok (block_from_proto h p.block empty_block) _ e in
      let (txs, _, q1) = >>=-eq-ok (transactions_from_proto h p.block.transaction) _ q in
      let (key, q2, built) = >>=-eq-ok (key_from_string h p.block.publickey) _ q1 in
      let (j, _, q3) = >>=-eq-ok (parse_text h p.block.publickey) _ q2 in
      let (full0, full1) = key_of_json-full j key q3 in
      let block = ok-inj built in
      let message = ok-inj r in
      record {
        closed =
            ap (λ (x : Message). x.block.is_mutable) (sym message)
            ∙ ap (λ (x : Block). x.is_mutable) (sym block);
        full0 =
            ap (λ (x : Message). length x.block.validator_next_public_key.s0) (sym message)
            ∙ (ap (λ (x : Block). length x.validator_next_public_key.s0) (sym block) ∙ full0);
        full1 =
            ap (λ (x : Message). length x.block.validator_next_public_key.s1) (sym message)
            ∙ (ap (λ (x : Block). length x.validator_next_public_key.s1) (sym block) ∙ full1);
      }

  -- A call of `Talk` leaves the queue, or puts the message that it decodes behind it.
  talk_request-queue :
      (i : ℕ) (p : ProtoMessage) (s s' : Server)
      → talk_request h i p s ≡ ok s'
      → (s'.talk.queue ≡ s.talk.queue)
        ⊎ ((m : Message) × (message_from_proto h p ≡ ok m)
            × (s'.talk.queue ≡ s.talk.queue ++ m ∷ []))
  unfolding talk_request talk_proceed proceed
  talk_request-queue i p s s' e = elim (Option-cases (get_elem? s.talk.calls i)) [
    | inl dangling ↦
        let q : talk_request h i p s ≡ err undefined_behaviour = rw (talk_request, dangling) refl in
        absurd (cc (q, e))
    | inr (create, found) ↦ inl (ground (arith, e, found))
    | inr (start_process, found) ↦ served found
    | inr (finish, found) ↦ inl (ground (arith, e, found))
  ]
    where
      served :
          get_elem? s.talk.calls i ≡ some start_process
          → (s'.talk.queue ≡ s.talk.queue)
            ⊎ ((m : Message) × (message_from_proto h p ≡ ok m)
                × (s'.talk.queue ≡ s.talk.queue ++ m ∷ []))
      served found =
          let start : talk_request h i p s ≡ (message_from_proto h p >>= λ m. talk_proceed i m s) =
            rw (talk_request, found) refl in
          let (m, decoded, q) = >>=-eq-ok (message_from_proto h p) _ (sym start ∙ e) in
          let queued : talk_proceed i m s
              ≡ ok (record s {
                talk = record {
                  calls = set_status i finish (new_call s.talk.calls);
                  queue = s.talk.queue ++ m ∷ [];
                };
              }) =
            rw (talk_proceed, proceed, found) refl in
          inr (m, decoded, ap (λ (x : Server). x.talk.queue) (ok-inj (sym q ∙ queued)))

  pub talk_request-IsWhole :
      (i : ℕ) (p : ProtoMessage) (s s' : Server)
      → talk_request h i p s ≡ ok s'
      → All IsWhole s.talk.queue
      → All IsWhole s'.talk.queue
  talk_request-IsWhole i p s s' e w = elim (talk_request-queue i p s s' e) [
    | inl same ↦ subst (All IsWhole) (sym same) w
    | inr (m, decoded, longer) ↦
        subst (All IsWhole) (sym longer)
          (All-append IsWhole s.talk.queue (m ∷ []) w (message_from_proto-IsWhole p m decoded, tt))
  ]
