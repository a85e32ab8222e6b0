-- ===== src/Tests/Storage.antt =====
-- The block store and the search, at concrete inputs.
use bina_blockchain_l.Prelude.{
  ℕ, ◌≤◌, ◌≡◌, refl, true, none, some, List, [], ◌∷◌, arith, if◌then◌else◌, length, replicate, All,
  ok, bytes_key, nat_key,
}
use bina_blockchain_l.Block.{meets_difficulty, header_hash, top_bits_zero}
use bina_blockchain_l.Node.{BlockRecord}
use bina_blockchain_l.Store.{
  BlockStore, empty_store, as_i64, get, get_range, insert_block, rollback_above, not_above, place,
  complete, complete_all, get_transactions, parse_rows, order_by_index, place_tx, tx_rows,
  row_to_record,
}
use bina_blockchain_l.Store.Rows.{IsOrdered}
use bina_blockchain_l.Store.Blocks.{
  as_read, IsTidy, insert_block-IsTidy, get-insert_block, get-rollback_above,
}
use bina_blockchain_l.Store.Ranges.{get_range-page}
use bina_blockchain_l.Search.{mine_block, run_schedule, start_pool, spawn, advance, advance_at, act}
use bina_blockchain_l.Search.Winner.{mine_block-meets_difficulty}
use bina_blockchain_l.Tests.Fixtures.{toy, toy_header, signed_payment, alice}
use bina_blockchain_l.Tests.Encodings.{pack, unpack, toy_json, toy_json-ReadsBack}

abbrev block_2 : BlockRecord
block_2 = record {
  height = 2;
  block_hash = replicate 32 9;
  prev_hash = replicate 32 3;
  nonce = 9;
  timestamp = 1000;
  mined_timestamp_secs = 0;
  zero_bits = 30;
  hashes_tried = 0;
  elapsed_ms = 0;
  hashrate_mhs = 0;
  claim_digest = [];
  election_score = [];
  source = [];
  randomness_output = [];
  chain_work_hex = [];
  difficulty_bits = 25;
  miner_address = alice;
  miner_public_key = [];
  miner_signature = [];
  reward_bina = 50;
  nullifier = replicate 32 8;
  btc_seed = replicate 32 4;
  btc_height = 100;
  merkle_root = replicate 32 0;
  state_root = replicate 32 0;
  transactions = signed_payment ∷ [];
}

abbrev filled : BlockStore
filled = (insert_block toy_json true empty_store block_2).1

get-insert_block_example : get toy_json filled 2 ≡ ok (some (as_read block_2))
unfolding empty_store
get-insert_block_example = get-insert_block toy_json empty_store block_2 2 toy_json-ReadsBack tt

get-rollback_above_example :
    get toy_json (rollback_above true filled 1).1 2
    ≡ (if not_above 1 2 then get toy_json filled 2 else ok none)
get-rollback_above_example = get-rollback_above toy_json filled 1 2

empty_store-IsTidy : IsTidy empty_store
unfolding empty_store
empty_store-IsTidy = record { ordered = tt; words = tt }

filled-IsTidy : IsTidy filled
filled-IsTidy =
    insert_block-IsTidy toy_json true empty_store block_2 (omega arith) empty_store-IsTidy

page : get_range toy_json filled 1 5 10 ≡ ok (as_read block_2 ∷ [])
unfolding get_range complete_all complete row_to_record get_transactions parse_rows order_by_index
    place_tx insert_block place tx_rows empty_store pack unpack
page = refl

get_range-page_example :
    (length (as_read block_2 ∷ []) ≤ 10)
    × All (λ r. (as_i64 1 ≤ as_i64 r.height) × (as_i64 r.height ≤ as_i64 5)) (as_read block_2 ∷ [])
    × IsOrdered (as_read block_2 ∷ [])
    × All (λ r. get toy_json filled r.height ≡ ok (some r)) (as_read block_2 ∷ [])
get_range-page_example =
    get_range-page toy_json filled 1 5 10 (as_read block_2 ∷ []) filled-IsTidy page

-- Two threads; the second finds its nonce first, the first then sees the flag.
abbrev order : List ℕ
order = 1 ∷ 1 ∷ 1 ∷ 0 ∷ []

found_by_second : mine_block toy toy_header 2 order ≡ some (record toy_header { nonce = 1 })
unfolding mine_block run_schedule start_pool spawn advance advance_at act meets_difficulty
    header_hash top_bits_zero
found_by_second = refl

mine_block-meets_difficulty_example :
    (meets_difficulty (header_hash toy (record toy_header { nonce = 1 })) 25 ≡ true)
    × (record toy_header { nonce = 1 } ≡ record toy_header { nonce = 1 })
mine_block-meets_difficulty_example =
    mine_block-meets_difficulty toy toy_header (record toy_header { nonce = 1 }) 2 order
      (omega arith) found_by_second
