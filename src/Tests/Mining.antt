-- ===== src/Tests/Mining.antt =====
-- A round of mining, and a rollback before it.
use bina_blockchain_l.Prelude.{
  ℤ, pos, ℕ, ◌/◌, ◌≤◌, ◌<◌, ◌≡◌, refl, true, false, none, some, [], ◌∷◌, map, arith, ℕ_discrete,
  replicate, saturating_add, ok, err, Bytes-discrete, bytes_key, nat_key,
}
use bina_blockchain_l.Difficulty.{Adjuster, record_block}
use bina_blockchain_l.Transaction.{merkle_root, root_of}
use bina_blockchain_l.Block.{timestamp_is_valid, meets_difficulty, header_hash, top_bits_zero}
use bina_blockchain_l.Crypto.{
  key_to_bytes, signature_to_bytes, keypair_sign, key_from_bytes, key_address, key_verify,
  signature_from_bytes,
}
use bina_blockchain_l.Claims.{SignedBlockClaim, sign, block_hash, claim_is_better}
use bina_blockchain_l.Claims as Claims
use bina_blockchain_l.Checkpoint.{is_checkpoint_height}
use bina_blockchain_l.Emission.{block_reward}
use bina_blockchain_l.Randomness.{from_block, consume, mark_spent}
use bina_blockchain_l.Ledger.{Ledger}
use bina_blockchain_l.Ledger.Maps.{amount_of}
use bina_blockchain_l.Ledger.StateRoot.{
  state_root, read, state_root_with_overlay, compute_state_root,
}
use bina_blockchain_l.Ledger.Execution.{simulate_block_execution, simulate_loop, apply_block}
use bina_blockchain_l.Node.{NodeState, BlockRecord, StoreCall, PendingClaim, candidates_at}
use bina_blockchain_l.Node.Accept.{
  admit, check_claim, check_structure, check_checkpoint, check_execution, accept_signed_claim,
}
use bina_blockchain_l.Node.ForkChoice.{select_winning_pending}
use bina_blockchain_l.Node.Sync.{Replica}
use bina_blockchain_l.Node.Reorg.{Disk, Rollback, roll_back}
use bina_blockchain_l.Node.Mining.{
  Candidate, Round, Finalized, record_of, nullifier_collision, no_stats, build_candidate,
  sign_mined, submit_local, finish_round, apply_winner,
}
use bina_blockchain_l.Node.Mining.Liveness.{Agrees, accept_signed_claim-mined}
use bina_blockchain_l.Node.Mining.Final.{AreVetted, finish_round-extends}
use bina_blockchain_l.Node.Mining.Vetted.{accept_signed_claim-AreVetted, submit_local-AreVetted}
use bina_blockchain_l.Node.Mining.Leftovers.{finish_round-panics}
use bina_blockchain_l.Store.{empty_store}
use bina_blockchain_l.Tests.Fixtures.{
  toy, toy_wallet, toy-Owns, toy_state, toy_ledger, toy_ledger-IsBacked, toy_claim, alice,
}
use bina_blockchain_l.Tests.Encodings.{toy_json}

abbrev one_up : ℕ → ℕ → ℤ
one_up actual target = pos 1

abbrev adjuster : Adjuster
adjuster = record {
  current_bits = 25;
  epoch_start_ms = 0;
  epoch_start_height = 1;
  last_adjustment = none;
}

abbrev start : Replica
start = record {
  state = toy_state;
  ledger = toy_ledger;
  adjuster = adjuster;
  btc_checkpoint_tip_height = 100;
}

abbrev pending : PendingClaim
pending = record { claim = toy_claim; btc_checkpoint = none; transactions = [] }

-- The claim of the fixtures is the one candidate of the next height.
abbrev contested : Replica
contested = record start {
  state = record toy_state { pending_claims = (2, (alice, pending) ∷ []) ∷ [] };
}

abbrev round : Round
round = record { height = 2; reward = 50; local_hash = []; stats = no_stats }

toy-Agrees : Agrees toy_state toy_state toy_ledger toy_ledger adjuster
unfolding Bytes-discrete
toy-Agrees = record {
  started = refl;
  height = refl;
  tip = refl;
  bits = refl;
  time = refl;
  seed = refl;
  mined = refl;
  balances = refl;
  nonces = refl;
}

abbrev own : Candidate
own =
    build_candidate toy toy_state toy_ledger adjuster 1000 (key_address toy toy_wallet.public) none
      []

own_work :
    meets_difficulty
      (header_hash toy (record own.template { nonce = 9 }))
      own.template.difficulty_bits
    ≡ true
unfolding build_candidate meets_difficulty header_hash top_bits_zero
own_work = refl

own_time : own.template.timestamp ≤ saturating_add 1000 30000
unfolding build_candidate
own_time = omega arith

own_height : is_checkpoint_height 2 ≡ false
unfolding is_checkpoint_height
own_height = refl

accept_signed_claim-mined_example :
    (accept_signed_claim toy toy_state toy_ledger 1000
      (sign_mined toy own 9 toy_wallet [])
      own.checkpoint_proof
      own.applied_txs).0
    ≡ ok tt
unfolding build_candidate candidates_at
accept_signed_claim-mined_example =
    accept_signed_claim-mined toy toy_state toy_state toy_ledger toy_ledger adjuster 1000 1000 9
      toy_wallet [] none [] toy-Agrees (omega arith) own_time own_height toy-Owns own_work refl

accept_signed_claim-AreVetted_example :
    AreVetted toy
      (record start {
        state = (accept_signed_claim toy toy_state toy_ledger 1000 toy_claim none []).1;
      })
      2
unfolding candidates_at
accept_signed_claim-AreVetted_example =
    accept_signed_claim-AreVetted toy start 1000 toy_claim none [] tt

abbrev mine : PendingClaim
mine = record {
  claim = sign_mined toy own 9 toy_wallet [];
  btc_checkpoint = own.checkpoint_proof;
  transactions = own.applied_txs;
}

submit_local-AreVetted_example :
    AreVetted toy (record start { state = submit_local toy toy_state 2 mine }) 2
unfolding candidates_at
submit_local-AreVetted_example =
    submit_local-AreVetted toy start 1000 9 toy_wallet [] none [] (omega arith) toy-Owns own_work tt

claim_verifies : Claims.verify toy toy_claim ≡ ok tt
unfolding Claims.verify key_from_bytes key_address key_verify signature_from_bytes meets_difficulty
    header_hash top_bits_zero block_hash sign Bytes-discrete key_to_bytes signature_to_bytes
    keypair_sign
claim_verifies = refl

claim_executes : check_execution toy toy_ledger toy_claim.header [] 50 ≡ ok tt
unfolding check_execution simulate_block_execution simulate_loop read amount_of
    state_root_with_overlay compute_state_root Bytes-discrete sign
claim_executes = refl

contested-AreVetted : AreVetted toy contested 2
unfolding candidates_at sign ℕ_discrete block_reward
contested-AreVetted = ((claim_verifies, refl, refl, (omega arith), claim_executes), tt)

ends : (f : Finalized) × (finish_round one_up toy true contested round ≡ ok f)
unfolding finish_round select_winning_pending candidates_at apply_winner consume from_block
    mark_spent ℕ_discrete
ends = (_, refl)

finish_round-extends_example :
    (w : PendingClaim) × (Claims.verify toy w.claim ≡ ok tt)
    × (w.claim.header.prev_hash ≡ replicate 32 3)
    × (ends.0.replica.state.tip_hash ≡ block_hash toy w.claim)
    × (ends.0.replica.state.chain_height ≡ 2)
    × (500 < ends.0.replica.state.last_block_timestamp_ms)
    × (state_root toy ends.0.replica.ledger.balances ends.0.replica.ledger.nonces
        ≡ w.claim.header.state_root)
unfolding candidates_at ℕ_discrete block_reward
finish_round-extends_example =
    finish_round-extends one_up toy contested round ends.0 toy_ledger-IsBacked contested-AreVetted
      (tt, tt) refl (omega arith) ends.1

abbrev ledger_2 : Ledger
ledger_2 = apply_block toy true toy_ledger 2 [] alice 50 (1000 / 1000)

abbrev adjuster_2 : Adjuster
adjuster_2 = (record_block one_up adjuster 2 1000).0

abbrev stored_2 : BlockRecord
stored_2 = record_of toy pending 2 false no_stats 50 100 33554432

-- The node after the round.
abbrev settled : Finalized
settled = record {
  replica = record {
    state = record toy_state {
      nullifiers = replicate 32 0 ∷ [];
      chain_height = 2;
      total_mined_bina = ledger_2.total_mined;
      difficulty_bits = adjuster_2.current_bits;
      tip_hash = block_hash toy toy_claim;
      last_block_timestamp_ms = 1000;
      chain_work = 33554432;
      store_calls = StoreCall.insert_block stored_2 ∷ [];
    };
    ledger = ledger_2;
    adjuster = adjuster_2;
    btc_checkpoint_tip_height = 100;
  };
  stored = stored_2;
}

settles : apply_winner one_up toy true contested round pending ≡ ok settled
unfolding apply_winner consume from_block mark_spent ℕ_discrete is_checkpoint_height sign
    Bytes-discrete block_hash header_hash
settles = refl

abbrev disk : Disk
disk = record { opens_ledger = true; rolls_back = true; writes = true }

-- Back to the block below, with the settled block's record in hand.
abbrev to_parent : Rollback
to_parent = record {
  fork_point = 1;
  rolled_back = stored_2 ∷ [];
  new_tip = replicate 32 3;
  new_timestamp = 500;
  new_seed = replicate 32 4;
  new_seed_height = 100;
  new_ledger = toy_ledger;
}

abbrev back : Replica
back =
    (roll_back toy toy_json disk (record { replica = settled.replica; store = empty_store })
      to_parent).replica

abbrev again : Replica
again = record back {
  state = (accept_signed_claim toy back.state back.ledger 1000 toy_claim none []).1;
}

abbrev back_state : NodeState
back_state = record toy_state {
  nullifiers = replicate 32 0 ∷ [];
  store_calls = StoreCall.insert_block stored_2 ∷ [];
}

back_lem : back ≡ record start { state = back_state; adjuster = adjuster_2 }
unfolding roll_back record_of record_block ℕ_discrete sign
back_lem = refl

accepted_again :
    (accept_signed_claim toy back_state toy_ledger 1000 toy_claim none []).1
    ≡ record back_state { pending_claims = (2, (alice, pending) ∷ []) ∷ [] }
unfolding accept_signed_claim check_claim Claims.verify key_from_bytes key_address key_verify
    signature_from_bytes meets_difficulty header_hash top_bits_zero block_hash sign Bytes-discrete
    merkle_root root_of check_structure check_checkpoint timestamp_is_valid is_checkpoint_height
    check_execution simulate_block_execution simulate_loop read amount_of state_root_with_overlay
    compute_state_root admit candidates_at key_to_bytes signature_to_bytes keypair_sign
accepted_again = refl

wins :
    select_winning_pending toy (map (λ e. e.1) (candidates_at 2 again.state.pending_claims))
    ≡ some pending
unfolding select_winning_pending candidates_at ℕ_discrete
wins = rw (back_lem, accepted_again) refl

finish_round-panics_example : finish_round one_up toy true again round ≡ err nullifier_collision
finish_round-panics_example =
    finish_round-panics one_up toy true true toy_json disk contested round round pending settled
      empty_store to_parent 1000 settles refl wins
