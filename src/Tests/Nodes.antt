-- ===== src/Tests/Nodes.antt =====
-- The node's decisions at concrete inputs.
use bina_blockchain_l.Prelude.{
  ℕ, ◌≡◌, refl, ◌⊎◌, true, false, none, some, [], ◌∷◌, arith, ok, err, Bytes-discrete, bytes_key,
  nat_key, member, lookup, keys,
}
use bina_blockchain_l.Ledger.Maps.{amount_of}
use bina_blockchain_l.Transaction.{from_hex, verify_transaction}
use bina_blockchain_l.Claims.{sign}
use bina_blockchain_l.Ledger.{LedgerError, admissible}
use bina_blockchain_l.Ledger.StateRoot.{
  state_root, read, state_root_with_overlay, compute_state_root,
}
use bina_blockchain_l.Ledger.Execution.{
  simulate_block_execution, simulate_loop, simulate_step, apply_all, apply_block,
}
use bina_blockchain_l.Node.{candidates_at}
use bina_blockchain_l.Node.Accept.{ClaimReject, check_claim, check_execution, accept_signed_claim}
use bina_blockchain_l.Node.Accept.Admission.{accept_signed_claim-outcome}
use bina_blockchain_l.Node.Accept.Execution.{check_execution-apply_block}
use bina_blockchain_l.Node.Mempool.{rejected, check_pending, check_pending-admissible}
use bina_blockchain_l.Tests.Fixtures.{
  toy_claim, toy, toy_header, signed_payment, toy_ledger, toy_ledger-IsBacked, toy_state, alice,
}

block_passes : check_execution toy toy_ledger toy_header (signed_payment ∷ []) 50 ≡ ok tt
unfolding check_execution simulate_block_execution simulate_loop simulate_step verify_transaction
    Bytes-discrete read amount_of from_hex state_root_with_overlay compute_state_root
block_passes = refl

check_execution-apply_block_example :
    let l' = apply_block toy true toy_ledger 1 (signed_payment ∷ []) alice 50 7 in
    ((apply_all toy true toy_ledger 1 (signed_payment ∷ []) alice 7).0 ≡ true)
    × (state_root toy l'.balances l'.nonces ≡ toy_header.state_root)
check_execution-apply_block_example =
    check_execution-apply_block toy toy_ledger toy_header (signed_payment ∷ []) 50 1 7
      toy_ledger-IsBacked (omega arith, tt) (omega arith) block_passes

accept_signed_claim-outcome_example :
    let (r, s') = accept_signed_claim toy toy_state toy_ledger 1000 toy_claim none [] in
    ((e : ClaimReject) × (r ≡ err e) × (s' ≡ toy_state))
    ⊎ ((r ≡ ok tt)
        × (check_claim toy toy_state toy_ledger 1000 toy_claim none [] ≡ ok tt)
        × (member alice (keys (candidates_at 2 toy_state.pending_claims)) ≡ false)
        × (lookup alice (candidates_at 2 s'.pending_claims)
            ≡ some (record { claim = toy_claim; btc_checkpoint = none; transactions = [] })))
unfolding sign
accept_signed_claim-outcome_example =
    accept_signed_claim-outcome toy toy_state toy_ledger 1000 toy_claim none []

check_pending-admissible_example :
    ((e : LedgerError) × (check_pending toy toy_ledger signed_payment ≡ err (rejected e))
      × (admissible toy toy_ledger signed_payment ≡ err e))
    ⊎ ((d : ℕ) × (check_pending toy toy_ledger signed_payment ≡ ok tt)
        × (admissible toy toy_ledger signed_payment ≡ ok d))
check_pending-admissible_example = check_pending-admissible toy toy_ledger signed_payment
