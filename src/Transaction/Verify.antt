-- ===== src/Transaction/Verify.antt =====
-- Which transfers of l1-chain/core/src/transaction.rs verify.
use bina_blockchain_l.Prelude.{
  ◌≡◌, refl, ap, ◌∙◌, ◌≢◌, Bool, true, false, [], ◌++◌, arith, ==_ne, length, length-append, Result,
  ok, err, ensure, >>=-eq-ok, Bytes, bytes_key, nat_key, same, same→eq, same_refl, same_ne,
}
use mathlib.Core.Path.{subst}
use mathlib.Core.List.{append-nil}
use bina_blockchain_l.External.{External}
use bina_blockchain_l.Crypto.{
  CryptoError, WalletKeypair, key_to_bytes, key_from_bytes, key_address, signature_from_bytes,
  signature_to_bytes, keypair_sign,
}
use bina_blockchain_l.Crypto.Encoding.{
  key_from_bytes-key_to_bytes, signature_from_bytes-signature_to_bytes, signature_from_bytes-append,
}
use bina_blockchain_l.Crypto.Signing.{Owns, key_verify-keypair_sign}
use bina_blockchain_l.Transaction.{
  TxError, of_crypto, Transaction, SignedTransaction, digest, sign_transaction, verify_hybrid,
  verify_transaction, wrong_from,
}

of_crypto-eq-ok : {A : Type 0} (r : Result CryptoError A) {a : A} → of_crypto r ≡ ok a → r ≡ ok a
of_crypto-eq-ok (ok a) h = cc
of_crypto-eq-ok (err e) h = cc

ensure-ok : (b : Bool) (e : TxError) {u : Unit {0}} → ensure b e ≡ ok u → b ≡ true
ensure-ok true e h = refl
ensure-ok false e h = cc

hybrid_length : (x : External) (k : WalletKeypair) → Owns x k → length (key_to_bytes k.public) ≢ 32
unfolding key_to_bytes
hybrid_length x k o =
    omega (arith, length-append k.public.ed25519 k.public.falcon, o.1.falcon_length)

verify_signed :
    (x : External) (t : Transaction) (k : WalletKeypair) (randomness : Bytes)
    → Owns x k
    → t.amount ≢ 0
    → t.from ≢ t.to
    → t.from ≡ key_address x k.public
    → verify_transaction x (record {
      tx = t;
      public_key = key_to_bytes k.public;
      signature = signature_to_bytes (keypair_sign x k randomness (digest x t));
    })
      ≡ ok tt
unfolding verify_transaction keypair_sign
verify_signed x t k r o ha hs from =
    let p = o.1 in
    let key =
      key_from_bytes-key_to_bytes x k.public (ap length o.0 ∙ p.ed_length) p.falcon_length
        (ap x.ed25519_valid_key o.0 ∙ p.ed_valid) p.falcon_valid in
    let h = keypair_sign x k r (digest x t) in
    let read : signature_from_bytes (signature_to_bytes h) ≡ ok h =
      rw (append-nil (signature_to_bytes h)) at (
        signature_from_bytes-signature_to_bytes h [] (p.ed_sign_length (digest x t))
          (omega (arith, p.falcon_sign_length r (digest x t)))) in
    rw
      (
        ==_ne t.amount 0 ha,
        same_ne t.from t.to hs,
        ==_ne (length (key_to_bytes k.public)) 32 (hybrid_length x k o),
      )
      (rw key (
        rw (← from) (
          rw (same_refl t.from)
            (rw read (ap of_crypto (key_verify-keypair_sign x k r (digest x t) o))))))

-- A transfer of a positive amount to another address that the hybrid key of its sender's wallet
-- signs verifies.
pub verify_transaction-sign_transaction :
    (x : External) (t : Transaction) (k : WalletKeypair) (randomness : Bytes)
    {s : SignedTransaction}
    → Owns x k
    → t.amount ≢ 0
    → t.from ≢ t.to
    → sign_transaction x t k randomness ≡ ok s
    → verify_transaction x s ≡ ok tt
unfolding sign_transaction
verify_transaction-sign_transaction x t k r {s} o ha hs e =
    let (u, ef, made) = >>=-eq-ok (ensure (same t.from (key_address x k.public)) wrong_from) _ e in
    let from : t.from ≡ key_address x k.public = same→eq _ _ (ensure-ok _ _ ef) in
    subst (λ v. verify_transaction x v ≡ ok tt) (cc made) (verify_signed x t k r o ha hs from)

-- Appending bytes to the signature of a transfer that passes the hybrid check gives another transfer
-- that passes it: the signature's bytes are malleable.
pub verify_hybrid-append :
    (x : External) (s : SignedTransaction) (tail : Bytes)
    → verify_hybrid x s ≡ ok tt
    → verify_hybrid x (record s { signature = s.signature ++ tail }) ≡ ok tt
unfolding verify_hybrid
verify_hybrid-append x s tail h =
    let (k, ek, h1) = >>=-eq-ok (of_crypto (key_from_bytes x s.public_key)) _ h in
    let (u, ea, h2) = >>=-eq-ok (ensure (same (key_address x k) s.tx.from) _) _ h1 in
    let (g, es, h3) = >>=-eq-ok (of_crypto (signature_from_bytes s.signature)) _ h2 in
    rw ek (rw ea (rw (signature_from_bytes-append s.signature tail g (of_crypto-eq-ok _ es)) h3))
