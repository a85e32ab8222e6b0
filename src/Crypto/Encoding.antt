-- ===== src/Crypto/Encoding.antt =====
-- Byte formats of l1-chain/core/src/crypto.rs: what is written is read back.
use bina_blockchain_l.Prelude.{
  ℕ, zero, suc, ◌+◌, ◌*◌, ◌/◌, ◌%◌, ◌≤◌, ◌<◌, ◌≡◌, refl, ap, ◌∙◌, inl, inr, true, List, [], ◌∷◌,
  ◌++◌, arith, ltb, ltb→le, le→ltb, Bool-cases, length, take, drop, get_or, length-append,
  length-drop, take-append, drop-append, take_within, drop_within, ok, Bytes, bytes_key, nat_key,
}
use mathlib.Core.List.{append_assoc}
use bina_blockchain_l.External.{External}
use bina_blockchain_l.Crypto.{
  WalletPublicKey, HybridSignature, key_to_bytes, signature_to_bytes, signature_from_bytes,
  key_from_bytes, falcon_pk_bytes,
}

take-all {ℓ} : {A : Type ℓ} (n : ℕ) (xs : List A) → length xs ≡ n → take n xs ≡ xs
take-all zero [] h = refl
take-all zero (x ∷ xs) h = absurd (omega arith)
take-all (suc n) [] h = absurd (omega arith)
take-all (suc n) (x ∷ xs) h = ap (◌∷◌ x) (take-all n xs (omega arith))

-- The two parts of a joined string behind which more may follow.
parts_of_parts :
    (ed falcon tail : Bytes)
    → length ed ≡ 64
    → (take 64 ((ed ++ falcon) ++ tail) ≡ ed)
      × (take (length falcon) (drop 64 ((ed ++ falcon) ++ tail)) ≡ falcon)
parts_of_parts ed falcon tail he = rw (append_assoc ed falcon tail) (
  take-append 64 ed (falcon ++ tail) he,
  rw (drop-append 64 ed (falcon ++ tail) he) (take-append (length falcon) falcon tail refl),
)

length_parts :
    (ed falcon tail : Bytes)
    → length ((ed ++ falcon) ++ tail) ≡ length ed + length falcon + length tail
length_parts ed falcon tail =
    omega (arith, length-append (ed ++ falcon) tail, length-append ed falcon)

-- A hybrid signature whose Ed25519 part has 64 bytes and whose Falcon part fits a u16 length is read
-- back from its bytes, whatever bytes follow them.
pub signature_from_bytes-signature_to_bytes :
    (s : HybridSignature) (tail : Bytes)
    → length s.ed25519 ≡ 64
    → length s.falcon < 65536
    → signature_from_bytes (signature_to_bytes s ++ tail) ≡ ok s
unfolding signature_from_bytes signature_to_bytes
signature_from_bytes-signature_to_bytes s tail he hf =
    let n = length s.falcon in
    let (p, q) = parts_of_parts s.ed25519 s.falcon tail he in
    let len = length_parts s.ed25519 s.falcon tail in
    let flen : n % 65536 % 256 + 256 * (n % 65536 / 256 % 256) ≡ n = omega arith in
    rw (le→ltb (suc (suc (length ((s.ed25519 ++ s.falcon) ++ tail)))) 66 (omega arith)) (
      rw flen (
        rw (le→ltb (suc (suc (length ((s.ed25519 ++ s.falcon) ++ tail)))) (66 + n) (omega arith))
          (rw (p, q))))

abbrev flen_of : Bytes → ℕ
flen_of b = get_or b 0 0 + 256 * get_or b 1 0

abbrev parts_of : Bytes → HybridSignature
parts_of b = record { ed25519 = take 64 (drop 2 b); falcon = take (flen_of b) (drop 66 b) }

parsed :
    (b : Bytes) (s : HybridSignature)
    → signature_from_bytes b ≡ ok s
    → (66 + flen_of b ≤ length b) × (parts_of b ≡ s)
unfolding signature_from_bytes
parsed b s h = elim (Bool-cases (ltb (length b) 66)) [
  | inl short ↦ let e = rw (short, signature_from_bytes) at h in cc
  | inr long ↦ elim (Bool-cases (ltb (length b) (66 + flen_of b))) [
    | inl cut ↦ let e = rw (long, cut, signature_from_bytes) at h in cc
    | inr fits ↦ (ltb→le _ _ fits, let e = rw (long, fits, signature_from_bytes) at h in cc)
  ]
]

parses : (b : Bytes) → 66 + flen_of b ≤ length b → signature_from_bytes b ≡ ok (parts_of b)
unfolding signature_from_bytes
parses b h = rw (le→ltb (length b) 66 (omega arith), le→ltb (length b) (66 + flen_of b) h)

parts-append :
    (a c : ℕ) (r tail : Bytes)
    → 66 + flen_of (a ∷ c ∷ r) ≤ length (a ∷ c ∷ r)
    → parts_of (a ∷ c ∷ (r ++ tail)) ≡ parts_of (a ∷ c ∷ r)
parts-append a c r tail h =
    rw (take_within 64 r tail (omega arith), drop_within 64 r tail (omega arith))
      (rw (take_within (a + 256 * c) (drop 64 r) tail (omega (arith, length-drop 64 r))))

-- A signature says how long it is: bytes appended to a string from which a signature was read do
-- not change what is read.
pub signature_from_bytes-append :
    (b tail : Bytes) (s : HybridSignature)
    → signature_from_bytes b ≡ ok s
    → signature_from_bytes (b ++ tail) ≡ ok s
signature_from_bytes-append [] tail s h = absurd (omega (arith, (parsed [] s h).0))
signature_from_bytes-append (a ∷ []) tail s h = absurd (omega (arith, (parsed (a ∷ []) s h).0))
signature_from_bytes-append (a ∷ c ∷ r) tail s h =
    let (fits, same_parts) = parsed (a ∷ c ∷ r) s h in
    parses (a ∷ c ∷ (r ++ tail)) (omega (arith, length-append r tail))
    ∙ ap ok (parts-append a c r tail fits ∙ same_parts)

-- A public key that the crates accept is read back from its 929 bytes.
pub key_from_bytes-key_to_bytes :
    (x : External) (k : WalletPublicKey)
    → length k.ed25519 ≡ 32
    → length k.falcon ≡ falcon_pk_bytes
    → x.ed25519_valid_key k.ed25519 ≡ true
    → x.falcon_valid_key k.falcon ≡ true
    → key_from_bytes x (key_to_bytes k) ≡ ok k
unfolding key_from_bytes key_to_bytes
key_from_bytes-key_to_bytes x k he hf ve vf = rw (take-append 32 k.ed25519 k.falcon he) (
    rw (drop-append 32 k.ed25519 k.falcon he) (
      let len : length (k.ed25519 ++ k.falcon) ≡ 929 =
        omega (arith, length-append k.ed25519 k.falcon) in
      rw (len, ve, vf)))
