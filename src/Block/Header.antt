-- ===== src/Block/Header.antt =====
-- The header encoding of l1-chain/core/src/block.rs, on which the block hash stands.
use bina_blockchain_l.Prelude.{
  ℕ, ◌^◌, ◌<◌, ◌≡◌, refl, sym, ◌∙◌, ◌++◌, length, append_cancel, Bytes, le_bytes, length-le_bytes,
  le_bytes_injective, bytes_key, nat_key,
}
use bina_blockchain_l.Block.{L1BlockHeader, preimage, domain_tag}

-- The sizes that the Rust types give the fields.
pub record IsSized (h : L1BlockHeader) : Type 0 where
  pub version_u32 : h.version < 256 ^ 4
  pub height_u64 : h.height < 256 ^ 8
  pub prev_hash_32 : length h.prev_hash ≡ 32
  pub merkle_root_32 : length h.merkle_root ≡ 32
  pub state_root_32 : length h.state_root ≡ 32
  pub timestamp_u64 : h.timestamp < 256 ^ 8
  pub nonce_u64 : h.nonce < 256 ^ 8
  pub miner_address_20 : length h.miner_address ≡ 20
  pub difficulty_bits_u32 : h.difficulty_bits < 256 ^ 4

-- One field more: two strings that begin with fields of one length agree on the field and the rest.
split_word :
    (w m n : ℕ) (r s : Bytes)
    → m < 256 ^ w
    → n < 256 ^ w
    → le_bytes w m ++ r ≡ le_bytes w n ++ s
    → (m ≡ n) × (r ≡ s)
split_word w m n r s hm hn e =
    let (p, q) =
      append_cancel (le_bytes w m) (le_bytes w n) r s
        (length-le_bytes w m ∙ sym (length-le_bytes w n)) e in
    (le_bytes_injective w m n hm hn p, q)

split_bytes :
    (n : ℕ) (a b r s : Bytes) → length a ≡ n → length b ≡ n → a ++ r ≡ b ++ s → (a ≡ b) × (r ≡ s)
split_bytes n a b r s ha hb e = append_cancel a b r s (ha ∙ sym hb) e

-- Two headers whose fields have the sizes of their Rust types are hashed from the same bytes only if
-- they are the same header: no field can be moved into its neighbour.
pub preimage_injective :
    (g h : L1BlockHeader) → IsSized g → IsSized h → preimage g ≡ preimage h → g ≡ h
unfolding preimage
preimage_injective g h sg sh e0 =
    let e1 = (append_cancel domain_tag domain_tag _ _ refl e0).1 in
    let (p1, e2) = split_word 4 g.version h.version _ _ sg.version_u32 sh.version_u32 e1 in
    let (p2, e3) = split_word 8 g.height h.height _ _ sg.height_u64 sh.height_u64 e2 in
    let (p3, e4) = split_bytes 32 g.prev_hash h.prev_hash _ _ sg.prev_hash_32 sh.prev_hash_32 e3 in
    let (p4, e5) =
      split_bytes 32 g.merkle_root h.merkle_root _ _ sg.merkle_root_32 sh.merkle_root_32 e4 in
    let (p5, e6) =
      split_bytes 32 g.state_root h.state_root _ _ sg.state_root_32 sh.state_root_32 e5 in
    let (p6, e7) = split_word 8 g.timestamp h.timestamp _ _ sg.timestamp_u64 sh.timestamp_u64 e6 in
    let (p7, e8) = split_word 8 g.nonce h.nonce _ _ sg.nonce_u64 sh.nonce_u64 e7 in
    let (p8, e9) =
      split_bytes 20 g.miner_address h.miner_address _ _ sg.miner_address_20 sh.miner_address_20
        e8 in
    let (p9, p10) =
      split_word 4 g.difficulty_bits h.difficulty_bits _ _ sg.difficulty_bits_u32
        sh.difficulty_bits_u32 e9 in
    λ i. record {
      version = p1 i;
      height = p2 i;
      prev_hash = p3 i;
      merkle_root = p4 i;
      state_root = p5 i;
      timestamp = p6 i;
      nonce = p7 i;
      miner_address = p8 i;
      difficulty_bits = p9 i;
      bitcoin_seed_hash = p10 i;
    }
