-- ===== src/Block.antt =====
-- The block header and the proof-of-work test of l1-chain/core/src/block.rs.
pub mod Difficulty
pub mod Header
use bina_blockchain_l.Prelude.{
  ℕ, zero, suc, ◌+◌, ◌-◌, ◌*◌, ◌/◌, ◌%◌, ◌^◌, ◌≤◌, ◌<◌, min, max, ◌≡◌, refl, sym, ap, ◌∙◌, ◌≢◌, ◌↔◌,
  ◌⊎◌, inl, inr, Bool, true, false, not, ◌&&◌, ◌||◌, Option, none, some, List, [], ◌∷◌, ◌++◌, map,
  arith, dec_lt, ℕ_discrete, ltb, leb, ◌==◌, if◌then◌else◌, ltb→lt, ltb→le, lt→ltb, le→ltb, leb→le,
  le→leb, ==→eq, ==_refl, ==_ne, tests, Bool-cases, Option-cases, Bool-ext, length, take, drop,
  replicate, get_or, length-append, length-replicate, length-take, length-drop, take-append,
  drop-append, append_cancel, take_within, drop_within, All, All-append, all, filter, u64_mod,
  u64_max, saturating_add, checked_add, wrapping_add, saturating_sub, saturating_add_small,
  wrapping_add_small, Result, ok, err, ◌>>=◌, ◌>>◌, ensure, ok_or, is_ok, >>=-eq-ok, Bytes,
  Bytes-discrete, bytes_lt, bytes_lt_irrefl, bytes_lt_trans, bytes_lt_total, bytes_lt_asymm,
  le_bytes, of_le_bytes, length-le_bytes, of_le_bytes-le_bytes, codes, le_bytes_injective, Key,
  bytes_key, nat_key, same, same→eq, same_refl, member, member-append, set_insert, set_remove,
  lookup, insert, erase, keys, lookup-insert, lookup-erase, member-keys-insert,
}
use Prim.Native.Nat.{bit_and}
use bina_blockchain_l.External.{External}

abbrev pub domain_tag : Bytes
domain_tag = codes "BINA-L1-v1"

abbrev pub zeros : ℕ → Bytes
zeros n = replicate n 0

-- `L1BlockHeader`; `L1Block` only wraps it.
pub record L1BlockHeader : Type 0 where
  pub version : ℕ
  pub height : ℕ
  pub prev_hash : Bytes
  pub merkle_root : Bytes
  pub state_root : Bytes
  pub timestamp : ℕ
  pub nonce : ℕ
  pub miner_address : Bytes
  pub difficulty_bits : ℕ
  pub bitcoin_seed_hash : Bytes

-- The bytes that `L1BlockHeader::hash` feeds to the hasher, in its order.
unfoldable pub preimage : L1BlockHeader → Bytes
preimage h =
    domain_tag
    ++ (le_bytes 4 h.version
        ++ (le_bytes 8 h.height
            ++ (h.prev_hash
                ++ (h.merkle_root
                    ++ (h.state_root
                        ++ (le_bytes 8 h.timestamp
                            ++ (le_bytes 8 h.nonce
                                ++ (h.miner_address
                                    ++ (le_bytes 4 h.difficulty_bits ++ h.bitcoin_seed_hash)))))))))

-- `L1BlockHeader::hash`
unfoldable pub header_hash : External → L1BlockHeader → Bytes
header_hash x h = x.blake3 (preimage h)

-- `for &byte in hash.iter().take(full_bytes)`: no byte is nonzero.
abbrev pub all_zero : Bytes → Bool
all_zero = all (λ b. b == 0)

-- `hash[full_bytes] & (0xffu8 << (8 - remainder))` is zero.
unfoldable pub top_bits_zero : ℕ → ℕ → Bool
top_bits_zero byte remainder = bit_and byte (255 * 2 ^ (8 - remainder) % 256) == 0

unfoldable pub meets_difficulty : Bytes → ℕ → Bool
meets_difficulty hash bits =
    if bits == 0
    then true
    else let full_bytes = bits / 8 in
      let remainder = bits % 8 in
      all_zero (take full_bytes hash)
      && (if ltb 0 remainder && ltb full_bytes 32
          then top_bits_zero (get_or hash full_bytes 0) remainder
          else true)

-- `u8::leading_zeros`
unfoldable pub leading_zeros : ℕ → ℕ
leading_zeros b =
    if leb 128 b
    then 0
    else if leb 64 b
    then 1
    else if leb 32 b
    then 2
    else if leb 16 b
    then 3
    else if leb 8 b
    then 4
    else if leb 4 b
    then 5
    else if leb 2 b
    then 6
    else if leb 1 b
    then 7
    else 8

-- The loop of `leading_zero_bits`, which breaks at the first nonzero byte.
unfoldable pub count_zero_bits : ℕ → Bytes → ℕ
unfolding leading_zeros
count_zero_bits count [] = count
count_zero_bits count (b ∷ bs) =
    let rest = count_zero_bits (count + 8) bs in if b == 0 then rest else count + leading_zeros b

unfoldable pub leading_zero_bits : Bytes → ℕ
unfolding count_zero_bits
leading_zero_bits hash = count_zero_bits 0 hash

-- The genesis header; its state root is that of the empty ledger.
unfoldable pub genesis_header : Bytes → L1BlockHeader
genesis_header empty_state_root = record {
  version = 1;
  height = 0;
  prev_hash = zeros 32;
  merkle_root = zeros 32;
  state_root = empty_state_root;
  timestamp = 1751241600000;
  nonce = 0;
  miner_address = zeros 20;
  difficulty_bits = 0;
  bitcoin_seed_hash = zeros 32;
}

unfoldable pub timestamp_is_valid : ℕ → ℕ → ℕ → ℕ → Bool
timestamp_is_valid candidate_ms prev_ms now_ms max_future_ms =
    ltb prev_ms candidate_ms && leb candidate_ms (saturating_add now_ms max_future_ms)
