-- ===== src/Ledger/StateRoot.antt =====
-- The state root of l1-chain/core/src/rewards.rs: the hash of every account in the order of addresses.
use bina_blockchain_l.Prelude.{
  ℕ, ◌≡◌, refl, sym, ap, ◌∙◌, inl, inr, true, false, ◌||◌, none, some, List, [], ◌∷◌, ◌++◌, arith,
  if◌then◌else◌, Bool-cases, All, Bytes, bytes_lt, bytes_lt_irrefl, bytes_lt_trans, bytes_lt_total,
  bytes_lt_asymm, le_bytes, codes, bytes_key, nat_key, same, same_refl, member, lookup, keys,
}
use mathlib.Core.Path.{ap₂, fun_ext}
use bina_blockchain_l.External.{External}
use bina_blockchain_l.Ledger.Maps.{Amounts, amount_of}

abbrev pub state_root_tag : Bytes
state_root_tag = codes "BINA-STATE-v1"

-- An address with its balance and nonce, and the overlay of a block under evaluation.
abbrev pub Entry : Type 0
Entry = Bytes × ℕ × ℕ

abbrev pub Overlay : Type 0
Overlay = List (Bytes × (ℕ × ℕ))

-- Insertion into the ascending `BTreeSet` of addresses.
unfoldable pub address_insert : Bytes → List Bytes → List Bytes
address_insert a [] = a ∷ []
address_insert a (b ∷ bs) =
    if bytes_lt a b then a ∷ b ∷ bs else if bytes_lt b a then b ∷ address_insert a bs else b ∷ bs

unfoldable pub address_set : List Bytes → List Bytes
unfolding address_insert
address_set [] = []
address_set (a ∷ rest) = address_insert a (address_set rest)

-- `sort_by` on the address, which is stable.
unfoldable pub entry_insert : Entry → List Entry → List Entry
entry_insert e [] = e ∷ []
entry_insert e (f ∷ fs) = if bytes_lt f.0 e.0 then f ∷ entry_insert e fs else e ∷ f ∷ fs

unfoldable pub sort_entries : List Entry → List Entry
unfolding entry_insert
sort_entries [] = []
sort_entries (e ∷ es) = entry_insert e (sort_entries es)

-- What is hashed for the sorted entries.
unfoldable pub entry_bytes : List Entry → Bytes
entry_bytes [] = []
entry_bytes ((a, b, n) ∷ es) = a ++ (le_bytes 8 b ++ (le_bytes 8 n ++ entry_bytes es))

unfoldable pub compute_state_root : External → List Entry → Bytes
compute_state_root x es = x.blake3 (state_root_tag ++ entry_bytes (sort_entries es))

unfoldable pub empty_state_root : External → Bytes
empty_state_root x = compute_state_root x []

-- What the ledger, under an overlay, holds for an address.
unfoldable pub read : Amounts → Amounts → Overlay → Bytes → ℕ × ℕ
read balances nonces overlay a = elim (lookup a overlay) [
  | none ↦ (amount_of a balances, amount_of a nonces)
  | some v ↦ v
]

unfoldable pub all_addresses : Amounts → Amounts → Overlay → List Bytes
all_addresses balances nonces overlay = address_set (keys balances ++ (keys nonces ++ keys overlay))

abbrev pub entries_at : (Bytes → ℕ × ℕ) → List Bytes → List Entry
entries_at f [] = []
entries_at f (a ∷ rest) = (a, (f a).0, (f a).1) ∷ entries_at f rest

-- `RewardLedger::state_root_with_overlay`
unfoldable pub state_root_with_overlay : External → Amounts → Amounts → Overlay → Bytes
state_root_with_overlay x balances nonces overlay =
    compute_state_root x
      (entries_at (read balances nonces overlay) (all_addresses balances nonces overlay))

-- `RewardLedger::state_root`
unfoldable pub state_root : External → Amounts → Amounts → Bytes
state_root x balances nonces = state_root_with_overlay x balances nonces []

-- Ascending without repetition.
abbrev AllAbove : Bytes → List Bytes → Type 0
AllAbove a = All (λ b. bytes_lt a b ≡ true)

abbrev IsAscending : List Bytes → Type 0
IsAscending [] = Unit
IsAscending (a ∷ rest) = AllAbove a rest × IsAscending rest

AllAbove-trans : (a b : Bytes) (l : List Bytes) → bytes_lt a b ≡ true → AllAbove b l → AllAbove a l
AllAbove-trans a b [] h u = tt
AllAbove-trans a b (c ∷ l) h u = (bytes_lt_trans a b c h u.0, AllAbove-trans a b l h u.1)

address_insert-AllAbove :
    (a b : Bytes) (l : List Bytes)
    → bytes_lt a b ≡ true
    → AllAbove a l
    → AllAbove a (address_insert b l)
unfolding address_insert
address_insert-AllAbove a b [] h u = (h, tt)
address_insert-AllAbove a b (c ∷ l) h u = ground (arith, address_insert-AllAbove a b l h u.1)

address_insert-IsAscending :
    (a : Bytes) (l : List Bytes) → IsAscending l → IsAscending (address_insert a l)
unfolding address_insert
address_insert-IsAscending a [] h = (tt, tt)
address_insert-IsAscending a (b ∷ l) h = elim (Bool-cases (bytes_lt a b)) [
  | inl below ↦ rw below ((below, AllAbove-trans a b l below h.0), h)
  | inr not_below ↦ rw not_below (elim (Bool-cases (bytes_lt b a)) [
    | inl above ↦
        rw above (address_insert-AllAbove b a l above h.0, address_insert-IsAscending a l h.1)
    | inr equal ↦ rw equal h
  ])
]

pub address_set-IsAscending : (l : List Bytes) → IsAscending (address_set l)
unfolding address_set
address_set-IsAscending [] = tt
address_set-IsAscending (a ∷ l) =
    address_insert-IsAscending a (address_set l) (address_set-IsAscending l)

member-address_insert :
    (c a : Bytes) (l : List Bytes) → member c (address_insert a l) ≡ (same c a || member c l)
unfolding address_insert
member-address_insert c a [] = refl
member-address_insert c a (b ∷ l) = ground (arith, member-address_insert c a l, bytes_lt_total a b)

pub member-address_set : (c : Bytes) (l : List Bytes) → member c (address_set l) ≡ member c l
unfolding address_set
member-address_set c [] = refl
member-address_set c (a ∷ l) =
    member-address_insert c a (address_set l) ∙ ap (λ b. same c a || b) (member-address_set c l)

AllAbove-member :
    (a c : Bytes) (l : List Bytes) → AllAbove a l → member c l ≡ true → bytes_lt a c ≡ true
AllAbove-member a c [] u h = cc
AllAbove-member a c (b ∷ l) u h = ground (arith, AllAbove-member a c l u.1)

AllAbove-not_member : (a : Bytes) (l : List Bytes) → AllAbove a l → member a l ≡ false
AllAbove-not_member a l u = elim (Bool-cases (member a l)) [
  | inr absent ↦ absent
  | inl present ↦ let e = AllAbove-member a a l u present in let f = bytes_lt_irrefl a in cc
]

heads_agree :
    (a b : Bytes) (l m : List Bytes)
    → AllAbove a l
    → AllAbove b m
    → (same a b || member a m) ≡ true
    → (same b a || member b l) ≡ true
    → a ≡ b
heads_agree a b l m hl hm p q =
    ground (arith, AllAbove-member b a m hm, AllAbove-member a b l hl, bytes_lt_asymm a b)

tails_agree :
    (a c : Bytes) (l m : List Bytes)
    → AllAbove a l
    → AllAbove a m
    → (same c a || member c l) ≡ (same c a || member c m)
    → member c l ≡ member c m
tails_agree a c l m hl hm e = ground (arith, AllAbove-not_member a l hl, AllAbove-not_member a m hm)

-- Two ascending lists with the same members are one list.
ascending_ext :
    (l m : List Bytes)
    → IsAscending l
    → IsAscending m
    → ((c : Bytes) → member c l ≡ member c m)
    → l ≡ m
ascending_ext [] [] hl hm e = refl
ascending_ext [] (b ∷ m) hl hm e = ground (arith, e b, same_refl b)
ascending_ext (a ∷ l) [] hl hm e = ground (arith, e a, same_refl a)
ascending_ext (a ∷ l) (b ∷ m) hl hm e =
    let heads = heads_agree a b l m hl.0 hm.0 (rw (← e a, same_refl a)) (rw (e b, same_refl b)) in
    let above : AllAbove a m = rw heads hm.0 in
    let tails =
      ascending_ext l m hl.1 hm.1 (λ c. tails_agree a c l m hl.0 above (rw (← heads) at (e c))) in
    ap₂ ◌∷◌ heads tails

entries_at-eq :
    (f g : Bytes → ℕ × ℕ)
    → ((a : Bytes) → f a ≡ g a)
    → (l : List Bytes) → entries_at f l ≡ entries_at g l
entries_at-eq f g e l = ap (λ h. entries_at h l) (fun_ext e)

-- The root is a function of the accounts alone: two ledgers that hold the same balance and nonce for
-- every address and have entries for the same addresses have the same root, however their maps are
-- ordered and whatever part of them stands in an overlay.
pub state_root-extensional :
    (x : External) (b b' n n' : Amounts) (o o' : Overlay)
    → ((a : Bytes) → read b n o a ≡ read b' n' o' a)
    → ((a : Bytes)
        → member a (keys b ++ (keys n ++ keys o)) ≡ member a (keys b' ++ (keys n' ++ keys o')))
    → state_root_with_overlay x b n o ≡ state_root_with_overlay x b' n' o'
unfolding state_root_with_overlay all_addresses
state_root-extensional x b b' n n' o o' reads entries =
    let addresses =
      ascending_ext (address_set (keys b ++ (keys n ++ keys o)))
        (address_set (keys b' ++ (keys n' ++ keys o'))) (address_set-IsAscending _)
        (address_set-IsAscending _)
        (λ c. member-address_set c _ ∙ entries c ∙ sym (member-address_set c _)) in
    ap (compute_state_root x) (
      entries_at-eq (read b n o) (read b' n' o') reads (address_set (keys b ++ (keys n ++ keys o)))
      ∙ ap (entries_at (read b' n' o')) addresses)
