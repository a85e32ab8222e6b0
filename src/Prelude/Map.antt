-- ===== src/Prelude/Map.antt =====
-- A `HashMap` as an association list. Keys are compared by a decision, an instance of `Key`.
use Prim.Native.Nat.{ℕ}
use mathlib.Core.Path.{◌≡◌, refl}
use mathlib.Core.Logic.{inl, inr}
use mathlib.Core.Bool.{Bool, true, false, ◌||◌}
use mathlib.Core.Option.{Option, none, some}
use mathlib.Core.List.{List, [], ◌∷◌, ◌++◌}
use native.Mathlib.Omega.{arith}
use native.Mathlib.Decide.{ℕ_discrete}
use bina_blockchain_l.Prelude.ByteStrings.{Bytes, Bytes-discrete}
use bina_blockchain_l.Prelude.Tests.{if◌then◌else◌, Bool-cases}

pub record Key {ℓ} (K : Type ℓ) : Type ℓ where
  pub dec : Discrete K

instance abbrev pub bytes_key : Key Bytes
bytes_key = record { dec = Bytes-discrete }

instance abbrev pub nat_key : Key ℕ
nat_key = record { dec = ℕ_discrete }

abbrev pub same {ℓ} : {K : Type ℓ} ⦃k : Key K⦄ → K → K → Bool
same ⦃k⦄ a b = elim (k.dec a b) [ yes _ ↦ true | no _ ↦ false ]

module _ {ℓ} {K : Type ℓ} ⦃key : Key K⦄ where
  pub same→eq : (a b : K) → same a b ≡ true → a ≡ b
  same→eq a b h = ground arith

  pub same_refl : (a : K) → same a a ≡ true
  same_refl a = ground arith

  pub same_ne : (a b : K) → ¬ (a ≡ b) → same a b ≡ false
  same_ne a b h = ground arith

  abbrev pub member : K → List K → Bool
  member a [] = false
  member a (x ∷ xs) = same a x || member a xs

  pub member-append : (a : K) (xs ys : List K) → member a (xs ++ ys) ≡ (member a xs || member a ys)
  member-append a [] ys = refl
  member-append a (x ∷ xs) ys = ground (arith, member-append a xs ys)

  -- `HashSet::insert` and `remove` on a list without repetition.
  abbrev pub set_insert : K → List K → List K
  set_insert a xs = if member a xs then xs else xs ++ a ∷ []

  abbrev pub set_remove : K → List K → List K
  set_remove a [] = []
  set_remove a (x ∷ xs) = if same a x then set_remove a xs else x ∷ set_remove a xs

  pub member-set_insert :
      (b a : K) (xs : List K) → member b (set_insert a xs) ≡ (same b a || member b xs)
  member-set_insert b a xs = elim (Bool-cases (member a xs)) [
    | inl here ↦ elim (Bool-cases (same b a)) [
      | inl equal ↦ rw (here, equal) (rw (same→eq b a equal) here)
      | inr other ↦ rw (here, other) refl
    ]
    | inr absent ↦ rw (absent, member-append b xs (a ∷ [])) (ground arith)
  ]

module _ {ℓ κ} {K : Type ℓ} {V : Type κ} ⦃key : Key K⦄ where
  abbrev pub lookup : K → List (K × V) → Option V
  lookup k [] = none
  lookup k ((j, v) ∷ m) = if same k j then some v else lookup k m

  abbrev pub insert : K → V → List (K × V) → List (K × V)
  insert k v [] = (k, v) ∷ []
  insert k v ((j, w) ∷ m) = if same k j then (j, v) ∷ m else (j, w) ∷ insert k v m

  abbrev pub erase : K → List (K × V) → List (K × V)
  erase k [] = []
  erase k ((j, w) ∷ m) = if same k j then erase k m else (j, w) ∷ erase k m

  abbrev pub keys : List (K × V) → List K
  keys [] = []
  keys ((j, w) ∷ m) = j ∷ keys m

  pub lookup-insert :
      (j k : K) (v : V) (m : List (K × V))
      → lookup j (insert k v m) ≡ (if same j k then some v else lookup j m)
  lookup-insert j k v [] = refl
  lookup-insert j k v ((i, w) ∷ m) = ground (arith, lookup-insert j k v m)

  pub lookup-erase :
      (j k : K) (m : List (K × V)) → lookup j (erase k m) ≡ (if same j k then none else lookup j m)
  lookup-erase j k [] = ground arith
  lookup-erase j k ((i, w) ∷ m) = ground (arith, lookup-erase j k m)

  pub member-keys-insert :
      (j k : K) (v : V) (m : List (K × V))
      → member j (keys (insert k v m)) ≡ (same j k || member j (keys m))
  member-keys-insert j k v [] = refl
  member-keys-insert j k v ((i, w) ∷ m) = ground (arith, member-keys-insert j k v m)
