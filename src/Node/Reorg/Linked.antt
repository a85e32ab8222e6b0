-- ===== src/Node/Reorg/Linked.antt =====
-- The chain that the loop of pages adopts: `sync_forward_from_peer` of l1-chain/node/src/main.rs.
use bina_blockchain_l.Prelude.{
  ℤ, ℕ, ◌+◌, ◌<◌, ◌≡◌, refl, sym, ap, ◌∙◌, inl, inr, Bool, true, Option, none, some, List, [], ◌∷◌,
  ◌++◌, arith, leb, Bool-cases, length, length-append, ok, is_ok, >>=-eq-ok, ok_injective,
  Result-cases, Bytes, bytes_key, nat_key,
}
use mathlib.Core.Path.{subst}
use bina_blockchain_l.External.{External}
use bina_blockchain_l.Claims.{SignedBlockClaim, block_hash, verify}
use bina_blockchain_l.Node.{BlockRecord}
use bina_blockchain_l.Node.Sync.{Replica, sync_record, adopt_state, add_work, check_record}
use bina_blockchain_l.Node.Sync.Records.{check_record-ok}
use bina_blockchain_l.Store.{Json}
use bina_blockchain_l.Node.Reorg.{Chain, persist, sync_records, sync_forward}

-- What a chain's tip is known by: its hash, its height, its timestamp and the work up to it.
pub record Tip : Type 0 where
  pub hash : Bytes
  pub height : ℕ
  pub time : ℕ
  pub work : ℕ

abbrev pub tip_of : Chain → Tip
tip_of n =
    let s = n.replica.state in
    record {
      hash = s.tip_hash;
      height = s.chain_height;
      time = s.last_block_timestamp_ms;
      work = s.chain_work;
    }

-- The tip with a claim's block on it.
abbrev pub tip_on : External → Tip → SignedBlockClaim → Tip
tip_on x t c = record {
  hash = block_hash x c;
  height = t.height + 1;
  time = c.header.timestamp;
  work = add_work t.work c.header.difficulty_bits;
}

-- Claims that lead from one tip to another, each signed and worked for, on the hash and the height of the one
-- before, and later than it.
pub data Leads (x : External) (t : Tip) : List SignedBlockClaim → Tip → Type 0 where
  here : Leads x t [] t
  on :
      {u : Tip} {cs : List SignedBlockClaim}
      → Leads x t cs u
      → (c : SignedBlockClaim) → is_ok (verify x c) ≡ true
      → c.header.prev_hash ≡ u.hash
      → c.header.height ≡ u.height + 1
      → u.time < c.header.timestamp
      → Leads x t (c ∷ cs) (tip_on x u c)

-- Both ways of going on: the later part is led from the middle tip.
Leads-append :
    {x : External} {t u v : Tip} {cs ds : List SignedBlockClaim}
    → Leads x t cs u
    → Leads x u ds v
    → Leads x t (ds ++ cs) v
Leads-append a here = a
Leads-append a (on b c ok_c parent height later) = on (Leads-append a b) c ok_c parent height later

-- One record.
sync_record-Leads :
    (d : ℕ → ℕ → ℤ) (x : External) (j : Json) (io : Bool) (n : Chain) (q : Replica) (now : ℕ)
    (r : BlockRecord)
    → sync_record d x io n.replica now r ≡ ok q
    → (c : SignedBlockClaim) × Leads x (tip_of n) (c ∷ []) (tip_of (persist x j io q n.store))
unfolding sync_record adopt_state persist
sync_record-Leads d x j io n q now r e =
    let p = n.replica in
    let ((c, applied), k1, e1) = >>=-eq-ok (check_record x p.state p.ledger p.adjuster now r) _ e in
    let (linked, _, _) = check_record-ok x p.state p.ledger p.adjuster now r c applied k1 in
    let made = ok_injective _ q e1 in
    let arrived : tip_on x (tip_of n) c ≡ tip_of (persist x j io q n.store) =
      ap
        (λ k. record {
          hash = block_hash x c;
          height = k;
          time = c.header.timestamp;
          work = add_work p.state.chain_work c.header.difficulty_bits;
        })
        (sym linked.next_height)
      ∙ ap
          (λ (v : Replica). record {
            hash = v.state.tip_hash;
            height = v.state.chain_height;
            time = v.state.last_block_timestamp_ms;
            work = v.state.chain_work;
          })
          made in
    (
      c,
      subst (Leads x (tip_of n) (c ∷ [])) arrived (
          on here c linked.verified linked.parent (linked.signed_height ∙ linked.next_height)
            linked.later),
    )

-- A number of claims that lead from tip to tip.
abbrev pub Joins : External → Tip → ℕ → Tip → Type 0
Joins x t synced u = (cs : List SignedBlockClaim) × (length cs ≡ synced) × Leads x t cs u

Joins-append :
    (x : External) (t u v : Tip) (a b k : ℕ)
    → k ≡ a + b
    → Joins x t a u
    → Joins x u b v
    → Joins x t k v
Joins-append x t u v a b k sum (cs, count, front) (ds, more, back) =
    (ds ++ cs, length-append ds cs ∙ (omega (arith, count, more, sum)), Leads-append front back)

sync_records-Joins :
    (log_delta : ℕ → ℕ → ℤ) (x : External) (j : Json) (io : Bool) (now : ℕ) (n : Chain)
    (page : List BlockRecord)
    → let (stop, synced, last) = sync_records log_delta x j io now n page in
      Joins x (tip_of n) synced (tip_of last)
unfolding sync_records
sync_records-Joins log_delta x j io now n [] = ([], refl, here)
sync_records-Joins log_delta x j io now n (r ∷ page) =
    elim (Result-cases (sync_record log_delta x io n.replica now r)) [
      | inl (why, stopped) ↦ rw (stopped, sync_records) ([], refl, here)
      | inr (p, applied) ↦
          let (c, first) = sync_record-Leads log_delta x j io n p now r applied in
          let rest = sync_records-Joins log_delta x j io now (persist x j io p n.store) page in
          rw (applied, sync_records)
            (Joins-append x _ _ _ 1 _ _ (omega arith) ((c ∷ []), refl, first) rest)
    ]

-- Whatever a peer answers, the loop of pages leaves a node whose tip is joined to the one it had: as many signed
-- claims as it reports, each verified with its work, lead from the old tip to the new one by parent hash, by
-- height and with strictly growing timestamps, and the chain's work has grown by the work of exactly
-- those claims.
pub sync_forward-Leads :
    (log_delta : ℕ → ℕ → ℤ) (x : External) (j : Json) (io : Bool) (target : ℕ) (n : Chain)
    (answers : List (ℕ × Option (List BlockRecord)))
    → let (synced, last) = sync_forward log_delta x j io target n answers in
      (cs : List SignedBlockClaim) × (length cs ≡ synced) × Leads x (tip_of n) cs (tip_of last)
unfolding sync_forward
sync_forward-Leads log_delta x j io target n [] = ([], refl, here)
sync_forward-Leads log_delta x j io target n ((now, none) ∷ answers) = ([], refl, here)
sync_forward-Leads log_delta x j io target n ((now, some []) ∷ answers) = ([], refl, here)
sync_forward-Leads log_delta x j io target n ((now, some (r ∷ page)) ∷ answers) =
    let front = sync_records-Joins log_delta x j io now n (r ∷ page) in
    let (stop, synced, mid) = sync_records log_delta x j io now n (r ∷ page) in
    let back = sync_forward-Leads log_delta x j io target mid answers in
    elim (Bool-cases (leb target n.replica.state.chain_height)) [
      | inl reached ↦ rw (reached, sync_forward) ([], refl, here)
      | inr below ↦ elim (Bool-cases (sync_records log_delta x j io now n (r ∷ page)).0) [
        | inl stop ↦ rw (below, stop, sync_forward) front
        | inr going ↦
            rw (below, going, sync_forward) (Joins-append x _ _ _ _ _ _ (omega arith) front back)
      ]
    ]
