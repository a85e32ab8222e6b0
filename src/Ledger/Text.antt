-- ===== src/Ledger/Text.antt =====
-- The text of the ledger's file: the lines that `credit` and `apply_transaction` of
-- l1-chain/core/src/rewards.rs write, and their reading in `open_inner`.
pub mod Numbers
pub mod Columns
pub mod ReadBack
use bina_blockchain_l.Prelude.{
  ℕ, zero, suc, ◌+◌, ◌-◌, ◌*◌, ◌/◌, ◌%◌, ◌^◌, ◌≤◌, ◌<◌, min, max, ◌≡◌, refl, sym, ap, ◌∙◌, ◌≢◌, ◌↔◌,
  ◌⊎◌, inl, inr, Bool, true, false, not, ◌&&◌, ◌||◌, Option, none, some, List, [], ◌∷◌, ◌++◌, map,
  arith, dec_lt, ℕ_discrete, ltb, leb, ◌==◌, if◌then◌else◌, ltb→lt, ltb→le, lt→ltb, le→ltb, leb→le,
  le→leb, ==→eq, ==_refl, ==_ne, tests, Bool-cases, Option-cases, Bool-ext, length, take, drop,
  replicate, get_or, length-append, length-replicate, length-take, length-drop, take-append,
  drop-append, append_cancel, take_within, drop_within, All, All-append, all, filter, u64_mod,
  u64_max, saturating_add, checked_add, wrapping_add, saturating_sub, saturating_add_small,
  wrapping_add_small, Result, ok, err, ◌>>=◌, ◌>>◌, ensure, ok_or, is_ok, >>=-eq-ok, ok_injective,
  ensure-ok, ok_or-ok, Result-cases, Bytes, Bytes-discrete, bytes_lt, bytes_lt_irrefl,
  bytes_lt_trans, bytes_lt_total, bytes_lt_asymm, le_bytes, of_le_bytes, length-le_bytes,
  of_le_bytes-le_bytes, codes, le_bytes_injective, Key, bytes_key, nat_key, same, same→eq,
  same_refl, same_ne, member, member-append, set_insert, set_remove, member-set_insert, lookup,
  insert, erase, keys, lookup-insert, lookup-erase, member-keys-insert,
}
use bina_blockchain_l.External.{External}
use bina_blockchain_l.Ledger.{Row}

-- A u64 in decimal digits, as `{}` prints it.
unfoldable pub decimal_from : ℕ → ℕ → Bytes → Bytes
decimal_from zero n acc = acc
decimal_from (suc fuel) n acc =
    let more = decimal_from fuel (n / 10) ((48 + n % 10) ∷ acc) in
    if n / 10 == 0 then (48 + n % 10) ∷ acc else more

unfoldable pub decimal : ℕ → Bytes
unfolding decimal_from
decimal n = decimal_from 20 n []

-- `parse::<u64>`
unfoldable pub parse_from : ℕ → Bytes → Option ℕ
parse_from acc [] = some acc
parse_from acc (c ∷ cs) =
    let n = acc * 10 + (c - 48) in
    let rest = parse_from n cs in
    if leb 48 c && leb c 57 then (if leb n u64_max then rest else none) else none

unfoldable pub parse_u64 : Bytes → Option ℕ
unfolding parse_from
parse_u64 [] = none
parse_u64 (c ∷ cs) =
    if (c == 43) && not (length cs == 0) then parse_from 0 cs else parse_from 0 (c ∷ cs)

-- `line.split(',')`: one column at least.
abbrev pub push : ℕ → List Bytes → List Bytes
push c [] = (c ∷ []) ∷ []
push c (w ∷ ws) = (c ∷ w) ∷ ws

unfoldable pub split : Bytes → List Bytes
split [] = [] ∷ []
split (c ∷ cs) = let rest = split cs in if c == 44 then [] ∷ rest else push c rest

-- The columns of a line with commas between them.
unfoldable pub join : List Bytes → Bytes
join [] = []
join (w ∷ []) = w
join (w ∷ (v ∷ ws)) = w ++ 44 ∷ join (v ∷ ws)

-- `tx`
abbrev pub tx_word : Bytes
tx_word = 116 ∷ 120 ∷ []

module _ (x : External) where
  -- The two `writeln!`s.
  abbrev pub columns : Row → List Bytes
  columns (Row.reward_row height addr reward total ts) =
      decimal height ∷ addr ∷ decimal reward ∷ decimal total ∷ decimal ts ∷ []
  columns (Row.tx_row height id from to amount fee nonce miner total ts) =
      tx_word
      ∷ decimal height
      ∷ x.hex_encode id
      ∷ from
      ∷ to
      ∷ decimal amount
      ∷ decimal fee
      ∷ decimal nonce
      ∷ miner
      ∷ decimal total
      ∷ decimal ts
      ∷ []

  unfoldable pub row_line : Row → Bytes
  row_line row = join (columns row)

  -- `parse().unwrap_or(..)` of a trimmed column.
  unfoldable pub number_or : ℕ → Bytes → ℕ
  number_or default s = elim (parse_u64 (x.trim s)) [ none ↦ default | some n ↦ n ]

  -- The columns of a line as a row, if there are enough of them. The identifier and the timestamp are not
  -- read; `total` is the supply so far.
  unfoldable pub read_columns : ℕ → List Bytes → Option Row
  unfolding number_or
  read_columns total (kind ∷ h ∷ id ∷ from ∷ to ∷ amount ∷ fee ∷ nonce ∷ miner ∷ t ∷ ts ∷ more) =
      if same kind tx_word
      then some (
          Row.tx_row (number_or 0 h) [] (x.trim from) (x.trim to) (number_or 0 amount)
            (number_or 0 fee) (number_or 0 nonce) (x.trim miner) (number_or total t) 0)
      else some (Row.reward_row (number_or 0 kind) (x.trim h) (number_or 0 id) (number_or 0 from) 0)
  read_columns total (kind ∷ addr ∷ reward ∷ t ∷ more) =
      if same kind tx_word
      then none
      else some
          (Row.reward_row (number_or 0 kind) (x.trim addr) (number_or 0 reward) (number_or 0 t) 0)
  read_columns total cols = none

  -- A line of the file after the first.
  unfoldable pub read_line : ℕ → Bytes → Option Row
  read_line total line = if length (x.trim line) == 0 then none else read_columns total (split line)

  -- The lines of the file; the first is the header. `open_scoped` keeps these rows.
  unfoldable pub read_lines : List Bytes → List Row
  read_lines [] = []
  read_lines (line ∷ lines) = elim (read_line 0 line) [
    | none ↦ read_lines lines
    | some row ↦ row ∷ read_lines lines
  ]

  unfoldable pub read_file : List Bytes → List Row
  read_file [] = []
  read_file (header ∷ lines) = read_lines lines
