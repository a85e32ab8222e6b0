-- ===== src/Ledger/Text/ReadBack.antt =====
-- The lines of the ledger's file are read as the rows that were written, of l1-chain/core/src/rewards.rs.
use bina_blockchain_l.Prelude.{
  ℕ, ◌≤◌, ◌≡◌, refl, sym, ◌∙◌, inl, inr, false, some, List, [], ◌∷◌, map, arith, ◌==◌, Bool-cases,
  length, All, All-append, u64_max, Bytes, bytes_key, nat_key, same, same→eq, same_refl,
}
use mathlib.Core.Path.{subst}
use bina_blockchain_l.External.{External}
use bina_blockchain_l.Ledger.{Row}
use bina_blockchain_l.Ledger.Text.{
  decimal, join, tx_word, row_line, number_or, read_columns, read_line, read_lines, read_file,
}
use bina_blockchain_l.Ledger.Text.Numbers.{
  IsPlain, IsDigits, decimal-head, decimal-IsDigits, decimal-IsPlain, parse_u64-decimal,
}
use bina_blockchain_l.Ledger.Text.Columns.{split-join}

abbrev pub IsPrintable : Bytes → Type 0
IsPrintable = All (λ c. (33 ≤ c) × (c ≤ 126))

-- `str::trim` takes white space only.
abbrev pub TrimsSpace : External → Type 0
TrimsSpace x = (s : Bytes) → IsPrintable s → x.trim s ≡ s

-- `hex::encode` gives digits and letters.
abbrev pub HexIsPlain : External → Type 0
HexIsPlain x = (b : Bytes) → IsPlain (x.hex_encode b)

-- A row with addresses that have no comma and no space, and numbers that fit a u64.
abbrev pub IsWritable : Row → Type 0
IsWritable (Row.reward_row height addr reward total ts) =
    IsPlain addr × (height ≤ u64_max) × (reward ≤ u64_max) × (total ≤ u64_max)
IsWritable (Row.tx_row height id from to amount fee nonce miner total ts) =
    IsPlain from
    × IsPlain to
    × IsPlain miner
    × (height ≤ u64_max)
    × (amount ≤ u64_max)
    × (fee ≤ u64_max)
    × (nonce ≤ u64_max)
    × (total ≤ u64_max)

-- A row without the columns that are not read.
abbrev pub read_back : Row → Row
read_back (Row.reward_row height addr reward total ts) = Row.reward_row height addr reward total 0
read_back (Row.tx_row height id from to amount fee nonce miner total ts) =
    Row.tx_row height [] from to amount fee nonce miner total 0

IsPlain-IsPrintable : (s : Bytes) → IsPlain s → IsPrintable s
IsPlain-IsPrintable [] h = tt
IsPlain-IsPrintable (c ∷ s) ((low, high, _), h) = ((low, high), IsPlain-IsPrintable s h)

join-IsPrintable : (ws : List Bytes) → All IsPlain ws → IsPrintable (join ws)
unfolding join
join-IsPrintable [] h = tt
join-IsPrintable (w ∷ []) h = IsPlain-IsPrintable w h.0
join-IsPrintable (w ∷ (v ∷ ws)) h =
    All-append (λ c. (33 ≤ c) × (c ≤ 126)) w (44 ∷ join (v ∷ ws)) (IsPlain-IsPrintable w h.0)
      ((omega arith, omega arith), join-IsPrintable (v ∷ ws) h.1)

join-nonempty : (c : ℕ) (w : Bytes) (ws : List Bytes) → (length (join ((c ∷ w) ∷ ws)) == 0) ≡ false
unfolding join
join-nonempty c w [] = ground arith
join-nonempty c w (v ∷ ws) = ground arith

number_or-decimal :
    (x : External) (default n : ℕ)
    → TrimsSpace x
    → n ≤ u64_max
    → number_or x default (decimal n) ≡ n
unfolding number_or
number_or-decimal x default n trims fits =
    rw
      (
        trims (decimal n) (IsPlain-IsPrintable (decimal n) (decimal-IsPlain n)),
        parse_u64-decimal n fits,
        number_or,
      )
      refl

-- A number is not the word of a transfer.
decimal-ne-tx_word : (n : ℕ) → same (decimal n) tx_word ≡ false
decimal-ne-tx_word n = elim (Bool-cases (same (decimal n) tx_word)) [
  | inl e ↦
      let digits = subst IsDigits (same→eq (decimal n) tx_word e) (decimal-IsDigits n) in
      let high : 116 ≤ 57 = digits.0.1 in absurd (omega arith)
  | inr e ↦ e
]

-- A line of columns is read column by column.
read_line-join :
    (x : External) (total c : ℕ) (w : Bytes) (ws : List Bytes)
    → TrimsSpace x
    → IsPlain (c ∷ w)
    → All IsPlain ws
    → read_line x total (join ((c ∷ w) ∷ ws)) ≡ read_columns x total ((c ∷ w) ∷ ws)
unfolding read_line
read_line-join x total c w ws trims h hs =
    rw
      (
        trims (join ((c ∷ w) ∷ ws)) (join-IsPrintable ((c ∷ w) ∷ ws) (h, hs)),
        join-nonempty c w ws,
        split-join (c ∷ w) ws h hs,
      )
      refl

read_line-row_line :
    (x : External) (total : ℕ) (row : Row)
    → TrimsSpace x
    → HexIsPlain x
    → IsWritable row
    → read_line x total (row_line x row) ≡ some (read_back row)
unfolding row_line read_columns
read_line-row_line x total (Row.reward_row height addr reward t ts) trims hex (plain, h1, h2, h3) =
    let trimmed = trims addr (IsPlain-IsPrintable addr plain) in
    let (c, w, head) = decimal-head height in
    let ws = addr ∷ decimal reward ∷ decimal t ∷ decimal ts ∷ [] in
    let line : read_line x total (join (decimal height ∷ ws))
        ≡ read_columns x total (decimal height ∷ ws) =
      subst (λ k. read_line x total (join (k ∷ ws)) ≡ read_columns x total (k ∷ ws)) (sym head)
        (read_line-join x total c w ws trims (subst IsPlain head (decimal-IsPlain height))
          (plain, (decimal-IsPlain reward, (decimal-IsPlain t, (decimal-IsPlain ts, tt))))) in
    line
    ∙ rw
        (
          decimal-ne-tx_word height,
          trimmed,
          number_or-decimal x 0 height trims h1,
          number_or-decimal x 0 reward trims h2,
          number_or-decimal x 0 t trims h3,
        )
        refl
read_line-row_line x total (Row.tx_row height id from to amount fee nonce miner t ts) trims hex
      (pf, pt, pm, h1, h2, h3, h4, h5) =
    let ws =
      decimal height
      ∷ x.hex_encode id
      ∷ from
      ∷ to
      ∷ decimal amount
      ∷ decimal fee
      ∷ decimal nonce
      ∷ miner
      ∷ decimal t
      ∷ decimal ts
      ∷ [] in
    let plain_ws : All IsPlain ws = (
      decimal-IsPlain height,
      (
        hex id,
        (
          pf,
          (
            pt,
            (
              decimal-IsPlain amount,
              (
                decimal-IsPlain fee,
                (decimal-IsPlain nonce, (pm, (decimal-IsPlain t, (decimal-IsPlain ts, tt)))),
              ),
            ),
          ),
        ),
      ),
    ) in
    let word : IsPlain tx_word = (
      (omega arith, omega arith, λ e. absurd (omega arith)),
      ((omega arith, omega arith, λ e. absurd (omega arith)), tt),
    ) in
    read_line-join x total 116 (120 ∷ []) ws trims word plain_ws
    ∙ rw
        (
          same_refl tx_word,
          trims from (IsPlain-IsPrintable from pf),
          trims to (IsPlain-IsPrintable to pt),
          trims miner (IsPlain-IsPrintable miner pm),
          number_or-decimal x 0 height trims h1,
          number_or-decimal x 0 amount trims h2,
          number_or-decimal x 0 fee trims h3,
          number_or-decimal x 0 nonce trims h4,
          number_or-decimal x total t trims h5,
        )
        refl

read_lines-row_line :
    (x : External) (rows : List Row)
    → TrimsSpace x
    → HexIsPlain x
    → All IsWritable rows
    → read_lines x (map (row_line x) rows) ≡ map read_back rows
unfolding read_lines
read_lines-row_line x [] trims hex h = refl
read_lines-row_line x (row ∷ rows) trims hex h =
    rw
      (
        read_line-row_line x 0 row trims hex h.0,
        read_lines-row_line x rows trims hex h.1,
        read_lines,
      )
      refl

-- The text of the ledger's file reads back: of the lines that rewards and transfers write after the header, a
-- restart reads the written rows in their order, each with its columns in place except for the transfer's
-- identifier and the timestamp, which are not read. The addresses have no comma and no space, the
-- numbers fit a u64, hexadecimal text has neither, and trimming takes white space only.
pub read_file-row_line :
    (x : External) (header : Bytes) (rows : List Row)
    → TrimsSpace x
    → HexIsPlain x
    → All IsWritable rows
    → read_file x (header ∷ map (row_line x) rows) ≡ map read_back rows
unfolding read_file
read_file-row_line x header rows trims hex h = read_lines-row_line x rows trims hex h
