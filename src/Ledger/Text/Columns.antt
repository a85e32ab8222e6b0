-- ===== src/Ledger/Text/Columns.antt =====
-- The columns of a line of the ledger's file, of l1-chain/core/src/rewards.rs.
use bina_blockchain_l.Prelude.{
  ◌≡◌, refl, ap, ◌∙◌, List, [], ◌∷◌, ◌++◌, ==_ne, All, Bytes, bytes_key, nat_key,
}
use bina_blockchain_l.Ledger.Text.{split, join}
use bina_blockchain_l.Ledger.Text.Numbers.{IsPlain}

split-word : (w : Bytes) → IsPlain w → split w ≡ w ∷ []
unfolding split
split-word [] h = refl
split-word (c ∷ w) ((_, _, no_comma), h) = rw (==_ne c 44 no_comma, split-word w h) refl

split-comma : (w rest : Bytes) → IsPlain w → split (w ++ 44 ∷ rest) ≡ w ∷ split rest
unfolding split
split-comma [] rest h = refl
split-comma (c ∷ w) rest ((_, _, no_comma), h) = rw (==_ne c 44 no_comma, split-comma w rest h) refl

-- Splitting a line gives the columns that were joined.
pub split-join :
    (w : Bytes) (ws : List Bytes) → IsPlain w → All IsPlain ws → split (join (w ∷ ws)) ≡ w ∷ ws
unfolding join
split-join w [] h hs = split-word w h
split-join w (v ∷ ws) h hs =
    split-comma w (join (v ∷ ws)) h ∙ ap (λ l. w ∷ l) (split-join v ws hs.0 hs.1)
