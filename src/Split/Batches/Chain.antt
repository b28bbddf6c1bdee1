-- ===== src/Split/Batches/Chain.antt =====
-- The chain id that `readBatchOrEmpty` writes for a missing file, read back by `Number`.
use nest_protocol.Base.{
  ℕ, ◌≡◌, refl, ap, ◌∙◌, Bool, true, false, not, Option, none, some, ◌==◌, ==_iff,
}
use nest_protocol.Base.Text.{decimal}
use nest_protocol.Base.Number.{to_number-decimal}
use nest_protocol.Split.Types.{string, SafeBatch}
use nest_protocol.Split.Batches.{chain_number, is_on_chain, read_batch_or_empty, off_chain}

chain_number-decimal : (n : ℕ) → chain_number (string (decimal n)) ≡ some n
unfolding chain_number
chain_number-decimal n = to_number-decimal n

-- A missing batch file counts as one for the chain that was asked for: the chain id that is printed
-- for it reads back as the same number.
missing_file_on_chain :
    (now chain_id : ℕ) → is_on_chain chain_id (read_batch_or_empty now chain_id none) ≡ true
unfolding is_on_chain read_batch_or_empty
missing_file_on_chain now chain_id =
    ap (λ (o : Option ℕ). elim o as (λ x. Bool) [ none ↦ false | some n ↦ n == chain_id ])
      (chain_number-decimal chain_id)
    ∙ (==_iff chain_id chain_id).1 refl

-- So only a file that exists can be on another chain.
pub read_file_off_chain :
    (now chain_id : ℕ) (f : Option SafeBatch)
    → not (is_on_chain chain_id (read_batch_or_empty now chain_id f)) ≡ off_chain chain_id f
unfolding read_batch_or_empty
read_file_off_chain now chain_id none = ap not (missing_file_on_chain now chain_id)
read_file_off_chain now chain_id (some b) = refl
