-- ===== src/Split/Batches/Errors.antt =====
-- When `splitBatches` returns, and what it throws otherwise.
use nest_protocol.Base.{
  ℕ, suc, ◌≡◌, ◌↔◌, ◌⊎◌, refl, ap, ◌∙◌, sym, Bool, true, false, ◌||◌, List, [], ◌∷◌, All,
  if◌then◌else◌, Bool-cases, inl, inr,
}
use nest_protocol.Base.Outcome.{Result, ok, err, ◌>>◌, throw_if}
use nest_protocol.Split.Types.{
  SafeTx, SplitOptions, SplitResult, SplitError, Directory, chain_mismatch, upgrade_chain_mismatch,
  fees_chain_mismatch, unknown_selectors,
}
use nest_protocol.Split.Selectors.{unknown}
use nest_protocol.Split.Batches.{batch_txs, off_chain, split_batches}
use nest_protocol.Split.Batches.Sorting.{has_class, unknown_from}
use nest_protocol.Split.Batches.Returns.{deploy_txs, split_value, split_lem, split-ok_inv}

-- No index is reported only if every selector is known.
pub unknown_from-nil_inv :
    (i : ℕ) (txs : List SafeTx)
    → unknown_from i txs ≡ []
    → All (λ tx. has_class unknown tx ≡ false) txs
unknown_from-nil_inv i [] h = tt
unknown_from-nil_inv i (tx ∷ txs) h = elim (Bool-cases (has_class unknown tx)) [
  | inl bad ↦ cc
  | inr known ↦ (
    known,
    unknown_from-nil_inv (suc i) txs (
        sym (ap (λ b. if b then i ∷ unknown_from (suc i) txs else unknown_from (suc i) txs) known)
        ∙ h),
  )
]

unknown_from-nil :
    (i : ℕ) (txs : List SafeTx)
    → All (λ tx. has_class unknown tx ≡ false) txs
    → unknown_from i txs ≡ []
unknown_from-nil i [] h = refl
unknown_from-nil i (tx ∷ txs) h = rw h.0 (unknown_from-nil (suc i) txs h.1)

-- A split returns exactly if every batch file that exists is for the chain that was asked for, and
-- every transaction of the deployment has a known selector.
pub split_returns_iff :
    (now : ℕ) (opts : SplitOptions) (dir : Directory)
    → ((r : SplitResult × Directory) × (split_batches now opts dir ≡ ok r)) ↔ (
        ((off_chain opts.chain_id opts.deploy_file || off_chain opts.chain_id opts.owner_file)
          ≡ false)
        × (off_chain opts.chain_id opts.upgrade_file ≡ false)
        × (off_chain opts.chain_id opts.fees_file ≡ false)
        × All (λ tx. has_class unknown tx ≡ false) (batch_txs opts.deploy_file))
split_returns_iff now opts dir = (
  (λ returned.
      let facts = split-ok_inv now opts dir returned.1 in
      (facts.0, facts.1, facts.2, unknown_from-nil_inv 0 (deploy_txs opts) facts.3)),
  λ holds. (
    split_value now opts dir,
    split_lem now opts dir
        ∙ rw (holds.0, holds.1, holds.2, unknown_from-nil 0 (batch_txs opts.deploy_file) holds.3)
            refl,
  ),
)

err-inj : {A : Type 0} {x y : SplitError} → ◌≡◌ {A = Result SplitError A} (err x) (err y) → x ≡ y
err-inj h = cc

guards-thrown :
    {A : Type 0} (a b c d : Bool) (indices : List ℕ) (value : A) {e : SplitError}
    → (throw_if a chain_mismatch
        >> (throw_if b upgrade_chain_mismatch
            >> (throw_if c fees_chain_mismatch
                >> (throw_if d (unknown_selectors indices) >> ok value))))
      ≡ err e
    → (e ≡ chain_mismatch)
      ⊎ (e ≡ upgrade_chain_mismatch)
      ⊎ (e ≡ fees_chain_mismatch)
      ⊎ (e ≡ unknown_selectors indices)
guards-thrown true b c d indices value h = inl (sym (err-inj h))
guards-thrown false true c d indices value h = inr (inl (sym (err-inj h)))
guards-thrown false false true d indices value h = inr (inr (inl (sym (err-inj h))))
guards-thrown false false false true indices value h = inr (inr (inr (sym (err-inj h))))
guards-thrown false false false false indices value h = cc

-- What a split throws is that a file is for another chain, or the indices of the deployment's
-- transactions with an unknown selector: its errors for an unsorted LayerZero call and for a wrong
-- count of transactions are never thrown.
pub split_throws :
    (now : ℕ) (opts : SplitOptions) (dir : Directory) (e : SplitError)
    → split_batches now opts dir ≡ err e
    → (e ≡ chain_mismatch)
      ⊎ (e ≡ upgrade_chain_mismatch)
      ⊎ (e ≡ fees_chain_mismatch)
      ⊎ (e ≡ unknown_selectors (unknown_from 0 (batch_txs opts.deploy_file)))
split_throws now opts dir e threw =
    guards-thrown _ _ _ _ (unknown_from 0 (deploy_txs opts)) (split_value now opts dir)
      (sym (split_lem now opts dir) ∙ threw)
