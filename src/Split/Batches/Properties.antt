-- ===== src/Split/Batches/Properties.antt =====
-- What `splitBatches` promises to the signers that execute its parts in order.
use nest_protocol.Base.{
  ℕ, ◌≡◌, ap, ◌∙◌, sym, subst, true, not, Option, none, some, ◌++◌, keep, All, if◌then◌else◌, map,
}
use nest_protocol.Base.Text.{Text, txt, ends_with}
use nest_protocol.Base.Outcome.{ok}
use nest_protocol.Split.Types.{
  Slot, slot_1a, slot_1b, slot_2a, slot_2b, slot_3, slot_4, SplitOptions, SplitResult, Directory,
  Content, json,
}
use nest_protocol.Split.Selectors.{caps, roles, lz}
use nest_protocol.Split.Batches.{batch_txs, is_on_chain, split_batches, has_txs}
use nest_protocol.Split.Batches.Sorting.{has_class, for_vault}
use nest_protocol.Split.Batches.Returns.{sections_of, split_value, split-ok_inv}
use nest_protocol.Split.Batches.Sections.{
  order, txs_at, IsAscending, txs_at-keep, All-keep, IsAscending-keep, sections_of-txs,
  sections_of-IsAscending, sections_of-on_chain,
}
use nest_protocol.Split.Batches.Files.{lookup, written, lookup-write_all, lookup-wipe}

-- A split that returned has sorted the transactions, each kind in the order of its file: the
-- deployment's capability calls into slot 1a, its role calls into 1b, the upgrade followed by the
-- vault's LayerZero wiring into 2a, the endpoint's wiring into 2b, the ownership calls into 3 and
-- the fees into 4.
pub split_sorts :
    (now : ℕ) (opts : SplitOptions) (dir : Directory) (r : SplitResult × Directory)
    → split_batches now opts dir ≡ ok r
    → (txs_at slot_1a r.0.sections ≡ keep (has_class caps) (batch_txs opts.deploy_file))
      × (txs_at slot_1b r.0.sections ≡ keep (has_class roles) (batch_txs opts.deploy_file))
      × (txs_at slot_2a r.0.sections
          ≡ batch_txs opts.upgrade_file
            ++ keep for_vault (keep (has_class lz) (batch_txs opts.deploy_file)))
      × (txs_at slot_2b r.0.sections
          ≡ keep (λ tx. not (for_vault tx)) (keep (has_class lz) (batch_txs opts.deploy_file)))
      × (txs_at slot_3 r.0.sections ≡ batch_txs opts.owner_file)
      × (txs_at slot_4 r.0.sections ≡ batch_txs opts.fees_file)
split_sorts now opts dir r returned =
    let value = (split-ok_inv now opts dir returned).4 in
    let slots = sections_of-txs now opts in
    let at = λ (k : Slot).
      ap (λ (v : SplitResult × Directory). txs_at k v.0.sections) (sym value)
      ∙ txs_at-keep k (sections_of now opts) in
    (
      at slot_1a ∙ slots.0,
      at slot_1b ∙ slots.1,
      at slot_2a ∙ slots.2,
      at slot_2b ∙ slots.3,
      at slot_3 ∙ slots.4,
      at slot_4 ∙ slots.5,
    )

-- The sections of a split that returned come in the order of their slots, no slot twice; none is
-- empty, and each is for the chain that was asked for.
pub split_sections_valid :
    (now : ℕ) (opts : SplitOptions) (dir : Directory) (r : SplitResult × Directory)
    → split_batches now opts dir ≡ ok r
    → IsAscending (map (λ s. order s.slot) r.0.sections)
      × All (λ s. (is_on_chain opts.chain_id s.batch ≡ true) × (has_txs s ≡ true)) r.0.sections
split_sections_valid now opts dir r returned =
    let facts = split-ok_inv now opts dir returned in
    subst
      (λ (v : SplitResult × Directory).
        IsAscending (map (λ s. order s.slot) v.0.sections)
        × All (λ s. (is_on_chain opts.chain_id s.batch ≡ true) × (has_txs s ≡ true)) v.0.sections)
      facts.4
      (
        IsAscending-keep (sections_of now opts) (sections_of-IsAscending now opts),
        All-keep (λ s. is_on_chain opts.chain_id s.batch ≡ true) (sections_of now opts)
            (sections_of-on_chain now opts facts.0 facts.1 facts.2),
      )

-- After a split that returned, the directory holds under a name the batch of the section with that
-- file; under any other name it holds nothing if the name ends in .json, so that no part of an
-- earlier split survives, and what it held before if it does not.
pub split_directory :
    (now : ℕ) (opts : SplitOptions) (dir : Directory) (r : SplitResult × Directory) (name : Text)
    → split_batches now opts dir ≡ ok r
    → lookup name r.1 ≡ elim (written name r.0.sections) as (λ x. Option Content) [
      | some b ↦ some (json b)
      | none ↦ if ends_with name (txt ".json") then none else lookup name dir
    ]
split_directory now opts dir r name returned =
    subst
      (λ (v : SplitResult × Directory).
        lookup name v.1 ≡ elim (written name v.0.sections) as (λ x. Option Content) [
          | some b ↦ some (json b)
          | none ↦ if ends_with name (txt ".json") then none else lookup name dir
        ])
      (split-ok_inv now opts dir returned).4
      (subst
        (λ o.
          lookup name (split_value now opts dir).1
          ≡ elim (written name (split_value now opts dir).0.sections) as (λ x. Option Content) [
            | some b ↦ some (json b)
            | none ↦ o
          ])
        (lookup-wipe name dir) (lookup-write_all name _ _))
