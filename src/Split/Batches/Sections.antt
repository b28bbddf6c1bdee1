-- ===== src/Split/Batches/Sections.antt =====
-- The sections of a split, read slot by slot.
use mathlib.Core.List.{append-nil}
use nest_protocol.Base.{
  ℕ, ◌<◌, ◌≡◌, refl, ◌∙◌, sym, Bool, true, false, ◌||◌, not, Option, none, some, List, [], ◌∷◌,
  ◌++◌, keep, All, ◌==◌, length, if◌then◌else◌, arith, Bool-cases, inl, inr, map,
}
use nest_protocol.Split.Types.{
  all_txs, SafeTx, SafeBatch, Slot, slot_1a, slot_1b, slot_2a, slot_2b, slot_3, slot_4,
  SplitSection, SplitOptions,
}
use nest_protocol.Split.Selectors.{caps, roles, lz}
use nest_protocol.Split.Batches.{
  read_batch_or_empty, batch_txs, has_txs, all_sections, make_batch, is_on_chain, off_chain,
  batch_or,
}
use nest_protocol.Split.Batches.Sorting.{has_class, for_vault}
use nest_protocol.Split.Batches.Chain.{read_file_off_chain}
use nest_protocol.Split.Batches.Returns.{sections_of, deploy_txs, read_batch-txs}

-- The place of a slot in the order of execution.
abbrev pub order : Slot → ℕ
order slot_1a = 1
order slot_1b = 2
order slot_2a = 3
order slot_2b = 4
order slot_3 = 5
order slot_4 = 6

-- The transactions of the sections with slot `k`, in their order.
abbrev pub txs_at : Slot → List SplitSection → List SafeTx
txs_at k [] = []
txs_at k (s ∷ ss) =
    let rest = txs_at k ss in if order s.slot == order k then s.batch.transactions ++ rest else rest

abbrev pub IsAscending : List ℕ → Type 0
IsAscending [] = Unit
IsAscending (n ∷ ns) = All (λ m. n < m) ns × IsAscending ns

no_txs : (s : SplitSection) → has_txs s ≡ false → s.batch.transactions ≡ []
no_txs s h = no_length s.batch.transactions h
  where
    no_length : (txs : List SafeTx) → not (length txs == 0) ≡ false → txs ≡ []
    no_length [] h = refl
    no_length (tx ∷ txs) h = ground arith

pub txs_at-keep : (k : Slot) (ss : List SplitSection) → txs_at k (keep has_txs ss) ≡ txs_at k ss
txs_at-keep k [] = refl
txs_at-keep k (s ∷ ss) = elim (Bool-cases (has_txs s)) [
  | inl full ↦ rw full (rw (txs_at-keep k ss) refl)
  | inr empty ↦
      rw (empty, no_txs s empty)
        (txs_at-keep k ss ∙ sym (same_branches (order s.slot == order k) (txs_at k ss)))
]
  where
    same_branches : (b : Bool) (txs : List SafeTx) → (if b then txs else txs) ≡ txs
    same_branches true txs = refl
    same_branches false txs = refl

pub all_txs-keep : (ss : List SplitSection) → all_txs (keep has_txs ss) ≡ all_txs ss
all_txs-keep [] = refl
all_txs-keep (s ∷ ss) = elim (Bool-cases (has_txs s)) [
  | inl full ↦ rw full (rw (all_txs-keep ss) refl)
  | inr empty ↦ rw (empty, no_txs s empty) (all_txs-keep ss)
]

-- A filtered list keeps what holds of all its elements, and what the filter tests.
pub All-keep :
    (P : SplitSection → Type 0) (ss : List SplitSection)
    → All P ss
    → All (λ s. P s × (has_txs s ≡ true)) (keep has_txs ss)
All-keep P [] h = tt
All-keep P (s ∷ ss) h = elim (Bool-cases (has_txs s)) [
  | inl full ↦ rw full ((h.0, full), All-keep P ss h.1)
  | inr empty ↦ rw empty (All-keep P ss h.1)
]

later-keep :
    (n : ℕ) (ss : List SplitSection)
    → All (λ m. n < m) (map (λ s. order s.slot) ss)
    → All (λ m. n < m) (map (λ s. order s.slot) (keep has_txs ss))
later-keep n [] h = tt
later-keep n (s ∷ ss) h = elim (Bool-cases (has_txs s)) [
  | inl full ↦ rw full (h.0, later-keep n ss h.1)
  | inr empty ↦ rw empty (later-keep n ss h.1)
]

pub IsAscending-keep :
    (ss : List SplitSection)
    → IsAscending (map (λ s. order s.slot) ss)
    → IsAscending (map (λ s. order s.slot) (keep has_txs ss))
IsAscending-keep [] h = tt
IsAscending-keep (s ∷ ss) h = elim (Bool-cases (has_txs s)) [
  | inl full ↦ rw full (later-keep (order s.slot) ss h.0, IsAscending-keep ss h.1)
  | inr empty ↦ rw empty (IsAscending-keep ss h.1)
]

-- What each slot of the whole list of sections holds.
pub sections_of-txs :
    (now : ℕ) (opts : SplitOptions)
    → let lz_txs = keep (has_class lz) (deploy_txs opts) in
      (txs_at slot_1a (sections_of now opts) ≡ keep (has_class caps) (deploy_txs opts))
      × (txs_at slot_1b (sections_of now opts) ≡ keep (has_class roles) (deploy_txs opts))
      × (txs_at slot_2a (sections_of now opts)
          ≡ batch_txs opts.upgrade_file ++ keep for_vault lz_txs)
      × (txs_at slot_2b (sections_of now opts) ≡ keep (λ tx. not (for_vault tx)) lz_txs)
      × (txs_at slot_3 (sections_of now opts) ≡ batch_txs opts.owner_file)
      × (txs_at slot_4 (sections_of now opts) ≡ batch_txs opts.fees_file)
unfolding all_sections make_batch
sections_of-txs now opts = (
  append-nil _,
  append-nil _,
  append-nil _,
  append-nil _,
  append-nil _ ∙ read_batch-txs now opts.chain_id opts.owner_file,
  append-nil _,
)

pub sections_of-IsAscending :
    (now : ℕ) (opts : SplitOptions) → IsAscending (map (λ s. order s.slot) (sections_of now opts))
unfolding all_sections
sections_of-IsAscending now opts = (
  (omega arith, (omega arith, (omega arith, (omega arith, (omega arith, tt))))),
  (
    (omega arith, (omega arith, (omega arith, (omega arith, tt)))),
    (
      (omega arith, (omega arith, (omega arith, tt))),
      ((omega arith, (omega arith, tt)), ((omega arith, tt), (tt, tt))),
    ),
  ),
)

read_on_chain :
    (now chain_id : ℕ) (f : Option SafeBatch)
    → off_chain chain_id f ≡ false
    → is_on_chain chain_id (read_batch_or_empty now chain_id f) ≡ true
read_on_chain now chain_id f h =
    not-false (is_on_chain chain_id (read_batch_or_empty now chain_id f))
      (read_file_off_chain now chain_id f ∙ h)
  where
    not-false : (b : Bool) → not b ≡ false → b ≡ true
    not-false true h = refl
    not-false false h = sym h

batch_or-on_chain :
    (chain_id : ℕ) (f : Option SafeBatch) (b : SafeBatch)
    → off_chain chain_id f ≡ false
    → is_on_chain chain_id b ≡ true
    → is_on_chain chain_id (batch_or f b) ≡ true
batch_or-on_chain chain_id none b h k = k
batch_or-on_chain chain_id (some d) b h k = ground (arith, h)

-- Every section is for the chain that was asked for.
pub sections_of-on_chain :
    (now : ℕ) (opts : SplitOptions)
    → (off_chain opts.chain_id opts.deploy_file || off_chain opts.chain_id opts.owner_file) ≡ false
    → off_chain opts.chain_id opts.upgrade_file ≡ false
    → off_chain opts.chain_id opts.fees_file ≡ false
    → All (λ s. is_on_chain opts.chain_id s.batch ≡ true) (sections_of now opts)
unfolding all_sections make_batch is_on_chain
sections_of-on_chain now opts first upgrade fees =
    let deploy = read_on_chain now opts.chain_id opts.deploy_file (ground arith) in
    let owner = read_on_chain now opts.chain_id opts.owner_file (ground arith) in
    let on_upgrade = batch_or-on_chain opts.chain_id opts.upgrade_file _ upgrade deploy in
    let on_fees = batch_or-on_chain opts.chain_id opts.fees_file _ fees deploy in
    (deploy, (deploy, (on_upgrade, (deploy, (owner, (on_fees, tt))))))
