-- ===== src/Split/Batches/Conservation.antt =====
-- `splitBatches` keeps every transaction of its input files.
use nest_protocol.Base.{
  ℕ, ◌+◌, ◌≡◌, refl, ap, ◌∙◌, sym, Bool, false, not, List, [], ◌∷◌, ◌++◌, keep, All, length,
  if◌then◌else◌, arith,
}
use nest_protocol.Base.Outcome.{ok}
use nest_protocol.Split.Types.{all_txs, SafeTx, SplitOptions, SplitResult, Directory}
use nest_protocol.Split.Selectors.{SelectorClass, caps, roles, lz, unknown, classify}
use nest_protocol.Split.Batches.{batch_txs, split_batches, all_sections, make_batch}
use nest_protocol.Split.Batches.Sorting.{is_class, has_class, for_vault}
use nest_protocol.Split.Batches.Returns.{sections_of, deploy_txs, split-ok_inv, read_batch-txs}
use nest_protocol.Split.Batches.Sections.{all_txs-keep}
use nest_protocol.Split.Batches.Errors.{unknown_from-nil_inv}

-- The number of transactions that pass a test.
abbrev pub count : (SafeTx → Bool) → List SafeTx → ℕ
count p txs = length (keep p txs)

count-append :
    (p : SafeTx → Bool) (xs ys : List SafeTx) → count p (xs ++ ys) ≡ count p xs + count p ys
count-append p [] ys = omega arith
count-append p (x ∷ xs) ys = ground (arith, count-append p xs ys)

count-keep-not :
    (p q : SafeTx → Bool) (txs : List SafeTx)
    → count p (keep q txs) + count p (keep (λ tx. not (q tx)) txs) ≡ count p txs
count-keep-not p q [] = refl
count-keep-not p q (tx ∷ txs) = ground (arith, count-keep-not p q txs)

class-count :
    (k : SelectorClass) (p : SafeTx → Bool) (tx : SafeTx) (cs rs ls us txs : List SafeTx)
    → count p cs + count p rs + count p ls + count p us ≡ count p txs
    → count p (if is_class caps k then tx ∷ cs else cs)
        + count p (if is_class roles k then tx ∷ rs else rs)
        + count p (if is_class lz k then tx ∷ ls else ls)
        + count p (if is_class unknown k then tx ∷ us else us)
      ≡ count p (tx ∷ txs)
class-count caps p tx cs rs ls us txs h = ground arith
class-count roles p tx cs rs ls us txs h = ground arith
class-count lz p tx cs rs ls us txs h = ground arith
class-count unknown p tx cs rs ls us txs h = ground arith

count-classes :
    (p : SafeTx → Bool) (txs : List SafeTx)
    → count p (keep (has_class caps) txs)
        + count p (keep (has_class roles) txs)
        + count p (keep (has_class lz) txs)
        + count p (keep (has_class unknown) txs)
      ≡ count p txs
count-classes p [] = refl
count-classes p (tx ∷ txs) =
    class-count (classify tx.call_data) p tx _ _ _ _ txs (count-classes p txs)

keep-none : (q : SafeTx → Bool) (txs : List SafeTx) → All (λ tx. q tx ≡ false) txs → keep q txs ≡ []
keep-none q [] h = refl
keep-none q (tx ∷ txs) h = rw h.0 (keep-none q txs h.1)

count-append_all :
    (p : SafeTx → Bool) (xs bs cs ds es fs gs : List SafeTx)
    → count p (xs ++ (bs ++ ((cs ++ ds) ++ (es ++ (fs ++ (gs ++ []))))))
      ≡ count p xs
        + (count p bs
            + ((count p cs + count p ds) + (count p es + (count p fs + (count p gs + 0)))))
count-append_all p xs bs cs ds es fs gs = simp (count-append p) refl

count-sections :
    (now : ℕ) (opts : SplitOptions) (p : SafeTx → Bool)
    → All (λ tx. has_class unknown tx ≡ false) (deploy_txs opts)
    → count p (all_txs (sections_of now opts))
      ≡ count p (deploy_txs opts)
        + count p (batch_txs opts.upgrade_file)
        + count p (batch_txs opts.owner_file)
        + count p (batch_txs opts.fees_file)
unfolding all_sections make_batch
count-sections now opts p known =
    let txs = deploy_txs opts in
    let lz_txs = keep (has_class lz) txs in
    let halves = count-keep-not p for_vault lz_txs in
    let classes = count-classes p txs in
    let unknowns = ap (count p) (keep-none (has_class unknown) txs known) in
    rw (read_batch-txs now opts.chain_id opts.owner_file) (
      count-append_all p (keep (has_class caps) txs) (keep (has_class roles) txs)
        (batch_txs opts.upgrade_file) (keep for_vault lz_txs)
        (keep (λ tx. not (for_vault tx)) lz_txs) (batch_txs opts.owner_file)
        (batch_txs opts.fees_file)
      ∙ omega arith)

-- A split that returned loses and doubles nothing: of the transactions with any property, its
-- sections hold together as many as the deployment, upgrade, ownership and fees files do.
pub split_loses_nothing :
    (now : ℕ) (opts : SplitOptions) (dir : Directory) (r : SplitResult × Directory)
    (p : SafeTx → Bool)
    → split_batches now opts dir ≡ ok r
    → count p (all_txs r.0.sections)
      ≡ count p (batch_txs opts.deploy_file)
        + count p (batch_txs opts.upgrade_file)
        + count p (batch_txs opts.owner_file)
        + count p (batch_txs opts.fees_file)
split_loses_nothing now opts dir r p returned =
    let facts = split-ok_inv now opts dir returned in
    ap (λ (v : SplitResult × Directory). count p (all_txs v.0.sections)) (sym facts.4)
    ∙ ap (count p) (all_txs-keep (sections_of now opts))
    ∙ count-sections now opts p (unknown_from-nil_inv 0 (deploy_txs opts) facts.3)
