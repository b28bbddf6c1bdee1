-- ===== src/Split/Batches/Returns.antt =====
-- What `splitBatches` returns, with its loops and its two internal checks computed away.
use nest_protocol.Base.{
  ℕ, suc, ◌+◌, ◌≡◌, refl, ap, ◌∙◌, sym, Bool, true, false, ◌||◌, not, Option, none, some, List, [],
  ◌∷◌, keep, ◌==◌, length, if◌then◌else◌, arith,
}
use nest_protocol.Base.Outcome.{Result, ok, ◌>>◌, throw_if, throw_if-ok_inv}
use nest_protocol.Split.Types.{
  SafeTx, SafeBatch, SplitSection, SplitOptions, SplitResult, Directory, SplitError, chain_mismatch,
  upgrade_chain_mismatch, fees_chain_mismatch, unknown_selectors, count_mismatch,
}
use nest_protocol.Split.Selectors.{SelectorClass, caps, roles, lz, unknown, classify}
use nest_protocol.Split.Batches.{
  Classified, Wired, read_batch_or_empty, batch_txs, off_chain, has_batch, has_txs, all_sections,
  eids_text, write_all, wipe, split_batches,
}
use nest_protocol.Split.Batches.Sorting.{
  is_class, has_class, for_vault, unknown_from, classify_all_lem, wire_all_lem, eids_from, keep-All,
}
use nest_protocol.Split.Batches.Chain.{read_file_off_chain}

abbrev pub sorted : List SafeTx → Classified
sorted txs = record {
  caps_txs = keep (has_class caps) txs;
  roles_txs = keep (has_class roles) txs;
  lz_txs = keep (has_class lz) txs;
  unknown_idx = unknown_from 0 txs;
}

abbrev pub wired : List SafeTx → Wired
wired txs = record {
  vault_lz_txs = keep for_vault txs;
  endpoint_lz_txs = keep (λ tx. not (for_vault tx)) txs;
  eids = eids_from txs [];
}

abbrev pub deploy_txs : SplitOptions → List SafeTx
deploy_txs opts = batch_txs opts.deploy_file

-- Every section, those without transactions included.
abbrev pub sections_of : ℕ → SplitOptions → List SplitSection
sections_of now opts =
    all_sections now opts (read_batch_or_empty now opts.chain_id opts.deploy_file)
      (read_batch_or_empty now opts.chain_id opts.owner_file) (sorted (deploy_txs opts))
      (wired (keep (has_class lz) (deploy_txs opts)))

abbrev pub split_value : ℕ → SplitOptions → Directory → SplitResult × Directory
split_value now opts dir =
    let sections = keep has_txs (sections_of now opts) in
    (
      record {
        out_dir = opts.out_dir;
        sections = sections;
        eids_label = eids_text (eids_from (keep (has_class lz) (deploy_txs opts)) []);
        has_upgrade = has_batch opts.upgrade_file;
      },
      write_all sections (wipe dir),
    )

pub read_batch-txs :
    (now chain_id : ℕ) (f : Option SafeBatch)
    → (read_batch_or_empty now chain_id f).transactions ≡ batch_txs f
unfolding read_batch_or_empty
read_batch-txs now chain_id none = refl
read_batch-txs now chain_id (some b) = refl

-- A test that the one before it makes false.
skip_check :
    {E B : Type 0} (a b : Bool) (e d : E) (r : Result E B)
    → (a ≡ false → b ≡ false)
    → (throw_if a e >> (throw_if b d >> r)) ≡ (throw_if a e >> r)
skip_check false b e d r h = rw (h refl) refl
skip_check true b e d r h = refl

length-keep-not :
    (p : SafeTx → Bool) (txs : List SafeTx)
    → length (keep p txs) + length (keep (λ tx. not (p tx)) txs) ≡ length txs
length-keep-not p [] = refl
length-keep-not p (tx ∷ txs) = ground (arith, length-keep-not p txs)

class-cases :
    (k : SelectorClass) (cs rs ls us n : ℕ)
    → cs + rs + ls + us ≡ n
    → (if is_class caps k then suc cs else cs)
        + (if is_class roles k then suc rs else rs)
        + (if is_class lz k then suc ls else ls)
        + (if is_class unknown k then suc us else us)
      ≡ suc n
class-cases caps cs rs ls us n h = omega arith
class-cases roles cs rs ls us n h = omega arith
class-cases lz cs rs ls us n h = omega arith
class-cases unknown cs rs ls us n h = omega arith

length-if :
    {A : Type 0} (b : Bool) (x : A) (xs : List A)
    → length (if b then x ∷ xs else xs) ≡ (if b then suc (length xs) else length xs)
length-if true x xs = refl
length-if false x xs = refl

classes_cover :
    (i : ℕ) (txs : List SafeTx)
    → length (keep (has_class caps) txs)
        + length (keep (has_class roles) txs)
        + length (keep (has_class lz) txs)
        + length (unknown_from i txs)
      ≡ length txs
classes_cover i [] = refl
classes_cover i (tx ∷ txs) =
    rw
      (
        length-if (has_class caps tx) tx (keep (has_class caps) txs),
        length-if (has_class roles tx) tx (keep (has_class roles) txs),
        length-if (has_class lz tx) tx (keep (has_class lz) txs),
        length-if (has_class unknown tx) i (unknown_from (suc i) txs),
      )
      (class-cases (classify tx.call_data) _ _ _ _ _ (classes_cover (suc i) txs))

-- The last check of the source never fails after the one before it.
counts_match :
    (txs : List SafeTx)
    → not (length (unknown_from 0 txs) == 0) ≡ false
    → not (
        (length (keep (has_class caps) txs)
          + length (keep (has_class roles) txs)
          + length (keep for_vault (keep (has_class lz) txs))
          + length (keep (λ tx. not (for_vault tx)) (keep (has_class lz) txs)))
        == length txs)
      ≡ false
counts_match txs h =
    let all = classes_cover 0 txs in
    let halves = length-keep-not for_vault (keep (has_class lz) txs) in ground arith

pub split_lem :
    (now : ℕ) (opts : SplitOptions) (dir : Directory)
    → split_batches now opts dir ≡ (
        throw_if
          (off_chain opts.chain_id opts.deploy_file || off_chain opts.chain_id opts.owner_file)
          chain_mismatch
        >> (throw_if (off_chain opts.chain_id opts.upgrade_file) upgrade_chain_mismatch
            >> (throw_if (off_chain opts.chain_id opts.fees_file) fees_chain_mismatch
                >> (throw_if
                      (not (length (unknown_from 0 (deploy_txs opts)) == 0))
                      (unknown_selectors (unknown_from 0 (deploy_txs opts)))
                    >> ok (split_value now opts dir)))))
unfolding split_batches read_batch_or_empty
split_lem now opts dir =
    rw
      (
        read_file_off_chain now opts.chain_id opts.deploy_file,
        read_file_off_chain now opts.chain_id opts.owner_file,
        read_batch-txs now opts.chain_id opts.deploy_file,
        classify_all_lem 0 (deploy_txs opts),
        wire_all_lem (keep (has_class lz) (deploy_txs opts))
            (record { vault_lz_txs = []; endpoint_lz_txs = []; eids = [] })
            (keep-All (has_class lz) (deploy_txs opts)),
      )
      (ap
        (λ (rest : Result SplitError (SplitResult × Directory)).
          throw_if
            (off_chain opts.chain_id opts.deploy_file || off_chain opts.chain_id opts.owner_file)
            chain_mismatch
          >> (throw_if (off_chain opts.chain_id opts.upgrade_file) upgrade_chain_mismatch
              >> (throw_if (off_chain opts.chain_id opts.fees_file) fees_chain_mismatch >> rest)))
        (skip_check (not (length (unknown_from 0 (deploy_txs opts)) == 0)) _
          (unknown_selectors (unknown_from 0 (deploy_txs opts))) count_mismatch
          (ok (split_value now opts dir)) (counts_match (deploy_txs opts))))

ok-inj : {A : Type 0} {x y : A} → ◌≡◌ {A = Result SplitError A} (ok x) (ok y) → x ≡ y
ok-inj h = cc

none-length : {A : Type 0} (xs : List A) → not (length xs == 0) ≡ false → xs ≡ []
none-length [] h = refl
none-length (x ∷ xs) h = ground arith

-- What holds of a split that returned.
pub split-ok_inv :
    (now : ℕ) (opts : SplitOptions) (dir : Directory) {r : SplitResult × Directory}
    → split_batches now opts dir ≡ ok r
    → ((off_chain opts.chain_id opts.deploy_file || off_chain opts.chain_id opts.owner_file)
        ≡ false)
      × (off_chain opts.chain_id opts.upgrade_file ≡ false)
      × (off_chain opts.chain_id opts.fees_file ≡ false)
      × (unknown_from 0 (deploy_txs opts) ≡ [])
      × (split_value now opts dir ≡ r)
split-ok_inv now opts dir returned =
    let first = throw_if-ok_inv _ chain_mismatch _ (sym (split_lem now opts dir) ∙ returned) in
    let second = throw_if-ok_inv _ upgrade_chain_mismatch _ first.1 in
    let third = throw_if-ok_inv _ fees_chain_mismatch _ second.1 in
    let fourth =
      throw_if-ok_inv _ (unknown_selectors (unknown_from 0 (deploy_txs opts))) _ third.1 in
    (
      first.0,
      second.0,
      third.0,
      none-length (unknown_from 0 (deploy_txs opts)) fourth.0,
      ok-inj fourth.1,
    )
