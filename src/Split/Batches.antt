-- ===== src/Split/Batches.antt =====
-- `splitBatches` of tools/splitMsigBatchesLib.ts: the whole function, with the files it reads as
-- options and the output directory as a value.
pub mod Chain
pub mod Sorting
pub mod Returns
pub mod Sections
pub mod Files
pub mod Errors
pub mod Conservation
pub mod Eids
pub mod Properties
use nest_protocol.Base.{
  ℕ, zero, suc, ◌+◌, ◌*◌, ◌-◌, Bool, true, false, ◌&&◌, ◌||◌, not, Option, none, some, List, [],
  ◌∷◌, ◌++◌, map, keep, ◌==◌, ltb, leb, length, if◌then◌else◌,
}
use nest_protocol.Base.Text.{member, Text, txt, text_eq, trim, ends_with, join, decimal}
use nest_protocol.Base.Number.{to_number}
use nest_protocol.Base.Outcome.{Result, ok, err, ◌>>=◌, ◌>>◌, throw_if}
use nest_protocol.Split.Types.{
  SafeTx, ChainId, number, string, SafeBatch, Slot, slot_1a, slot_1b, slot_2a, slot_2b, slot_3,
  slot_4, SplitSection, SplitResult, SplitOptions, Directory, Content, json, SplitError,
  chain_mismatch, upgrade_chain_mismatch, fees_chain_mismatch, unknown_selectors,
  unclassified_lz_selector, count_mismatch,
}
use nest_protocol.Split.Selectors.{
  SelectorClass, caps, roles, lz, unknown, selector, classify, extract_eid, eid_label,
  eid_to_domain_selector, vault_dep_selectors, endpoint_selectors,
}

-- `Number(chainId)`, `none` for NaN.
unfoldable pub chain_number : ChainId → Option ℕ
chain_number (number n) = some n
chain_number (string s) = to_number s

unfoldable pub is_on_chain : ℕ → SafeBatch → Bool
is_on_chain chain_id b = elim (chain_number b.chain_id) [ none ↦ false | some n ↦ n == chain_id ]

-- `readBatchOrEmpty`, at the time `now`: a missing file is a batch with nothing to do.
unfoldable pub read_batch_or_empty : ℕ → ℕ → Option SafeBatch → SafeBatch
read_batch_or_empty now chain_id (some b) = b
read_batch_or_empty now chain_id none = record {
  chain_id = string (decimal chain_id);
  created_at = now;
  meta_name = [];
  meta_description = [];
  transactions = [];
  version = txt "1.0";
}

unfoldable pub make_batch : ℕ → SafeBatch → Text → List SafeTx → SafeBatch
make_batch now source name txs = record {
  chain_id = source.chain_id;
  created_at = now;
  meta_name = name;
  meta_description = [];
  transactions = txs;
  version = source.version;
}

pub record Classified : Type 0 where
  pub caps_txs : List SafeTx
  pub roles_txs : List SafeTx
  pub lz_txs : List SafeTx
  pub unknown_idx : List ℕ

abbrev pub add_class : SelectorClass → ℕ → SafeTx → Classified → Classified
add_class caps i tx c = record c { caps_txs = tx ∷ c.caps_txs }
add_class roles i tx c = record c { roles_txs = tx ∷ c.roles_txs }
add_class lz i tx c = record c { lz_txs = tx ∷ c.lz_txs }
add_class unknown i tx c = record c { unknown_idx = i ∷ c.unknown_idx }

-- The `forEach` over the deployment's transactions, from index `i`.
unfoldable pub classify_all : ℕ → List SafeTx → Classified
classify_all i [] = record { caps_txs = []; roles_txs = []; lz_txs = []; unknown_idx = [] }
classify_all i (tx ∷ txs) = add_class (classify tx.call_data) i tx (classify_all (suc i) txs)

pub record Wired : Type 0 where
  pub vault_lz_txs : List SafeTx
  pub endpoint_lz_txs : List SafeTx
  pub eids : List ℕ

-- `eidSet.has(n)`
unfoldable pub has_eid : ℕ → List ℕ → Bool
has_eid n [] = false
has_eid n (m ∷ es) = n == m || has_eid n es

-- `if (eid !== null) eidSet.add(eid)`: a set has its elements in the order in which they were added.
unfoldable pub add_eid : Option ℕ → List ℕ → List ℕ
add_eid none es = es
add_eid (some n) es = if has_eid n es then es else es ++ n ∷ []

-- The loop over the LayerZero transactions.
unfoldable pub wire_all : List SafeTx → Wired → Result SplitError Wired
wire_all [] w = ok w
wire_all (tx ∷ txs) w =
    let s = selector tx.call_data in
    let es = add_eid (extract_eid tx.call_data) w.eids in
    let vault = wire_all txs (record w { vault_lz_txs = w.vault_lz_txs ++ tx ∷ []; eids = es }) in
    let endpoint =
      wire_all txs (record w { endpoint_lz_txs = w.endpoint_lz_txs ++ tx ∷ []; eids = es }) in
    if text_eq s eid_to_domain_selector || member s vault_dep_selectors
    then vault
    else if member s endpoint_selectors
    then endpoint
    else err (unclassified_lz_selector s)

unfoldable pub insert_eid : ℕ → List ℕ → List ℕ
insert_eid n [] = n ∷ []
insert_eid n (m ∷ es) = let later = insert_eid n es in if leb n m then n ∷ m ∷ es else m ∷ later

-- `.sort((a, b) => a - b)`
unfoldable pub sort_eids : List ℕ → List ℕ
sort_eids [] = []
sort_eids (e ∷ es) = insert_eid e (sort_eids es)

-- `.map(eidLabel).join(", ") || "none"`
unfoldable pub labels_text : List ℕ → Text
labels_text [] = txt "none"
labels_text (e ∷ es) = join (txt ", ") (map eid_label (e ∷ es))

-- `eidsLabel`, of a set in the order of its elements
unfoldable pub eids_text : List ℕ → Text
eids_text es = labels_text (sort_eids es)

abbrev pub has_batch : Option SafeBatch → Bool
has_batch none = false
has_batch (some _) = true

abbrev pub batch_or : Option SafeBatch → SafeBatch → SafeBatch
batch_or none d = d
batch_or (some b) _ = b

abbrev pub batch_txs : Option SafeBatch → List SafeTx
batch_txs none = []
batch_txs (some b) = b.transactions

abbrev pub in_vault : Text → Text → Text
in_vault vault title = title ++ (txt " (" ++ (vault ++ txt ")"))

-- `allSections`, empty ones included.
unfoldable pub all_sections :
    ℕ → SplitOptions → SafeBatch → SafeBatch → Classified → Wired → List SplitSection
all_sections now opts deploy owner c w =
    let upgrade = opts.upgrade_file in
    record {
      slot = slot_1a;
      file = txt "part-1a-authority-role-caps.json";
      title = in_vault opts.vault (txt "Part 1a — Authority: role capabilities");
      batch = make_batch now deploy (opts.vault ++ txt " Part 1a — Authority role caps") c.caps_txs;
    }
    ∷ record {
      slot = slot_1b;
      file = txt "part-1b-authority-public-user-roles.json";
      title = in_vault opts.vault (txt "Part 1b — Authority: public capabilities + user roles");
      batch =
          make_batch now deploy (opts.vault ++ txt " Part 1b — Public caps + user roles")
            c.roles_txs;
    }
    ∷ record {
      slot = slot_2a;
      file =
          if has_batch upgrade
          then txt "part-2a-upgrade-and-vault-wiring.json"
          else txt "part-2a-vault-wiring.json";
      title = in_vault opts.vault (
          if has_batch upgrade
          then txt
              "Part 2a — Upgrade + vault rewiring (accountant, operator registry, enforced options, CCTP)"
          else txt
              "Part 2a — Vault wiring (accountant, operator registry, enforced options, CCTP)");
      batch =
          make_batch now (batch_or upgrade deploy)
            (opts.vault
              ++ (if has_batch upgrade
                  then txt " Part 2a — Upgrade + vault wiring"
                  else txt " Part 2a — Vault wiring"))
            (batch_txs upgrade ++ w.vault_lz_txs);
    }
    ∷ record {
      slot = slot_2b;
      file = txt "part-2b-lz-endpoint-config.json";
      title = in_vault opts.vault (
          txt "Part 2b — LayerZero endpoint config: DVN configs + send/receive libraries for "
          ++ eids_text w.eids);
      batch =
          make_batch now deploy (opts.vault ++ txt " Part 2b — LZ endpoint config")
            w.endpoint_lz_txs;
    }
    ∷ record {
      slot = slot_3;
      file = txt "part-3-accept-ownership.json";
      title = in_vault opts.vault (txt "Part 3 — Accept ownership");
      batch =
          make_batch now owner (opts.vault ++ txt " Part 3 — Accept ownership") owner.transactions;
    }
    ∷ record {
      slot = slot_4;
      file = txt "part-4-fees.json";
      title = in_vault opts.vault (txt "Part 4 — Vault & accountant fees");
      batch =
          make_batch now (batch_or opts.fees_file deploy) (opts.vault ++ txt " Part 4 — Fees")
            (batch_txs opts.fees_file);
    }
    ∷ []

abbrev pub has_txs : SplitSection → Bool
has_txs s = not (length s.batch.transactions == 0)

-- `writeBatch` into the directory: a file of that name is replaced.
unfoldable pub write_file : Text → SafeBatch → Directory → Directory
write_file name b [] = (name, json b) ∷ []
write_file name b ((n, c) ∷ dir) =
    if text_eq n name then (name, json b) ∷ dir else (n, c) ∷ write_file name b dir

unfoldable pub wipe : Directory → Directory
wipe dir = keep (λ f. not (ends_with f.0 (txt ".json"))) dir

unfoldable pub write_all : List SplitSection → Directory → Directory
write_all [] dir = dir
write_all (s ∷ ss) dir = write_all ss (write_file s.file s.batch dir)

abbrev pub off_chain : ℕ → Option SafeBatch → Bool
off_chain chain_id none = false
off_chain chain_id (some b) = not (is_on_chain chain_id b)

unfoldable pub split_batches :
    ℕ → SplitOptions → Directory → Result SplitError (SplitResult × Directory)
split_batches now opts dir = do
  let deploy = read_batch_or_empty now opts.chain_id opts.deploy_file
  let owner = read_batch_or_empty now opts.chain_id opts.owner_file
  throw_if (not (is_on_chain opts.chain_id deploy) || not (is_on_chain opts.chain_id owner))
      chain_mismatch
  throw_if (off_chain opts.chain_id opts.upgrade_file) upgrade_chain_mismatch
  throw_if (off_chain opts.chain_id opts.fees_file) fees_chain_mismatch
  let c = classify_all 0 deploy.transactions
  throw_if (not (length c.unknown_idx == 0)) (unknown_selectors c.unknown_idx)
  w ← wire_all c.lz_txs (record { vault_lz_txs = []; endpoint_lz_txs = []; eids = [] })
  let rejoined =
      length c.caps_txs + length c.roles_txs + length w.vault_lz_txs + length w.endpoint_lz_txs
  throw_if (not (rejoined == length deploy.transactions)) count_mismatch
  let sections = keep has_txs (all_sections now opts deploy owner c w)
  ok (
    record {
      out_dir = opts.out_dir;
      sections = sections;
      eids_label = eids_text w.eids;
      has_upgrade = has_batch opts.upgrade_file;
    },
    write_all sections (wipe dir),
  )
