-- ===== src/Split/Tests.antt =====
-- Runs of `splitBatches` on a small deployment, and its theorems there.
use nest_protocol.Base.{
  ℕ, ◌+◌, ◌≡◌, ◌⊎◌, ◌↔◌, refl, true, false, ◌||◌, not, Option, none, some, List, [], ◌∷◌, ◌++◌,
  keep, map, All,
}
use nest_protocol.Base.Text.{
  member, Text, txt, text_eq, to_lower, lower_unit, trim, trim_start, is_space, starts_with,
  ends_with,
}
use nest_protocol.Base.Number.{to_number, digits_value}
use nest_protocol.Base.Outcome.{ok, err}
use nest_protocol.Split.Types.{
  all_txs, SafeTx, number, string, SafeBatch, slot_1a, slot_1b, slot_2a, slot_2b, slot_3, slot_4,
  SplitOptions, SplitResult, Directory, Content, json, bytes, chain_mismatch,
  upgrade_chain_mismatch, fees_chain_mismatch, unknown_selectors,
}
use nest_protocol.Split.Selectors.{
  caps, roles, lz, unknown, selector, classify, classify_selector, extract_eid, extract_eid_from,
  word_eid, parse_hex, parse_hex_from, hex_digit,
}
use nest_protocol.Split.Batches.{
  batch_txs, is_on_chain, chain_number, off_chain, split_batches, has_txs, has_eid, labels_text,
}
use nest_protocol.Split.Batches.Sorting.{has_class, for_vault, unknown_from}
use nest_protocol.Split.Batches.Returns.{split_value, split_lem}
use nest_protocol.Split.Batches.Sections.{order, txs_at, IsAscending}
use nest_protocol.Split.Batches.Files.{lookup, written}
use nest_protocol.Split.Batches.Properties.{split_sorts, split_sections_valid, split_directory}
use nest_protocol.Split.Batches.Errors.{split_returns_iff, split_throws}
use nest_protocol.Split.Batches.Conservation.{split_loses_nothing, count}
use nest_protocol.Split.Batches.Eids.{split_eids, any_eid, IsEid}

abbrev call : Text → SafeTx
call call_data = record {
  to = txt "0x01";
  value = txt "0";
  call_data = call_data;
  operation = txt "0";
}

-- setSendLibrary-like call with the endpoint id 0x75e8 = 30184.
abbrev endpoint_call : SafeTx
endpoint_call = call (
    txt "0x9535FF30"
    ++ (txt "00000000000000000000000000000000000000000000000000000000000000aa"
        ++ txt "00000000000000000000000000000000000000000000000000000000000075e8"))

abbrev batch : List SafeTx → SafeBatch
batch txs = record {
  chain_id = string (txt " 98866 ");
  created_at = 1;
  meta_name = txt "deploy";
  meta_description = [];
  transactions = txs;
  version = txt "1.0";
}

abbrev opts_with : List SafeTx → SplitOptions
opts_with txs = record {
  deploy_file = some (batch txs);
  owner_file = none;
  upgrade_file = some (record (batch (call (txt "0x3659cfe6") ∷ [])) { chain_id = number 98866 });
  fees_file = none;
  chain_id = 98866;
  vault = txt "nALPHA";
  out_dir = txt "out";
}

abbrev sample_txs : List SafeTx
sample_txs =
    call (txt "0x9d28fb86") ∷ endpoint_call ∷ call (txt "0xc6b0263e") ∷ call (txt "0x7d40583d") ∷ []

abbrev sample_opts : SplitOptions
sample_opts = opts_with sample_txs

abbrev sample_dir : Directory
sample_dir = (txt "part-4-fees.json", bytes []) ∷ (txt "slack.md", bytes (txt "x")) ∷ []

abbrev sample_result : SplitResult × Directory
sample_result = split_value 7 sample_opts sample_dir

sample_returns : split_batches 7 sample_opts sample_dir ≡ ok sample_result
unfolding is_on_chain chain_number to_number digits_value trim trim_start is_space classify
    classify_selector selector to_lower lower_unit member text_eq
sample_returns = split_lem 7 sample_opts sample_dir

-- A call with an unknown selector, second of the deployment.
abbrev bad_opts : SplitOptions
bad_opts = opts_with (endpoint_call ∷ call (txt "0xdeadbeef") ∷ [])

bad_throws : split_batches 7 bad_opts [] ≡ err (unknown_selectors (1 ∷ []))
unfolding is_on_chain chain_number to_number digits_value trim trim_start is_space classify
    classify_selector selector to_lower lower_unit member text_eq
bad_throws = split_lem 7 bad_opts []

endpoint_call_eid : extract_eid endpoint_call.call_data ≡ some 30184
unfolding extract_eid extract_eid_from word_eid parse_hex parse_hex_from hex_digit starts_with
endpoint_call_eid = refl

split_sorts_example :
    (txs_at slot_1a sample_result.0.sections ≡ keep (has_class caps) sample_txs)
    × (txs_at slot_1b sample_result.0.sections ≡ keep (has_class roles) sample_txs)
    × (txs_at slot_2a sample_result.0.sections
        ≡ call (txt "0x3659cfe6") ∷ keep for_vault (keep (has_class lz) sample_txs))
    × (txs_at slot_2b sample_result.0.sections
        ≡ keep (λ tx. not (for_vault tx)) (keep (has_class lz) sample_txs))
    × (txs_at slot_3 sample_result.0.sections ≡ [])
    × (txs_at slot_4 sample_result.0.sections ≡ [])
split_sorts_example = split_sorts 7 sample_opts sample_dir sample_result sample_returns

split_sections_valid_example :
    IsAscending (map (λ s. order s.slot) sample_result.0.sections)
    × All (λ s. (is_on_chain 98866 s.batch ≡ true) × (has_txs s ≡ true)) sample_result.0.sections
split_sections_valid_example =
    split_sections_valid 7 sample_opts sample_dir sample_result sample_returns

split_directory_example :
    lookup (txt "slack.md") sample_result.1
    ≡ elim (written (txt "slack.md") sample_result.0.sections) as (λ x. Option Content) [
      | some b ↦ some (json b)
      | none ↦ some (bytes (txt "x"))
    ]
unfolding ends_with starts_with text_eq
split_directory_example =
    split_directory 7 sample_opts sample_dir sample_result (txt "slack.md") sample_returns

split_loses_nothing_example :
    count (has_class unknown) (all_txs sample_result.0.sections)
    ≡ count (has_class unknown) sample_txs
      + count (has_class unknown) (call (txt "0x3659cfe6") ∷ [])
      + 0
      + 0
split_loses_nothing_example =
    split_loses_nothing 7 sample_opts sample_dir sample_result (has_class unknown) sample_returns

split_returns_iff_example :
    ((r : SplitResult × Directory) × (split_batches 7 sample_opts sample_dir ≡ ok r)) ↔ (
      ((off_chain 98866 (some (batch sample_txs)) || off_chain 98866 none) ≡ false)
      × (off_chain 98866 sample_opts.upgrade_file ≡ false)
      × (off_chain 98866 none ≡ false)
      × All (λ tx. has_class unknown tx ≡ false) sample_txs)
split_returns_iff_example = split_returns_iff 7 sample_opts sample_dir

split_throws_example :
    (unknown_selectors (1 ∷ []) ≡ chain_mismatch)
    ⊎ (unknown_selectors (1 ∷ []) ≡ upgrade_chain_mismatch)
    ⊎ (unknown_selectors (1 ∷ []) ≡ fees_chain_mismatch)
    ⊎ (unknown_selectors (1 ∷ [])
        ≡ unknown_selectors (unknown_from 0 (batch_txs bad_opts.deploy_file)))
split_throws_example = split_throws 7 bad_opts [] (unknown_selectors (1 ∷ [])) bad_throws

split_eids_example :
    (es : List ℕ) × (sample_result.0.eids_label ≡ labels_text es)
    × IsAscending es
    × All IsEid es
    × ((n : ℕ) → has_eid n es ≡ any_eid n (keep (has_class lz) sample_txs))
split_eids_example = split_eids 7 sample_opts sample_dir sample_result sample_returns
