-- ===== src/Queue/Tests.antt =====
-- The queue's theorems at concrete inputs.
use nest_protocol.Base.{
  ℕ, ◌≡◌, refl, true, false, none, some, List, [], ◌∷◌, ◌==◌, length, keep, All, arith,
}
use nest_protocol.Base.Text.{txt, text_eq, starts_with, ends_with, decimal, decimal_from}
use nest_protocol.Base.Outcome.{ok}
use nest_protocol.Propose.Step.{Proposal}
use nest_protocol.Propose.Sample.{sample_api, tx, section, start}
use nest_protocol.Propose.Delivered.{calls}
use nest_protocol.Split.Types.{slot_1a, slot_3}
use nest_protocol.Queue.Store.{
  QueueManifest, Entry, QueueStore, manifest_path, write_manifest, find_entry, read_manifest,
  read_all, insert_manifest, sort_manifests, is_listed, list_manifests,
}
use nest_protocol.Queue.Store.Laws.{find_entry-write_manifest, list_manifests-IsByChain, IsByChain}
use nest_protocol.Queue.Args.{QueueArgs, parse_args}
use nest_protocol.Queue.Args.Render.{render_args, parse_args-render_args}
use nest_protocol.Queue.Run.{Outside, read_manifests, queue_main}
use nest_protocol.Queue.Run.Rounds.{Rounds, all_calls, queue_main-Rounds}

abbrev sample_args : QueueArgs
sample_args = record {
  vault = txt "nALPHA";
  chain_id = some 98866;
  dry_run = true;
  split_override = some false;
  nonce = some 7;
}

parse_args-render_args_example : parse_args (render_args sample_args) ≡ ok sample_args
unfolding starts_with
parse_args-render_args_example = parse_args-render_args sample_args refl (ground arith) refl

abbrev manifest : ℕ → QueueManifest
manifest chain_id = record {
  version = 1;
  vault = txt "nALPHA";
  chain_id = chain_id;
  chain_name = txt "chain";
  safe = txt "0x01";
  split_mode = false;
  eids_label = txt "none";
  has_upgrade = false;
  recorded_at = txt "now";
  sections = section slot_1a (tx ∷ []) ∷ section slot_3 (tx ∷ []) ∷ [];
}

abbrev sample_store : QueueStore
sample_store =
    record { path = manifest_path (txt "nALPHA") 480; manifest = manifest 480 }
    ∷ record { path = manifest_path (txt "nALPHA") 56; manifest = manifest 56 }
    ∷ []

find_entry-write_manifest_example :
    find_entry (manifest_path (txt "nALPHA") 480) (write_manifest (manifest 1) sample_store)
    ≡ find_entry (manifest_path (txt "nALPHA") 480) sample_store
unfolding text_eq
find_entry-write_manifest_example =
    find_entry-write_manifest (manifest 1) sample_store (txt "nALPHA") 480

listed : list_manifests (txt "nALPHA") sample_store ≡ ok (manifest 56 ∷ manifest 480 ∷ [])
unfolding list_manifests read_all read_manifest sort_manifests insert_manifest manifest_path text_eq
    ends_with starts_with decimal decimal_from
listed = refl

list_manifests-IsByChain_example :
    IsByChain (manifest 56 ∷ manifest 480 ∷ [])
    × All (λ e. e.manifest.version ≡ 1) (keep (is_listed (txt "nALPHA")) sample_store)
    × (1
        ≡ length (
            keep
              (λ (e : Entry). e.manifest.chain_id == 56)
              (keep (is_listed (txt "nALPHA")) sample_store)))
list_manifests-IsByChain_example =
    list_manifests-IsByChain (txt "nALPHA") sample_store (manifest 56 ∷ manifest 480 ∷ [])
      (λ m. m.chain_id == 56) listed

abbrev outside_all : Outside ℕ
outside_all = record {
  repo_root = txt "/repo";
  env = λ name. some (txt "0x1111111111111111111111111111111111111111111111111111111111111111");
  common_files = λ n.
      some (record { chain_id = n; name = txt "chain"; rpc = txt "RPC"; multisig = txt "0x01" });
  account_address = λ key. some (txt "0x02");
  owners = λ chain_id safe. record {
    get_safe_info = λ w. (some (txt "0x02" ∷ []), w);
    get_safe_delegates = λ w. (some [], w);
    call_get_owners = λ w. (none, w);
  };
  safe = λ chain_id safe. sample_api;
}

abbrev all_args : QueueArgs
all_args = record {
  vault = txt "nALPHA";
  chain_id = none;
  dry_run = false;
  split_override = none;
  nonce = none;
}

queue_main-Rounds_example :
    let ms = manifest 56 ∷ manifest 480 ∷ [] in
    let r = queue_main outside_all (txt "nALPHA" ∷ []) sample_store (start 2) in
    (new : List Proposal) × (r.1.posted ≡ new)
    × (Rounds ms new
        × (false ≡ true → new ≡ [])
        × (r.0 ≡ ok 0 → false ≡ false → calls new ≡ all_calls ms))
unfolding starts_with read_manifests
queue_main-Rounds_example =
    queue_main-Rounds outside_all (txt "nALPHA" ∷ []) sample_store (start 2) all_args
      (manifest 56 ∷ manifest 480 ∷ []) (parse_args-render_args all_args refl (ground arith) refl)
      listed
