-- ===== src/Queue/Run.antt =====
-- `main` and `proposeOne` of tools/queueMigration.ts.
pub mod Rounds
use nest_protocol.Base.{
  ℕ, Bool, true, false, ◌&&◌, ◌||◌, not, List, [], ◌∷◌, ◌++◌, ◌==◌, length, if◌then◌else◌, Option,
  none, some,
}
use nest_protocol.Base.Text.{Text, txt, text_eq, to_lower}
use nest_protocol.Base.Outcome as Outcome
use nest_protocol.Base.Outcome.{Result, ok, err, throw_if}
use nest_protocol.Services.{safe_tx_service}
use nest_protocol.Environment.{
  Env, CommonConfig, require_env, private_key_from_env, load_common, OwnersApi,
  is_authorized_proposer, get_safe_owner,
}
use nest_protocol.Propose.Step.{SafeApi, State, Step, pure, throw, ◌>>=◌, outside, plain}
use nest_protocol.Propose.Phase.{ProposePhaseInput, Outcome, run_propose_phase}
use nest_protocol.Queue.Store.{
  QueueManifest, QueueStore, manifest_path, find_entry, read_manifest, list_manifests,
}
use nest_protocol.Cli.{is_some}
use nest_protocol.Queue.Args.{QueueArgs, parse_args}

-- What a run finds outside: its environment, the files of config/common, the account of a key, and
-- for each chain and Safe the owners' service and the libraries that propose.
pub record Outside (W : Type 0) : Type 0 where
  pub repo_root : Text
  pub env : Env
  pub common_files : ℕ → Option CommonConfig
  pub account_address : Text → Option Text
  pub owners : ℕ → Text → OwnersApi W
  pub safe : ℕ → Text → SafeApi W

-- `override ?? recorded`
unfoldable pub chosen_mode : Option Bool → Bool → Bool
chosen_mode none recorded = recorded
chosen_mode (some mode) recorded = mode

-- What `proposeOne` gives to the propose phase, with what it has found: the RPC address, the signer's
-- key and the Safe's owner.
unfoldable pub queue_input :
    Text
    → QueueManifest
    → Text
    → Text
    → Option Text
    → Bool
    → Option Bool
    → Option ℕ
    → ProposePhaseInput
queue_input repo_root m rpc_url key safe_owner dry_run split_override nonce_override = record {
  repo_root = repo_root;
  chain_id = m.chain_id;
  vault = m.vault;
  chain_name = m.chain_name;
  safe = m.safe;
  rpc_url = rpc_url;
  signer_key = key;
  safe_owner = safe_owner;
  sections = m.sections;
  eids_label = m.eids_label;
  has_upgrade = m.has_upgrade;
  split_mode = chosen_mode split_override m.split_mode;
  safe_dry_run = dry_run;
  dry_run_tag = if dry_run then some (txt "dry-run") else none;
  nonce_override = nonce_override;
}

unfoldable pub read_manifests : QueueArgs → QueueStore → Result Text (List QueueManifest)
read_manifests args store = elim args.chain_id [
  | none ↦ list_manifests args.vault store
  | some chain_id ↦ elim (find_entry (manifest_path args.vault chain_id) store) [
    | none ↦ err (txt "no recorded manifest")
    | some m ↦ Outcome.◌>>=◌ (read_manifest m) (λ r. ok (r ∷ []))
  ]
]

-- Some manifests, each of a chain with a service.
unfoldable pub check_services : List QueueManifest → Result Text (Unit {0})
check_services [] = ok tt
check_services (m ∷ ms) =
    if is_some (safe_tx_service m.chain_id)
    then check_services ms
    else err (txt "chain not configured in tools/safeTxService.ts")

unfoldable pub check_manifests : List QueueManifest → Result Text (Unit {0})
check_manifests [] = err (txt "no recorded manifests")
check_manifests (m ∷ ms) = check_services (m ∷ ms)

module _ {W : Type 0} (out : Outside W) (dry_run : Bool) (split_override : Option Bool)
    (nonce : Option ℕ) where
  unfoldable pub propose_one : QueueManifest → Step W (List Outcome × Bool)
  propose_one m = do
    common ← plain (load_common out.common_files m.chain_id)
    rpc_url ← plain (require_env out.env common.rpc)
    key ← plain (private_key_from_env out.env)
    proposer ← plain (elim (out.account_address key) as (λ _. Result Text Text) [
      | none ↦ err (txt "invalid private key")
      | some a ↦ ok a
    ])
    authorized ← outside (is_authorized_proposer (out.owners m.chain_id m.safe) proposer)
    safe_owner ← outside (get_safe_owner (out.owners m.chain_id m.safe))
    run_propose_phase (out.safe m.chain_id m.safe)
        (queue_input out.repo_root m rpc_url key safe_owner dry_run split_override nonce)

  -- The loop over the chains: whether any was aborted.
  unfoldable pub propose_chains : Bool → List QueueManifest → Step W Bool
  propose_chains any_aborted [] = pure any_aborted
  propose_chains any_aborted (m ∷ ms) =
      propose_one m >>= λ done. propose_chains (any_aborted || done.1) ms

-- The exit code; an error stands for code 1 too.
unfoldable pub queue_main : {W : Type 0} → Outside W → List Text → QueueStore → Step W ℕ
queue_main out argv store = do
  args ← plain (parse_args argv)
  manifests ← plain (read_manifests args store)
  _ ← plain (check_manifests manifests)
  any_aborted ← propose_chains out args.dry_run args.split_override args.nonce false manifests
  pure (if any_aborted then 1 else 0)
