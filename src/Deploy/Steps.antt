-- ===== src/Deploy/Steps.antt =====
-- The forge steps of a deployment, and the batch files that they leave (`main` of tools/deploy.ts,
-- `resolveBatchPaths` and `pickBatchPath` of tools/splitMsigBatchesLib.ts).
use nest_protocol.Base.{ℕ, Bool, List, [], ◌∷◌, ◌++◌, if◌then◌else◌, Option, none, some}
use nest_protocol.Base.Text.{Text, txt, text_eq, join, decimal}
use nest_protocol.Split.Types.{SafeBatch, SplitOptions}
use nest_protocol.Environment.{Env}
use nest_protocol.Deploy.World.{
  VaultInputConfig, BatchFiles, Files, find_batch, remove_batch, put_batches,
}
use nest_protocol.Deploy.Forge.{ForgeStep, or_else}

unfoldable pub common_env : ℕ → Text → List (Text × Text)
common_env chain_id vault = (txt "CHAIN_ID", decimal chain_id) ∷ (txt "VAULT_SYMBOL", vault) ∷ []

unfoldable pub upgrade_step : ℕ → Text → List Text → ForgeStep
upgrade_step chain_id vault targets = record {
  label = txt "Upgrade (vault scope)";
  script_path = txt "script/deploy/Upgrade.s.sol";
  sig = txt "runMsig()";
  sig_args = [];
  env =
      common_env chain_id vault
      ++ ((txt "CONTRACT", txt "vault") ∷ (txt "UPGRADE_TARGETS", join (txt ",") targets) ∷ []);
}

unfoldable pub deploy_step : ℕ → Text → ForgeStep
deploy_step chain_id vault = record {
  label = txt "DeployAndSetup";
  script_path = txt "script/deploy/DeployAndSetup.s.sol";
  sig = txt "run(string)";
  sig_args = vault ∷ [];
  env = common_env chain_id vault;
}

unfoldable pub owner_step : ℕ → Text → Text → ForgeStep
owner_step chain_id vault safe = record {
  label = txt "TransferOwnership";
  script_path = txt "script/setup/TransferOwnership.s.sol";
  sig = txt "run()";
  sig_args = [];
  env = common_env chain_id vault ++ (txt "NEW_OWNER", safe) ∷ [];
}

unfoldable pub fees_step : ℕ → Text → Bool → ForgeStep
fees_step chain_id vault run_upgrade = record {
  label = txt "SetupFees";
  script_path = txt "script/setup/SetupFees.s.sol";
  sig = txt "run()";
  sig_args = [];
  env =
      common_env chain_id vault
      ++ (if run_upgrade then (txt "FEE_FORCE_SETFEE", txt "true") ∷ [] else []);
}

-- `steps`, with the targets of the upgrade
unfoldable pub forge_steps : ℕ → Text → Text → Bool → List Text → List ForgeStep
forge_steps chain_id vault safe run_upgrade targets =
    (if run_upgrade then upgrade_step chain_id vault targets ∷ [] else [])
    ++ (deploy_step chain_id vault
        ∷ owner_step chain_id vault safe
        ∷ fees_step chain_id vault run_upgrade
        ∷ [])

-- `{ ...process.env, ...step.env }`
unfoldable pub step_env : Env → List (Text × Text) → Env
step_env env [] name = env name
step_env env ((n, v) ∷ more) name = if text_eq n name then some v else step_env env more name

unfoldable pub batch_name : ℕ → Text → Text → Text
batch_name chain_id vault kind =
    decimal chain_id ++ (txt "-" ++ (vault ++ (txt "-" ++ (kind ++ txt ".json"))))

abbrev pub deploy_kind : Text
deploy_kind = txt "DeployAndSetup"

abbrev pub owner_kind : Text
owner_kind = txt "TransferOwnership-AcceptOwnership"

abbrev pub fees_kind : Text
fees_kind = txt "SetupFees"

abbrev pub upgrade_kind : Text
upgrade_kind = txt "Upgrade-vault"

unfoldable pub stale_batch_names : ℕ → Text → Bool → List Text
stale_batch_names chain_id vault run_upgrade =
    batch_name chain_id vault deploy_kind
    ∷ batch_name chain_id vault owner_kind
    ∷ batch_name chain_id vault fees_kind
    ∷ (if run_upgrade then batch_name chain_id vault upgrade_kind ∷ [] else [])

unfoldable pub remove_batches : List Text → BatchFiles → BatchFiles
remove_batches [] fs = fs
remove_batches (n ∷ ns) fs = remove_batches ns (remove_batch n fs)

-- The batches of an earlier run are removed from both folders.
unfoldable pub clear_stale : List Text → Files → Files
clear_stale names files = record files {
  flat = remove_batches names files.flat;
  legacy = remove_batches names files.legacy;
}

-- The batch at the path that `pickBatchPath` gives, if there is one.
unfoldable pub pick_batch : Text → Files → Option SafeBatch
pick_batch name files = or_else (find_batch name files.flat) (find_batch name files.legacy)

unfoldable pub split_out_dir : ℕ → Text → Text
split_out_dir chain_id vault =
    txt "script/output/msig/split/" ++ (decimal chain_id ++ (txt "-" ++ vault))

-- What `main` gives to `splitBatches`.
unfoldable pub split_options : ℕ → Text → Bool → Files → SplitOptions
split_options chain_id vault run_upgrade files = record {
  deploy_file = pick_batch (batch_name chain_id vault deploy_kind) files;
  owner_file = pick_batch (batch_name chain_id vault owner_kind) files;
  upgrade_file =
      if run_upgrade then pick_batch (batch_name chain_id vault upgrade_kind) files else none;
  fees_file = pick_batch (batch_name chain_id vault fees_kind) files;
  chain_id = chain_id;
  vault = vault;
  out_dir = split_out_dir chain_id vault;
}

-- What forge has done when it exits: its exit code and output, the batches that it has written to
-- script/output/msig, and the deployment's snapshot if it has written one.
pub record ForgeReply : Type 0 where
  pub status : ℕ
  pub captured : Text
  pub written : BatchFiles
  pub snapshot : Option VaultInputConfig

abbrev pub newer : {A : Type 0} → Option A → Option A → Option A
newer none old = old
newer (some a) old = some a

unfoldable pub receive : ForgeReply → Files → Files
receive reply files = record files {
  flat = put_batches reply.written files.flat;
  snapshot = newer reply.snapshot files.snapshot;
}
