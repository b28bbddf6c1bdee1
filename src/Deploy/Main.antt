-- ===== src/Deploy/Main.antt =====
-- `main` of tools/deploy.ts.
use nest_protocol.Base.{
  ℕ, Bool, true, false, ◌&&◌, ◌||◌, not, List, [], ◌∷◌, ◌==◌, length, if◌then◌else◌, Option, none,
  some,
}
use nest_protocol.Base.Text.{Text, txt, text_eq}
use nest_protocol.Base.Outcome.{Result, ok, err}
use nest_protocol.Services.{SafeServiceEntry, safe_tx_service}
use nest_protocol.Environment.{
  Env, CommonConfig, require_env, private_key_from_env, load_common, OwnersApi,
  is_authorized_proposer, get_safe_owner,
}
use nest_protocol.Split.Types.{SplitResult, SplitError}
use nest_protocol.Split.Batches.{split_batches}
use nest_protocol.Propose.Step.{SafeApi, Step, pure, throw, ◌>>=◌, outside, plain}
use nest_protocol.Propose.Phase.{ProposePhaseInput, run_propose_phase}
use nest_protocol.Queue.Store.{QueueManifest, write_manifest}
use nest_protocol.Queue.Run.{chosen_mode}
use nest_protocol.Deploy.Args.{DeployArgs, parse_args}
use nest_protocol.Deploy.World.{
  VaultInputConfig, Files, World, on_net, lift_safe, get_files, set_files,
}
use nest_protocol.Deploy.Targets.{
  NodeApi, any_has_code, probe_addresses, pre_existing_targets, cache_fresh,
}
use nest_protocol.Deploy.Forge.{
  ForgeStep, ForgeRunResult, resolve_verifier_config, forge_args, read_forge,
}
use nest_protocol.Deploy.Steps.{
  ForgeReply, receive, step_env, forge_steps, stale_batch_names, clear_stale, split_options,
}

-- What a run finds outside: its environment and configuration, the account of a key, the clock, the
-- node at an RPC address, forge on some arguments and an environment, and for each chain and Safe
-- the owners' service and the libraries that propose.
pub record Outside (W : Type 0) : Type 0 where
  pub repo_root : Text
  pub env : Env
  pub common_files : ℕ → Option CommonConfig
  pub vault_files : Text → Option VaultInputConfig
  pub account_address : Text → Option Text
  pub now : ℕ
  pub recorded_at : Text
  pub node : Text → NodeApi W
  pub forge : List Text → Env → W → ForgeReply × W
  pub owners : ℕ → Text → OwnersApi W
  pub safe : ℕ → Text → SafeApi W

-- What `main` has found out when forge starts.
pub record Ready : Type 0 where
  pub args : DeployArgs
  pub service : SafeServiceEntry
  pub common : CommonConfig
  pub rpc_url : Text
  pub signer_key : Text
  pub safe_owner : Option Text
  pub targets : List Text

abbrev pub safe_dry_run : DeployArgs → Bool
safe_dry_run args = args.dry_run || args.fork

unfoldable pub runs_upgrade : Ready → Bool
runs_upgrade r = r.args.run_upgrade && not (length r.targets == 0)

unfoldable pub or_die : {A : Type 0} → Text → Option A → Result Text A
or_die message none = err message
or_die message (some a) = ok a

unfoldable pub or_split_error : {A : Type 0} → Result SplitError A → Result Text A
or_split_error (err e) = err (txt "splitBatches failed")
or_split_error (ok a) = ok a

unfoldable pub clear_fresh : Bool → Files → Files
clear_fresh true files = record files { fresh = none }
clear_fresh false files = files

unfoldable pub dry_run_tag : DeployArgs → Option Text
dry_run_tag args =
    if args.dry_run then some (txt "dry-run") else if args.fork then some (txt "fork") else none

module _ (r : Ready) where
  abbrev pub split_mode : Bool
  split_mode = chosen_mode r.args.split_override r.service.split_batches

  unfoldable pub deploy_input : Text → SplitResult → ProposePhaseInput
  deploy_input repo_root split = record {
    repo_root = repo_root;
    chain_id = r.args.chain_id;
    vault = r.args.vault;
    chain_name = r.common.name;
    safe = r.common.multisig;
    rpc_url = r.rpc_url;
    signer_key = r.signer_key;
    safe_owner = r.safe_owner;
    sections = split.sections;
    eids_label = split.eids_label;
    has_upgrade = split.has_upgrade;
    split_mode = split_mode;
    safe_dry_run = safe_dry_run r.args;
    dry_run_tag = dry_run_tag r.args;
    nonce_override = none;
  }

  unfoldable pub deploy_manifest : Text → SplitResult → QueueManifest
  deploy_manifest recorded_at split = record {
    version = 1;
    vault = r.args.vault;
    chain_id = r.args.chain_id;
    chain_name = r.common.name;
    safe = r.common.multisig;
    split_mode = split_mode;
    eids_label = split.eids_label;
    has_upgrade = split.has_upgrade;
    recorded_at = recorded_at;
    sections = split.sections;
  }

module _ {W : Type 0} (out : Outside W) where
  -- Everything before forge starts.
  unfoldable pub prepare : DeployArgs → Step (World W) Ready
  prepare args = do
    let chain_id = args.chain_id
    service ← plain (or_die (txt "chainId not configured") (safe_tx_service chain_id))
    cfg ← plain (or_die (txt "vault config not found") (out.vault_files args.vault))
    common ← plain (load_common out.common_files chain_id)
    let rpc_env = if args.fork then txt "FORK_RPC_URL" else common.rpc
    rpc_url ← plain (require_env out.env rpc_env)
    key ← plain (private_key_from_env out.env)
    proposer ← plain (or_die (txt "invalid private key") (out.account_address key))
    let owners = out.owners chain_id common.multisig
    authorized ← outside (on_net (is_authorized_proposer owners proposer))
    safe_owner ← outside (on_net (get_safe_owner owners))
    deployed ← any_has_code (out.node rpc_url) (probe_addresses chain_id cfg)
    targets ← pre_existing_targets (out.node rpc_url) chain_id cfg
    pure (record {
      args = args;
      service = service;
      common = common;
      rpc_url = rpc_url;
      signer_key = key;
      safe_owner = safe_owner;
      targets = targets;
    })

module _ {W : Type 0} (out : Outside W) (r : Ready) where
  -- `runForge`
  unfoldable pub run_forge : ForgeStep → Step (World W) ForgeRunResult
  run_forge step = do
    let verifier = resolve_verifier_config out.env r.args.chain_id
    let words = forge_args step r.rpc_url r.args.dry_run r.args.fork verifier
    reply ← outside (on_net (out.forge words (step_env out.env step.env)))
    _ ← set_files (receive reply)
    pure (read_forge reply.status reply.captured)

  -- What follows the step that deploys.
  unfoldable pub cache_after : Bool → ForgeStep → Step (World W) (Unit {0})
  cache_after snapshot_existed step =
      if text_eq step.label (txt "DeployAndSetup")
      then cache_fresh (out.node r.rpc_url) snapshot_existed r.targets
      else pure tt

  -- The loop over the steps: those that were not verified.
  unfoldable pub run_steps : Bool → List ForgeStep → Step (World W) (List ForgeStep)
  run_steps snapshot_existed [] = pure []
  run_steps snapshot_existed (step ∷ steps) =
      let rest = run_steps snapshot_existed steps in
      run_forge step >>= λ result. cache_after snapshot_existed step >>= λ _.
      if result.status == 0
      then rest
      else if result.verify_only_failure
      then (rest >>= λ more. pure (step ∷ more))
      else throw (txt "forge step exited with an error")

  unfoldable pub split_now : Step (World W) SplitResult
  split_now = do
    files ← get_files
    let opts = split_options r.args.chain_id r.args.vault (runs_upgrade r) files
    done ← plain (or_split_error (split_batches out.now opts files.split_dir))
    _ ← set_files (λ f. record f { split_dir = done.1 })
    pure done.0

  -- With --record-only
  unfoldable pub record_manifest : SplitResult → Step (World W) ℕ
  record_manifest split = do
    let m = deploy_manifest r out.recorded_at split
    _ ← set_files (λ f. record f { queue = write_manifest m f.queue })
    _ ← set_files (clear_fresh (not (safe_dry_run r.args)))
    pure 0

  unfoldable pub propose_now : SplitResult → Step (World W) ℕ
  propose_now split = do
    let api = lift_safe (out.safe r.args.chain_id r.common.multisig)
    done ← run_propose_phase api (deploy_input r out.repo_root split)
    _ ← set_files (clear_fresh (not done.1 && not (safe_dry_run r.args)))
    pure (if done.1 then 1 else 0)

  -- The removal of stale batches and the forge steps.
  unfoldable pub regenerate : Bool → Step (World W) (List ForgeStep)
  regenerate snapshot_existed = do
    let upgrade = runs_upgrade r
    _ ← set_files (clear_stale (stale_batch_names r.args.chain_id r.args.vault upgrade))
    run_steps snapshot_existed
        (forge_steps r.args.chain_id r.args.vault r.common.multisig upgrade r.targets)

  -- What follows the split: the exit code; an error stands for code 1 too.
  unfoldable pub hand_over : SplitResult → Step (World W) ℕ
  hand_over split = if r.args.record_only then record_manifest split else propose_now split

  -- Everything after forge.
  unfoldable pub deliver : Step (World W) ℕ
  deliver = split_now >>= hand_over

abbrev pub is_there : {A : Type 0} → Option A → Bool
is_there none = false
is_there (some a) = true

unfoldable pub deploy_main : {W : Type 0} → Outside W → List Text → Step (World W) ℕ
deploy_main out argv = do
  args ← plain (parse_args argv)
  r ← prepare out args
  files ← get_files
  unverified ← regenerate out r (is_there files.snapshot)
  deliver out r
