-- ===== src/Deploy/Tests.antt =====
-- The deployment's theorems at concrete inputs.
use nest_protocol.Base.{ℕ, ◌≡◌, refl, true, false, Bool, none, some, [], ◌∷◌, map}
use nest_protocol.Base.Text.{
  Text, txt, text_eq, starts_with, decimal, decimal_from, member, to_lower, lower_unit, trim,
  trim_start, is_space,
}
use nest_protocol.Base.Number.{to_number, digits_value}
use nest_protocol.Base.Outcome.{ok}
use nest_protocol.Environment.{CommonConfig, is_hex, is_hex_digit, all_hex}
use nest_protocol.Split.Types.{
  SafeTx, SafeBatch, number, SplitOptions, SplitResult, Directory, all_txs,
}
use nest_protocol.Split.Selectors.{classify, classify_selector, selector}
use nest_protocol.Split.Batches.{split_batches, is_on_chain, chain_number}
use nest_protocol.Split.Batches.Returns.{split_value, split_lem}
use nest_protocol.Propose.Step.{State, pure, ◌>>=◌, outside}
use nest_protocol.Propose.Sample.{sample_api}
use nest_protocol.Propose.Posts.{Ended}
use nest_protocol.Queue.Run as QueueRun
use nest_protocol.Cli.{check_flags, read_chain_id}
use nest_protocol.Deploy.Args.{DeployArgs, parse_args, check_deploy_args, two_words}
use nest_protocol.Deploy.World.{VaultInputConfig, Files, World, find_batch, get_files}
use nest_protocol.Deploy.Targets.{
  is_address, uniq_from, uniq_addresses, vault_addresses, is_on, member_ℕ, NodeApi, is_code,
  is_not_zero, has_code, admin_is_set, is_proxy, find_proxies, upgrade_candidates, load_exclusions,
  pre_existing_targets,
}
use nest_protocol.Deploy.Targets.Avoids.{ArePicked, pre_existing_targets-ArePicked}
use nest_protocol.Deploy.Targets.Unique.{AreNew, uniq_addresses-AreNew}
use nest_protocol.Deploy.Steps.{ForgeReply, batch_name, deploy_kind, split_options, pick_batch}
use nest_protocol.Deploy.Main.{
  Outside, Ready, runs_upgrade, deploy_main, regenerate, split_now, deliver,
}
use nest_protocol.Deploy.Sent.{Sent, deploy_main-Mute, deliver-Sent}
use nest_protocol.Deploy.Stale.Forgets.{regenerate-Forgets}

abbrev addr_lower : Text
addr_lower = txt "0x00000000000000000000000000000000000000ab"

abbrev addr_upper : Text
addr_upper = txt "0x00000000000000000000000000000000000000AB"

abbrev other : Text
other = txt "0x00000000000000000000000000000000000000cd"

abbrev vault_file : VaultInputConfig
vault_file = record {
  share = some addr_lower;
  accountant = none;
  vaults =
      record { address = some addr_upper; chains = some (98866 ∷ []); composer = some other } ∷ [];
}

-- Each node has code and an admin everywhere; forge writes the deployment's batch again.
abbrev transfer : SafeTx
transfer = record {
  to = txt "0x01";
  value = txt "0";
  call_data = txt "0x7d40583d";
  operation = txt "0";
}

abbrev batch : SafeBatch
batch = record {
  chain_id = number 98866;
  created_at = 1;
  meta_name = txt "deploy";
  meta_description = [];
  transactions = transfer ∷ [];
  version = txt "1.0";
}

abbrev reply : ForgeReply
reply = record {
  status = 0;
  captured = txt "ONCHAIN EXECUTION COMPLETE & SUCCESSFUL";
  written = (batch_name 98866 (txt "nALPHA") deploy_kind, batch) ∷ [];
  snapshot = some vault_file;
}

abbrev sample_node : NodeApi ℕ
sample_node = record {
  get_code = λ addr w. (some (txt "0x6001"), w);
  get_admin_slot = λ addr w. (some (txt "0x01"), w);
}

abbrev common : CommonConfig
common = record { chain_id = 98866; name = txt "plume"; rpc = txt "RPC"; multisig = txt "0x01" }

abbrev one_key : Text
one_key = txt "0x1111111111111111111111111111111111111111111111111111111111111111"

abbrev sample_out : Outside ℕ
sample_out = record {
  repo_root = txt "/repo";
  env = λ name. some one_key;
  common_files = λ n. some common;
  vault_files = λ vault. some vault_file;
  account_address = λ key. some (txt "0x02");
  now = 7;
  recorded_at = txt "now";
  node = λ rpc_url. sample_node;
  forge = λ words env w. (reply, w);
  owners = λ chain_id safe. record {
    get_safe_info = λ w. (some (txt "0x02" ∷ []), w);
    get_safe_delegates = λ w. (some [], w);
    call_get_owners = λ w. (none, w);
  };
  safe = λ chain_id safe. sample_api;
}

abbrev args : Bool → Bool → DeployArgs
args dry_run record_only = record {
  vault = txt "nALPHA";
  chain_id = 98866;
  dry_run = dry_run;
  fork = false;
  run_upgrade = false;
  skip_upgrade = false;
  split_override = none;
  record_only = record_only;
}

abbrev ready : Bool → Ready
ready record_only = record {
  args = args false record_only;
  service = record { api = []; ui_base = []; slug = []; split_batches = true };
  common = common;
  rpc_url = txt "http";
  signer_key = txt "0x04";
  safe_owner = some (txt "0x02");
  targets = [];
}

-- A world in which the deployment's batch has been written.
abbrev files : Files
files = record {
  flat = (batch_name 98866 (txt "nALPHA") deploy_kind, batch) ∷ [];
  legacy = [];
  fresh = some (addr_upper ∷ []);
  snapshot = none;
  queue = [];
  split_dir = [];
}

abbrev state : State (World ℕ)
state = record { world = record { files = files; net = 3 }; posted = [] }

uniq_addresses-AreNew_example :
    AreNew [] (uniq_addresses (addr_lower ∷ txt "0x" ∷ addr_upper ∷ []))
    × ((x : Text)
        → member x (uniq_addresses (addr_lower ∷ txt "0x" ∷ addr_upper ∷ [])) ≡ true
        → member x (addr_lower ∷ txt "0x" ∷ addr_upper ∷ []) ≡ true)
    × ((x : Text)
        → member x (addr_lower ∷ txt "0x" ∷ addr_upper ∷ []) ≡ true
        → is_address x ≡ true
        → member
            (to_lower x)
            (map to_lower (uniq_addresses (addr_lower ∷ txt "0x" ∷ addr_upper ∷ [])))
          ≡ true)
uniq_addresses-AreNew_example = uniq_addresses-AreNew (addr_lower ∷ txt "0x" ∷ addr_upper ∷ [])

dry_args : parse_args (txt "nALPHA" ∷ txt "98866" ∷ txt "--dry-run" ∷ []) ≡ ok (args true false)
unfolding parse_args check_deploy_args two_words check_flags read_chain_id starts_with member
    text_eq to_number digits_value trim trim_start is_space
dry_args = refl

deploy_main-Mute_example :
    (deploy_main sample_out (txt "nALPHA" ∷ txt "98866" ∷ txt "--dry-run" ∷ []) state).1.posted ≡ []
deploy_main-Mute_example =
    deploy_main-Mute sample_out (txt "nALPHA" ∷ txt "98866" ∷ txt "--dry-run" ∷ []) state
      (args true false) dry_args refl

abbrev opts : SplitOptions
opts = split_options 98866 (txt "nALPHA") false files

abbrev done : SplitResult × Directory
done = split_value 7 opts []

splits : split_batches 7 opts [] ≡ ok done
unfolding split_options pick_batch find_batch is_on_chain chain_number classify classify_selector
    selector to_lower lower_unit member text_eq batch_name decimal decimal_from
splits = split_lem 7 opts []

deliver-Sent_example :
    Ended
      (Sent (args false false) (all_txs done.0.sections))
      state
      (deliver sample_out (ready false) state)
unfolding runs_upgrade
deliver-Sent_example = deliver-Sent sample_out (ready false) state done splits

-- The queue in the same repository and environment.
abbrev queue_out : QueueRun.Outside ℕ
queue_out = record {
  repo_root = txt "/repo";
  env = sample_out.env;
  common_files = sample_out.common_files;
  account_address = sample_out.account_address;
  owners = sample_out.owners;
  safe = sample_out.safe;
}

-- A deployment that has found the same RPC address and key there.
abbrev recording : Ready
recording = record (ready true) { rpc_url = one_key; signer_key = one_key }

-- The same world without the batch.
abbrev cleaned : State (World ℕ)
cleaned = record { world = record { files = record files { flat = [] }; net = 3 }; posted = [] }

regenerate-Forgets_example :
    let m = regenerate sample_out (ready false) false >>= λ _. split_now sample_out (ready false) in
    ((m state).0 ≡ (m cleaned).0) × ((m state).1.posted ≡ (m cleaned).1.posted)
regenerate-Forgets_example = regenerate-Forgets sample_out (ready false) false state [] []

targets_found : (pre_existing_targets sample_node 98866 vault_file state).0 ≡ ok (other ∷ [])
unfolding pre_existing_targets get_files outside pure ◌>>=◌ find_proxies is_proxy has_code is_code
    admin_is_set is_not_zero load_exclusions upgrade_candidates uniq_addresses uniq_from
    vault_addresses is_on member_ℕ is_address is_hex is_hex_digit all_hex starts_with text_eq member
    to_lower lower_unit
targets_found = refl

pre_existing_targets-ArePicked_example :
    ArePicked
      (load_exclusions (some (addr_upper ∷ [])))
      (upgrade_candidates 98866 vault_file)
      (other ∷ [])
pre_existing_targets-ArePicked_example =
    pre_existing_targets-ArePicked sample_node 98866 vault_file state (other ∷ []) targets_found
