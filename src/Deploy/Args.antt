-- ===== src/Deploy/Args.antt =====
-- `parseArgs` of tools/deploy.ts.
use nest_protocol.Base.{ℕ, Bool, ◌&&◌, not, List, [], ◌∷◌, keep, Option}
use nest_protocol.Base.Text.{Text, txt, starts_with, member}
use nest_protocol.Base.Outcome.{Result, ok, err, ◌>>=◌, ◌>>◌, throw_if}
use nest_protocol.Cli.{check_flags, read_chain_id, override_of}

pub record DeployArgs : Type 0 where
  pub vault : Text
  pub chain_id : ℕ
  pub dry_run : Bool
  pub fork : Bool
  pub run_upgrade : Bool
  pub skip_upgrade : Bool
  pub split_override : Option Bool
  pub record_only : Bool

abbrev pub deploy_usage : Text
deploy_usage =
    txt
      "usage: pnpm deploy <VAULT_SYMBOL> <CHAIN_ID> [--dry-run | --fork] [--run-upgrade | --skip-upgrade] [--split | --merge] [--record-only]"

abbrev pub deploy_flags : List Text
deploy_flags =
    txt "--dry-run"
    ∷ txt "--fork"
    ∷ txt "--run-upgrade"
    ∷ txt "--skip-upgrade"
    ∷ txt "--split"
    ∷ txt "--merge"
    ∷ txt "--record-only"
    ∷ []

-- The vault and the chain id of exactly two words.
unfoldable pub two_words : List Text → Result Text (Text × Text)
two_words (vault ∷ chain ∷ []) = ok (vault, chain)
two_words _ = err deploy_usage

unfoldable pub check_deploy_args : List Text → List Text → Result Text DeployArgs
check_deploy_args flags positional = do
  words ← two_words positional
  check_flags deploy_flags flags
  chain_id ← read_chain_id words.1
  let has = λ (flag : Text). member flag flags
  throw_if (has (txt "--dry-run") && has (txt "--fork"))
      (txt "--dry-run and --fork are mutually exclusive")
  throw_if (has (txt "--run-upgrade") && has (txt "--skip-upgrade"))
      (txt "--run-upgrade and --skip-upgrade are mutually exclusive")
  throw_if (has (txt "--split") && has (txt "--merge"))
      (txt "--split and --merge are mutually exclusive")
  ok (record {
    vault = words.0;
    chain_id = chain_id;
    dry_run = has (txt "--dry-run");
    fork = has (txt "--fork");
    run_upgrade = has (txt "--run-upgrade");
    skip_upgrade = has (txt "--skip-upgrade");
    split_override = override_of (has (txt "--split")) (has (txt "--merge"));
    record_only = has (txt "--record-only");
  })

unfoldable pub parse_args : List Text → Result Text DeployArgs
parse_args argv =
    check_deploy_args (keep (λ a. starts_with a (txt "--")) argv)
      (keep (λ a. not (starts_with a (txt "--"))) argv)
