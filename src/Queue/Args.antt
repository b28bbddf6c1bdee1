-- ===== src/Queue/Args.antt =====
-- `parseArgs` of tools/queueMigration.ts.
pub mod Render
use nest_protocol.Base.{
  ℕ, Bool, true, false, ◌&&◌, ◌||◌, not, List, [], ◌∷◌, ◌++◌, ◌==◌, ltb, length, drop, keep,
  if◌then◌else◌, Option, none, some,
}
use nest_protocol.Base.Text.{Text, txt, text_eq, starts_with, member}
use nest_protocol.Base.Number.{to_number}
use nest_protocol.Cli.{check_flags, read_chain_id, override_of, is_some}
use nest_protocol.Base.Outcome.{Result, ok, err, ◌>>=◌, ◌>>◌, throw_if}

-- `die(msg)`, and every other uncaught error, ends the process with exit code 1: an error here.
pub record QueueArgs : Type 0 where
  pub vault : Text
  pub chain_id : Option ℕ
  pub dry_run : Bool
  pub split_override : Option Bool
  pub nonce : Option ℕ

pub record Collected : Type 0 where
  pub positional : List Text
  pub flags : List Text
  pub nonce : Option ℕ

-- `Number(val)`, which has to be an integer that is not negative.
unfoldable pub read_nonce : Text → Result Text ℕ
read_nonce val = elim (to_number val) [
  | none ↦ err (txt "invalid --nonce: " ++ val)
  | some n ↦ ok n
]

-- The loop over the arguments; with the flag set, the next one is the value of `--nonce`.
unfoldable pub collect : Bool → List Text → Collected → Result Text Collected
collect true [] c = err (txt "--nonce requires a value")
collect true (val ∷ rest) c =
    read_nonce val >>= λ n. collect false rest (record c { nonce = some n })
collect false [] c = ok c
collect false (a ∷ rest) c =
    let valued = read_nonce (drop 8 a) >>= λ n. collect false rest (record c { nonce = some n }) in
    let pending = collect true rest c in
    let flag = collect false rest (record c { flags = c.flags ++ a ∷ [] }) in
    let plain = collect false rest (record c { positional = c.positional ++ a ∷ [] }) in
    if text_eq a (txt "--nonce")
    then pending
    else if starts_with a (txt "--nonce=")
    then valued
    else if starts_with a (txt "--")
    then flag
    else plain

abbrev pub queue_usage : Text
queue_usage =
    txt "usage: pnpm queue <VAULT_SYMBOL> [CHAIN_ID] [--dry-run] [--split | --merge] [--nonce N]"

unfoldable pub read_chain_option : List Text → Result Text (Option ℕ)
read_chain_option [] = ok none
read_chain_option (s ∷ rest) = read_chain_id s >>= λ n. ok (some n)

abbrev pub queue_flags : List Text
queue_flags = txt "--dry-run" ∷ txt "--split" ∷ txt "--merge" ∷ []

-- The checks after the loop.
unfoldable pub check_args : Collected → Result Text QueueArgs
check_args c = elim c.positional [
  | [] ↦ err queue_usage
  | vault ∷ rest ↦ (do
    throw_if (ltb 1 (length rest)) queue_usage
    check_flags queue_flags c.flags
    chain_id ← read_chain_option rest
    let split = member (txt "--split") c.flags
    let merge = member (txt "--merge") c.flags
    throw_if (split && merge) (txt "--split and --merge are mutually exclusive")
    throw_if (is_some c.nonce && not (is_some chain_id))
        (txt "--nonce requires an explicit CHAIN_ID (nonce is per-chain)")
    ok (record {
      vault = vault;
      chain_id = chain_id;
      dry_run = member (txt "--dry-run") c.flags;
      split_override = override_of split merge;
      nonce = c.nonce;
    }))
]

unfoldable pub parse_args : List Text → Result Text QueueArgs
parse_args argv = do
  c ← collect false argv (record { positional = []; flags = []; nonce = none })
  check_args c
