-- ===== src/Deploy/Targets.antt =====
-- The addresses that an upgrade is for, and those that this run has deployed (tools/deploy.ts).
pub mod Unique
pub mod Avoids
use nest_protocol.Base.{
  ℕ, Bool, true, false, ◌&&◌, ◌||◌, not, List, [], ◌∷◌, ◌++◌, ◌==◌, ltb, length, drop, keep, map,
  if◌then◌else◌, Option, none, some,
}
use nest_protocol.Base.Text.{Text, txt, text_eq, to_lower, member, starts_with}
use nest_protocol.Environment.{is_hex, all_hex}
use nest_protocol.Propose.Step.{Step, pure, throw, ◌>>=◌, outside}
use nest_protocol.Deploy.World.{
  VaultEntry, VaultInputConfig, Files, World, on_net, get_files, set_files,
}

abbrev pub zero_address : Text
zero_address = txt "0x0000000000000000000000000000000000000000"

abbrev pub dead_address : Text
dead_address = txt "0x000000000000000000000000000000000000dead"

unfoldable pub is_address : Text → Bool
is_address a =
    is_hex 40 a
    && (not (text_eq (to_lower a) zero_address) && not (text_eq (to_lower a) dead_address))

-- The loop of `uniqAddresses`, with the addresses in lower case that were seen.
unfoldable pub uniq_from : List Text → List Text → List Text
uniq_from seen [] = []
uniq_from seen (a ∷ addrs) =
    let key = to_lower a in
    let skip = uniq_from seen addrs in
    let take_it = a ∷ uniq_from (key ∷ seen) addrs in
    if not (is_address a) then skip else if member key seen then skip else take_it

unfoldable pub uniq_addresses : List Text → List Text
uniq_addresses addrs = uniq_from [] addrs

abbrev pub or_empty : Option Text → Text
or_empty none = []
or_empty (some s) = s

unfoldable pub member_ℕ : ℕ → List ℕ → Bool
member_ℕ n [] = false
member_ℕ n (m ∷ ms) = n == m || member_ℕ n ms

-- Whether an entry's vault is on the chain: it is on every one if it names none.
unfoldable pub is_on : ℕ → VaultEntry → Bool
is_on chain_id v = elim v.chains [ none ↦ true | some chains ↦ member_ℕ chain_id chains ]

unfoldable pub vault_addresses : List VaultEntry → List Text
vault_addresses [] = []
vault_addresses (v ∷ vs) = or_empty v.address ∷ or_empty v.composer ∷ vault_addresses vs

-- `push` of `resolveProbeAddresses`
abbrev pub probe : Option Text → List Text
probe none = []
probe (some a) = if is_hex 40 a && not (text_eq a zero_address) then a ∷ [] else []

unfoldable pub probe_vaults : List VaultEntry → List Text
probe_vaults [] = []
probe_vaults (v ∷ vs) = probe v.address ++ (probe v.composer ++ probe_vaults vs)

-- `resolveProbeAddresses`
unfoldable pub probe_addresses : ℕ → VaultInputConfig → List Text
probe_addresses chain_id cfg =
    probe cfg.accountant ++ probe_vaults (keep (is_on chain_id) cfg.vaults)

-- `resolveUpgradeCandidateAddresses`, of the vault's configuration
unfoldable pub upgrade_candidates : ℕ → VaultInputConfig → List Text
upgrade_candidates chain_id cfg = uniq_addresses (
    or_empty cfg.share
    ∷ or_empty cfg.accountant
    ∷ vault_addresses (keep (is_on chain_id) cfg.vaults))

-- The fresh addresses of an earlier run, in lower case.
unfoldable pub load_exclusions : Option (List Text) → List Text
load_exclusions none = []
load_exclusions (some addresses) = map to_lower (keep is_address addresses)

-- `eth_getCode` and `eth_getStorageAt` of the slot of ERC-1967's admin, where the node answers.
pub record NodeApi (W : Type 0) : Type 0 where
  pub get_code : Text → W → Option Text × W
  pub get_admin_slot : Text → W → Option Text × W

unfoldable pub is_code : Option Text → Bool
is_code none = false
is_code (some code) = not (text_eq code (txt "0x")) && ltb 2 (length code)

-- Some digit is not 0.
unfoldable pub is_not_zero : Text → Bool
is_not_zero [] = false
is_not_zero (c ∷ s) = not (c == b'0') || is_not_zero s

module _ {W : Type 0} where
  -- `BigInt(adminSlot) !== 0n`, which throws on what is no number.
  unfoldable pub admin_is_set : Option Text → Step (World W) Bool
  admin_is_set none = pure false
  admin_is_set (some []) = pure false
  admin_is_set (some (c ∷ s)) =
      if text_eq (c ∷ s) (txt "0x")
      then pure false
      else if starts_with (c ∷ s) (txt "0x") && all_hex (drop 2 (c ∷ s))
      then pure (is_not_zero (drop 2 (c ∷ s)))
      else throw (txt "Cannot convert to a BigInt")

abbrev pub put_fresh : List Text → Files → Files
put_fresh [] files = files
put_fresh (a ∷ addrs) files = record files { fresh = some (a ∷ addrs) }

module _ {W : Type 0} (node : NodeApi W) where
  unfoldable pub has_code : Text → Step (World W) Bool
  has_code addr = do code ← outside (on_net (node.get_code addr)); pure (is_code code)

  unfoldable pub is_proxy : Text → Step (World W) Bool
  is_proxy addr = do
    deployed ← has_code addr
    if deployed
        then (outside (on_net (node.get_admin_slot addr)) >>= λ slot. admin_is_set slot)
        else pure false

  -- `anyAddressHasCode`
  unfoldable pub any_has_code : List Text → Step (World W) Bool
  any_has_code [] = pure false
  any_has_code (addr ∷ addrs) =
      let rest = any_has_code addrs in
      has_code addr >>= λ deployed. if deployed then pure true else rest

  -- The proxies of some addresses that are not, in lower case, among the excluded ones.
  unfoldable pub find_proxies : List Text → List Text → Step (World W) (List Text)
  find_proxies excluded [] = pure []
  find_proxies excluded (addr ∷ addrs) =
      let rest = find_proxies excluded addrs in
      if member (to_lower addr) excluded
      then rest
      else (is_proxy addr >>= λ proxy. rest >>= λ more. pure (if proxy then addr ∷ more else more))

  -- `resolvePreExistingUpgradeTargets`
  unfoldable pub pre_existing_targets : ℕ → VaultInputConfig → Step (World W) (List Text)
  pre_existing_targets chain_id cfg = do
    files ← get_files
    find_proxies (load_exclusions files.fresh) (upgrade_candidates chain_id cfg)

  -- The proxies in a snapshot that are not, in lower case, among the excluded ones are cached.
  unfoldable pub cache_output : List Text → Option VaultInputConfig → Step (World W) (Unit {0})
  cache_output excluded none = pure tt
  cache_output excluded (some output) = do
    let addrs =
        uniq_addresses
          (or_empty output.share ∷ or_empty output.accountant ∷ vault_addresses output.vaults)
    fresh ← find_proxies excluded addrs
    set_files (put_fresh fresh)

  -- `cacheFreshDeploymentTargets`
  unfoldable pub cache_fresh : Bool → List Text → Step (World W) (Unit {0})
  cache_fresh true pre_existing = pure tt
  cache_fresh false pre_existing = do
    files ← get_files
    cache_output (map to_lower pre_existing) files.snapshot
