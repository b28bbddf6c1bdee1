-- ===== src/Environment.antt =====
-- What the deployment scripts read of their process: `requireEnv`, `privateKeyFromEnv` and
-- `loadCommon` of tools/queueMigration.ts and tools/deploy.ts, and the owners' check of
-- tools/safePropose.ts.
use nest_protocol.Base.{
  ℕ, Bool, true, ◌&&◌, ◌||◌, List, [], ◌∷◌, ◌++◌, ◌==◌, ltb, leb, length, take, drop, if◌then◌else◌,
  Option, none, some, map,
}
use nest_protocol.Base.Text.{Text, txt, starts_with, to_lower, trim, member}
use nest_protocol.Base.Outcome.{Result, ok, err, ◌>>=◌}

pub record CommonConfig : Type 0 where
  pub chain_id : ℕ
  pub name : Text
  pub rpc : Text
  pub multisig : Text

-- `process.env`
abbrev pub Env : Type 0
Env = Text → Option Text

unfoldable pub require_value : Text → Option Text → Result Text Text
require_value name none = err (name ++ txt " is not set")
require_value name (some []) = err (name ++ txt " is not set")
require_value name (some (c ∷ v)) = ok (c ∷ v)

unfoldable pub require_env : Env → Text → Result Text Text
require_env env name = require_value name (env name)

-- `[0-9a-fA-F]`
unfoldable pub is_hex_digit : ℕ → Bool
is_hex_digit c =
    (leb b'0' c && leb c b'9') || (leb b'a' c && leb c b'f') || (leb b'A' c && leb c b'F')

unfoldable pub all_hex : Text → Bool
all_hex [] = true
all_hex (c ∷ s) = is_hex_digit c && all_hex s

-- `/^0x[0-9a-fA-F]{n}$/.test(s)`
unfoldable pub is_hex : ℕ → Text → Bool
is_hex n s = starts_with s (txt "0x") && (length (drop 2 s) == n && all_hex (drop 2 s))

unfoldable pub private_key_from_env : Env → Result Text Text
private_key_from_env env = do
  value ← require_env env (txt "PRIVATE_KEY")
  let raw = trim value
  let hex = if starts_with raw (txt "0x") then raw else txt "0x" ++ raw
  if is_hex 64 hex then ok hex else err (txt "PRIVATE_KEY is not a 32-byte hex string")

unfoldable pub load_common : (ℕ → Option CommonConfig) → ℕ → Result Text CommonConfig
load_common files chain_id = elim (files chain_id) [
  | none ↦ err (txt "config/common not found")
  | some c ↦ ok c
]

-- What `isAuthorizedProposer` and `getSafeOwner` ask; `none` where a call throws.
pub record OwnersApi (W : Type 0) : Type 0 where
  -- `apiKit.getSafeInfo(safe)`: the owners
  pub get_safe_info : W → Option (List Text) × W
  -- `apiKit.getSafeDelegates`: the delegates
  pub get_safe_delegates : W → Option (List Text) × W
  -- the `result` of the call of getOwners() through the node, if it answers with one
  pub call_get_owners : W → Option Text × W

-- Some owner or delegate is the proposer, in either case of letters.
unfoldable pub lists_proposer : Text → List Text → Bool
lists_proposer proposer addresses = member (to_lower proposer) (map to_lower addresses)

-- The first owner in the words that getOwners() returned.
unfoldable pub decode_first_owner : Text → Option Text
decode_first_owner hex =
    if ltb (length hex) 194 then none else some (txt "0x" ++ drop 24 (take 64 (drop 130 hex)))

unfoldable pub first_owner : Option (List Text) → Option Text
first_owner none = none
first_owner (some []) = none
first_owner (some (owner ∷ owners)) = if length owner == 0 then none else some owner

module _ {W : Type 0} (api : OwnersApi W) where
  -- true, false, or null where it could not be found out
  unfoldable pub is_authorized_proposer : Text → W → Option Bool × W
  is_authorized_proposer proposer w =
      let (info, w₁) = api.get_safe_info w in
      let (delegates, w₂) = api.get_safe_delegates w₁ in
      elim info [
        | none ↦ (none, w₁)
        | some owners ↦
            if lists_proposer proposer owners then (some true, w₁) else (elim delegates [
              | none ↦ (none, w₂)
              | some ds ↦ (some (lists_proposer proposer ds), w₂)
            ])
      ]

  -- The fallback through the node.
  unfoldable pub get_owner_by_rpc : W → Option Text × W
  get_owner_by_rpc w =
      let (answer, w₁) = api.call_get_owners w in
      (elim answer [ none ↦ none | some hex ↦ decode_first_owner hex ], w₁)

  -- With an RPC address, which both callers give.
  unfoldable pub get_safe_owner : W → Option Text × W
  get_safe_owner w =
      let (info, w₁) = api.get_safe_info w in
      let fallback = get_owner_by_rpc w₁ in
      elim (first_owner info) [ some owner ↦ (some owner, w₁) | none ↦ fallback ]
