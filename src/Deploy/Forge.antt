-- ===== src/Deploy/Forge.antt =====
-- Running forge: its arguments, its verifier, and how its exit is read (tools/deploy.ts).
use nest_protocol.Base.{
  ℕ, Bool, true, false, ◌&&◌, ◌||◌, not, List, [], ◌∷◌, ◌++◌, ◌==◌, leb, length, if◌then◌else◌,
  Option, none, some,
}
use nest_protocol.Base.Text.{Text, txt, to_lower, trim, decimal, is_space, starts_with}
use nest_protocol.Environment.{Env}

pub record ForgeStep : Type 0 where
  pub label : Text
  pub script_path : Text
  pub sig : Text
  pub sig_args : List Text
  pub env : List (Text × Text)

-- A value that is there and not only white space.
unfoldable pub present : Option Text → Option Text
present none = none
present (some v) = let s = trim v in if length s == 0 then none else some s

unfoldable pub env_value : Env → Text → Option Text
env_value env name = present (env name)

-- `a ?? b`
abbrev pub or_else {ℓ} : {A : Type ℓ} → Option A → Option A → Option A
or_else none b = b
or_else (some a) b = some a

unfoldable pub default_verifier_url : ℕ → Option Text
default_verifier_url chain_id =
    if chain_id == 1 || chain_id == 56 || chain_id == 480 || chain_id == 42161
    then some (txt "https://api.etherscan.io/v2/api?chainid=" ++ decimal chain_id)
    else none

pub record ForgeVerifierConfig : Type 0 where
  pub name : Text
  pub api_key_env : Text
  pub api_key : Option Text
  pub url_env : Option Text
  pub url : Option Text

unfoldable pub resolve_verifier_config : Env → ℕ → ForgeVerifierConfig
resolve_verifier_config env chain_id =
    if chain_id == 98866
    then record {
      name = txt "blockscout";
      api_key_env = txt "PLUME_VERIFIER_API_KEY";
      api_key = env_value env (txt "PLUME_VERIFIER_API_KEY");
      url_env = some (txt "PLUME_VERIFIER_URL");
      url = env_value env (txt "PLUME_VERIFIER_URL");
    }
    else if chain_id == 9745
    then record {
      name = txt "etherscan";
      api_key_env = txt "ETHERSCAN_API_KEY_1";
      api_key = env_value env (txt "ETHERSCAN_API_KEY_1");
      url_env = none;
      url = some (txt "https://api.etherscan.io/v2/api?chainid=9745");
    }
    else record {
      name = txt "etherscan";
      api_key_env = txt "ETHERSCAN_API_KEY_" ++ decimal chain_id;
      api_key = env_value env (txt "ETHERSCAN_API_KEY_" ++ decimal chain_id);
      url_env = none;
      url = or_else (env_value env (txt "ETHERSCAN_VERIFIER_URL_" ++ decimal chain_id)) (
          or_else (env_value env (txt "VERIFIER_URL_" ++ decimal chain_id))
            (default_verifier_url chain_id));
    }

-- `x ? [] : [name]`, where an empty text is none.
unfoldable pub name_if_missing : Option Text → Text → List Text
name_if_missing none name = name ∷ []
name_if_missing (some []) name = name ∷ []
name_if_missing (some (c ∷ v)) name = []

unfoldable pub missing_verifier_env : ForgeVerifierConfig → List Text
missing_verifier_env verifier =
    name_if_missing verifier.api_key verifier.api_key_env
    ++ (elim verifier.url_env [ none ↦ [] | some name ↦ name_if_missing verifier.url name ])

abbrev pub url_words : Option Text → List Text
url_words none = []
url_words (some url) = txt "--verifier-url" ∷ url ∷ []

-- The flags of a real run with a verifier: none unless all it needs is set.
unfoldable pub verify_words : ForgeVerifierConfig → List Text
verify_words verifier = elim verifier.api_key [
  | none ↦ []
  | some api_key ↦
      if length (missing_verifier_env verifier) == 0
      then txt "--verify"
        ∷ (url_words verifier.url
            ++ (txt "--etherscan-api-key" ∷ api_key ∷ txt "--verifier" ∷ verifier.name ∷ []))
      else []
]

-- The arguments that `runForge` gives to forge.
unfoldable pub forge_args : ForgeStep → Text → Bool → Bool → ForgeVerifierConfig → List Text
forge_args step rpc_url dry_run fork verifier =
    txt "script"
    ∷ step.script_path
    ∷ txt "--rpc-url"
    ∷ rpc_url
    ∷ txt "--ffi"
    ∷ txt "--sig"
    ∷ step.sig
    ∷ (step.sig_args
        ++ (if dry_run
            then []
            else txt "--broadcast" ∷ (if fork then [] else verify_words verifier)))

-- `captured.includes(word)`
unfoldable pub includes : Text → Text → Bool
includes word [] = starts_with [] word
includes word (c ∷ s) = starts_with (c ∷ s) word || includes word s

-- The rest of a text after a word that it begins with.
unfoldable pub eat_word : Text → Text → Option Text
eat_word [] s = some s
eat_word (w ∷ ws) [] = none
eat_word (w ∷ ws) (c ∷ s) = if w == c then eat_word ws s else none

-- After `\s*`
unfoldable pub eat_spaces : Text → Text
eat_spaces [] = []
eat_spaces (c ∷ s) = let rest = eat_spaces s in if is_space c then rest else c ∷ s

-- After `\d*`
unfoldable pub eat_digits : Text → Text
eat_digits [] = []
eat_digits (c ∷ s) = let rest = eat_digits s in if leb b'0' c && leb c b'9' then rest else c ∷ s

-- After `\d+`
unfoldable pub eat_number : Text → Option Text
eat_number [] = none
eat_number (c ∷ s) = if leb b'0' c && leb c b'9' then some (eat_digits s) else none

infixl 5 ◌>>=◌
abbrev pub ◌>>=◌ : {A B : Type 0} → Option A → (A → Option B) → Option B
none >>= f = none
some a >>= f = f a

-- `/^not all\s*\(\d+\s*\/\s*\d+\)\s*contracts were verified/`
unfoldable pub matches_not_all : Text → Option Text
matches_not_all s = do
  a ← eat_word (txt "not all") s
  b ← eat_word (txt "(") (eat_spaces a)
  c ← eat_number b
  d ← eat_word (txt "/") (eat_spaces c)
  e ← eat_number (eat_spaces d)
  f ← eat_word (txt ")") e
  eat_word (txt "contracts were verified") (eat_spaces f)

abbrev pub found : Option Text → Bool
found none = false
found (some rest) = true

unfoldable pub verification_failed_from : Text → Bool
verification_failed_from [] = false
verification_failed_from (c ∷ s) =
    found (matches_not_all (c ∷ s))
    || (starts_with (c ∷ s) (txt "failed to verify contract") || verification_failed_from s)

-- The test on the captured output, whose letters may be in either case.
unfoldable pub verification_failed : Text → Bool
verification_failed captured = verification_failed_from (to_lower captured)

pub record ForgeRunResult : Type 0 where
  pub status : ℕ
  pub broadcast_succeeded : Bool
  pub verify_only_failure : Bool

-- How `runForge` reads forge's exit code and output.
unfoldable pub read_forge : ℕ → Text → ForgeRunResult
read_forge status captured =
    let broadcast = includes (txt "ONCHAIN EXECUTION COMPLETE & SUCCESSFUL") captured in
    record {
      status = status;
      broadcast_succeeded = broadcast;
      verify_only_failure = not (status == 0) && (broadcast && verification_failed captured);
    }
