-- ===== src/Cli.antt =====
-- What the command lines of tools/deploy.ts and tools/queueMigration.ts have in common.
use nest_protocol.Base.{
  ℕ, Bool, true, false, List, [], ◌∷◌, ◌++◌, ◌==◌, if◌then◌else◌, Option, none, some,
}
use nest_protocol.Base.Text.{Text, txt, member}
use nest_protocol.Base.Number.{to_number}
use nest_protocol.Base.Outcome.{Result, ok, err}

-- The first flag that is not allowed.
unfoldable pub check_flags : List Text → List Text → Result Text (Unit {0})
check_flags allowed [] = ok tt
check_flags allowed (flag ∷ flags) =
    if member flag allowed then check_flags allowed flags else err (txt "unknown flag: " ++ flag)

-- `Number(s)`, which has to be finite and positive.
unfoldable pub read_chain_id : Text → Result Text ℕ
read_chain_id s = elim (to_number s) [
  | none ↦ err (txt "invalid chainId: " ++ s)
  | some n ↦ if n == 0 then err (txt "invalid chainId: " ++ s) else ok n
]

-- `split ? true : merge ? false : undefined`
abbrev pub override_of : Bool → Bool → Option Bool
override_of split merge = if split then some true else if merge then some false else none

abbrev pub is_some {ℓ} : {A : Type ℓ} → Option A → Bool
is_some none = false
is_some (some a) = true
