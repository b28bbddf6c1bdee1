-- ===== src/Deploy/Quiet.antt =====
-- Nothing before the propose phase of a deployment proposes.
use mathlib.Core.List.{append-nil}
use nest_protocol.Base.{
  ℕ, map, ◌≡◌, refl, sym, Bool, true, false, ◌&&◌, Option, none, some, List, [], ◌∷◌, drop,
  if◌then◌else◌, ◌==◌,
}
use nest_protocol.Base.Text.{Text, txt, text_eq, member, to_lower, starts_with}
use nest_protocol.Base.Outcome.{Result}
use nest_protocol.Environment.{all_hex}
use nest_protocol.Propose.Step.{Step, Proposal, pure, throw, ◌>>=◌, outside}
use nest_protocol.Propose.Posts.{
  Gives, Holds, IsQuiet, Holds-quiet, Holds-pure, IsQuiet-outside, IsQuiet-plain,
}
use nest_protocol.Deploy.Args.{DeployArgs}
use nest_protocol.Deploy.World.{Files, VaultInputConfig, get_files, set_files, on_net}
use nest_protocol.Deploy.Targets.{
  NodeApi, cache_output, put_fresh, load_exclusions, upgrade_candidates, is_code, is_not_zero,
  has_code, admin_is_set, is_proxy, any_has_code, find_proxies, pre_existing_targets, cache_fresh,
}
use nest_protocol.Deploy.Forge.{ForgeStep}
use nest_protocol.Deploy.Steps.{receive}
use nest_protocol.Deploy.Main.{
  Outside, Ready, prepare, run_forge, cache_after, run_steps, regenerate,
}

abbrev pub Silent : {A : Type 0} → Result Text A → List Proposal → Type 0
Silent r new = new ≡ []

module _ {W : Type 0} where
  abbrev pub next :
      {A B : Type 0} (m : Step W A) (k : A → Step W B)
      → IsQuiet m
      → ((a : A) → IsQuiet (k a))
      → IsQuiet (m >>= k)
  next m k h rest = Holds-quiet Silent m k h rest (λ e. refl)

  pub IsQuiet-pure : {A : Type 0} (a : A) → IsQuiet (pure {W = W} a)
  IsQuiet-pure a = Holds-pure Silent a refl

  pub IsQuiet-throw : (A : Type 0) (e : Text) → IsQuiet (throw {W = W} {A = A} e)
  unfolding throw
  IsQuiet-throw A e s = ([], sym (append-nil s.posted), refl)

  pub IsQuiet-if :
      {A : Type 0} (b : Bool) (m k : Step W A)
      → IsQuiet m
      → IsQuiet k
      → IsQuiet (if b then m else k)
  IsQuiet-if true m k h g = h
  IsQuiet-if false m k h g = g

module _ {W : Type 0} where
  pub IsQuiet-get_files : IsQuiet (get_files {W = W})
  unfolding get_files
  IsQuiet-get_files = IsQuiet-outside _

  pub IsQuiet-set_files : (change : Files → Files) → IsQuiet (set_files {W = W} change)
  unfolding set_files
  IsQuiet-set_files change = IsQuiet-outside _

  pub IsQuiet-admin_is_set : (slot : Option Text) → IsQuiet (admin_is_set {W = W} slot)
  unfolding admin_is_set
  IsQuiet-admin_is_set none = IsQuiet-pure false
  IsQuiet-admin_is_set (some []) = IsQuiet-pure false
  IsQuiet-admin_is_set (some (c ∷ s)) =
      let digits = drop 2 (c ∷ s) in
      let message = txt "Cannot convert to a BigInt" in
      let is_hex = starts_with (c ∷ s) (txt "0x") && all_hex digits in
      IsQuiet-if (text_eq (c ∷ s) (txt "0x")) (pure false)
        (if is_hex then pure (is_not_zero digits) else throw message) (IsQuiet-pure false)
        (IsQuiet-if is_hex (pure (is_not_zero digits)) (throw message)
          (IsQuiet-pure (is_not_zero digits)) (IsQuiet-throw Bool message))

module _ {W : Type 0} (node : NodeApi W) where
  pub IsQuiet-has_code : (addr : Text) → IsQuiet (has_code node addr)
  unfolding has_code
  IsQuiet-has_code addr =
      next _ _ (IsQuiet-outside (on_net (node.get_code addr))) (λ code. IsQuiet-pure (is_code code))

  pub IsQuiet-is_proxy : (addr : Text) → IsQuiet (is_proxy node addr)
  unfolding is_proxy
  IsQuiet-is_proxy addr =
      let admin = outside (on_net (node.get_admin_slot addr)) >>= λ slot. admin_is_set slot in
      next _ _ (IsQuiet-has_code addr) (λ deployed.
        IsQuiet-if deployed admin (pure false)
          (next _ _ (IsQuiet-outside (on_net (node.get_admin_slot addr))) IsQuiet-admin_is_set)
          (IsQuiet-pure false))

  pub IsQuiet-any_has_code : (addrs : List Text) → IsQuiet (any_has_code node addrs)
  unfolding any_has_code
  IsQuiet-any_has_code [] = IsQuiet-pure false
  IsQuiet-any_has_code (addr ∷ addrs) = next _ _ (IsQuiet-has_code addr) (λ deployed.
      IsQuiet-if deployed (pure true) (any_has_code node addrs) (IsQuiet-pure true)
        (IsQuiet-any_has_code addrs))

  pub IsQuiet-find_proxies :
      (excluded addrs : List Text) → IsQuiet (find_proxies node excluded addrs)
  unfolding find_proxies
  IsQuiet-find_proxies excluded [] = IsQuiet-pure []
  IsQuiet-find_proxies excluded (addr ∷ addrs) =
      let rest = IsQuiet-find_proxies excluded addrs in
      IsQuiet-if (member (to_lower addr) excluded) (find_proxies node excluded addrs) _ rest (
        next _ _ (IsQuiet-is_proxy addr)
          (λ proxy. next _ _ rest (λ more. IsQuiet-pure (if proxy then addr ∷ more else more))))

  pub IsQuiet-cache_output :
      (excluded : List Text) (o : Option VaultInputConfig) → IsQuiet (cache_output node excluded o)
  unfolding cache_output
  IsQuiet-cache_output excluded none = IsQuiet-pure tt
  IsQuiet-cache_output excluded (some output) =
      next _ _ (IsQuiet-find_proxies excluded _) (λ fresh. IsQuiet-set_files (put_fresh fresh))

  pub IsQuiet-cache_fresh :
      (existed : Bool) (targets : List Text) → IsQuiet (cache_fresh node existed targets)
  unfolding cache_fresh
  IsQuiet-cache_fresh true targets = IsQuiet-pure tt
  IsQuiet-cache_fresh false targets =
      next _ _ IsQuiet-get_files
        (λ files. IsQuiet-cache_output (map to_lower targets) files.snapshot)

  pub IsQuiet-pre_existing_targets :
      (chain_id : ℕ) (cfg : VaultInputConfig) → IsQuiet (pre_existing_targets node chain_id cfg)
  unfolding pre_existing_targets
  IsQuiet-pre_existing_targets chain_id cfg = next _ _ IsQuiet-get_files (λ files.
      IsQuiet-find_proxies (load_exclusions files.fresh) (upgrade_candidates chain_id cfg))

module _ {W : Type 0} (out : Outside W) where
  -- What is prepared is about the arguments that were given, and nothing has been proposed.
  pub prepare-IsFor : (args : DeployArgs) → Holds (Gives (λ r. r.args ≡ args)) (prepare out args)
  unfolding prepare
  prepare-IsFor args =
      let Q = Gives (λ (r : Ready). r.args ≡ args) in
      Holds-quiet Q _ _ (IsQuiet-plain _)
        (λ service.
          Holds-quiet Q _ _ (IsQuiet-plain _)
            (λ cfg.
              Holds-quiet Q _ _ (IsQuiet-plain _)
                (λ common.
                  Holds-quiet Q _ _ (IsQuiet-plain _)
                    (λ rpc_url.
                      Holds-quiet Q _ _ (IsQuiet-plain _)
                        (λ key.
                          Holds-quiet Q _ _ (IsQuiet-plain _)
                            (λ proposer.
                              Holds-quiet Q _ _ (IsQuiet-outside _)
                                (λ authorized.
                                  Holds-quiet Q _ _ (IsQuiet-outside _)
                                    (λ safe_owner.
                                      Holds-quiet Q _ _ (IsQuiet-any_has_code _ _)
                                        (λ deployed.
                                          Holds-quiet Q _ _ (IsQuiet-pre_existing_targets _ _ _)
                                            (λ targets. Holds-pure Q _ (refl, refl)) (λ e. refl))
                                        (λ e. refl))
                                    (λ e. refl))
                                (λ e. refl))
                            (λ e. refl))
                        (λ e. refl))
                    (λ e. refl))
                (λ e. refl))
            (λ e. refl))
        (λ e. refl)

module _ {W : Type 0} (out : Outside W) (r : Ready) where
  IsQuiet-run_forge : (step : ForgeStep) → IsQuiet (run_forge out r step)
  unfolding run_forge
  IsQuiet-run_forge step =
      next _ _ (IsQuiet-outside _)
        (λ reply. next _ _ (IsQuiet-set_files (receive reply)) (λ _. IsQuiet-pure _))

  IsQuiet-cache_after :
      (existed : Bool) (step : ForgeStep) → IsQuiet (cache_after out r existed step)
  unfolding cache_after
  IsQuiet-cache_after existed step =
      IsQuiet-if _ (cache_fresh (out.node r.rpc_url) existed r.targets) (pure tt)
        (IsQuiet-cache_fresh (out.node r.rpc_url) existed r.targets) (IsQuiet-pure tt)

  pub IsQuiet-run_steps :
      (existed : Bool) (steps : List ForgeStep) → IsQuiet (run_steps out r existed steps)
  unfolding run_steps
  IsQuiet-run_steps existed [] = IsQuiet-pure []
  IsQuiet-run_steps existed (step ∷ steps) =
      let rest = IsQuiet-run_steps existed steps in
      next _ _ (IsQuiet-run_forge step) (λ result. next _ _ (IsQuiet-cache_after existed step) (λ _.
        IsQuiet-if (result.status == 0) (run_steps out r existed steps) _ rest (
          IsQuiet-if result.verify_only_failure _ _
            (next _ _ rest (λ more. IsQuiet-pure (step ∷ more)))
            (IsQuiet-throw (List ForgeStep) _))))

  pub IsQuiet-regenerate : (existed : Bool) → IsQuiet (regenerate out r existed)
  unfolding regenerate
  IsQuiet-regenerate existed = next _ _ (IsQuiet-set_files _) (λ _. IsQuiet-run_steps existed _)
