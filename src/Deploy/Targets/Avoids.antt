-- ===== src/Deploy/Targets/Avoids.antt =====
-- The targets of an upgrade: candidates that no earlier run has cached as deployed by itself.
use nest_protocol.Base.{
  ℕ, ◌≡◌, refl, ap, ◌∙◌, subst, Bool, true, false, List, [], ◌∷◌, if◌then◌else◌, Bool-cases, inl,
  inr, arith,
}
use nest_protocol.Base.Text.{Text, text_eq, text_eq→eq, to_lower, member}
use nest_protocol.Base.Outcome.{Result, ok, err}
use nest_protocol.Propose.Step.{State, Proposal, ◌>>=◌, outside}
use nest_protocol.Propose.Posts.{
  Gives, Holds, Holds-quiet, Holds-given, Holds-if, Holds-pure, Holds-weaken,
}
use nest_protocol.Deploy.World.{VaultInputConfig, World, get_files}
use nest_protocol.Deploy.Targets.{
  NodeApi, find_proxies, load_exclusions, upgrade_candidates, pre_existing_targets,
}
use nest_protocol.Deploy.Quiet.{IsQuiet-is_proxy}

-- Each of some targets is an address of the list, and in lower case not one of those excluded.
abbrev pub ArePicked : List Text → List Text → List Text → Type 0
ArePicked excluded addrs targets =
    (x : Text)
    → member x targets ≡ true
    → (member x addrs ≡ true) × (member (to_lower x) excluded ≡ false)

skip-ArePicked :
    (excluded addrs targets : List Text) (a : Text)
    → ArePicked excluded addrs targets
    → ArePicked excluded (a ∷ addrs) targets
unfolding member
skip-ArePicked excluded addrs targets a h x is_target =
    let found = h x is_target in (ground arith, found.1)

take-ArePicked :
    (excluded addrs targets : List Text) (a : Text) (proxy : Bool)
    → member (to_lower a) excluded ≡ false
    → ArePicked excluded addrs targets
    → ArePicked excluded (a ∷ addrs) (if proxy then a ∷ targets else targets)
unfolding member
take-ArePicked excluded addrs targets a false allowed h x is_target =
    skip-ArePicked excluded addrs targets a h x is_target
take-ArePicked excluded addrs targets a true allowed h x is_target =
    elim (Bool-cases (text_eq x a)) [
      | inl same ↦
          (ground arith, ap (λ y. member (to_lower y) excluded) (text_eq→eq x a same) ∙ allowed)
      | inr other ↦ (let found = h x (ground arith) in (ground arith, found.1))
    ]

skip-Gives :
    (excluded addrs : List Text) (a : Text) (r : Result Text (List Text)) (new : List Proposal)
    → Gives (ArePicked excluded addrs) r new
    → Gives (ArePicked excluded (a ∷ addrs)) r new
skip-Gives excluded addrs a (err e) new h = h
skip-Gives excluded addrs a (ok targets) new h = (h.0, skip-ArePicked excluded addrs targets a h.1)

module _ {W : Type 0} (node : NodeApi W) where
  find_proxies-ArePicked :
      (excluded addrs : List Text)
      → Holds (Gives (ArePicked excluded addrs)) (find_proxies node excluded addrs)
  unfolding find_proxies member
  find_proxies-ArePicked excluded [] =
      Holds-pure (Gives (ArePicked excluded [])) [] (refl, λ x is_target. ground arith)
  find_proxies-ArePicked excluded (addr ∷ addrs) =
      let Q = Gives (ArePicked excluded (addr ∷ addrs)) in
      let rest = find_proxies-ArePicked excluded addrs in
      Holds-if Q (member (to_lower addr) excluded) (find_proxies node excluded addrs) _
        (λ _.
          Holds-weaken (Gives (ArePicked excluded addrs)) Q (find_proxies node excluded addrs) rest
            (skip-Gives excluded addrs addr))
        (λ allowed.
          Holds-quiet Q _ _ (IsQuiet-is_proxy node addr)
            (λ proxy.
              Holds-given (ArePicked excluded addrs) Q _ _ rest
                (λ more picked.
                  Holds-pure Q (if proxy then addr ∷ more else more)
                    (refl, take-ArePicked excluded addrs more addr proxy allowed picked))
                (λ e. refl))
            (λ e. refl))

  -- The targets of an upgrade, where they can be found out, are addresses of the vault's
  -- configuration, and none of them is, up to the case of its letters, an address that the file of
  -- fresh deployments names: a retry does not upgrade what the failed run before it has deployed.
  pub pre_existing_targets-ArePicked :
      (chain_id : ℕ) (cfg : VaultInputConfig) (s : State (World W)) (targets : List Text)
      → (pre_existing_targets node chain_id cfg s).0 ≡ ok targets
      → ArePicked (load_exclusions s.world.files.fresh) (upgrade_candidates chain_id cfg) targets
  unfolding pre_existing_targets get_files outside ◌>>=◌
  pre_existing_targets-ArePicked chain_id cfg s targets returned =
      let excluded = load_exclusions s.world.files.fresh in
      let found = find_proxies-ArePicked excluded (upgrade_candidates chain_id cfg) s in
      (subst (λ r. Gives (ArePicked excluded (upgrade_candidates chain_id cfg)) r found.0) returned
        found.2).1
