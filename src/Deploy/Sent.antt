-- ===== src/Deploy/Sent.antt =====
-- What a deployment has proposed when it ends.
use mathlib.Core.List.{append-nil}
use nest_protocol.Base.{
  ℕ, ◌≡◌, refl, ap, ◌∙◌, sym, subst, Bool, true, false, ◌||◌, List, [], ◌++◌, if◌then◌else◌, arith,
}
use nest_protocol.Base.Text.{Text}
use nest_protocol.Base.Outcome.{Result, ok, err}
use nest_protocol.Split.Types.{all_txs, SafeTx, SplitResult, Directory}
use nest_protocol.Split.Batches.{split_batches}
use nest_protocol.Propose.Step.{State, Proposal, pure, ◌>>=◌, outside, plain, proceed}
use nest_protocol.Propose.Phase.{Outcome}
use nest_protocol.Propose.Posts.{
  Ended, Holds, IsQuiet, Holds-bind, Holds-quiet, Holds-pure, Holds-if, Holds-weaken, Holds-given,
  IsQuiet-plain, plain-bind,
}
use nest_protocol.Propose.Delivered.{calls, IsPart, Delivered, run_propose_phase-Delivered}
use nest_protocol.Deploy.Args.{DeployArgs, parse_args}
use nest_protocol.Deploy.World.{World, get_files, set_files, lift_safe}
use nest_protocol.Deploy.Steps.{split_options}
use nest_protocol.Deploy.Main.{
  Outside, Ready, safe_dry_run, runs_upgrade, split_now, record_manifest, propose_now, hand_over,
  deliver, deploy_main, or_split_error, deploy_input,
}
use nest_protocol.Deploy.Quiet.{
  Silent, next, IsQuiet-pure, IsQuiet-get_files, IsQuiet-set_files, prepare-IsFor,
  IsQuiet-regenerate,
}

-- A run that must not propose: --dry-run, --fork or --record-only.
abbrev pub mute : DeployArgs → Bool
mute args = safe_dry_run args || args.record_only

-- What has been proposed when what follows the split ends in `r`.
pub record Sent (args : DeployArgs) (txs : List SafeTx) (r : Result Text ℕ) (new : List Proposal)
    : Type 0 where
  pub part : IsPart txs new
  pub quiet : mute args ≡ true → new ≡ []
  pub complete : r ≡ ok 0 → mute args ≡ false → calls new ≡ txs

exit_code : (b : Bool) → ◌≡◌ {A = Result Text ℕ} (ok (if b then 1 else 0)) (ok 0) → b ≡ false
exit_code true h = ground arith
exit_code false h = refl

left_false : (a b : Bool) → (a || b) ≡ false → a ≡ false
left_false true b h = cc
left_false false b h = refl

recorded : (a b : Bool) → b ≡ true → (a || b) ≡ true
recorded true b h = refl
recorded false b h = h

not_recorded : (a b : Bool) → b ≡ false → (a || b) ≡ true → a ≡ true
not_recorded true b h g = refl
not_recorded false b h g = cc

module _ {W : Type 0} (out : Outside W) (r : Ready) where
  IsQuiet-record_manifest : (split : SplitResult) → IsQuiet (record_manifest out r split)
  unfolding record_manifest
  IsQuiet-record_manifest split =
      next _ _ (IsQuiet-set_files _) (λ _. next _ _ (IsQuiet-set_files _) (λ _. IsQuiet-pure 0))

  phase-Sent :
      (txs : List SafeTx) (result : Result Text (List Outcome × Bool)) (code : Result Text ℕ)
      (new : List Proposal)
      → r.args.record_only ≡ false
      → (code ≡ ok 0 → (os : List Outcome) × (result ≡ ok (os, false)))
      → Delivered (safe_dry_run r.args) txs result new
      → Sent r.args txs code new
  phase-Sent txs result code new proposing finished done = record {
    part = done.part;
    quiet = λ silent. done.quiet (not_recorded (safe_dry_run r.args) _ proposing silent);
    complete = λ zero_code loud.
        let (os, returned) = finished zero_code in
        done.complete os returned (left_false (safe_dry_run r.args) _ loud);
  }

  propose_now-Sent :
      (split : SplitResult)
      → r.args.record_only ≡ false
      → Holds (Sent r.args (all_txs split.sections)) (propose_now out r split)
  unfolding propose_now deploy_input
  propose_now-Sent split proposing =
      let txs = all_txs split.sections in
      let api = lift_safe (out.safe r.args.chain_id r.common.multisig) in
      Holds-bind (Delivered (safe_dry_run r.args) txs) (Sent r.args txs) _ _
        (λ s. run_propose_phase-Delivered api (deploy_input r out.repo_root split) s)
        (λ done new delivered.
          let Q = λ (b : Result Text ℕ) (later : List Proposal). Sent r.args txs b (new ++ later) in
          let conclude = λ (code : Result Text ℕ) (h : code ≡ ok 0 → done.1 ≡ false).
            subst (Sent r.args txs code) (sym (append-nil new)) (
              phase-Sent txs (ok done) code new proposing
                (λ zero_code. (done.0, ap (λ b. ok (done.0, b)) (h zero_code))) delivered) in
          Holds-quiet Q _ _ (IsQuiet-set_files _)
            (λ _.
              Holds-pure Q (if done.1 then 1 else 0)
                (conclude (ok (if done.1 then 1 else 0)) (exit_code done.1)))
            (λ e. conclude (err e) (λ zero_code. cc)))
        (λ e new delivered.
          phase-Sent txs (err e) (err e) new proposing (λ zero_code. cc) delivered)

  hand_over-Sent :
      (split : SplitResult) → Holds (Sent r.args (all_txs split.sections)) (hand_over out r split)
  unfolding hand_over
  hand_over-Sent split =
      let txs = all_txs split.sections in
      Holds-if (Sent r.args txs) r.args.record_only (record_manifest out r split)
        (propose_now out r split)
        (λ recording.
          Holds-weaken Silent (Sent r.args txs) (record_manifest out r split)
            (IsQuiet-record_manifest split)
            (λ b new silent. record {
              part = (txs, ap (λ n. calls n ++ txs) silent);
              quiet = λ _. silent;
              complete =
                  λ zero_code loud. let always = recorded (safe_dry_run r.args) _ recording in cc;
            }))
        (propose_now-Sent split)

module _ {W : Type 0} (out : Outside W) (r : Ready) where
  abbrev Mute : Result Text ℕ → List Proposal → Type 0
  Mute b new = mute r.args ≡ true → new ≡ []

  IsQuiet-split_now : IsQuiet (split_now out r)
  unfolding split_now
  IsQuiet-split_now = next _ _ IsQuiet-get_files (λ files.
      next _ _ (IsQuiet-plain _)
        (λ done. next _ _ (IsQuiet-set_files _) (λ _. IsQuiet-pure done.0)))

  deliver-Mute : Holds Mute (deliver out r)
  unfolding deliver
  deliver-Mute =
      Holds-quiet Mute _ _ IsQuiet-split_now
        (λ split.
          Holds-weaken (Sent r.args (all_txs split.sections)) Mute (hand_over out r split)
            (hand_over-Sent out r split) (λ b new sent. sent.quiet))
        (λ e silent. refl)

  pub split_now-runs :
      (s : State (World W)) (done : SplitResult × Directory)
      → split_batches out.now
          (split_options r.args.chain_id r.args.vault (runs_upgrade r) s.world.files)
          s.world.files.split_dir
        ≡ ok done
      → split_now out r s ≡ (
        ok done.0,
        record s { world = record s.world { files = record s.world.files { split_dir = done.1 } } },
      )
  unfolding split_now get_files set_files outside ◌>>=◌ plain pure or_split_error
  split_now-runs s done h = rw h refl

  -- What follows forge, where the batches are split without an error: the calls proposed are a first
  -- part of all calls of the split in their order. They are none with --dry-run, --fork or
  -- --record-only; else they are all of them if the exit code is 0.
  pub deliver-Sent :
      (s : State (World W)) (done : SplitResult × Directory)
      → split_batches out.now
          (split_options r.args.chain_id r.args.vault (runs_upgrade r) s.world.files)
          s.world.files.split_dir
        ≡ ok done
      → Ended (Sent r.args (all_txs done.0.sections)) s (deliver out r s)
  unfolding deliver ◌>>=◌
  deliver-Sent s done h =
      subst (λ x. Ended (Sent r.args (all_txs done.0.sections)) s (proceed x (hand_over out r)))
        (sym (split_now-runs s done h)) (hand_over-Sent out r done.0 _)

-- A run with --dry-run, --fork or --record-only proposes nothing, whatever it finds outside and
-- however it ends.
pub deploy_main-Mute :
    {W : Type 0} (out : Outside W) (argv : List Text) (s : State (World W)) (args : DeployArgs)
    → parse_args argv ≡ ok args
    → mute args ≡ true
    → (deploy_main out argv s).1.posted ≡ s.posted
unfolding deploy_main
deploy_main-Mute out argv s args parsed silent =
    subst (λ (x : Result Text ℕ × State _). x.1.posted ≡ s.posted)
      (sym (plain-bind _ args _ s parsed))
      (let (new, posted, none_made) =
          Holds-given (λ r. r.args ≡ args) Silent _ _ (prepare-IsFor out args)
            (λ r same. next _ _ IsQuiet-get_files (λ files.
              next _ _ (IsQuiet-regenerate out r _) (λ unverified.
                Holds-weaken (Mute out r) Silent (deliver out r) (deliver-Mute out r)
                  (λ b new quiet. quiet (ap mute same ∙ silent)))))
            (λ e. refl) s in
        posted ∙ ap (λ n. s.posted ++ n) none_made ∙ append-nil s.posted)
