-- ===== src/Deploy/Stale/Forgets.antt =====
-- What a deployment splits does not depend on the batch files of an earlier run.
use nest_protocol.Base.{
  ℕ, ◌≡◌, refl, sym, ap, ◌∙◌, Bool, true, false, List, [], ◌∷◌, if◌then◌else◌, none, arith,
}
use nest_protocol.Base.Text.{Text, text_eq_refl, member}
use nest_protocol.Base.Outcome.{Result}
use nest_protocol.Split.Types.{SplitResult, Directory}
use nest_protocol.Split.Batches.{split_batches}
use nest_protocol.Propose.Step.{State, Step, pure, ◌>>=◌, outside, plain}
use nest_protocol.Deploy.World.{BatchFiles, Files, World, set_files}
use nest_protocol.Deploy.Steps.{
  batch_name, deploy_kind, owner_kind, fees_kind, upgrade_kind, stale_batch_names, clear_stale,
  pick_batch, split_options,
}
use nest_protocol.Deploy.Main.{
  Outside, Ready, runs_upgrade, or_split_error, split_now, run_steps, regenerate,
}
use nest_protocol.Deploy.Stale.{pick-remove_batches}
use nest_protocol.Deploy.Stale.Alike.{
  AlikeFiles, Alike, Agrees, proceed-AlikeEnds, Agrees-bind, Agrees-pure, Agrees-set_files,
  Agrees-get_files, Agrees-plain, Agrees-run_steps,
}

here : (x : Text) (xs : List Text) → member x (x ∷ xs) ≡ true
unfolding member
here x xs = rw (text_eq_refl x) refl

there : (x y : Text) (xs : List Text) → member x xs ≡ true → member x (y ∷ xs) ≡ true
unfolding member
there x y xs h = ground arith

if-read :
    {A : Type 0} (b : Bool) (x y z : A)
    → (b ≡ true → x ≡ y)
    → (if b then x else z) ≡ (if b then y else z)
if-read true x y z h = h refl
if-read false x y z h = refl

module _ (chain_id : ℕ) (vault : Text) (upgrade : Bool) (f g : Files)
    (alike : AlikeFiles (stale_batch_names chain_id vault upgrade) f g) where
  pick-named :
      (kind : Text)
      → member (batch_name chain_id vault kind) (stale_batch_names chain_id vault upgrade) ≡ true
      → pick_batch (batch_name chain_id vault kind) f
        ≡ pick_batch (batch_name chain_id vault kind) g
  unfolding pick_batch
  pick-named kind named = alike.found (batch_name chain_id vault kind) named

  -- The upgrade's batch is read only where it has been removed.
  same_upgrade :
      (if upgrade then pick_batch (batch_name chain_id vault upgrade_kind) f else none)
      ≡ (if upgrade then pick_batch (batch_name chain_id vault upgrade_kind) g else none)
  unfolding stale_batch_names
  same_upgrade = if-read upgrade _ _ none (λ runs. pick-named upgrade_kind (
      rw runs (
        there _ _ _
          (there _ _ _ (there _ _ _ (here (batch_name chain_id vault upgrade_kind) []))))))

  same_options : split_options chain_id vault upgrade f ≡ split_options chain_id vault upgrade g
  unfolding split_options stale_batch_names
  same_options = rw (pick-named deploy_kind (here _ _)) (
      rw (pick-named owner_kind (there _ _ _ (here _ _)))
        (rw (pick-named fees_kind (there _ _ _ (there _ _ _ (here _ _)))) (rw same_upgrade refl)))

module _ {W : Type 0} (out : Outside W) (r : Ready) where
  abbrev names : List Text
  names = stale_batch_names r.args.chain_id r.args.vault (runs_upgrade r)

  abbrev after_files : Result Text (SplitResult × Directory) → Step (World W) SplitResult
  after_files x =
      plain x >>= λ done. set_files (λ f. record f { split_dir = done.1 }) >>= λ _. pure done.0

  Agrees-split_now : Agrees {W = W} names (split_now out r)
  unfolding split_now
  Agrees-split_now =
      let opts = λ (f : Files). split_options r.args.chain_id r.args.vault (runs_upgrade r) f in
      Agrees-get_files names
        (λ f. after_files (or_split_error (split_batches out.now (opts f) f.split_dir)))
        (λ f g alike.
          ap (λ o. after_files (or_split_error (split_batches out.now o f.split_dir)))
            (same_options r.args.chain_id r.args.vault (runs_upgrade r) f g alike)
          ∙ ap (λ d. after_files (or_split_error (split_batches out.now (opts g) d)))
              alike.split_dir)
        (λ f. Agrees-bind names _ _ (Agrees-plain names _) (λ done.
          Agrees-bind names _ _
            (Agrees-set_files names _ (λ f g alike. record {
              found = alike.found;
              fresh = alike.fresh;
              snapshot = alike.snapshot;
              queue = alike.queue;
              split_dir = refl;
            }))
            (λ _. Agrees-pure names done.0)))

  cleared :
      (files : Files) (flat legacy : BatchFiles)
      → AlikeFiles names
          (clear_stale names files)
          (clear_stale names (record files { flat = flat; legacy = legacy }))
  unfolding clear_stale
  cleared files flat legacy = record {
    found = λ n named.
        pick-remove_batches n names files.flat files.legacy named
        ∙ sym (pick-remove_batches n names flat legacy named);
    fresh = refl;
    snapshot = refl;
    queue = refl;
    split_dir = refl;
  }

  -- The run of the forge steps and the split after it give the same sections or the same error, and
  -- have proposed as much, whatever batch files an earlier run has left in either folder.
  pub regenerate-Forgets :
      (existed : Bool) (s : State (World W)) (flat legacy : BatchFiles)
      → let t = record s {
        world = record s.world { files = record s.world.files { flat = flat; legacy = legacy } };
      } in
        let m = regenerate out r existed >>= λ _. split_now out r in
        ((m s).0 ≡ (m t).0) × ((m s).1.posted ≡ (m t).1.posted)
  unfolding regenerate set_files outside ◌>>=◌
  regenerate-Forgets existed s flat legacy =
      let files = s.world.files in
      let u = record s { world = record s.world { files = clear_stale names files } } in
      let v = record s {
        world = record s.world {
          files = clear_stale names (record files { flat = flat; legacy = legacy });
        };
      } in
      let alike : Alike names u v = record {
        files = cleared files flat legacy;
        net = refl;
        posted = refl;
      } in
      let done =
        proceed-AlikeEnds names (λ _. split_now out r) (run_steps out r existed _ u)
          (run_steps out r existed _ v) (λ _. Agrees-split_now)
          (Agrees-run_steps names out r existed _ u v alike) in
      (done.0, done.1.posted)
