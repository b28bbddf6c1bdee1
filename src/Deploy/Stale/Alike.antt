-- ===== src/Deploy/Stale/Alike.antt =====
-- Steps that cannot tell apart two worlds that differ only in the batch files of an earlier run.
use nest_protocol.Base.{
  ◌≡◌, refl, ap, subst, Bool, true, false, Option, none, some, List, [], ◌∷◌, if◌then◌else◌, drop,
  map, ◌&&◌, ◌==◌,
}
use nest_protocol.Base.Text.{Text, txt, text_eq, to_lower, member, starts_with}
use nest_protocol.Base.Outcome.{Result, ok, err}
use nest_protocol.Environment.{all_hex}
use nest_protocol.Propose.Step.{State, Step, pure, throw, proceed, ◌>>=◌, outside, plain}
use nest_protocol.Deploy.World.{VaultInputConfig, Files, World, on_net, get_files, set_files}
use nest_protocol.Deploy.Targets.{
  NodeApi, is_code, is_not_zero, has_code, admin_is_set, is_proxy, find_proxies, put_fresh,
  cache_output, cache_fresh,
}
use nest_protocol.Deploy.Forge.{ForgeStep}
use nest_protocol.Deploy.Steps.{ForgeReply, receive, newer}
use nest_protocol.Deploy.Main.{Outside, Ready, run_forge, cache_after, run_steps}
use nest_protocol.Deploy.Stale.{pick, pick-put_batches}

-- Files in which the same batch is found under each of some names, and all else is the same.
pub record AlikeFiles (names : List Text) (f g : Files) : Type 0 where
  pub found : (n : Text) → member n names ≡ true → pick n f.flat f.legacy ≡ pick n g.flat g.legacy
  pub fresh : f.fresh ≡ g.fresh
  pub snapshot : f.snapshot ≡ g.snapshot
  pub queue : f.queue ≡ g.queue
  pub split_dir : f.split_dir ≡ g.split_dir

pub record Alike {W : Type 0} (names : List Text) (s t : State (World W)) : Type 0 where
  pub files : AlikeFiles names s.world.files t.world.files
  pub net : s.world.net ≡ t.world.net
  pub posted : s.posted ≡ t.posted

module _ {W : Type 0} (names : List Text) where
  abbrev pub AlikeEnds : {A : Type 0} (x y : Result Text A × State (World W)) → Type 0
  AlikeEnds x y = (x.0 ≡ y.0) × Alike names x.1 y.1

  -- A step with the same result in both worlds, which stay alike.
  abbrev pub Agrees : {A : Type 0} → Step (World W) A → Type 0
  Agrees m = (s t : State (World W)) → Alike names s t → AlikeEnds (m s) (m t)

  pub proceed-AlikeEnds :
      {A B : Type 0} (k : A → Step (World W) B) (x y : Result Text A × State (World W))
      → ((a : A) → Agrees (k a))
      → AlikeEnds x y
      → AlikeEnds (proceed x k) (proceed y k)
  proceed-AlikeEnds k (err e, s) (err f, t) h alike = (let same = alike.0 in cc, alike.1)
  proceed-AlikeEnds k (err e, s) (ok b, t) h alike = let same = alike.0 in cc
  proceed-AlikeEnds k (ok a, s) (err f, t) h alike = let same = alike.0 in cc
  proceed-AlikeEnds k (ok a, s) (ok b, t) h alike =
      let same = alike.0 in
      let value : a ≡ b = cc in subst (λ c. AlikeEnds (k a s) (k c t)) value (h a s t alike.1)

  pub Agrees-bind :
      {A B : Type 0} (m : Step (World W) A) (k : A → Step (World W) B)
      → Agrees m
      → ((a : A) → Agrees (k a))
      → Agrees (m >>= k)
  unfolding ◌>>=◌
  Agrees-bind m k h g s t alike = proceed-AlikeEnds k (m s) (m t) g (h s t alike)

  pub Agrees-pure : {A : Type 0} (a : A) → Agrees (pure a)
  unfolding pure
  Agrees-pure a s t alike = (refl, alike)

  Agrees-throw : (A : Type 0) (e : Text) → Agrees (throw {A = A} e)
  unfolding throw
  Agrees-throw A e s t alike = (refl, alike)

  pub Agrees-plain : {A : Type 0} (x : Result Text A) → Agrees (plain x)
  unfolding plain
  Agrees-plain {A} (err e) = Agrees-throw A e
  Agrees-plain (ok a) = Agrees-pure a

  Agrees-if :
      {A : Type 0} (b : Bool) (m k : Step (World W) A)
      → Agrees m
      → Agrees k
      → Agrees (if b then m else k)
  Agrees-if true m k h g = h
  Agrees-if false m k h g = g

  pub Agrees-on_net : {A : Type 0} (call : W → A × W) → Agrees (outside (on_net call))
  unfolding outside
  Agrees-on_net call s t alike = (
    ap (λ w. ok (call w).0) alike.net,
    record { files = alike.files; net = ap (λ w. (call w).1) alike.net; posted = alike.posted },
  )

  -- A change of the files that keeps them alike.
  pub Agrees-set_files :
      (change : Files → Files)
      → ((f g : Files) → AlikeFiles names f g → AlikeFiles names (change f) (change g))
      → Agrees (set_files change)
  unfolding set_files outside
  Agrees-set_files change keeps s t alike =
      (refl, record { files = keeps _ _ alike.files; net = alike.net; posted = alike.posted })

  -- A step that reads of the files what is the same in both.
  pub Agrees-get_files :
      {A : Type 0} (k : Files → Step (World W) A)
      → ((f g : Files) → AlikeFiles names f g → k f ≡ k g)
      → ((f : Files) → Agrees (k f))
      → Agrees (get_files >>= k)
  unfolding get_files outside ◌>>=◌
  Agrees-get_files k same h s t alike =
      subst (λ m. AlikeEnds (k s.world.files s) (m t))
        (same s.world.files t.world.files alike.files) (h s.world.files s t alike)

  Agrees-admin_is_set : (slot : Option Text) → Agrees (admin_is_set slot)
  unfolding admin_is_set
  Agrees-admin_is_set none = Agrees-pure false
  Agrees-admin_is_set (some []) = Agrees-pure false
  Agrees-admin_is_set (some (c ∷ s)) =
      let digits = drop 2 (c ∷ s) in
      let message = txt "Cannot convert to a BigInt" in
      let is_hex = starts_with (c ∷ s) (txt "0x") && all_hex digits in
      Agrees-if (text_eq (c ∷ s) (txt "0x")) (pure false)
        (if is_hex then pure (is_not_zero digits) else throw message) (Agrees-pure false)
        (Agrees-if is_hex (pure (is_not_zero digits)) (throw message)
          (Agrees-pure (is_not_zero digits)) (Agrees-throw Bool message))

module _ {W : Type 0} (names : List Text) (node : NodeApi W) where
  Agrees-is_proxy : (addr : Text) → Agrees names (is_proxy node addr)
  unfolding is_proxy has_code
  Agrees-is_proxy addr =
      let admin = outside (on_net (node.get_admin_slot addr)) >>= λ slot. admin_is_set slot in
      Agrees-bind names _ _
        (Agrees-bind names _ _ (Agrees-on_net names (node.get_code addr))
          (λ code. Agrees-pure names (is_code code)))
        (λ deployed.
          Agrees-if names deployed admin (pure false)
            (Agrees-bind names _ _ (Agrees-on_net names (node.get_admin_slot addr))
              (Agrees-admin_is_set names))
            (Agrees-pure names false))

  Agrees-find_proxies :
      (excluded addrs : List Text) → Agrees names (find_proxies node excluded addrs)
  unfolding find_proxies
  Agrees-find_proxies excluded [] = Agrees-pure names []
  Agrees-find_proxies excluded (addr ∷ addrs) =
      let rest = Agrees-find_proxies excluded addrs in
      Agrees-if names (member (to_lower addr) excluded) (find_proxies node excluded addrs) _ rest (
        Agrees-bind names _ _ (Agrees-is_proxy addr) (λ proxy.
          Agrees-bind names _ _ rest
            (λ more. Agrees-pure names (if proxy then addr ∷ more else more))))

  Agrees-put_fresh : (addrs : List Text) → Agrees {W = W} names (set_files (put_fresh addrs))
  Agrees-put_fresh [] = Agrees-set_files names (put_fresh []) (λ f g alike. alike)
  Agrees-put_fresh (a ∷ addrs) = Agrees-set_files names (put_fresh (a ∷ addrs)) (λ f g alike.
      record {
        found = alike.found;
        fresh = refl;
        snapshot = alike.snapshot;
        queue = alike.queue;
        split_dir = alike.split_dir;
      })

  Agrees-cache_output :
      (excluded : List Text) (o : Option VaultInputConfig)
      → Agrees names (cache_output node excluded o)
  unfolding cache_output
  Agrees-cache_output excluded none = Agrees-pure names tt
  Agrees-cache_output excluded (some output) =
      Agrees-bind names _ _ (Agrees-find_proxies excluded _) Agrees-put_fresh

  pub Agrees-cache_fresh :
      (existed : Bool) (targets : List Text) → Agrees names (cache_fresh node existed targets)
  unfolding cache_fresh
  Agrees-cache_fresh true targets = Agrees-pure names tt
  Agrees-cache_fresh false targets =
      let cache = λ (o : Option VaultInputConfig). cache_output node (map to_lower targets) o in
      Agrees-get_files names (λ files. cache files.snapshot) (λ f g alike. ap cache alike.snapshot)
        (λ files. Agrees-cache_output (map to_lower targets) files.snapshot)

receive-AlikeFiles :
    (names : List Text) (reply : ForgeReply) (f g : Files)
    → AlikeFiles names f g
    → AlikeFiles names (receive reply f) (receive reply g)
unfolding receive
receive-AlikeFiles names reply f g alike = record {
  fresh = alike.fresh;
  queue = alike.queue;
  split_dir = alike.split_dir;
  found = λ n named.
      pick-put_batches n reply.written f.flat f.legacy g.flat g.legacy (alike.found n named);
  snapshot = ap (λ o. newer reply.snapshot o) alike.snapshot;
}

module _ {W : Type 0} (names : List Text) (out : Outside W) (r : Ready) where
  Agrees-run_forge : (step : ForgeStep) → Agrees names (run_forge out r step)
  unfolding run_forge
  Agrees-run_forge step = Agrees-bind names _ _ (Agrees-on_net names _) (λ reply.
      Agrees-bind names _ _
        (Agrees-set_files names (receive reply) (receive-AlikeFiles names reply))
        (λ _. Agrees-pure names _))

  Agrees-cache_after :
      (existed : Bool) (step : ForgeStep) → Agrees names (cache_after out r existed step)
  unfolding cache_after
  Agrees-cache_after existed step =
      Agrees-if names _ (cache_fresh (out.node r.rpc_url) existed r.targets) (pure tt)
        (Agrees-cache_fresh names (out.node r.rpc_url) existed r.targets) (Agrees-pure names tt)

  pub Agrees-run_steps :
      (existed : Bool) (steps : List ForgeStep) → Agrees names (run_steps out r existed steps)
  unfolding run_steps
  Agrees-run_steps existed [] = Agrees-pure names []
  Agrees-run_steps existed (step ∷ steps) =
      let rest = Agrees-run_steps existed steps in
      Agrees-bind names _ _ (Agrees-run_forge step) (λ result.
        Agrees-bind names _ _ (Agrees-cache_after existed step) (λ _.
          Agrees-if names (result.status == 0) (run_steps out r existed steps) _ rest (
            Agrees-if names result.verify_only_failure _ _
              (Agrees-bind names _ _ rest (λ more. Agrees-pure names (step ∷ more)))
              (Agrees-throw names (List ForgeStep) _))))
