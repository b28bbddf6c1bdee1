-- ===== src/ArcPrices/Properties.antt =====
-- When the price sync calls writeContract, over any outside that is watched.
use nest_protocol.Base.{
  ◌≡◌, refl, ap, subst, Bool, false, List, [], ◌∷◌, All, arith, sym, Bool-cases, inl, inr,
}
use nest_protocol.Base.Text.{Text, txt, text_eq, text_eq_sym, member}
use nest_protocol.Base.Outcome.{Result, ok, err}
use nest_protocol.Propose.Step.{State, Step, pure, proceed, ◌>>=◌}
use nest_protocol.ArcPrices.Api.{Block, Sync, Outside}
use nest_protocol.ArcPrices.Checks.{symbols, check_sync_args}
use nest_protocol.ArcPrices.Run.{for_each, run_sync, preflight, send, sync_main}
use nest_protocol.ArcPrices.Watched.{Sent, Watched, watched_outside}
use nest_protocol.ArcPrices.Keeps.{Keeps, Keeps-pure, Keeps-given, Keeps-if, Keeps-for_each}
use nest_protocol.ArcPrices.Sends.{
  OfSent, then_plain, Keeps-preflight, Keeps-simulation, Keeps-sync_prices,
}
use nest_protocol.ArcPrices.Due.{IsDue, Keeps-run_sync}

-- Whatever the outside answers, every call of writeContract that a run makes is given a rate and an
-- accountant such that the run has last asked the hub for the present rate, which was that one, then
-- Arc for its latest block, and then for that accountant's state at that block; and the update to
-- the rate was due in that state at that block's time. This is read off the log of a watched
-- outside, where the calls that are in it before the run are such calls.
pub sync_main-AreDue :
    {W : Type 0} (out : Outside W) (args : List Text) (s : State (Sync (Watched W)))
    → All IsDue s.world.net.sent
    → All IsDue (sync_main (watched_outside out) args s).1.world.net.sent
unfolding sync_main
sync_main-AreDue {W} out args =
    let P : Watched W → Type 0 = OfSent (All IsDue) in
    Keeps-if P (member (txt "--help") args) (pure tt) _ (λ _. Keeps-pure P tt)
      (then_plain P (check_sync_args args) _ (λ broadcast.
        Keeps-sync_prices (All IsDue) out broadcast
          (λ deployer block hub_block. Keeps-run_sync out deployer block hub_block broadcast)))

check_sync_args-simulates :
    (args : List Text) (broadcast : Bool)
    → member (txt "--broadcast") args ≡ false
    → check_sync_args args ≡ ok broadcast
    → broadcast ≡ false
unfolding check_sync_args member
check_sync_args-simulates [] broadcast quiet checked = let same = checked in cc
check_sync_args-simulates (a ∷ []) broadcast quiet checked =
    let swap = text_eq_sym a (txt "--broadcast") in
    elim (Bool-cases (text_eq a (txt "--broadcast"))) [
      | inl given ↦ ground arith
      | inr other ↦ (let refused = rw other at checked in absurd (cc refused))
    ]
check_sync_args-simulates (a ∷ b ∷ args) broadcast quiet checked = cc

-- Without --broadcast, a run makes no call of writeContract.
pub sync_main-simulates :
    {W : Type 0} (out : Outside W) (args : List Text) (s : State (Sync (Watched W)))
    → member (txt "--broadcast") args ≡ false
    → (sync_main (watched_outside out) args s).1.world.net.sent ≡ s.world.net.sent
unfolding sync_main
sync_main-simulates {W} out args s quiet =
    let F = λ (xs : List Sent). xs ≡ s.world.net.sent in
    let P : Watched W → Type 0 = OfSent F in
    let o = watched_outside out in
    Keeps-if P (member (txt "--help") args) (pure tt) _ (λ _. Keeps-pure P tt)
      (Keeps-given P (check_sync_args args) _ (λ broadcast checked.
        Keeps-sync_prices F out broadcast (λ deployer block hub_block.
          subst
            (λ b.
              Keeps P (run_sync symbols (preflight o deployer block hub_block) (send o deployer) b))
            (sym (check_sync_args-simulates args broadcast quiet checked))
            (Keeps-simulation F out deployer block hub_block))))
      s refl

proceed-err :
    {W A B : Type 0} (r : Result Text A × State W) (k : A → Step W B) (e : Text)
    → r.0 ≡ err e
    → proceed r k ≡ (err e, r.1)
proceed-err (err f, t) k e h = ap (λ x. (x, t)) (let same : f ≡ e = cc in ap (λ x. err x) same)
proceed-err (ok a, t) k e h = cc

-- Where the preflight of any vault fails, the run ends in its error, and no call of writeContract is
-- made for any vault, not even for those whose preflight has passed.
pub run_sync-preflight_first :
    {W : Type 0} (out : Outside W) (deployer : Text) (block hub_block : Block) (broadcast : Bool)
    (s : State (Sync (Watched W))) (e : Text)
    → (for_each symbols (preflight (watched_outside out) deployer block hub_block) s).0 ≡ err e
    → let t =
        run_sync symbols
          (preflight (watched_outside out) deployer block hub_block)
          (send (watched_outside out) deployer)
          broadcast
          s in
      (t.0 ≡ err e) × (t.1.world.net.sent ≡ s.world.net.sent)
unfolding run_sync ◌>>=◌
run_sync-preflight_first {W} out deployer block hub_block broadcast s e failed =
    let F = λ (xs : List Sent). xs ≡ s.world.net.sent in
    let P : Watched W → Type 0 = OfSent F in
    let checks = for_each symbols (preflight (watched_outside out) deployer block hub_block) in
    subst
      (λ (t : Result Text (Unit {0}) × State (Sync (Watched W))).
        (t.0 ≡ err e) × (t.1.world.net.sent ≡ s.world.net.sent))
      (sym (proceed-err (checks s) _ e failed))
      (refl, Keeps-for_each P symbols _ (Keeps-preflight F out deployer block hub_block) s refl)
