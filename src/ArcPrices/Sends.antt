-- ===== src/ArcPrices/Sends.antt =====
-- The calls of writeContract through the steps of the price sync.
use nest_protocol.Base.{ℕ, Bool, false, List, Option, none, some}
use nest_protocol.Base.Text.{Text, txt}
use nest_protocol.Base.Outcome.{Result}
use nest_protocol.Propose.Step.{Step, pure, throw, ◌>>=◌, plain}
use nest_protocol.ArcPrices.Api.{ChainApi, Block, Report, Sync, Outside, ask, set_report, save}
use nest_protocol.ArcPrices.Checks.{symbols}
use nest_protocol.ArcPrices.Run.{
  run_sync, check_bindings, owned, idle, preflight, send, sync_prices,
}
use nest_protocol.ArcPrices.Watched.{Sent, Watched, watched_outside}
use nest_protocol.ArcPrices.Keeps.{
  Keeps, IsQuiet, Keeps-bind, Keeps-pure, Keeps-throw, Keeps-plain, Keeps-if, Keeps-attempt,
  Keeps-ask, Keeps-set_report, Keeps-save, Keeps-for_each,
}

module _ {V : Type 0} (P : V → Type 0) where
  abbrev pub then_ask :
      {A B : Type 0} (call : V → Option A × V) (k : A → Step (Sync V) B)
      → IsQuiet P call
      → ((a : A) → Keeps P (k a))
      → Keeps P (ask call >>= k)
  then_ask call k quiet h = Keeps-bind P _ _ (Keeps-ask P call quiet) h

  abbrev pub then_plain :
      {A B : Type 0} (r : Result Text A) (k : A → Step (Sync V) B)
      → ((a : A) → Keeps P (k a))
      → Keeps P (plain {W = Sync V} r >>= k)
  then_plain r k h = Keeps-bind P _ _ (Keeps-plain P r) h

  Keeps-check_bindings :
      (client : ChainApi V) (usdc : Option Text) (symbol vault share accountant : Text) (block : ℕ)
      → ((address view : Text) (at : Option ℕ) → IsQuiet P (client.read_text address view at))
      → ((address view : Text) (at : Option ℕ) → IsQuiet P (client.read_number address view at))
      → Keeps P (check_bindings client usdc symbol vault share accountant block)
  unfolding check_bindings
  Keeps-check_bindings client usdc symbol vault share accountant block text number =
      then_ask _ _ (text _ _ _) (λ a. then_ask _ _ (text _ _ _) (λ b.
        then_ask _ _ (text _ _ _) (λ c. then_ask _ _ (text _ _ _) (λ d.
          then_ask _ _ (number _ _ _)
            (λ e. then_ask _ _ (text _ _ _) (λ f. then_plain _ _ (λ g. Keeps-plain P _)))))))

  pub Keeps-owned :
      (out : Outside V) (deployer address : Text) (block : Option ℕ)
      → IsQuiet P (out.arc.read_text address (txt "owner") block)
      → Keeps P (owned out deployer address block)
  unfolding owned
  Keeps-owned out deployer address block quiet = then_ask _ _ quiet (λ owner. Keeps-plain P _)

  pub Keeps-idle :
      (out : Outside V) (deployer : Text)
      → ((tag : Text) → IsQuiet P (out.arc.get_transaction_count tag))
      → Keeps P (idle out deployer)
  unfolding idle
  Keeps-idle out deployer quiet =
      then_ask _ _ (quiet _)
        (λ latest. then_ask _ _ (quiet _) (λ pending. then_plain _ _ (λ _. Keeps-pure P latest)))

-- What holds of the calls made so far.
abbrev pub OfSent : {W : Type 0} → (List Sent → Type 0) → Watched W → Type 0
OfSent F w = F w.sent

module _ {W : Type 0} (F : List Sent → Type 0) (out : Outside W) (deployer : Text) where
  -- A preflight sends nothing.
  pub Keeps-preflight :
      (block hub_block : Block) (symbol : Text)
      → Keeps (OfSent F) (preflight (watched_outside out) deployer block hub_block symbol)
  unfolding preflight
  Keeps-preflight block hub_block symbol =
      let P : Watched W → Type 0 = OfSent F in
      let o = watched_outside out in
      then_plain P _ _ (λ config. then_plain P _ _ (λ _. then_plain P _ _ (λ output.
        then_plain P _ _ (λ vault.
          then_ask P _ _ (λ w p. p)
            (λ hub_accountant.
              Keeps-bind P _ _
                (Keeps-check_bindings P o.arc _ symbol vault _ _ _ (λ _ _ _ w p. p)
                  (λ _ _ _ w p. p))
                (λ _.
                  Keeps-bind P _ _
                    (Keeps-check_bindings P o.hub _ symbol vault _ _ _ (λ _ _ _ w p. p)
                      (λ _ _ _ w p. p))
                    (λ _. Keeps-bind P _ _ (Keeps-owned P o deployer _ _ (λ w p. p)) (λ _.
                      then_ask P _ _ (λ w p. p)
                        (λ slot. then_plain P _ _ (λ _.
                          then_ask P _ _ (λ w p. p)
                            (λ code. then_plain P _ _ (λ _.
                              then_ask P _ _ (λ w p. p)
                                (λ rate.
                                  then_ask P _ _ (λ w p. p)
                                    (λ state. then_plain P _ _ (λ needs_update.
                                      Keeps-bind P _ _
                                        (Keeps-if P needs_update _ _ (λ _. Keeps-ask P _ (λ w p. p))
                                          (Keeps-pure P tt))
                                        (λ _.
                                          Keeps-bind P _ _ (Keeps-set_report P _)
                                            (λ _. Keeps-save P o (λ _ w p. p))))))))))))))))))

  -- Without --broadcast, nothing need be known of a call.
  pub Keeps-simulation :
      (block hub_block : Block)
      → Keeps (OfSent F) (
          run_sync symbols
            (preflight (watched_outside out) deployer block hub_block)
            (send (watched_outside out) deployer)
            false)
  unfolding run_sync
  Keeps-simulation block hub_block =
      let P : Watched W → Type 0 = OfSent F in
      Keeps-bind P _ _ (Keeps-for_each P symbols _ (Keeps-preflight block hub_block))
        (λ _. Keeps-pure P tt)

Keeps-ended :
    {V : Type 0} (P : V → Type 0) (out : Outside V)
    → ((r : Report) → IsQuiet P (out.write_report r))
    → (o : Option (Unit {0}))
    → Keeps P (elim o as (λ _. Step (Sync V) (Unit {0})) [
      | some u ↦ pure tt
      | none ↦ set_report (λ r. record r { complete = false }) >>= λ _.
          save out >>= λ _. throw (txt "failed")
    ])
Keeps-ended P out quiet (some u) = Keeps-pure P tt
Keeps-ended P out quiet none =
    Keeps-bind P _ _ (Keeps-set_report P _)
      (λ _. Keeps-bind P _ _ (Keeps-save P out quiet) (λ _. Keeps-throw P _ _))

module _ {W : Type 0} (F : List Sent → Type 0) (out : Outside W) (broadcast : Bool) where
  pub Keeps-sync_prices :
      ((deployer : Text) (block hub_block : Block)
        → Keeps (OfSent F) (
            run_sync symbols
              (preflight (watched_outside out) deployer block hub_block)
              (send (watched_outside out) deployer)
              broadcast))
      → Keeps (OfSent F) (sync_prices (watched_outside out) broadcast)
  unfolding sync_prices
  Keeps-sync_prices runs =
      let P : Watched W → Type 0 = OfSent F in
      let o = watched_outside out in
      then_plain P _ _ (λ _. then_plain P _ _ (λ _. then_plain P _ _ (λ raw_key.
        then_plain P _ _ (λ deployer.
          then_ask P _ _ (λ w p. p)
            (λ arc_chain. then_plain P _ _ (λ _.
              then_ask P _ _ (λ w p. p)
                (λ hub_chain. then_plain P _ _ (λ _.
                  then_ask P _ _ (λ w p. p)
                    (λ block.
                      then_ask P _ _ (λ w p. p)
                        (λ hub_block. Keeps-bind P _ _ (Keeps-set_report P _) (λ _.
                          Keeps-bind P _ _
                            (Keeps-idle P (watched_outside out) deployer (λ _ w p. p))
                            (λ _.
                              Keeps-bind P _ _
                                (Keeps-attempt P _ (
                                  Keeps-bind P _ _ (runs deployer block hub_block) (λ _.
                                    Keeps-bind P _ _ (Keeps-set_report P _)
                                      (λ _. Keeps-save P o (λ _ w p. p)))))
                                (Keeps-ended P o (λ _ w p. p))))))))))))))
