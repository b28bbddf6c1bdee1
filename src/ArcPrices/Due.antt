-- ===== src/ArcPrices/Due.antt =====
-- The reads of the price sync before a call of writeContract.
use nest_protocol.Base.{
  ℕ, ◌≡◌, refl, ap, ◌∙◌, Bool, true, List, [], ◌∷◌, ◌++◌, ◌==◌, not, Option, none, some, All,
  All-append, arith,
}
use nest_protocol.Base.Text.{Text, txt}
use nest_protocol.Base.Outcome.{ok, throw_if}
use nest_protocol.ArcPrices.Rate.{AccountantState, check_rate_update}
use nest_protocol.ArcPrices.Api.{Block, Entry, Outside}
use nest_protocol.ArcPrices.Checks.{symbols}
use nest_protocol.ArcPrices.Run.{run_sync, preflight, transact, send}
use nest_protocol.ArcPrices.Watched.{
  Read, hub_number, arc_block, arc_state, Sent, Watched, noted, watched, logged, watched_outside,
}
use nest_protocol.ArcPrices.Keeps.{
  Keeps, Keeps-bind, Keeps-pure, Keeps-if, Keeps-ask, Keeps-get_report, Keeps-save, Keeps-mark,
  Keeps-for_each, Leads, Leads-kept, Leads-given, Leads-if, Leads-asked,
}
use nest_protocol.ArcPrices.Sends.{
  OfSent, then_ask, then_plain, Keeps-owned, Keeps-idle, Keeps-preflight,
}

-- The three newest reads: the hub's rate without a block, then Arc's latest block, and then the
-- accountant's state at that block.
abbrev pub AreFresh : Text → Block → AccountantState → ℕ → List Read → Type 0
AreFresh accountant block state rate reads =
    (hub : Text) × (rest : List Read) × (reads
      ≡ arc_state accountant (some block.number) state
        ∷ arc_block block
        ∷ hub_number hub (txt "getRateSafe") none rate
        ∷ rest)

-- A call of writeContract whose rate and accountant are those of the newest reads, in which the
-- update is due.
abbrev pub IsDue : Sent → Type 0
IsDue x =
    (block : Block) × (state : AccountantState) × AreFresh x.accountant block state x.rate x.reads
    × (check_rate_update state x.rate block.timestamp ≡ ok true)

-- All calls so far were due, and the newest reads are known.
abbrev Having : {W : Type 0} → List Read → Watched W → Type 0
Having xs w = All IsDue w.sent × (rest : List Read) × (w.reads ≡ xs ++ rest)

module _ {W : Type 0} where
  Having-watched :
      {A : Type 0} (read : A → Read) (call : W → Option A × W) (xs : List Read) (w : Watched W)
      (a : A)
      → Having xs w
      → (call w.net).0 ≡ some a
      → Having (read a ∷ xs) (watched read call w).1
  Having-watched read call xs w a p answered =
      (p.0, p.1, ap (λ o. noted read o w.reads) answered ∙ ap (λ r. read a ∷ r) p.2)

  Having-logged :
      (write : Text → ℕ → ℕ → W → Option Text × W) (entry : Entry) (nonce current : ℕ)
      (block : Block) (state : AccountantState)
      → check_rate_update state entry.rate block.timestamp ≡ ok true
      → current ≡ entry.rate
      → (w : Watched W)
      → Having
          (arc_state entry.accountant (some block.number) state
            ∷ arc_block block
            ∷ hub_number entry.hub_accountant (txt "getRateSafe") none current
            ∷ [])
          w
      → All IsDue (logged write entry.accountant entry.rate nonce w).1.sent
  Having-logged write entry nonce current block state due same w p =
      All-append IsDue w.sent (_ ∷ []) p.0 (
        (
          block,
          state,
          (
            entry.hub_accountant,
            p.1,
            p.2
                ∙ ap
                    (λ n.
                      arc_state entry.accountant (some block.number) state
                      ∷ arc_block block
                      ∷ hub_number entry.hub_accountant (txt "getRateSafe") none n
                      ∷ p.1)
                    same,
          ),
          due,
        ),
        tt,
      )

same_rate : (m n : ℕ) (e : Text) → throw_if (not (m == n)) e ≡ ok tt → m ≡ n
same_rate m n e passed = ground arith

module _ {W : Type 0} (out : Outside W) (deployer : Text) where
  Leads-transact :
      (symbol : Text) (entry : Entry) (current : ℕ) (block : Block) (state : AccountantState)
      → check_rate_update state entry.rate block.timestamp ≡ ok true
      → current ≡ entry.rate
      → Leads
          (OfSent (All IsDue))
          (Having (
            arc_state entry.accountant (some block.number) state
            ∷ arc_block block
            ∷ hub_number entry.hub_accountant (txt "getRateSafe") none current
            ∷ []))
          (transact (watched_outside out) deployer symbol entry state)
  unfolding transact
  Leads-transact symbol entry current block state due same =
      let S : Watched W → Type 0 = OfSent (All IsDue) in
      let o = watched_outside out in
      let P : Watched W → Type 0 = Having (
        arc_state entry.accountant (some block.number) state
        ∷ arc_block block
        ∷ hub_number entry.hub_accountant (txt "getRateSafe") none current
        ∷ []) in
      let weaker : (w : Watched W) → P w → S w = λ w p. p.0 in
      Leads-given S P weaker _ _ (λ _ _. Leads-kept S P weaker _ _ (Keeps-ask P _ (λ w p. p)) (λ _.
        Leads-kept S P weaker _ _ (Keeps-idle P o deployer (λ _ w p. p)) (λ nonce.
          Leads-kept S P weaker _ _ (Keeps-mark P symbol _) (λ _.
            Leads-kept S P weaker _ _ (Keeps-save P o (λ _ w p. p)) (λ _.
              Leads-asked S P (λ _. S) _ _
                (λ w p _.
                  Having-logged out.arc.write_update entry nonce current block state due same w p)
                (λ w _ p _.
                  Having-logged out.arc.write_update entry nonce current block state due same w p)
                (λ hash. Keeps-bind S _ _ (Keeps-mark S symbol _) (λ _.
                  Keeps-bind S _ _ (Keeps-save S o (λ _ w p. p)) (λ _.
                    then_ask S _ _ (λ w p. p)
                      (λ receipt. Keeps-bind S _ _ (Keeps-mark S symbol _) (λ _.
                        Keeps-bind S _ _ (Keeps-save S o (λ _ w p. p)) (λ _. then_plain S _ _ (λ _.
                          then_ask S _ _ (λ w p. p)
                            (λ after. then_plain S _ _ (λ _.
                              Keeps-bind S _ _ (Keeps-mark S symbol _)
                                (λ _. Keeps-save S o (λ _ w p. p))))))))))))))))

  Keeps-send :
      (symbol : Text) → Keeps (OfSent (All IsDue)) (send (watched_outside out) deployer symbol)
  unfolding send
  Keeps-send symbol =
      let S : Watched W → Type 0 = OfSent (All IsDue) in
      let o = watched_outside out in
      Keeps-bind S _ _ (Keeps-get_report S) (λ report. then_plain S _ _ (λ entry.
        Keeps-bind S _ _ (Keeps-owned S o deployer _ _ (λ w p. p)) (λ _.
          let hub = entry.hub_accountant in
          let rated : ℕ → Read = hub_number hub (txt "getRateSafe") none in
          Leads-asked S S (λ current. Having (rated current ∷ [])) _ _ (λ w p _. p)
            (λ w current p answered.
              Having-watched rated (out.hub.read_number hub (txt "getRateSafe") none) [] w current
                (p, w.reads, refl) answered)
            (λ current.
              Leads-given S (Having (rated current ∷ [])) (λ w p. p.0) _ _
                (λ u passed.
                  Leads-asked S (Having (rated current ∷ []))
                    (λ block. Having (arc_block block ∷ rated current ∷ [])) _ _ (λ w p _. p.0)
                    (λ w block p answered.
                      Having-watched arc_block out.arc.get_block (rated current ∷ []) w block p
                        answered)
                    (λ block.
                      let at = some block.number in
                      Leads-asked S (Having (arc_block block ∷ rated current ∷ []))
                        (λ state. Having (
                          arc_state entry.accountant at state
                          ∷ arc_block block
                          ∷ rated current
                          ∷ []))
                        _ _ (λ w p _. p.0)
                        (λ w state p answered.
                          Having-watched (arc_state entry.accountant at)
                            (out.arc.read_state entry.accountant at)
                            (arc_block block ∷ rated current ∷ []) w state p answered)
                        (λ state.
                          let P : Watched W → Type 0 = Having (
                            arc_state entry.accountant at state
                            ∷ arc_block block
                            ∷ rated current
                            ∷ []) in
                          Leads-given S P (λ w p. p.0) _ _
                            (λ due checked.
                              Leads-if S P (λ w p. p.0) due _ _
                                (λ yes.
                                  Leads-transact symbol entry current block state
                                    (checked ∙ ap (λ d. ok d) yes)
                                    (same_rate current entry.rate _ passed))
                                (λ s p.
                                  Keeps-bind S _ _ (Keeps-mark S symbol _)
                                    (λ _. Keeps-save S o (λ _ w p. p)) s p.0)))))))))

  pub Keeps-run_sync :
      (block hub_block : Block) (broadcast : Bool)
      → Keeps (OfSent (All IsDue)) (
          run_sync symbols
            (preflight (watched_outside out) deployer block hub_block)
            (send (watched_outside out) deployer)
            broadcast)
  unfolding run_sync
  Keeps-run_sync block hub_block broadcast =
      let S : Watched W → Type 0 = OfSent (All IsDue) in
      Keeps-bind S _ _
        (Keeps-for_each S symbols _ (Keeps-preflight (All IsDue) out deployer block hub_block))
        (λ _.
          Keeps-if S broadcast _ _ (λ _. Keeps-for_each S symbols _ Keeps-send) (Keeps-pure S tt))
