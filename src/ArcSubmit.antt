-- ===== src/ArcSubmit.antt =====
-- `simulateAndSubmit` of tools/proposeArc.ts, which tools/queueArcRedemptions.ts uses as well.
mod Tests
use nest_protocol.Base.{
  ◌≡◌, refl, ◌⊎◌, Bool, true, false, ◌&&◌, not, List, [], ◌∷◌, ◌++◌, if◌then◌else◌, Bool-cases,
  Option-cases, inl, inr, Option, none, some,
}
use nest_protocol.Base.Text.{Text, txt, text_eq, to_lower, starts_with}
use nest_protocol.Base.Outcome.{Result, ok, err, throw_if}
use nest_protocol.Propose.Step.{State, Step, pure, throw, ◌>>=◌, outside, plain}

-- The fields that `simulateAndSubmit` reads or sets; `prepared_hash` is `prepared.safeTxHash`.
pub record Journal : Type 0 where
  pub prepared_hash : Text
  pub simulation : Option Text
  pub proposed : Bool

-- What was done, in order: a simulation or a submission was asked for, a journal was saved.
pub data Event : Type 0 where
  simulated submitted : Event
  saved : Journal → Event

pub record Submission (W : Type 0) : Type 0 where
  pub net : W
  pub journal : Journal
  pub events : List Event

-- `deps`: the address of a simulation and the hash of a submitted transaction, `none` where it
-- throws, and a save of the journal, false where it throws.
pub record SubmitApi (W : Type 0) : Type 0 where
  pub simulate : W → Option Text × W
  pub submit : W → Option Text × W
  pub save : Journal → W → Bool × W

abbrev pub shared_simulation : Text
shared_simulation = txt "https://dashboard.tenderly.co/shared/simulation/"

unfoldable pub equal : Text → Text → Bool
equal a b = text_eq (to_lower a) (to_lower b)

abbrev pub or_threw : Option Text → Result Text Text
or_threw none = err (txt "failed")
or_threw (some a) = ok a

-- A save that throws is no event.
abbrev pub log_save : Bool → Journal → List Event → List Event
log_save true j events = events ++ saved j ∷ []
log_save false j events = events

module _ {W : Type 0} where
  -- A call of the outside, with its event.
  unfoldable pub call_as : Event → (W → Option Text × W) → Step (Submission W) Text
  call_as event call =
      outside (λ (w : Submission W).
        ((call w.net).0, record w { net = (call w.net).1; events = w.events ++ event ∷ [] }))
      >>= λ answer. plain (or_threw answer)

  unfoldable pub set_journal : (Journal → Journal) → Step (Submission W) (Unit {0})
  set_journal f = outside (λ w. (tt, record w { journal = f w.journal }))

  unfoldable pub get_journal : Step (Submission W) Journal
  get_journal = outside (λ w. (w.journal, w))

module _ {W : Type 0} (deps : SubmitApi W) where
  unfoldable pub save_journal : Step (Submission W) (Unit {0})
  save_journal =
      outside (λ (w : Submission W).
        let reply = deps.save w.journal w.net in
        (reply.0, record w { net = reply.1; events = log_save reply.0 w.journal w.events }))
      >>= λ done. plain (throw_if (not done) (txt "save failed"))

  unfoldable pub submit_prepared : Journal → Step (Submission W) (Unit {0})
  submit_prepared journal = do
    hash ← call_as submitted deps.submit
    _ ←
        plain
          (throw_if (not (equal hash journal.prepared_hash)) (txt "Submitted SafeTxHash mismatch"))
    _ ← set_journal (λ j. record j { proposed = true })
    save_journal

  unfoldable pub simulate_and_submit : Bool → Step (Submission W) (Unit {0})
  simulate_and_submit dry_run = do
    simulation ← call_as simulated deps.simulate
    _ ← set_journal (λ j. record j { simulation = some simulation })
    _ ← plain (
        throw_if (not (starts_with simulation shared_simulation))
          (txt "No successful shared simulation"))
    _ ← save_journal
    journal ← get_journal
    if not dry_run && not journal.proposed then submit_prepared journal else pure tt

-- The journal with a simulation, and the one after a submission.
abbrev pub simulated_journal : Journal → Text → Journal
simulated_journal j link = record j { simulation = some link }

abbrev pub proposed_journal : Journal → Text → Journal
proposed_journal j link = record j { simulation = some link; proposed = true }

-- How a run from a journal may end, with the journal and the events that it leaves.
abbrev pub Story : Bool → Journal → Result Text (Unit {0}) → Journal → List Event → Type 0
Story dry_run j (err e) last events =
    (events ≡ simulated ∷ [])
    ⊎ ((link : Text) × (starts_with link shared_simulation ≡ true)
        × (events ≡ simulated ∷ saved (simulated_journal j link) ∷ submitted ∷ [])
        × ((not dry_run && not j.proposed) ≡ true)
        × ((last ≡ simulated_journal j link) ⊎ (last ≡ proposed_journal j link)))
Story dry_run j (ok u) last events =
    (link : Text) × (starts_with link shared_simulation ≡ true)
    × ((((not dry_run && not j.proposed) ≡ true)
          × (events
              ≡ simulated
                ∷ saved (simulated_journal j link)
                ∷ submitted
                ∷ saved (proposed_journal j link)
                ∷ [])
          × (last ≡ proposed_journal j link))
        ⊎ (((not dry_run && not j.proposed) ≡ false)
            × (events ≡ simulated ∷ saved (simulated_journal j link) ∷ [])
            × (last ≡ simulated_journal j link)))

abbrev pub begin : {W : Type 0} → W → Journal → State (Submission W)
begin net j = record { world = record { net = net; journal = j; events = [] }; posted = [] }

-- Before anything is submitted, the journal has been saved with a shared simulation. A transaction is
-- submitted at most once, and only in a run that is no dry run, from a journal that is not proposed
-- yet. Such a run has marked and saved the journal as proposed if it ends without an error. If it
-- fails after it has submitted, the journal that was saved last is not marked; the one in memory may
-- be, as when that save itself fails.
pub simulate_and_submit-Story :
    {W : Type 0} (deps : SubmitApi W) (dry_run : Bool) (net : W) (j : Journal)
    → let t = simulate_and_submit deps dry_run (begin net j) in
      Story dry_run j t.0 t.1.world.journal t.1.world.events
unfolding simulate_and_submit submit_prepared call_as set_journal get_journal save_journal outside
    plain throw pure ◌>>=◌
simulate_and_submit-Story deps dry_run net j = elim (Option-cases (deps.simulate net).0) [
  | inl none_given ↦ rw none_given (inl refl)
  | inr (link, given) ↦
      let w₁ = (deps.simulate net).1 in
      let saved₁ = deps.save (simulated_journal j link) w₁ in
      let sent = deps.submit saved₁.1 in
      elim (Bool-cases (starts_with link shared_simulation)) [
        | inr other ↦ rw (given, other) (inl refl)
        | inl shared ↦ elim (Bool-cases saved₁.0) [
          | inr unsaved ↦ rw (given, shared, unsaved) (inl refl)
          | inl kept ↦ elim (Bool-cases (not dry_run && not j.proposed)) [
            | inr idle ↦ rw (given, shared, kept, idle) (link, shared, inr (idle, refl, refl))
            | inl go ↦ elim (Option-cases sent.0) [
              | inl lost ↦
                  rw (given, shared, kept, go, lost) (inr (link, shared, refl, go, inl refl))
              | inr (hash, made) ↦ elim (Bool-cases (equal hash j.prepared_hash)) [
                | inr differs ↦
                    rw (given, shared, kept, go, made, differs)
                      (inr (link, shared, refl, go, inl refl))
                | inl same ↦ elim (Bool-cases (deps.save (proposed_journal j link) sent.1).0) [
                  | inl marked ↦
                      rw (given, shared, kept, go, made, same, marked)
                        (link, shared, inl (go, refl, refl))
                  | inr unmarked ↦
                      rw (given, shared, kept, go, made, same, unmarked)
                        (inr (link, shared, refl, go, inr refl))
                ]
              ]
            ]
          ]
        ]
      ]
]
