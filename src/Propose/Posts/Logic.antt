-- ===== src/Propose/Posts/Logic.antt =====
-- A small logic for steps: what the run has proposed when a step ends, and how it ended.
use mathlib.Core.List.{append-nil, append_assoc}
use nest_protocol.Base.{
  ◌≡◌, refl, ap, ◌∙◌, sym, subst, Bool, true, false, Option, none, some, List, [], ◌++◌,
  if◌then◌else◌,
}
use nest_protocol.Base.Text.{Text}
use nest_protocol.Base.Outcome.{Result, ok, err}
use nest_protocol.Propose.Step.{
  State, Step, Proposal, pure, throw, proceed, ◌>>=◌, attempt, caught, outside, plain,
}

-- A step that proposes nothing, and gives values with `P`.
abbrev pub Gives : {A : Type 0} → (A → Type 0) → Result Text A → List Proposal → Type 0
Gives P (err e) new = new ≡ []
Gives P (ok a) new = (new ≡ []) × P a

module _ {W : Type 0} where
  -- From `s`, a step has ended in `r` with new proposals as `Q` says.
  abbrev pub Ended :
      {A : Type 0}
      → (Result Text A → List Proposal → Type 0)
      → State W
      → Result Text A × State W
      → Type 0
  Ended Q s r = (new : List Proposal) × (r.1.posted ≡ s.posted ++ new) × Q r.0 new

  abbrev pub Holds : {A : Type 0} → (Result Text A → List Proposal → Type 0) → Step W A → Type 0
  Holds Q m = (s : State W) → Ended Q s (m s)

  -- A step that proposes nothing.
  abbrev pub IsQuiet : {A : Type 0} → Step W A → Type 0
  IsQuiet m = Holds (λ r new. new ≡ []) m

  Ended-proceed :
      {A B : Type 0} (P : Result Text A → List Proposal → Type 0)
      (Q : Result Text B → List Proposal → Type 0) (s : State W) (r : Result Text A × State W)
      (k : A → Step W B)
      → Ended P s r
      → ((a : A) (new : List Proposal) → P (ok a) new → Holds (λ b later. Q b (new ++ later)) (k a))
      → ((e : Text) (new : List Proposal) → P (err e) new → Q (err e) new)
      → Ended Q s (proceed r k)
  Ended-proceed P Q s (err e, t) k h next fails = (h.0, h.1, fails e h.0 h.2)
  Ended-proceed P Q s (ok a, t) k h next fails =
      let rest = next a h.0 h.2 t in
      (h.0 ++ rest.0, rest.1 ∙ ap (λ p. p ++ rest.0) h.1 ∙ append_assoc s.posted h.0 rest.0, rest.2)

  pub Holds-bind :
      {A B : Type 0} (P : Result Text A → List Proposal → Type 0)
      (Q : Result Text B → List Proposal → Type 0) (m : Step W A) (k : A → Step W B)
      → Holds P m
      → ((a : A) (new : List Proposal) → P (ok a) new → Holds (λ b later. Q b (new ++ later)) (k a))
      → ((e : Text) (new : List Proposal) → P (err e) new → Q (err e) new)
      → Holds Q (m >>= k)
  unfolding ◌>>=◌
  Holds-bind P Q m k h next fails s = Ended-proceed P Q s (m s) k (h s) next fails

  -- After a quiet step, what holds of the rest holds of both.
  pub Holds-quiet :
      {A B : Type 0} (Q : Result Text B → List Proposal → Type 0) (m : Step W A) (k : A → Step W B)
      → IsQuiet m
      → ((a : A) → Holds Q (k a))
      → ((e : Text) → Q (err e) [])
      → Holds Q (m >>= k)
  Holds-quiet Q m k h next fails =
      Holds-bind (λ r new. new ≡ []) Q m k h
        (λ a new none_yet.
          subst (λ (p : List Proposal). Holds (λ b later. Q b (p ++ later)) (k a)) (sym none_yet)
            (next a))
        (λ e new none_yet. subst (Q (err e)) (sym none_yet) (fails e))

  -- The same with what is known of its value.
  pub Holds-given :
      {A B : Type 0} (P : A → Type 0) (Q : Result Text B → List Proposal → Type 0) (m : Step W A)
      (k : A → Step W B)
      → Holds (Gives P) m
      → ((a : A) → P a → Holds Q (k a))
      → ((e : Text) → Q (err e) [])
      → Holds Q (m >>= k)
  Holds-given P Q m k h next fails =
      Holds-bind (Gives P) Q m k h
        (λ a new given.
          subst (λ (p : List Proposal). Holds (λ b later. Q b (p ++ later)) (k a)) (sym given.0)
            (next a given.1))
        (λ e new none_yet. subst (Q (err e)) (sym none_yet) (fails e))

  pub Holds-weaken :
      {A : Type 0} (P Q : Result Text A → List Proposal → Type 0) (m : Step W A)
      → Holds P m
      → ((r : Result Text A) (new : List Proposal) → P r new → Q r new)
      → Holds Q m
  Holds-weaken P Q m h weaker s = let e = h s in (e.0, e.1, weaker (m s).0 e.0 e.2)

  pub Holds-if :
      {A : Type 0} (Q : Result Text A → List Proposal → Type 0) (b : Bool) (m k : Step W A)
      → (b ≡ true → Holds Q m)
      → (b ≡ false → Holds Q k)
      → Holds Q (if b then m else k)
  Holds-if Q true m k h g = h refl
  Holds-if Q false m k h g = g refl

  pub Holds-pure :
      {A : Type 0} (Q : Result Text A → List Proposal → Type 0) (a : A)
      → Q (ok a) []
      → Holds Q (pure a)
  unfolding pure
  Holds-pure Q a h s = ([], sym (append-nil s.posted), h)

  pub IsQuiet-outside : {A : Type 0} (call : W → A × W) → IsQuiet (outside call)
  unfolding outside
  IsQuiet-outside call s = ([], sym (append-nil s.posted), refl)

  pub IsQuiet-plain : {A : Type 0} (r : Result Text A) → IsQuiet (plain {W = W} r)
  unfolding plain throw
  IsQuiet-plain (err e) s = ([], sym (append-nil s.posted), refl)
  IsQuiet-plain (ok a) s = Holds-pure (λ r new. new ≡ []) a refl s

  pub plain-bind :
      {A B : Type 0} (r : Result Text A) (a : A) (k : A → Step W B) (s : State W)
      → r ≡ ok a
      → (plain r >>= k) s ≡ k a s
  unfolding plain ◌>>=◌ pure
  plain-bind r a k s h = rw h refl

  Ended-caught :
      {A : Type 0} (P : Result Text A → List Proposal → Type 0)
      (Q : Result Text (Option A) → List Proposal → Type 0) (s : State W)
      (r : Result Text A × State W)
      → Ended P s r
      → ((a : A) (new : List Proposal) → P (ok a) new → Q (ok (some a)) new)
      → ((e : Text) (new : List Proposal) → P (err e) new → Q (ok none) new)
      → Ended Q s (caught r)
  Ended-caught P Q s (err e, t) h made failed = (h.0, h.1, failed e h.0 h.2)
  Ended-caught P Q s (ok a, t) h made failed = (h.0, h.1, made a h.0 h.2)

  pub Holds-attempt :
      {A : Type 0} (P : Result Text A → List Proposal → Type 0)
      (Q : Result Text (Option A) → List Proposal → Type 0) (m : Step W A)
      → Holds P m
      → ((a : A) (new : List Proposal) → P (ok a) new → Q (ok (some a)) new)
      → ((e : Text) (new : List Proposal) → P (err e) new → Q (ok none) new)
      → Holds Q (attempt m)
  unfolding attempt
  Holds-attempt P Q m h made failed s = Ended-caught P Q s (m s) (h s) made failed
