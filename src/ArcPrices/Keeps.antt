-- ===== src/ArcPrices/Keeps.antt =====
-- A small logic for the steps of the price sync: what they keep of the world outside, and what has
-- come to hold of it when they end.
use nest_protocol.Base.{
  ◌≡◌, refl, Bool, true, false, List, [], ◌∷◌, if◌then◌else◌, Option, none, some,
}
use nest_protocol.Base.Text.{Text, txt}
use nest_protocol.Base.Outcome.{Result, ok, err}
use nest_protocol.Propose.Step.{
  State, Step, pure, throw, proceed, ◌>>=◌, attempt, caught, outside, plain,
}
use nest_protocol.ArcPrices.Api.{
  Sync, Outside, Report, Entry, ask, change, get_report, set_report, save,
}
use nest_protocol.ArcPrices.Run.{mark, for_each}

module _ {W : Type 0} (P : W → Type 0) where
  abbrev pub Keeps : {A : Type 0} → Step (Sync W) A → Type 0
  Keeps m = (s : State (Sync W)) → P s.world.net → P (m s).1.world.net

  proceed-Keeps :
      {A B : Type 0} (k : A → Step (Sync W) B) (r : Result Text A × State (Sync W))
      → P r.1.world.net
      → ((a : A) → r.0 ≡ ok a → Keeps (k a))
      → P (proceed r k).1.world.net
  proceed-Keeps k (err e, s) h g = h
  proceed-Keeps k (ok a, s) h g = g a refl s h

  pub Keeps-bind :
      {A B : Type 0} (m : Step (Sync W) A) (k : A → Step (Sync W) B)
      → Keeps m
      → ((a : A) → Keeps (k a))
      → Keeps (m >>= k)
  unfolding ◌>>=◌
  Keeps-bind m k h g s holds = proceed-Keeps k (m s) (h s holds) (λ a _. g a)

  pub Keeps-pure : {A : Type 0} (a : A) → Keeps (pure a)
  unfolding pure
  Keeps-pure a s holds = holds

  pub Keeps-throw : (A : Type 0) (e : Text) → Keeps (throw {A = A} e)
  unfolding throw
  Keeps-throw A e s holds = holds

  pub Keeps-plain : {A : Type 0} (r : Result Text A) → Keeps (plain r)
  unfolding plain
  Keeps-plain {A} (err e) = Keeps-throw A e
  Keeps-plain (ok a) = Keeps-pure a

  -- After plain code, what follows from its value may be used.
  pub Keeps-given :
      {A B : Type 0} (r : Result Text A) (k : A → Step (Sync W) B)
      → ((a : A) → r ≡ ok a → Keeps (k a))
      → Keeps (plain r >>= k)
  unfolding plain ◌>>=◌ throw pure
  Keeps-given (err e) k g s holds = holds
  Keeps-given (ok a) k g s holds = g a refl s holds

  pub Keeps-if :
      {A : Type 0} (b : Bool) (m k : Step (Sync W) A)
      → (b ≡ true → Keeps m)
      → Keeps k
      → Keeps (if b then m else k)
  Keeps-if true m k h g = h refl
  Keeps-if false m k h g = g

  caught-Keeps :
      {A : Type 0} (r : Result Text A × State (Sync W)) → P r.1.world.net → P (caught r).1.world.net
  caught-Keeps (err e, s) h = h
  caught-Keeps (ok a, s) h = h

  pub Keeps-attempt : {A : Type 0} (m : Step (Sync W) A) → Keeps m → Keeps (attempt m)
  unfolding attempt
  Keeps-attempt m h s holds = caught-Keeps (m s) (h s holds)

  -- A call of the outside that keeps it.
  abbrev pub IsQuiet : {A : Type 0} → (W → Option A × W) → Type 0
  IsQuiet call = (w : W) → P w → P (call w).1

  Keeps-on_net :
      {A : Type 0} (call : W → Option A × W)
      → IsQuiet call
      → Keeps (outside (λ (w : Sync W). ((call w.net).0, record w { net = (call w.net).1 })))
  unfolding outside
  Keeps-on_net call quiet s holds = quiet s.world.net holds

  Keeps-answered :
      {A : Type 0} (o : Option A)
      → Keeps
          (elim o as (λ _. Step (Sync W) A) [ none ↦ throw (txt "call failed") | some a ↦ pure a ])
  Keeps-answered {A} none = Keeps-throw A (txt "call failed")
  Keeps-answered (some a) = Keeps-pure a

  pub Keeps-ask : {A : Type 0} (call : W → Option A × W) → IsQuiet call → Keeps (ask call)
  unfolding ask
  Keeps-ask call quiet = Keeps-bind _ _ (Keeps-on_net call quiet) Keeps-answered

  pub Keeps-get_report : Keeps get_report
  unfolding get_report outside
  Keeps-get_report s holds = holds

  pub Keeps-set_report : (f : Report → Report) → Keeps (set_report f)
  unfolding set_report change outside
  Keeps-set_report f s holds = holds

  Keeps-saved : (r : Report) → Keeps (change (λ (w : Sync W). record w { saved = some r }))
  unfolding change outside
  Keeps-saved r s holds = holds

  pub Keeps-save :
      (out : Outside W) → ((r : Report) → IsQuiet (out.write_report r)) → Keeps (save out)
  unfolding save
  Keeps-save out quiet =
      Keeps-bind _ _ Keeps-get_report
        (λ r. Keeps-bind _ _ (Keeps-ask _ (quiet r)) (λ _. Keeps-saved r))

  pub Keeps-mark : (symbol : Text) (f : Entry → Entry) → Keeps (mark symbol f)
  unfolding mark
  Keeps-mark symbol f = Keeps-set_report _

  pub Keeps-for_each :
      {A : Type 0} (xs : List A) (f : A → Step (Sync W) (Unit {0}))
      → ((x : A) → Keeps (f x))
      → Keeps (for_each xs f)
  unfolding for_each
  Keeps-for_each [] f h = Keeps-pure tt
  Keeps-for_each (x ∷ xs) f h = Keeps-bind _ _ (h x) (λ _. Keeps-for_each xs f h)

-- From worlds in which P holds, the step ends in one in which S holds.
module _ {W : Type 0} (S : W → Type 0) where
  abbrev pub Leads : {A : Type 0} → (W → Type 0) → Step (Sync W) A → Type 0
  Leads P m = (s : State (Sync W)) → P s.world.net → S (m s).1.world.net

  module _ (P : W → Type 0) (weaker : (w : W) → P w → S w) where
    proceed-Leads :
        {A B : Type 0} (k : A → Step (Sync W) B) (r : Result Text A × State (Sync W))
        → P r.1.world.net
        → ((a : A) → Leads P (k a))
        → S (proceed r k).1.world.net
    proceed-Leads k (err e, s) h g = weaker s.world.net h
    proceed-Leads k (ok a, s) h g = g a s h

    pub Leads-kept :
        {A B : Type 0} (m : Step (Sync W) A) (k : A → Step (Sync W) B)
        → Keeps P m
        → ((a : A) → Leads P (k a))
        → Leads P (m >>= k)
    unfolding ◌>>=◌
    Leads-kept m k h g s holds = proceed-Leads k (m s) (h s holds) g

    pub Leads-given :
        {A B : Type 0} (r : Result Text A) (k : A → Step (Sync W) B)
        → ((a : A) → r ≡ ok a → Leads P (k a))
        → Leads P (plain r >>= k)
    unfolding plain ◌>>=◌ throw pure
    Leads-given (err e) k g s holds = weaker s.world.net holds
    Leads-given (ok a) k g s holds = g a refl s holds

    pub Leads-if :
        {A : Type 0} (b : Bool) (m k : Step (Sync W) A)
        → (b ≡ true → Leads P m)
        → Leads P k
        → Leads P (if b then m else k)
    Leads-if true m k h g = h refl
    Leads-if false m k h g = g

  answered-Leads :
      {A B : Type 0} (Q : A → W → Type 0) (o : Option A) (k : A → Step (Sync W) B)
      (s : State (Sync W))
      → (o ≡ none → S s.world.net)
      → ((a : A) → o ≡ some a → Q a s.world.net)
      → ((a : A) → Leads (Q a) (k a))
      → S
          ((elim o as (λ _. Step (Sync W) A) [ none ↦ throw (txt "call failed") | some a ↦ pure a ]
              >>= k)
            s).1.world.net
  unfolding ◌>>=◌ throw pure
  answered-Leads Q none k s fails answers g = fails refl
  answered-Leads Q (some a) k s fails answers g = g a s (answers a refl)

  -- After a call of the outside, what follows from its answer may be used.
  pub Leads-asked :
      {A B : Type 0} (P : W → Type 0) (Q : A → W → Type 0) (call : W → Option A × W)
      (k : A → Step (Sync W) B)
      → ((w : W) → P w → (call w).0 ≡ none → S (call w).1)
      → ((w : W) (a : A) → P w → (call w).0 ≡ some a → Q a (call w).1)
      → ((a : A) → Leads (Q a) (k a))
      → Leads P (ask call >>= k)
  unfolding ask ◌>>=◌ outside
  Leads-asked P Q call k fails answers g s holds =
      let w = s.world.net in
      answered-Leads Q (call w).0 k (record s { world = record s.world { net = (call w).1 } })
        (fails w holds) (λ a. answers w a holds) g
