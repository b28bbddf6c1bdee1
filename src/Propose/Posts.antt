-- ===== src/Propose/Posts.antt =====
-- What `proposeBatch` proposes, in a small logic for steps.
mod Logic
pub use Logic.*
use mathlib.Core.List.{append-nil, append_assoc}
use nest_protocol.Base.{
  ℕ, ◌≡◌, refl, ap, ◌∙◌, sym, subst, Bool, true, false, Option, none, some, List, [], ◌∷◌, ◌++◌,
  if◌then◌else◌, Bool-cases, inl, inr,
}
use nest_protocol.Base.Text.{Text}
use nest_protocol.Base.Outcome.{Result, ok, err}
use nest_protocol.Split.Types.{SafeTx}
use nest_protocol.Propose.Step.{
  SafeApi, State, Step, Proposal, pure, throw, proceed, ◌>>=◌, attempt, caught, outside, plain,
  or_throw, require, ProposeResult, choose_nonce, post, propose_batch,
}

-- A nonce that was asked for is the one that is used.
abbrev pub Asked : Option ℕ → ℕ → Type 0
Asked none used = Unit
Asked (some n) used = used ≡ n

abbrev pub one : ℕ → List SafeTx → List Proposal
one nonce txs = record { nonce = nonce; txs = txs } ∷ []

-- An accepted proposal is one of all the calls; a failed one is none.
abbrev pub Accepted : Option ℕ → List SafeTx → Result Text ProposeResult → List Proposal → Type 0
Accepted requested txs (err e) new = new ≡ []
Accepted requested txs (ok r) new = (new ≡ one r.nonce txs) × Asked requested r.nonce

-- The same of a proposal whose failure is caught.
abbrev pub Tried :
    Option ℕ → List SafeTx → Result Text (Option ProposeResult) → List Proposal → Type 0
Tried requested txs (err e) new = new ≡ []
Tried requested txs (ok none) new = new ≡ []
Tried requested txs (ok (some r)) new = (new ≡ one r.nonce txs) × Asked requested r.nonce

abbrev Posted : ℕ → List SafeTx → Result Text (Unit {0}) → List Proposal → Type 0
Posted nonce txs (err e) new = new ≡ []
Posted nonce txs (ok u) new = new ≡ one nonce txs

abbrev Chosen : Option ℕ → Result Text ℕ → List Proposal → Type 0
Chosen requested = Gives (Asked requested)

module _ {W : Type 0} (api : SafeApi W) where
  pub IsQuiet-or_throw : {A : Type 0} (o : Option A) → IsQuiet (or_throw api o)
  unfolding or_throw pure throw
  IsQuiet-or_throw none s = ([], sym (append-nil s.posted), refl)
  IsQuiet-or_throw (some a) s = ([], sym (append-nil s.posted), refl)

  IsQuiet-require : (b : Bool) → IsQuiet (require api b)
  unfolding require pure throw
  IsQuiet-require true s = ([], sym (append-nil s.posted), refl)
  IsQuiet-require false s = ([], sym (append-nil s.posted), refl)

  or_throw-Chosen : (o : Option ℕ) → Holds (Chosen none) (or_throw api o)
  unfolding or_throw pure throw
  or_throw-Chosen none s = ([], sym (append-nil s.posted), refl)
  or_throw-Chosen (some n) s = ([], sym (append-nil s.posted), (refl, tt))

  served-Chosen :
      (o : Option ℕ)
      → Holds (Chosen none) (elim o as (λ _. Step W ℕ) [
        | some n ↦ pure n
        | none ↦ outside api.get_nonce >>= λ onchain. or_throw api onchain
      ])
  served-Chosen none s =
      Holds-quiet (Chosen none) _ _ (IsQuiet-outside api.get_nonce) or_throw-Chosen (λ e. refl) s
  served-Chosen (some n) s = Holds-pure (Chosen none) n (refl, tt) s

  choose_nonce-Holds :
      (requested : Option ℕ) → Holds (Chosen requested) (choose_nonce api requested)
  unfolding choose_nonce
  choose_nonce-Holds (some n) s = Holds-pure (Chosen (some n)) n (refl, refl) s
  choose_nonce-Holds none s =
      Holds-quiet (Chosen none) _ _ (IsQuiet-outside api.get_next_nonce) served-Chosen (λ e. refl) s

  post-Holds :
      (nonce : ℕ) (txs : List SafeTx) (hash : Text)
      → Holds (Posted nonce txs) (post api nonce txs hash)
  unfolding post
  post-Holds nonce txs hash s =
      elim (Bool-cases (api.propose_transaction nonce txs hash s.world).0) [
        | inl accepted ↦ rw accepted (one nonce txs, refl, refl)
        | inr refused ↦ rw refused ([], sym (append-nil s.posted), refl)
      ]

  -- A proposal in earnest.
  pub propose_batch-Holds :
      (txs : List SafeTx) (requested : Option ℕ)
      → Holds (Accepted requested txs) (propose_batch api txs false requested)
  unfolding propose_batch throw
  propose_batch-Holds [] requested s = ([], sym (append-nil s.posted), refl)
  propose_batch-Holds (tx ∷ txs) requested s =
      let Q = Accepted requested (tx ∷ txs) in
      Holds-quiet Q _ _ (IsQuiet-outside api.init)
        (λ ready.
          Holds-quiet Q _ _ (IsQuiet-require ready)
            (λ _.
              Holds-given (Asked requested) Q _ _ (choose_nonce-Holds requested)
                (λ n chosen.
                  Holds-quiet Q _ _ (IsQuiet-outside (api.transaction_hash n (tx ∷ txs)))
                    (λ created.
                      Holds-quiet Q _ _ (IsQuiet-or_throw created)
                        (λ hash.
                          Holds-bind (Posted n (tx ∷ txs)) Q _ _ (post-Holds n (tx ∷ txs) hash)
                            (λ _ made accepted.
                              Holds-pure (λ b later. Q b (made ++ later)) _
                                (append-nil made ∙ accepted, chosen))
                            (λ e made refused. refused))
                        (λ e. refl))
                    (λ e. refl))
                (λ e. refl))
            (λ e. refl))
        (λ e. refl) s

  -- A proposal in earnest whose failure is caught.
  pub attempt-Tried :
      (txs : List SafeTx) (requested : Option ℕ)
      → Holds (Tried requested txs) (attempt (propose_batch api txs false requested))
  attempt-Tried txs requested =
      Holds-attempt (Accepted requested txs) (Tried requested txs) _
        (propose_batch-Holds txs requested) (λ r new h. h) (λ e new h. h)

  -- A dry run of one.
  pub propose_batch-IsQuiet :
      (txs : List SafeTx) (requested : Option ℕ) → IsQuiet (propose_batch api txs true requested)
  unfolding propose_batch throw
  propose_batch-IsQuiet [] requested s = ([], sym (append-nil s.posted), refl)
  propose_batch-IsQuiet (tx ∷ txs) requested s =
      let Q = λ (r : Result Text ProposeResult) (new : List Proposal). new ≡ [] in
      Holds-quiet Q _ _ (IsQuiet-outside api.init)
        (λ ready.
          Holds-quiet Q _ _ (IsQuiet-require ready)
            (λ _.
              Holds-given (Asked requested) Q _ _ (choose_nonce-Holds requested)
                (λ n chosen.
                  Holds-quiet Q _ _ (IsQuiet-outside (api.transaction_hash n (tx ∷ txs)))
                    (λ created.
                      Holds-quiet Q _ _ (IsQuiet-or_throw created) (λ hash. Holds-pure Q _ refl)
                        (λ e. refl))
                    (λ e. refl))
                (λ e. refl))
            (λ e. refl))
        (λ e. refl) s
