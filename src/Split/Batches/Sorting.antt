-- ===== src/Split/Batches/Sorting.antt =====
-- Sorting the deployment's transactions by the class of their selector.
use nest_protocol.Base.{
  ℕ, suc, ◌≡◌, refl, ◌∙◌, Bool, true, false, ◌||◌, not, List, [], ◌∷◌, ◌++◌, keep, All,
  if◌then◌else◌, arith, Bool-cases, inl, inr,
}
use mathlib.Core.List.{append-nil, append_assoc}
use nest_protocol.Base.Text.{member, Text, text_eq}
use nest_protocol.Base.Outcome.{ok}
use nest_protocol.Split.Types.{SafeTx}
use nest_protocol.Split.Selectors.{
  SelectorClass, caps, roles, lz, unknown, selector, classify, classify_selector, lz_selectors,
  eid_to_domain_selector, vault_dep_selectors, endpoint_selectors, extract_eid,
}
use nest_protocol.Split.Batches.{classify_all, add_class, Wired, wire_all, add_eid}

abbrev pub is_class : SelectorClass → SelectorClass → Bool
is_class caps caps = true
is_class roles roles = true
is_class lz lz = true
is_class unknown unknown = true
is_class _ _ = false

abbrev pub has_class : SelectorClass → SafeTx → Bool
has_class k tx = is_class k (classify tx.call_data)

-- A LayerZero transaction for the vault's own wiring, or for the endpoint.
abbrev pub for_vault : SafeTx → Bool
for_vault tx =
    text_eq (selector tx.call_data) eid_to_domain_selector
    || member (selector tx.call_data) vault_dep_selectors

-- The indices, from `i`, of the transactions of no known class.
abbrev pub unknown_from : ℕ → List SafeTx → List ℕ
unknown_from i [] = []
unknown_from i (tx ∷ txs) =
    let rest = unknown_from (suc i) txs in if has_class unknown tx then i ∷ rest else rest

-- What `add_class` does to transactions that are sorted already.
add_class-sorted :
    (k : SelectorClass) (i : ℕ) (tx : SafeTx) (cs rs ls : List SafeTx) (us : List ℕ)
    → add_class k i tx (record { caps_txs = cs; roles_txs = rs; lz_txs = ls; unknown_idx = us })
      ≡ record {
        caps_txs = if is_class caps k then tx ∷ cs else cs;
        roles_txs = if is_class roles k then tx ∷ rs else rs;
        lz_txs = if is_class lz k then tx ∷ ls else ls;
        unknown_idx = if is_class unknown k then i ∷ us else us;
      }
add_class-sorted caps i tx cs rs ls us = refl
add_class-sorted roles i tx cs rs ls us = refl
add_class-sorted lz i tx cs rs ls us = refl
add_class-sorted unknown i tx cs rs ls us = refl

pub classify_all_lem :
    (i : ℕ) (txs : List SafeTx)
    → classify_all i txs ≡ record {
      caps_txs = keep (has_class caps) txs;
      roles_txs = keep (has_class roles) txs;
      lz_txs = keep (has_class lz) txs;
      unknown_idx = unknown_from i txs;
    }
unfolding classify_all
classify_all_lem i [] = refl
classify_all_lem i (tx ∷ txs) = rw (classify_all_lem (suc i) txs) (
    add_class-sorted (classify tx.call_data) i tx (keep (has_class caps) txs)
      (keep (has_class roles) txs) (keep (has_class lz) txs) (unknown_from (suc i) txs))

-- Every LayerZero selector is one of the vault's or one of the endpoint's.
pub lz_covered :
    (s : Text)
    → member s lz_selectors ≡ true
    → (text_eq s eid_to_domain_selector || member s vault_dep_selectors)
        || member s endpoint_selectors
      ≡ true
unfolding member
lz_covered s h = ground arith

classify_selector-lz :
    (s : Text) → is_class lz (classify_selector s) ≡ true → member s lz_selectors ≡ true
unfolding classify_selector
classify_selector-lz s h = ground arith

-- What the endpoint does not take of the LayerZero transactions, the vault does.
endpoint_takes_rest :
    (tx : SafeTx)
    → has_class lz tx ≡ true
    → for_vault tx ≡ false
    → member (selector tx.call_data) endpoint_selectors ≡ true
unfolding classify
endpoint_takes_rest tx h away =
    let covered =
      lz_covered (selector tx.call_data) (classify_selector-lz (selector tx.call_data) h) in
    ground arith

-- The endpoint ids of some transactions, added to those of `es`.
abbrev pub eids_from : List SafeTx → List ℕ → List ℕ
eids_from [] es = es
eids_from (tx ∷ txs) es = eids_from txs (add_eid (extract_eid tx.call_data) es)

-- The loop over LayerZero transactions always returns, with them in two lists.
pub wire_all_lem :
    (txs : List SafeTx) (w : Wired)
    → All (λ tx. has_class lz tx ≡ true) txs
    → wire_all txs w
      ≡ ok (record {
        vault_lz_txs = w.vault_lz_txs ++ keep for_vault txs;
        endpoint_lz_txs = w.endpoint_lz_txs ++ keep (λ tx. not (for_vault tx)) txs;
        eids = eids_from txs w.eids;
      })
unfolding wire_all
wire_all_lem [] w h = rw (append-nil w.vault_lz_txs, append-nil w.endpoint_lz_txs) refl
wire_all_lem (tx ∷ txs) w h = elim (Bool-cases (for_vault tx)) [
  | inl vault ↦ rw vault (
      wire_all_lem txs
        (record w {
          vault_lz_txs = w.vault_lz_txs ++ tx ∷ [];
          eids = add_eid (extract_eid tx.call_data) w.eids;
        })
        h.1
      ∙ rw (append_assoc w.vault_lz_txs (tx ∷ []) (keep for_vault txs)) refl)
  | inr away ↦
      rw (away, endpoint_takes_rest tx h.0 away)
        (wire_all_lem txs
            (record w {
              endpoint_lz_txs = w.endpoint_lz_txs ++ tx ∷ [];
              eids = add_eid (extract_eid tx.call_data) w.eids;
            })
            h.1
          ∙ rw (append_assoc w.endpoint_lz_txs (tx ∷ []) (keep (λ tx. not (for_vault tx)) txs))
              refl)
]

pub keep-All {ℓ} : {A : Type ℓ} (p : A → Bool) (xs : List A) → All (λ x. p x ≡ true) (keep p xs)
keep-All p [] = tt
keep-All p (x ∷ xs) = elim (Bool-cases (p x)) [
  | inl passes ↦ rw passes (passes, keep-All p xs)
  | inr fails ↦ rw fails (keep-All p xs)
]
