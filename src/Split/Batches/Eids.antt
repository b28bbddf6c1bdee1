-- ===== src/Split/Batches/Eids.antt =====
-- The endpoint ids that `splitBatches` collects from the calldata of LayerZero transactions.
use nest_protocol.Base.{
  ℕ, zero, suc, ◌<◌, ◌≤◌, ◌≡◌, refl, sym, ap, ◌∙◌, subst, Bool, true, false, ◌&&◌, ◌||◌, Option,
  none, some, List, [], ◌∷◌, ◌++◌, All, All-append, take, drop, keep, leb, ltb, ◌==◌, ==_iff,
  length, if◌then◌else◌, arith, Bool-cases, Option-cases, inl, inr,
}
use nest_protocol.Base.Text.{Text, starts_with}
use nest_protocol.Base.Outcome.{ok}
use nest_protocol.Split.Types.{SafeTx, SplitOptions, SplitResult, Directory}
use nest_protocol.Split.Selectors.{
  lz, word_eid, extract_eid, extract_eid_from, parse_hex, sixty_zeros,
}
use nest_protocol.Split.Batches.{
  has_eid, add_eid, insert_eid, sort_eids, labels_text, eids_text, split_batches,
}
use nest_protocol.Split.Batches.Sorting.{eids_from, has_class}
use nest_protocol.Split.Batches.Returns.{deploy_txs, split-ok_inv}
use nest_protocol.Split.Batches.Sections.{IsAscending}

abbrev pub IsEid : ℕ → Type 0
IsEid n = (30000 ≤ n) × (n < 40000)

-- A test that an option's value, if it has one, is an endpoint id.
abbrev pub EidOrNone : Option ℕ → Type 0
EidOrNone none = Unit
EidOrNone (some n) = IsEid n

abbrev is_eid : ℕ → Option ℕ → Bool
is_eid n none = false
is_eid n (some m) = n == m

-- Some transaction has this id in its calldata.
abbrev pub any_eid : ℕ → List SafeTx → Bool
any_eid n [] = false
any_eid n (tx ∷ txs) = is_eid n (extract_eid tx.call_data) || any_eid n txs

or_comm : (a b : Bool) → (a || b) ≡ (b || a)
or_comm true true = refl
or_comm true false = refl
or_comm false true = refl
or_comm false false = refl

or_assoc : (a b c : Bool) → ((a || b) || c) ≡ (a || (b || c))
or_assoc true b c = refl
or_assoc false b c = refl

word_eid-EidOrNone : (word : Text) → EidOrNone (word_eid word)
unfolding word_eid
word_eid-EidOrNone word = elim (Bool-cases (starts_with word sixty_zeros)) [
  | inr other ↦ rw other tt
  | inl small ↦ rw small (elim (Option-cases (parse_hex (drop 56 word))) [
    | inl unread ↦ rw unread tt
    | inr found ↦ rw found.1 (in_range found.0)
  ])
]
  where
    in_range : (v : ℕ) → EidOrNone (if leb 30000 v && ltb v 40000 then some v else none)
    in_range v = elim (Bool-cases (leb 30000 v && ltb v 40000)) [
      | inl inside ↦ rw inside (ground arith, ground arith)
      | inr outside ↦ rw outside tt
    ]

extract_eid_from-EidOrNone : (fuel : ℕ) (body : Text) → EidOrNone (extract_eid_from fuel body)
unfolding extract_eid_from
extract_eid_from-EidOrNone zero body = tt
extract_eid_from-EidOrNone (suc fuel) body = elim (Bool-cases (leb 64 (length body))) [
  | inr short ↦ rw short tt
  | inl whole ↦ rw whole (elim (Option-cases (word_eid (take 64 body))) [
    | inl absent ↦ rw absent (extract_eid_from-EidOrNone fuel (drop 64 body))
    | inr found ↦ rw found.1 (subst EidOrNone found.1 (word_eid-EidOrNone (take 64 body)))
  ])
]

extract_eid-EidOrNone : (call_data : Text) → EidOrNone (extract_eid call_data)
unfolding extract_eid
extract_eid-EidOrNone call_data =
    extract_eid_from-EidOrNone (suc (length (drop 10 call_data))) (drop 10 call_data)

has_eid-insert_eid :
    (k n : ℕ) (es : List ℕ) → has_eid k (insert_eid n es) ≡ (k == n || has_eid k es)
unfolding insert_eid has_eid
has_eid-insert_eid k n [] = refl
has_eid-insert_eid k n (m ∷ es) = ground (arith, has_eid-insert_eid k n es)

has_eid-sort_eids : (k : ℕ) (es : List ℕ) → has_eid k (sort_eids es) ≡ has_eid k es
unfolding sort_eids has_eid
has_eid-sort_eids k [] = refl
has_eid-sort_eids k (e ∷ es) =
    has_eid-insert_eid k e (sort_eids es) ∙ ap (λ b. k == e || b) (has_eid-sort_eids k es)

has_eid-append : (k n : ℕ) (es : List ℕ) → has_eid k (es ++ n ∷ []) ≡ (k == n || has_eid k es)
unfolding has_eid
has_eid-append k n [] = refl
has_eid-append k n (m ∷ es) = ground (arith, has_eid-append k n es)

has_eid-add_eid :
    (k : ℕ) (o : Option ℕ) (es : List ℕ) → has_eid k (add_eid o es) ≡ (has_eid k es || is_eid k o)
unfolding add_eid
has_eid-add_eid k none es = ground arith
has_eid-add_eid k (some n) es = elim (Bool-cases (has_eid n es)) [
  | inr new ↦ rw new (has_eid-append k n es ∙ or_comm (k == n) (has_eid k es))
  | inl old ↦ rw old (elim (Bool-cases (k == n)) [
    | inr other ↦ rw other (or_comm false (has_eid k es))
    | inl same ↦ (let found = ap (λ m. has_eid m es) ((==_iff k n).0 same) ∙ old in ground arith)
  ])
]

eids_from-has_eid :
    (k : ℕ) (txs : List SafeTx) (es : List ℕ)
    → has_eid k (eids_from txs es) ≡ (has_eid k es || any_eid k txs)
eids_from-has_eid k [] es = or_comm false (has_eid k es)
eids_from-has_eid k (tx ∷ txs) es =
    let rest = eids_from-has_eid k txs (add_eid (extract_eid tx.call_data) es) in
    let step = has_eid-add_eid k (extract_eid tx.call_data) es in
    rest
    ∙ ap (λ b. b || any_eid k txs) step
    ∙ or_assoc (has_eid k es) (is_eid k (extract_eid tx.call_data)) (any_eid k txs)

-- No number twice.
abbrev AreDistinct : List ℕ → Type 0
AreDistinct [] = Unit
AreDistinct (e ∷ es) = (has_eid e es ≡ false) × AreDistinct es

append-AreDistinct :
    (n : ℕ) (es : List ℕ) → has_eid n es ≡ false → AreDistinct es → AreDistinct (es ++ n ∷ [])
unfolding has_eid
append-AreDistinct n [] new h = (refl, tt)
append-AreDistinct n (m ∷ es) new h =
    let here = has_eid-append m n es in (ground arith, append-AreDistinct n es (ground arith) h.1)

add_eid-AreDistinct : (o : Option ℕ) (es : List ℕ) → AreDistinct es → AreDistinct (add_eid o es)
unfolding add_eid
add_eid-AreDistinct none es h = h
add_eid-AreDistinct (some n) es h = elim (Bool-cases (has_eid n es)) [
  | inl old ↦ rw old h
  | inr new ↦ rw new (append-AreDistinct n es new h)
]

eids_from-AreDistinct :
    (txs : List SafeTx) (es : List ℕ) → AreDistinct es → AreDistinct (eids_from txs es)
eids_from-AreDistinct [] es h = h
eids_from-AreDistinct (tx ∷ txs) es h =
    eids_from-AreDistinct txs (add_eid (extract_eid tx.call_data) es)
      (add_eid-AreDistinct (extract_eid tx.call_data) es h)

insert_eid-All : (P : ℕ → Type 0) (n : ℕ) (es : List ℕ) → P n → All P es → All P (insert_eid n es)
unfolding insert_eid
insert_eid-All P n [] h k = (h, tt)
insert_eid-All P n (m ∷ es) h k = elim (Bool-cases (leb n m)) [
  | inl first ↦ rw first (h, k)
  | inr later ↦ rw later (k.0, insert_eid-All P n es h k.1)
]

sort_eids-All : (P : ℕ → Type 0) (es : List ℕ) → All P es → All P (sort_eids es)
unfolding sort_eids
sort_eids-All P [] h = tt
sort_eids-All P (e ∷ es) h = insert_eid-All P e (sort_eids es) h.0 (sort_eids-All P es h.1)

All-below : (n m : ℕ) (es : List ℕ) → n < m → All (λ e. m < e) es → All (λ e. n < e) es
All-below n m [] h k = tt
All-below n m (e ∷ es) h k = (omega arith, All-below n m es h k.1)

insert_eid-IsAscending :
    (n : ℕ) (es : List ℕ) → has_eid n es ≡ false → IsAscending es → IsAscending (insert_eid n es)
unfolding insert_eid has_eid
insert_eid-IsAscending n [] new h = (tt, tt)
insert_eid-IsAscending n (m ∷ es) new h = elim (Bool-cases (leb n m)) [
  | inl first ↦
      let below : n < m = ground arith in rw first ((below, All-below n m es below h.0), h)
  | inr later ↦
      let above : m < n = ground arith in
      rw later
        (insert_eid-All (λ e. m < e) n es above h.0, insert_eid-IsAscending n es (ground arith) h.1)
]

sort_eids-IsAscending : (es : List ℕ) → AreDistinct es → IsAscending (sort_eids es)
unfolding sort_eids
sort_eids-IsAscending [] h = tt
sort_eids-IsAscending (e ∷ es) h =
    insert_eid-IsAscending e (sort_eids es) (has_eid-sort_eids e es ∙ h.0)
      (sort_eids-IsAscending es h.1)

add_eid-IsEid : (o : Option ℕ) (es : List ℕ) → EidOrNone o → All IsEid es → All IsEid (add_eid o es)
unfolding add_eid
add_eid-IsEid none es k h = h
add_eid-IsEid (some n) es k h = elim (Bool-cases (has_eid n es)) [
  | inl old ↦ rw old h
  | inr new ↦ rw new (All-append IsEid es (n ∷ []) h (k, tt))
]

eids_from-IsEid : (txs : List SafeTx) (es : List ℕ) → All IsEid es → All IsEid (eids_from txs es)
eids_from-IsEid [] es h = h
eids_from-IsEid (tx ∷ txs) es h =
    eids_from-IsEid txs (add_eid (extract_eid tx.call_data) es)
      (add_eid-IsEid (extract_eid tx.call_data) es (extract_eid-EidOrNone tx.call_data) h)

-- The label of a split that returned names the endpoint ids of the deployment's LayerZero
-- transactions, each once and in ascending order, all from 30000 up and below 40000: it names a
-- number exactly when one of these transactions has it as the id in its calldata.
pub split_eids :
    (now : ℕ) (opts : SplitOptions) (dir : Directory) (r : SplitResult × Directory)
    → split_batches now opts dir ≡ ok r
    → (es : List ℕ) × (r.0.eids_label ≡ labels_text es)
      × IsAscending es
      × All IsEid es
      × ((n : ℕ) → has_eid n es ≡ any_eid n (keep (has_class lz) (deploy_txs opts)))
unfolding eids_text has_eid
split_eids now opts dir r returned =
    let inverted = split-ok_inv now opts dir returned in
    let txs = keep (has_class lz) (deploy_txs opts) in
    let found = eids_from txs [] in
    (
      sort_eids found,
      sym (ap (λ x. x.0.eids_label) inverted.4),
      sort_eids-IsAscending found (eids_from-AreDistinct txs [] tt),
      sort_eids-All IsEid found (eids_from-IsEid txs [] tt),
      λ n. has_eid-sort_eids n found ∙ eids_from-has_eid n txs [],
    )
