-- ===== src/Deploy/Targets/Unique.antt =====
-- `uniqAddresses` of tools/deploy.ts: valid addresses, each once up to the case of its letters.
use nest_protocol.Base.{
  ◌≡◌, sym, ap, ◌∙◌, true, false, ◌||◌, List, [], ◌∷◌, map, Bool-cases, inl, inr, arith,
}
use nest_protocol.Base.Text.{Text, text_eq, text_eq→eq, text_eq_refl, to_lower, member}
use nest_protocol.Deploy.Targets.{is_address, uniq_from, uniq_addresses}

-- Valid addresses, none of them again after itself or after a key of `seen`.
abbrev pub AreNew : List Text → List Text → Type 0
AreNew seen [] = Unit
AreNew seen (a ∷ addrs) =
    (is_address a ≡ true) × (member (to_lower a) seen ≡ false) × AreNew (to_lower a ∷ seen) addrs

uniq_from-AreNew : (seen addrs : List Text) → AreNew seen (uniq_from seen addrs)
unfolding uniq_from
uniq_from-AreNew seen [] = tt
uniq_from-AreNew seen (a ∷ addrs) = elim (Bool-cases (is_address a)) [
  | inr bad ↦ rw bad (uniq_from-AreNew seen addrs)
  | inl good ↦ elim (Bool-cases (member (to_lower a) seen)) [
    | inl old ↦ rw good (rw old (uniq_from-AreNew seen addrs))
    | inr new ↦ rw good (rw new (good, new, uniq_from-AreNew (to_lower a ∷ seen) addrs))
  ]
]

uniq_from-from :
    (seen addrs : List Text) (x : Text)
    → member x (uniq_from seen addrs) ≡ true
    → member x addrs ≡ true
unfolding uniq_from member
uniq_from-from seen [] x h = h
uniq_from-from seen (a ∷ addrs) x h =
    let skip = uniq_from-from seen addrs x in
    let more = uniq_from-from (to_lower a ∷ seen) addrs x in ground arith

uniq_from-covers :
    (seen addrs : List Text) (x : Text)
    → member x addrs ≡ true
    → is_address x ≡ true
    → (member (to_lower x) seen || member (to_lower x) (map to_lower (uniq_from seen addrs))) ≡ true
unfolding uniq_from member
uniq_from-covers seen [] x h valid = ground arith
uniq_from-covers seen (a ∷ addrs) x h valid =
    let skip = uniq_from-covers seen addrs x in
    let more = uniq_from-covers (to_lower a ∷ seen) addrs x in
    elim (Bool-cases (text_eq x a)) [
      | inr other ↦ ground arith
      | inl same ↦
          let eq = text_eq→eq x a same in
          let valid_a = ap is_address (sym eq) ∙ valid in
          let key = ap (λ y. text_eq (to_lower y) (to_lower a)) eq ∙ text_eq_refl (to_lower a) in
          let seen_a = ap (λ y. member (to_lower y) seen) eq in ground arith
    ]

-- The addresses that are kept are valid, no two the same up to the case of their letters, and each
-- is one of those given. Of those given, every valid one is kept, up to the case of its letters.
pub uniq_addresses-AreNew :
    (addrs : List Text)
    → AreNew [] (uniq_addresses addrs)
      × ((x : Text) → member x (uniq_addresses addrs) ≡ true → member x addrs ≡ true)
      × ((x : Text)
          → member x addrs ≡ true
          → is_address x ≡ true
          → member (to_lower x) (map to_lower (uniq_addresses addrs)) ≡ true)
unfolding uniq_addresses member
uniq_addresses-AreNew addrs =
    (uniq_from-AreNew [] addrs, uniq_from-from [] addrs, uniq_from-covers [] addrs)
