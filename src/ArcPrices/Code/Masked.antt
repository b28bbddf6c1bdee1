-- ===== src/ArcPrices/Code/Masked.antt =====
-- Which code `assertSpokeCode` accepts, byte by byte.
use nest_protocol.Base.{
  ℕ, zero, suc, ◌+◌, ◌≤◌, ◌≡◌, ◌↔◌, refl, sym, ap, ◌∙◌, subst, Bool, true, false, ◌&&◌, ◌||◌, not,
  List, [], ◌∷◌, ◌==◌, leb, ltb, length, if◌then◌else◌, All, Bool-cases, inl, inr, Option-cases,
  Option, none, some, arith, leb→le, le→leb,
}
use nest_protocol.Base.Text.{Text, txt, text_eq, text_eq→eq, text_eq_refl}
use nest_protocol.Base.Outcome.{Result, ok, err}
use nest_protocol.ArcPrices.Code.{
  CodeRange, Artifact, from_hex, strip_0x, blank_range, fill_all, mask, same_bytes,
  assert_spoke_code,
}

-- The byte at a place, if the code is so long.
abbrev pub nth : ℕ → List ℕ → Option ℕ
nth i [] = none
nth zero (b ∷ bs) = some b
nth (suc i) (b ∷ bs) = nth i bs

-- A place in one of the ranges.
abbrev pub covered : List CodeRange → ℕ → Bool
covered [] i = false
covered (r ∷ rs) i = (leb r.start i && ltb i (r.start + r.length)) || covered rs i

-- Every range ends within a code.
abbrev pub Fits : List CodeRange → List ℕ → Type 0
Fits refs bs = All (λ (r : CodeRange). r.start + r.length ≤ length bs) refs

abbrev pub bytes : Text → List ℕ
bytes value = from_hex (strip_0x value)

abbrev blank : Bool → Option ℕ → Option ℕ
blank b none = none
blank true (some x) = some 0
blank false (some x) = some x

blank-if : (t : Bool) (b : ℕ) → some (if t then 0 else b) ≡ blank t (some b)
blank-if true b = refl
blank-if false b = refl

blank-blank : (a b : Bool) (o : Option ℕ) → blank a (blank b o) ≡ blank (b || a) o
blank-blank a b none = refl
blank-blank a true (some x) = blanked a
  where
    blanked : (a : Bool) → blank a (some 0) ≡ some 0
    blanked true = refl
    blanked false = refl
blank-blank a false (some x) = refl

blank-false : (o : Option ℕ) → blank false o ≡ o
blank-false none = refl
blank-false (some x) = refl

blank-length :
    (i : ℕ) (xs ys : List ℕ) → length xs ≡ length ys → blank true (nth i xs) ≡ blank true (nth i ys)
blank-length i [] [] h = refl
blank-length i [] (y ∷ ys) h = ground arith
blank-length i (x ∷ xs) [] h = ground arith
blank-length zero (x ∷ xs) (y ∷ ys) h = refl
blank-length (suc i) (x ∷ xs) (y ∷ ys) h = blank-length i xs ys (omega arith)

nth-ext : (xs ys : List ℕ) → ((i : ℕ) → nth i xs ≡ nth i ys) → xs ≡ ys
nth-ext [] [] h = refl
nth-ext [] (y ∷ ys) h = let first = h 0 in cc
nth-ext (x ∷ xs) [] h = let first = h 0 in cc
nth-ext (x ∷ xs) (y ∷ ys) h = let first = h 0 in let rest = nth-ext xs ys (λ i. h (suc i)) in cc

length-blank_range : (s e i : ℕ) (bs : List ℕ) → length (blank_range s e i bs) ≡ length bs
unfolding blank_range
length-blank_range s e i [] = refl
length-blank_range s e i (b ∷ bs) = ap suc (length-blank_range s e (suc i) bs)

nth-blank_range :
    (s e i j : ℕ) (bs : List ℕ)
    → nth j (blank_range s e i bs) ≡ blank (leb s (i + j) && ltb (i + j) e) (nth j bs)
unfolding blank_range
nth-blank_range s e i j [] = refl
nth-blank_range s e i zero (b ∷ bs) =
    let same : i + 0 ≡ i = omega arith in rw same (blank-if (leb s i && ltb i e) b)
nth-blank_range s e i (suc j) (b ∷ bs) =
    let same : suc i + j ≡ i + suc j = omega arith in
    nth-blank_range s e (suc i) j bs ∙ ap (λ k. blank (leb s k && ltb k e) (nth j bs)) same

-- What a code is after all ranges are filled.
abbrev IsFilled : List CodeRange → List ℕ → List ℕ → Type 0
IsFilled rs bs filled =
    (length filled ≡ length bs) × ((i : ℕ) → nth i filled ≡ blank (covered rs i) (nth i bs))

zero_add : (i : ℕ) → 0 + i ≡ i
zero_add i = omega arith

fill_all-IsFilled :
    (rs : List CodeRange) (bs : List ℕ)
    → Fits rs bs
    → (filled : List ℕ) × (fill_all rs bs ≡ some filled) × IsFilled rs bs filled
unfolding fill_all
fill_all-IsFilled [] bs fits = (bs, refl, (refl, λ i. sym (blank-false (nth i bs))))
fill_all-IsFilled (r ∷ rs) bs fits =
    let e = r.start + r.length in
    let once = blank_range r.start e 0 bs in
    let kept = length-blank_range r.start e 0 bs in
    let fits_once =
      subst (λ n. All (λ (x : CodeRange). x.start + x.length ≤ n) rs) (sym kept) fits.1 in
    let (filled, done, (measure, places)) = fill_all-IsFilled rs once fits_once in
    (
      filled,
      rw (le→leb e (length bs) fits.0) done,
      (
        measure ∙ kept,
        λ i.
            places i
            ∙ ap (λ o. blank (covered rs i) o)
                (nth-blank_range r.start e 0 i bs
                  ∙ ap (λ k. blank (leb r.start k && ltb k e) (nth i bs)) (zero_add i))
            ∙ blank-blank (covered rs i) (leb r.start i && ltb i e) (nth i bs),
      ),
    )

fill_all-Fits :
    (rs : List CodeRange) (bs filled : List ℕ) → fill_all rs bs ≡ some filled → Fits rs bs
unfolding fill_all
fill_all-Fits [] bs filled h = tt
fill_all-Fits (r ∷ rs) bs filled h =
    let e = r.start + r.length in
    elim (Bool-cases (leb e (length bs))) [
      | inr far ↦ (let none_filled = rw far at h in absurd (cc none_filled))
      | inl near ↦
          let once = rw near at h in
          let rest = fill_all-Fits rs (blank_range r.start e 0 bs) filled once in
          (
            leb→le e (length bs) near,
            subst (λ n. All (λ (x : CodeRange). x.start + x.length ≤ n) rs)
                (length-blank_range r.start e 0 bs) rest,
          )
    ]

-- The same bytes outside of the ranges.
abbrev pub AreSameOutside : List CodeRange → List ℕ → List ℕ → Type 0
AreSameOutside refs xs ys =
    (length xs ≡ length ys) × ((i : ℕ) → covered refs i ≡ false → nth i xs ≡ nth i ys)

covered-cases :
    (c : Bool) (i : ℕ) (xs ys : List ℕ)
    → length xs ≡ length ys
    → (c ≡ false → nth i xs ≡ nth i ys)
    → blank c (nth i xs) ≡ blank c (nth i ys)
covered-cases true i xs ys long same = blank-length i xs ys long
covered-cases false i xs ys long same = ap (λ o. blank false o) (same refl)

filled_lem :
    (refs : List CodeRange) (xs a : List ℕ) → fill_all refs xs ≡ some a → IsFilled refs xs a
filled_lem refs xs a done =
    let (filled, made, is_filled) = fill_all-IsFilled refs xs (fill_all-Fits refs xs a done) in
    let same : filled ≡ a = cc in subst (IsFilled refs xs) same is_filled

filled-Outside :
    (refs : List CodeRange) (xs ys a b : List ℕ)
    → IsFilled refs xs a
    → IsFilled refs ys b
    → a ≡ b
    → AreSameOutside refs xs ys
filled-Outside refs xs ys a b (long_a, at_a) (long_b, at_b) equal = (
  sym long_a ∙ ap (λ l. length l) equal ∙ long_b,
  λ i outside.
      let at_x = at_a i ∙ ap (λ c. blank c (nth i xs)) outside ∙ blank-false (nth i xs) in
      let at_y = at_b i ∙ ap (λ c. blank c (nth i ys)) outside ∙ blank-false (nth i ys) in
      sym at_x ∙ ap (λ l. nth i l) equal ∙ at_y,
)

same_bytes-Outside :
    (refs : List CodeRange) (xs ys : List ℕ)
    → same_bytes (fill_all refs xs) (fill_all refs ys) ≡ true
    → Fits refs xs × AreSameOutside refs xs ys
unfolding same_bytes
same_bytes-Outside refs xs ys h = elim (Option-cases (fill_all refs xs)) [
  | inl failed ↦ (let refused = rw failed at h in absurd (cc refused))
  | inr (a, done_a) ↦ elim (Option-cases (fill_all refs ys)) [
    | inl failed ↦ (let refused = rw (done_a, failed) at h in absurd (cc refused))
    | inr (b, done_b) ↦
        let fits = fill_all-Fits refs xs a done_a in
        let equal = text_eq→eq a b (rw (done_a, done_b) at h) in
        (
          fits,
          filled-Outside refs xs ys a b (filled_lem refs xs a done_a) (filled_lem refs ys b done_b)
              equal,
        )
  ]
]

Outside-same_bytes :
    (refs : List CodeRange) (xs ys : List ℕ)
    → Fits refs xs
    → AreSameOutside refs xs ys
    → same_bytes (fill_all refs xs) (fill_all refs ys) ≡ true
unfolding same_bytes
Outside-same_bytes refs xs ys fits (long, same) =
    let fits_ys = subst (λ n. All (λ (x : CodeRange). x.start + x.length ≤ n) refs) long fits in
    let (a, done_a, (long_a, at_a)) = fill_all-IsFilled refs xs fits in
    let (b, done_b, (long_b, at_b)) = fill_all-IsFilled refs ys fits_ys in
    let equal : a ≡ b =
      nth-ext a b
        (λ i. at_a i ∙ covered-cases (covered refs i) i xs ys long (same i) ∙ sym (at_b i)) in
    rw done_a (rw done_b (rw equal (text_eq_refl b)))

gates_lem :
    (a b c : Bool) (e : Text)
    → ◌≡◌ {A = Result Text (Unit {0})} (if a || b || not c then err e else ok tt) (ok tt)
    → (a ≡ false) × (b ≡ false) × (c ≡ true)
gates_lem a b c e h = ground arith

-- A code is accepted exactly when the artifact has code, the code is not 0x, it is as long as the
-- artifact's and every immutable range ends within it, and both have the same byte at every place
-- outside of these ranges.
pub assert_spoke_code-accepts_iff :
    (code : Text) (artifact : Artifact)
    → let refs = artifact.immutable_references in
      let deployed = bytes code in
      (assert_spoke_code code artifact ≡ ok tt) ↔ (
        ((length artifact.object == 0) ≡ false)
        × (text_eq code (txt "0x") ≡ false)
        × Fits refs deployed
        × AreSameOutside refs deployed (bytes artifact.object))
unfolding assert_spoke_code mask
assert_spoke_code-accepts_iff code artifact =
    let refs = artifact.immutable_references in
    let xs = bytes code in
    let ys = bytes artifact.object in
    (
      λ accepted.
          let gates =
            gates_lem (length artifact.object == 0) (text_eq code (txt "0x"))
              (same_bytes (fill_all refs xs) (fill_all refs ys)) _ accepted in
          let found = same_bytes-Outside refs xs ys gates.2 in (gates.0, gates.1, found.0, found.1),
      λ (made, full, fits, same).
          rw made (rw full (rw (Outside-same_bytes refs xs ys fits same) refl)),
    )
