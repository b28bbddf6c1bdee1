-- ===== src/Split/Batches/Files.antt =====
-- The output directory of a split: wiping the old files, and writing the new ones.
use nest_protocol.Base.{
  if-same, if-apart, ◌≡◌, refl, ◌∙◌, Bool, true, false, Option, none, some, List, [], ◌∷◌,
  if◌then◌else◌, Bool-cases, Option-cases, inl, inr, subst,
}
use nest_protocol.Base.Text.{Text, txt, text_eq, text_eq→eq, text_eq_sym, ends_with}
use nest_protocol.Split.Types.{SafeBatch, SplitSection, Directory, Content, json}
use nest_protocol.Split.Batches.{write_file, write_all, wipe}

-- What a directory holds under a name.
abbrev pub lookup : Text → Directory → Option Content
lookup name [] = none
lookup name ((n, c) ∷ dir) = let rest = lookup name dir in if text_eq n name then some c else rest

-- The batch that some sections, written in their order, leave under a name.
abbrev pub written : Text → List SplitSection → Option SafeBatch
written name [] = none
written name (s ∷ ss) = elim (written name ss) [
  | some b ↦ some b
  | none ↦ if text_eq s.file name then some s.batch else none
]

text_eq-both : (a b c : Text) → text_eq a b ≡ true → text_eq a c ≡ text_eq b c
text_eq-both a b c h = rw (text_eq→eq a b h) refl

-- A name is that of one file only.
text_eq-apart : (a b c : Text) → text_eq a b ≡ false → text_eq a c ≡ true → text_eq b c ≡ false
text_eq-apart a b c away h =
    subst (λ m. text_eq b m ≡ false) (text_eq→eq a c h) (text_eq_sym b a ∙ away)

lookup-write_file :
    (name file : Text) (b : SafeBatch) (dir : Directory)
    → lookup name (write_file file b dir)
      ≡ (if text_eq file name then some (json b) else lookup name dir)
unfolding write_file
lookup-write_file name file b [] = refl
lookup-write_file name file b ((n, c) ∷ dir) = elim (Bool-cases (text_eq n file)) [
  | inl same ↦
      rw (same, text_eq-both n file name same)
        (if-same (text_eq file name) (some (json b)) (some c) (lookup name dir))
  | inr other ↦
      rw (other, lookup-write_file name file b dir)
        (if-apart (text_eq n name) (text_eq file name) (some c) (some (json b)) (lookup name dir)
          (text_eq-apart n file name other))
]

if-some :
    (t : Bool) (b : SafeBatch) (o : Option Content)
    → (if t then some (json b) else o)
      ≡ elim (if t then some b else none) as (λ x. Option Content) [
        | some d ↦ some (json d)
        | none ↦ o
      ]
if-some true b o = refl
if-some false b o = refl

if-none : {A : Type 0} (t : Bool) → ◌≡◌ {A = Option A} none (if t then none else none)
if-none true = refl
if-none false = refl

pub lookup-write_all :
    (name : Text) (ss : List SplitSection) (dir : Directory)
    → lookup name (write_all ss dir) ≡ elim (written name ss) as (λ x. Option Content) [
      | some b ↦ some (json b)
      | none ↦ lookup name dir
    ]
unfolding write_all
lookup-write_all name [] dir = refl
lookup-write_all name (s ∷ ss) dir =
    lookup-write_all name ss (write_file s.file s.batch dir)
    ∙ elim (Option-cases (written name ss)) [
      | inl unwritten ↦
          rw (unwritten, lookup-write_file name s.file s.batch dir)
            (if-some (text_eq s.file name) s.batch (lookup name dir))
      | inr found ↦ rw found.1 refl
    ]

pub lookup-wipe :
    (name : Text) (dir : Directory)
    → lookup name (wipe dir) ≡ (if ends_with name (txt ".json") then none else lookup name dir)
unfolding wipe
lookup-wipe name [] = if-none (ends_with name (txt ".json"))
lookup-wipe name ((n, c) ∷ dir) = elim (Bool-cases (ends_with n (txt ".json"))) [
  | inl wiped ↦
      rw (wiped, lookup-wipe name dir)
        (elim (Bool-cases (text_eq n name)) [
          | inl same ↦ rw (same, ← text_eq→eq n name same, wiped) refl
          | inr other ↦ rw other refl
        ])
  | inr kept ↦
      rw (kept, lookup-wipe name dir)
        (elim (Bool-cases (text_eq n name)) [
          | inl same ↦ rw (same, ← text_eq→eq n name same, kept) refl
          | inr other ↦ rw other refl
        ])
]
