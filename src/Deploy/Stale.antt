-- ===== src/Deploy/Stale.antt =====
-- Batch files of an earlier run: which batch is found after files are removed and written.
pub mod Alike
pub mod Forgets
use nest_protocol.Base.{
  ◌≡◌, refl, sym, ap, ◌∙◌, Bool, true, false, ◌||◌, not, Option, none, some, List, [], ◌∷◌,
  if◌then◌else◌, if-same, if-apart, Bool-cases, inl, inr, arith, keep,
}
use nest_protocol.Base.Text.{Text, text_eq, text_eq→eq, text_eq_sym, member}
use nest_protocol.Split.Types.{SafeBatch}
use nest_protocol.Deploy.World.{BatchFiles, Files, find_batch, remove_batch, put_batch, put_batches}
use nest_protocol.Deploy.Forge.{or_else}
use nest_protocol.Deploy.Steps.{ForgeReply, receive, remove_batches, clear_stale, pick_batch}

text_eq-swap : (x y z : Text) → text_eq x y ≡ true → text_eq x z ≡ text_eq y z
text_eq-swap x y z h = ap (λ w. text_eq w z) (text_eq→eq x y h)

apart : (k m n : Text) → text_eq k n ≡ true → text_eq k m ≡ false → text_eq m n ≡ false
apart k m n same other = text_eq_sym m n ∙ sym (text_eq-swap k n m same) ∙ other

find_batch-remove_batch :
    (n m : Text) (fs : BatchFiles)
    → find_batch n (remove_batch m fs) ≡ (if text_eq m n then none else find_batch n fs)
unfolding find_batch remove_batch
find_batch-remove_batch n m [] = ground arith
find_batch-remove_batch n m ((k, b) ∷ fs) =
    let rest = find_batch-remove_batch n m fs in
    elim (Bool-cases (text_eq k m)) [
      | inl same ↦
          (rw same (
            rest
            ∙ rw (text_eq-swap k m n same) (if-same (text_eq m n) none (some b) (find_batch n fs))))
      | inr other ↦
          (rw other (
            ap (λ o. if text_eq k n then some b else o) rest
            ∙ if-apart (text_eq k n) (text_eq m n) (some b) none (find_batch n fs)
                (λ same. apart k m n same other)))
    ]

find_batch-remove_batches :
    (n : Text) (names : List Text) (fs : BatchFiles)
    → find_batch n (remove_batches names fs) ≡ (if member n names then none else find_batch n fs)
unfolding remove_batches member
find_batch-remove_batches n [] fs = refl
find_batch-remove_batches n (m ∷ names) fs =
    let rest = find_batch-remove_batches n names (remove_batch m fs) in
    let one = find_batch-remove_batch n m fs in let swap = text_eq_sym n m in ground arith

find_batch-put_batch :
    (n m : Text) (b : SafeBatch) (fs : BatchFiles)
    → find_batch n (put_batch m b fs) ≡ (if text_eq m n then some b else find_batch n fs)
unfolding put_batch find_batch
find_batch-put_batch n m b fs =
    ap (λ o. if text_eq m n then some b else o) (find_batch-remove_batch n m fs)
    ∙ sym (if-same (text_eq m n) (some b) none (find_batch n fs))

-- The batch of a name that is found in one of two folders.
abbrev pub pick : Text → BatchFiles → BatchFiles → Option SafeBatch
pick n flat legacy = or_else (find_batch n flat) (find_batch n legacy)

pick-put_batch :
    (n m : Text) (b : SafeBatch) (flat legacy : BatchFiles)
    → pick n (put_batch m b flat) legacy ≡ (if text_eq m n then some b else pick n flat legacy)
pick-put_batch n m b flat legacy =
    ap (λ o. or_else o (find_batch n legacy)) (find_batch-put_batch n m b flat)
    ∙ or_else-if (text_eq m n) b (find_batch n flat) (find_batch n legacy)
  where
    or_else-if :
        (t : Bool) (b : SafeBatch) (o l : Option SafeBatch)
        → or_else (if t then some b else o) l ≡ (if t then some b else or_else o l)
    or_else-if true b o l = refl
    or_else-if false b o l = refl

-- What is found after batches are written depends on what was found before, and no more.
pub pick-put_batches :
    (n : Text) (ws flat legacy flat₂ legacy₂ : BatchFiles)
    → pick n flat legacy ≡ pick n flat₂ legacy₂
    → pick n (put_batches ws flat) legacy ≡ pick n (put_batches ws flat₂) legacy₂
unfolding put_batches
pick-put_batches n [] flat legacy flat₂ legacy₂ h = h
pick-put_batches n ((m, b) ∷ ws) flat legacy flat₂ legacy₂ h =
    pick-put_batches n ws (put_batch m b flat) legacy (put_batch m b flat₂) legacy₂ (
      pick-put_batch n m b flat legacy
      ∙ ap (λ o. if text_eq m n then some b else o) h
      ∙ sym (pick-put_batch n m b flat₂ legacy₂))

-- After the files of some names are removed, none of those names is found.
pub pick-remove_batches :
    (n : Text) (names : List Text) (flat legacy : BatchFiles)
    → member n names ≡ true
    → pick n (remove_batches names flat) (remove_batches names legacy) ≡ none
pick-remove_batches n names flat legacy h =
    rw (find_batch-remove_batches n names flat)
      (rw (find_batch-remove_batches n names legacy) (rw h refl))
