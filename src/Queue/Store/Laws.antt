-- ===== src/Queue/Store/Laws.antt =====
-- Recording a manifest and finding it again, and the list of a vault's manifests.
use mathlib.Core.List.{append_cancel_right}
use nest_protocol.Base.{
  if-same, if-apart, ℕ, ◌≤◌, ◌≡◌, refl, ap, ◌∙◌, sym, subst, Bool, true, false, ◌&&◌, some, List,
  [], ◌∷◌, ◌++◌, keep, All, length, ◌==◌, leb, if◌then◌else◌, Bool-cases, inl, inr, arith, map,
  ==_iff,
}
use nest_protocol.Base.Text.{Text, txt, text_eq, text_eq→eq, text_eq_refl, decimal}
use nest_protocol.Base.Number.{decimal-inj}
use nest_protocol.Base.Outcome.{ok, >>=-ok_inv}
use nest_protocol.Queue.Store.{
  QueueManifest, ManifestPath, Entry, QueueStore, same_path, manifest_path, put_entry,
  write_manifest, find_entry, read_manifest, read_all, insert_manifest, sort_manifests, is_listed,
  list_manifests,
}

same_path→eq : (p q : ManifestPath) → same_path p q ≡ true → p ≡ q
unfolding same_path
same_path→eq p q h = ground (arith, text_eq→eq p.dir q.dir, text_eq→eq p.file q.file)

same_path_refl : (p : ManifestPath) → same_path p p ≡ true
unfolding same_path
same_path_refl p = rw (text_eq_refl p.dir, text_eq_refl p.file) refl

same_path-apart :
    (p q r : ManifestPath) → same_path p q ≡ false → same_path p r ≡ true → same_path q r ≡ false
same_path-apart p q r away h = elim (Bool-cases (same_path q r)) [
  | inl both ↦
      let e = same_path→eq p r h ∙ sym (same_path→eq q r both) in
      cc (ap (λ x. same_path x q) e, same_path_refl q)
  | inr apart ↦ apart
]

find_entry-put_entry :
    (p : ManifestPath) (e : Entry) (store : QueueStore)
    → find_entry p (put_entry e store)
      ≡ (if same_path e.path p then some e.manifest else find_entry p store)
unfolding find_entry put_entry
find_entry-put_entry p e [] = refl
find_entry-put_entry p e (f ∷ fs) = elim (Bool-cases (same_path f.path e.path)) [
  | inl same ↦ rw same (
      subst
        (λ t. (if same_path e.path p then some e.manifest else find_entry p fs) ≡ (
          if same_path e.path p
          then some e.manifest
          else if t
          then some f.manifest
          else find_entry p fs))
        (ap (λ q. same_path q p) (sym (same_path→eq f.path e.path same)))
        (if-same (same_path e.path p) (some e.manifest) (some f.manifest) (find_entry p fs)))
  | inr other ↦
      rw (other, find_entry-put_entry p e fs)
        (if-apart (same_path f.path p) (same_path e.path p) (some f.manifest) (some e.manifest)
          (find_entry p fs) (same_path-apart f.path e.path p other))
]

text_eq-file : (m n : ℕ) → text_eq (decimal m ++ txt ".json") (decimal n ++ txt ".json") ≡ (m == n)
text_eq-file m n = elim (Bool-cases (m == n)) [
  | inl same ↦
      ap (λ k. text_eq (decimal m ++ txt ".json") (decimal k ++ txt ".json"))
        (sym ((==_iff m n).0 same))
      ∙ text_eq_refl (decimal m ++ txt ".json")
      ∙ sym same
  | inr other ↦ elim (Bool-cases (text_eq (decimal m ++ txt ".json") (decimal n ++ txt ".json"))) [
    | inl equal ↦
        equal
        ∙ sym (
            (==_iff m n).1 (
              decimal-inj m n (
                append_cancel_right (decimal m) (decimal n) (txt ".json")
                  (text_eq→eq (decimal m ++ txt ".json") (decimal n ++ txt ".json") equal))))
    | inr apart ↦ apart ∙ sym other
  ]
]

-- After a manifest is recorded, the file of a vault and chain holds that manifest if they are its
-- own, and what it held before if they are not: recording a chain touches no other.
pub find_entry-write_manifest :
    (m : QueueManifest) (store : QueueStore) (vault : Text) (chain_id : ℕ)
    → find_entry (manifest_path vault chain_id) (write_manifest m store) ≡ (
        if text_eq m.vault vault && m.chain_id == chain_id
        then some m
        else find_entry (manifest_path vault chain_id) store)
unfolding write_manifest manifest_path same_path
find_entry-write_manifest m store vault chain_id =
    find_entry-put_entry (manifest_path vault chain_id) _ store
    ∙ ap
        (λ t.
          if text_eq m.vault vault && t
          then some m
          else find_entry (manifest_path vault chain_id) store)
        (text_eq-file m.chain_id chain_id)

insert_manifest-All :
    (b : ℕ) (m : QueueManifest) (ms : List QueueManifest)
    → b ≤ m.chain_id
    → All (λ n. b ≤ n.chain_id) ms
    → All (λ n. b ≤ n.chain_id) (insert_manifest m ms)
unfolding insert_manifest
insert_manifest-All b m [] h k = (h, tt)
insert_manifest-All b m (n ∷ ns) h k = elim (Bool-cases (leb m.chain_id n.chain_id)) [
  | inl before ↦ rw before (h, k)
  | inr after ↦ rw after (k.0, insert_manifest-All b m ns h k.1)
]

-- Each chain id is at most those after it.
abbrev pub IsByChain : List QueueManifest → Type 0
IsByChain [] = Unit
IsByChain (m ∷ ms) = All (λ n. m.chain_id ≤ n.chain_id) ms × IsByChain ms

All-le :
    (a b : ℕ) (ms : List QueueManifest)
    → a ≤ b
    → All (λ n. b ≤ n.chain_id) ms
    → All (λ n. a ≤ n.chain_id) ms
All-le a b [] h k = tt
All-le a b (m ∷ ms) h k = (omega arith, All-le a b ms h k.1)

insert_manifest-IsByChain :
    (m : QueueManifest) (ms : List QueueManifest) → IsByChain ms → IsByChain (insert_manifest m ms)
unfolding insert_manifest
insert_manifest-IsByChain m [] h = (tt, tt)
insert_manifest-IsByChain m (n ∷ ns) h = elim (Bool-cases (leb m.chain_id n.chain_id)) [
  | inl before ↦ rw before ((ground arith, All-le m.chain_id n.chain_id ns (ground arith) h.0), h)
  | inr after ↦
      rw after
        (insert_manifest-All n.chain_id m ns (ground arith) h.0, insert_manifest-IsByChain m ns h.1)
]

sort_manifests-IsByChain : (ms : List QueueManifest) → IsByChain (sort_manifests ms)
unfolding sort_manifests
sort_manifests-IsByChain [] = tt
sort_manifests-IsByChain (m ∷ ms) =
    insert_manifest-IsByChain m (sort_manifests ms) (sort_manifests-IsByChain ms)

insert_manifest-count :
    (p : QueueManifest → Bool) (m : QueueManifest) (ms : List QueueManifest)
    → length (keep p (insert_manifest m ms)) ≡ length (keep p (m ∷ ms))
unfolding insert_manifest
insert_manifest-count p m [] = refl
insert_manifest-count p m (n ∷ ns) = ground (arith, insert_manifest-count p m ns)

sort_manifests-count :
    (p : QueueManifest → Bool) (ms : List QueueManifest)
    → length (keep p (sort_manifests ms)) ≡ length (keep p ms)
unfolding sort_manifests
sort_manifests-count p [] = refl
sort_manifests-count p (m ∷ ms) =
    insert_manifest-count p m (sort_manifests ms) ∙ ground (arith, sort_manifests-count p ms)

read_manifest-ok_inv :
    (m n : QueueManifest) → read_manifest m ≡ ok n → (m ≡ n) × ((m.version == 1) ≡ true)
unfolding read_manifest
read_manifest-ok_inv m n h = ground arith

-- A list that was read has the manifests of all its files, all of version 1.
read_all-ok_inv :
    (es : List Entry) (ms : List QueueManifest)
    → read_all es ≡ ok ms
    → (map (λ (e : Entry). e.manifest) es ≡ ms) × All (λ e. e.manifest.version ≡ 1) es
unfolding read_all
read_all-ok_inv [] ms h = (cc, tt)
read_all-ok_inv (e ∷ es) ms h =
    let first = >>=-ok_inv (read_manifest e.manifest) _ h in
    let second = >>=-ok_inv (read_all es) _ first.2 in
    let head = read_manifest-ok_inv e.manifest first.0 first.1 in
    let tail = read_all-ok_inv es second.0 second.1 in
    (cc (head.0, tail.0, second.2), ((==_iff e.manifest.version 1).0 head.1, tail.1))

count-map :
    (p : QueueManifest → Bool) (es : List Entry)
    → length (keep p (map (λ (e : Entry). e.manifest) es)) ≡ length (keep (λ e. p e.manifest) es)
count-map p [] = refl
count-map p (e ∷ es) = ground (arith, count-map p es)

-- The manifests that are listed for a vault are those of the .json files of its folder, each as
-- often as there, all of version 1, and ascending by chain id.
pub list_manifests-IsByChain :
    (vault : Text) (store : QueueStore) (ms : List QueueManifest) (p : QueueManifest → Bool)
    → list_manifests vault store ≡ ok ms
    → IsByChain ms
      × All (λ e. e.manifest.version ≡ 1) (keep (is_listed vault) store)
      × (length (keep p ms) ≡ length (keep (λ e. p e.manifest) (keep (is_listed vault) store)))
unfolding list_manifests
list_manifests-IsByChain vault store ms p listed =
    let files = keep (is_listed vault) store in
    let (all, read, sorted) = >>=-ok_inv (read_all files) _ listed in
    let kept = read_all-ok_inv files all read in
    let e : sort_manifests all ≡ ms = cc sorted in
    (
      subst IsByChain e (sort_manifests-IsByChain all),
      kept.1,
      ap (λ l. length (keep p l)) (sym e)
          ∙ sort_manifests-count p all
          ∙ ap (λ l. length (keep p l)) (sym kept.0)
          ∙ count-map p files,
    )
