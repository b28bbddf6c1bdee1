-- ===== src/Queue/Store.antt =====
-- tools/migrationQueueStore.ts: the manifests under script/output/migrate-queue. A path there is a
-- vault's folder and a file name; what a file holds is its JSON, already parsed.
pub mod Laws
use nest_protocol.Base.{
  ℕ, Bool, true, false, ◌&&◌, List, [], ◌∷◌, ◌++◌, ◌==◌, leb, keep, if◌then◌else◌, Option, none,
  some,
}
use nest_protocol.Base.Text.{Text, txt, text_eq, decimal, ends_with}
use nest_protocol.Base.Outcome.{Result, ok, err, ◌>>=◌, ◌>>◌, throw_if}
use nest_protocol.Split.Types.{SplitSection}

pub record QueueManifest : Type 0 where
  pub version : ℕ
  pub vault : Text
  pub chain_id : ℕ
  pub chain_name : Text
  pub safe : Text
  pub split_mode : Bool
  pub eids_label : Text
  pub has_upgrade : Bool
  pub recorded_at : Text
  pub sections : List SplitSection

-- Below `queueDir(repoRoot, vault)`, the file of a name.
pub record ManifestPath : Type 0 where
  pub dir : Text
  pub file : Text

pub record Entry : Type 0 where
  pub path : ManifestPath
  pub manifest : QueueManifest

abbrev pub QueueStore : Type 0
QueueStore = List Entry

unfoldable pub same_path : ManifestPath → ManifestPath → Bool
same_path p q = text_eq p.dir q.dir && text_eq p.file q.file

unfoldable pub manifest_path : Text → ℕ → ManifestPath
manifest_path vault chain_id = record { dir = vault; file = decimal chain_id ++ txt ".json" }

unfoldable pub put_entry : Entry → QueueStore → QueueStore
put_entry e [] = e ∷ []
put_entry e (f ∷ fs) = if same_path f.path e.path then e ∷ fs else f ∷ put_entry e fs

unfoldable pub write_manifest : QueueManifest → QueueStore → QueueStore
write_manifest m store =
    put_entry (record { path = manifest_path m.vault m.chain_id; manifest = m }) store

unfoldable pub find_entry : ManifestPath → QueueStore → Option QueueManifest
find_entry p [] = none
find_entry p (f ∷ fs) =
    let rest = find_entry p fs in if same_path f.path p then some f.manifest else rest

-- `readManifest`, of a file with these contents
unfoldable pub read_manifest : QueueManifest → Result Text QueueManifest
read_manifest m = if m.version == 1 then ok m else err (txt "unsupported manifest version")

unfoldable pub read_all : List Entry → Result Text (List QueueManifest)
read_all [] = ok []
read_all (e ∷ es) = do m ← read_manifest e.manifest; ms ← read_all es; ok (m ∷ ms)

unfoldable pub insert_manifest : QueueManifest → List QueueManifest → List QueueManifest
insert_manifest m [] = m ∷ []
insert_manifest m (n ∷ ns) =
    let later = insert_manifest m ns in if leb m.chain_id n.chain_id then m ∷ n ∷ ns else n ∷ later

-- `.sort((a, b) => a.chainId - b.chainId)`, which is stable
unfoldable pub sort_manifests : List QueueManifest → List QueueManifest
sort_manifests [] = []
sort_manifests (m ∷ ms) = insert_manifest m (sort_manifests ms)

-- An entry of the vault's folder with a name that ends in .json.
abbrev pub is_listed : Text → Entry → Bool
is_listed vault e = text_eq e.path.dir vault && ends_with e.path.file (txt ".json")

unfoldable pub list_manifests : Text → QueueStore → Result Text (List QueueManifest)
list_manifests vault store = do ms ← read_all (keep (is_listed vault) store); ok (sort_manifests ms)
