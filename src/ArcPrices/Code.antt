-- ===== src/ArcPrices/Code.antt =====
-- `assertSpokeCode` of tools/syncArcPrices.ts: two byte codes are the same outside of the ranges that
-- the compiler declares immutable.
pub mod Masked
use nest_protocol.Base.{
  ℕ, suc, ◌+◌, ◌*◌, Bool, true, false, ◌&&◌, ◌||◌, not, List, [], ◌∷◌, ◌==◌, leb, ltb, length, drop,
  if◌then◌else◌, Option, none, some,
}
use nest_protocol.Base.Text.{Text, txt, text_eq, starts_with}
use nest_protocol.Base.Outcome.{Result, ok, err}
use nest_protocol.Split.Selectors.{hex_digit}

-- `{ start, length }`
pub record CodeRange : Type 0 where
  pub start : ℕ
  pub length : ℕ

-- `artifact.deployedBytecode`, its references one after the other.
pub record Artifact : Type 0 where
  pub object : Text
  pub immutable_references : List CodeRange

abbrev pub push_byte : Option ℕ → Option ℕ → List ℕ → List ℕ
push_byte none lo rest = []
push_byte (some hi) none rest = []
push_byte (some hi) (some lo) rest = (hi * 16 + lo) ∷ rest

-- `Buffer.from(s, "hex")`, which stops at the first two characters that are no byte.
unfoldable pub from_hex : Text → List ℕ
from_hex [] = []
from_hex (c ∷ []) = []
from_hex (c ∷ d ∷ s) = push_byte (hex_digit c) (hex_digit d) (from_hex s)

-- `value.replace(/^0x/, "")`
unfoldable pub strip_0x : Text → Text
strip_0x s = if starts_with s (txt "0x") then drop 2 s else s

-- The bytes from the `i`-th on, those from `start` to `end` as 0.
unfoldable pub blank_range : ℕ → ℕ → ℕ → List ℕ → List ℕ
blank_range start end i [] = []
blank_range start end i (b ∷ bs) =
    (if leb start i && ltb i end then 0 else b) ∷ blank_range start end (suc i) bs

-- `bytes.fill(0, start, start + length)` for each range, which throws where a range goes too far.
unfoldable pub fill_all : List CodeRange → List ℕ → Option (List ℕ)
fill_all [] bs = some bs
fill_all (r ∷ rs) bs =
    let filled = fill_all rs (blank_range r.start (r.start + r.length) 0 bs) in
    if leb (r.start + r.length) (length bs) then filled else none

unfoldable pub mask : List CodeRange → Text → Option (List ℕ)
mask refs value = fill_all refs (from_hex (strip_0x value))

-- Both codes could be masked, to the same bytes.
unfoldable pub same_bytes : Option (List ℕ) → Option (List ℕ) → Bool
same_bytes none y = false
same_bytes (some a) none = false
same_bytes (some a) (some b) = text_eq a b

unfoldable pub assert_spoke_code : Text → Artifact → Result Text (Unit {0})
assert_spoke_code code artifact =
    let refs = artifact.immutable_references in
    if length artifact.object == 0
      || text_eq code (txt "0x")
      || not (same_bytes (mask refs code) (mask refs artifact.object))
    then err (txt "Arc implementation does not match the local NestSpokeAccountant artifact")
    else ok tt
