-- ===== src/Split/Selectors.antt =====
-- Selectors, their classes, and endpoint ids in tools/splitMsigBatchesLib.ts.
use nest_protocol.Base.{
  ℕ, zero, suc, ◌+◌, ◌-◌, ◌*◌, ◌&&◌, Option, none, some, List, [], ◌∷◌, ◌++◌, ◌==◌, ltb, leb,
  length, take, drop, if◌then◌else◌,
}
use nest_protocol.Base.Text.{member, Text, txt, to_lower, starts_with, decimal}

-- `data.slice(0, 10).toLowerCase()`
unfoldable pub selector : Text → Text
selector call_data = to_lower (take 10 call_data)

abbrev pub caps_selectors : List Text
caps_selectors = txt "0x8929565f" ∷ txt "0x7d40583d" ∷ []

abbrev pub roles_selectors : List Text
roles_selectors = txt "0xc6b0263e" ∷ txt "0x67aff484" ∷ []

abbrev pub lz_selectors : List Text
lz_selectors =
    txt "0x6c6b3e8e"
    ∷ txt "0x9d28fb86"
    ∷ txt "0xb98bd070"
    ∷ txt "0x6dbd9f90"
    ∷ txt "0x9535ff30"
    ∷ txt "0x6a14d715"
    ∷ txt "0xe77b36b7"
    ∷ txt "0x714ccf7b"
    ∷ txt "0x48ea7127"
    ∷ txt "0x4d8be07e"
    ∷ txt "0x1b9b0742"
    ∷ txt "0x7ae63cf1"
    ∷ txt "0xd5960873"
    ∷ []

abbrev pub eid_to_domain_selector : Text
eid_to_domain_selector = txt "0x6c6b3e8e"

abbrev pub vault_dep_selectors : List Text
vault_dep_selectors =
    txt "0x9d28fb86"
    ∷ txt "0xb98bd070"
    ∷ txt "0xe77b36b7"
    ∷ txt "0x714ccf7b"
    ∷ txt "0x48ea7127"
    ∷ txt "0x4d8be07e"
    ∷ txt "0x1b9b0742"
    ∷ txt "0x7ae63cf1"
    ∷ txt "0xd5960873"
    ∷ []

abbrev pub endpoint_selectors : List Text
endpoint_selectors = txt "0x6dbd9f90" ∷ txt "0x9535ff30" ∷ txt "0x6a14d715" ∷ []

pub data SelectorClass : Type 0 where
  caps roles lz unknown : SelectorClass

unfoldable pub classify_selector : Text → SelectorClass
classify_selector s =
    if member s caps_selectors
    then caps
    else if member s roles_selectors
    then roles
    else if member s lz_selectors
    then lz
    else unknown

unfoldable pub classify : Text → SelectorClass
classify call_data = classify_selector (selector call_data)

-- `EID_NAMES[eid]`
unfoldable pub eid_name : ℕ → Option Text
eid_name eid =
    if eid == 30101
    then some (txt "Ethereum")
    else if eid == 30102
    then some (txt "BSC")
    else if eid == 30110
    then some (txt "Arbitrum")
    else if eid == 30168
    then some (txt "Solana")
    else if eid == 30184
    then some (txt "Base")
    else if eid == 30319
    then some (txt "World Chain")
    else if eid == 30370
    then some (txt "Plume")
    else if eid == 30383
    then some (txt "Plasma")
    else none

unfoldable pub eid_label : ℕ → Text
eid_label eid = elim (eid_name eid) [ some name ↦ name | none ↦ txt "eid=" ++ decimal eid ]

-- The value of a hexadecimal digit, in either case.
unfoldable pub hex_digit : ℕ → Option ℕ
hex_digit c =
    if leb b'0' c && leb c b'9'
    then some (c - 48)
    else if leb b'a' c && leb c b'f'
    then some (c - 87)
    else if leb b'A' c && leb c b'F'
    then some (c - 55)
    else none

unfoldable pub parse_hex_from : ℕ → Text → ℕ
parse_hex_from acc [] = acc
parse_hex_from acc (c ∷ s) = elim (hex_digit c) [
  | none ↦ acc
  | some d ↦ parse_hex_from (acc * 16 + d) s
]

-- `parseInt(s, 16)` of a text with no white space, sign or 0x in front: the digits up to the first
-- other unit, and NaN (`none`) if there are none.
unfoldable pub parse_hex : Text → Option ℕ
parse_hex [] = none
parse_hex (c ∷ s) = elim (hex_digit c) [ none ↦ none | some d ↦ some (parse_hex_from d s) ]

abbrev pub sixty_zeros : Text
sixty_zeros = txt "000000000000000000000000000000000000000000000000000000000000"

-- The endpoint id of one word, if it holds one.
unfoldable pub word_eid : Text → Option ℕ
word_eid word =
    if starts_with word sixty_zeros
    then (elim (parse_hex (drop 56 word)) [
      | none ↦ none
      | some v ↦ if leb 30000 v && ltb v 40000 then some v else none
    ])
    else none

-- The loop over whole words of 64 digits; every round drops one, so the length is fuel enough.
unfoldable pub extract_eid_from : ℕ → Text → Option ℕ
extract_eid_from zero body = none
extract_eid_from (suc fuel) body =
    let later = extract_eid_from fuel (drop 64 body) in
    if leb 64 (length body)
    then (elim (word_eid (take 64 body)) [ some v ↦ some v | none ↦ later ])
    else none

unfoldable pub extract_eid : Text → Option ℕ
extract_eid call_data = let body = drop 10 call_data in extract_eid_from (suc (length body)) body
