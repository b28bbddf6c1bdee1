-- ===== src/Queue/Args/Render.antt =====
-- A command line for each set of arguments, and what it parses to.
use mathlib.Core.List.{append-nil}
use nest_protocol.Base.{
  ℕ, ◌≡◌, ◌≢◌, refl, ap, ◌∙◌, sym, subst, Bool, true, false, ◌&&◌, not, List, [], ◌∷◌, ◌++◌, ◌==◌,
  ltb, length, All, if◌then◌else◌, Option, none, some, arith,
}
use nest_protocol.Base.Text.{Text, txt, text_eq, starts_with, member, decimal}
use nest_protocol.Base.Number.{to_number-decimal, decimal-digits, IsDigit}
use nest_protocol.Base.Outcome.{Result, ok, err}
use nest_protocol.Cli.{check_flags, read_chain_id, override_of, is_some}
use nest_protocol.Queue.Args.{
  QueueArgs, Collected, read_nonce, collect, read_chain_option, queue_flags, check_args, parse_args,
}

abbrev pub chain_words : Option ℕ → List Text
chain_words none = []
chain_words (some n) = decimal n ∷ []

abbrev pub dry_words : Bool → List Text
dry_words false = []
dry_words true = txt "--dry-run" ∷ []

abbrev pub mode_words : Option Bool → List Text
mode_words none = []
mode_words (some true) = txt "--split" ∷ []
mode_words (some false) = txt "--merge" ∷ []

abbrev pub nonce_words : Option ℕ → List Text
nonce_words none = []
nonce_words (some n) = txt "--nonce" ∷ decimal n ∷ []

-- The arguments as words of a command line.
abbrev pub render_args : QueueArgs → List Text
render_args a =
    nonce_words a.nonce
    ++ (a.vault ∷ (chain_words a.chain_id ++ (dry_words a.dry_run ++ mode_words a.split_override)))

-- A word that is no option.
abbrev pub IsPlain : Text → Type 0
IsPlain s = starts_with s (txt "--") ≡ false

digits-IsPlain : (s : Text) → (n : ℕ) → s ≡ decimal n → IsPlain s
unfolding starts_with
digits-IsPlain s n h = subst IsPlain (sym h) (go (decimal n) (decimal-digits n))
  where
    go : (t : Text) → All IsDigit t → IsPlain t
    go [] d = refl
    go (c ∷ t) d = ground (arith, d.0)

plain-ne-nonce :
    (s : Text)
    → IsPlain s
    → (text_eq s (txt "--nonce") ≡ false) × (starts_with s (txt "--nonce=") ≡ false)
unfolding text_eq starts_with
plain-ne-nonce [] h = (refl, refl)
plain-ne-nonce (c ∷ []) h = ground arith
plain-ne-nonce (c ∷ d ∷ s) h = ground arith

collect-plain :
    (a : Text) (rest : List Text) (c : Collected)
    → IsPlain a
    → collect false (a ∷ rest) c
      ≡ collect false rest (record c { positional = c.positional ++ a ∷ [] })
unfolding collect
collect-plain a rest c h = rw ((plain-ne-nonce a h).0, (plain-ne-nonce a h).1, h) refl

collect-chain :
    (chain_id : Option ℕ) (rest : List Text) (c : Collected)
    → collect false (chain_words chain_id ++ rest) c
      ≡ collect false rest (record c { positional = c.positional ++ chain_words chain_id })
collect-chain none rest c = rw (append-nil c.positional) refl
collect-chain (some n) rest c = collect-plain (decimal n) rest c (digits-IsPlain (decimal n) n refl)

collect-options :
    (dry_run : Bool) (mode : Option Bool) (positional : List Text) (nonce : Option ℕ)
    → collect false
        (dry_words dry_run ++ mode_words mode)
        (record { positional = positional; flags = []; nonce = nonce })
      ≡ ok (record {
        positional = positional;
        flags = dry_words dry_run ++ mode_words mode;
        nonce = nonce;
      })
unfolding collect text_eq starts_with
collect-options false none p n = refl
collect-options false (some true) p n = refl
collect-options false (some false) p n = refl
collect-options true none p n = refl
collect-options true (some true) p n = refl
collect-options true (some false) p n = refl

read_nonce-decimal : (n : ℕ) → read_nonce (decimal n) ≡ ok n
unfolding read_nonce
read_nonce-decimal n =
    ap
      (λ (o : Option ℕ). elim o as (λ _. Result Text ℕ) [
        | none ↦ err (txt "invalid --nonce: " ++ decimal n)
        | some m ↦ ok m
      ])
      (to_number-decimal n)

read_chain_id-decimal : (n : ℕ) → (n == 0) ≡ false → read_chain_id (decimal n) ≡ ok n
unfolding read_chain_id
read_chain_id-decimal n h =
    ap
      (λ (o : Option ℕ). elim o as (λ _. Result Text ℕ) [
        | none ↦ err (txt "invalid chainId: " ++ decimal n)
        | some m ↦ if m == 0 then err (txt "invalid chainId: " ++ decimal n) else ok m
      ])
      (to_number-decimal n)
    ∙ rw h refl

collect-nonce :
    (nonce : Option ℕ) (rest : List Text)
    → collect false
        (nonce_words nonce ++ rest)
        (record { positional = []; flags = []; nonce = none })
      ≡ collect false rest (record { positional = []; flags = []; nonce = nonce })
unfolding collect text_eq
collect-nonce none rest = refl
collect-nonce (some n) rest = rw (read_nonce-decimal n) refl

options_read :
    (dry_run : Bool) (mode : Option Bool)
    → let flags = dry_words dry_run ++ mode_words mode in
      (check_flags queue_flags flags ≡ ok tt)
      × (member (txt "--dry-run") flags ≡ dry_run)
      × ((member (txt "--split") flags && member (txt "--merge") flags) ≡ false)
      × (override_of (member (txt "--split") flags) (member (txt "--merge") flags) ≡ mode)
unfolding check_flags member text_eq
options_read false none = (refl, refl, refl, refl)
options_read false (some true) = (refl, refl, refl, refl)
options_read false (some false) = (refl, refl, refl, refl)
options_read true none = (refl, refl, refl, refl)
options_read true (some true) = (refl, refl, refl, refl)
options_read true (some false) = (refl, refl, refl, refl)

chain_read :
    (chain_id : Option ℕ)
    → (chain_id ≢ some 0)
    → read_chain_option (chain_words chain_id) ≡ ok chain_id
unfolding read_chain_option
chain_read none h = refl
chain_read (some n) h = rw (read_chain_id-decimal n (ground arith)) refl

few_words : (chain_id : Option ℕ) → ltb 1 (length (chain_words chain_id)) ≡ false
few_words none = refl
few_words (some n) = refl

-- A command line is parsed to the arguments it was rendered from, if the vault is no option, the
-- chain id is not 0, and a nonce comes with a chain id.
pub parse_args-render_args :
    (a : QueueArgs)
    → IsPlain a.vault
    → a.chain_id ≢ some 0
    → (is_some a.nonce && not (is_some a.chain_id)) ≡ false
    → parse_args (render_args a) ≡ ok a
unfolding parse_args check_args
parse_args-render_args a plain positive together =
    let p = a.vault ∷ chain_words a.chain_id in
    let r = options_read a.dry_run a.split_override in
    rw
      (
        collect-nonce a.nonce (
            a.vault
            ∷ (chain_words a.chain_id ++ (dry_words a.dry_run ++ mode_words a.split_override))),
        collect-plain a.vault _ _ plain,
        collect-chain a.chain_id (dry_words a.dry_run ++ mode_words a.split_override) _,
        collect-options a.dry_run a.split_override p a.nonce,
      )
      (rw (few_words a.chain_id, r.0, chain_read a.chain_id positive)
        (simp (r.2, r.1, r.3, together) refl))
