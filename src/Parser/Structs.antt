-- ===== src/Parser/Structs.antt =====
-- Pairs and structures of src/base/bano_parser.c.
pub mod Total
pub mod Print
pub mod Pairs
pub mod ReadBack
use bano.Base.{
  ℕ, zero, suc, ◌+◌, Bool, true, false, not, ◌&&◌, ◌||◌, Option, none, some, List, [], ◌∷◌, ◌++◌,
  Bytes, length, take, drop, get_or, ◌==◌, if◌then◌else◌,
}
use bano.Strings.{BanoString}
use bano.Parser.Token.{Token, next_token}
use bano.Parser.Outcome.{Outcome, done, failed, no_fuel, ◌>>=◌, alloc}

-- `bano_parser_pair_t`
pub record Pair : Type 0 where
  pub key : BanoString
  pub val : BanoString

-- `bano_parser_struct_t`
pub record Struct : Type 0 where
  pub name : BanoString
  pub pairs : List Pair

-- A string of `size` bytes at the position `s`.
abbrev pub at : Bytes → ℕ → BanoString
at s n = record { bytes = s; size = n }

-- `parse_pair`: the pair and the size read. The token between key and value is not looked at.
unfoldable pub parse_pair : Bytes → Outcome (Pair × ℕ)
parse_pair s =
    let t = next_token s in
    let i = t.off + t.size in
    let u = next_token (drop i s) in
    let j = i + (u.off + u.size) in
    let v = next_token (drop j s) in
    let key = at (drop t.off s) t.size in
    let val = at (drop (j + v.off) s) v.size in
    if t.size == 0
    then failed
    else if u.size == 0
    then failed
    else if v.size == 0
    then failed
    else done (record { key = key; val = val }, j + v.off + v.size)

-- The two requests for a pair and for its list item.
unfoldable pub alloc_pair : ℕ → Outcome ℕ
alloc_pair mem = alloc mem >>= alloc

-- The `while` loop of `parse_struct`, with the bytes left and their position `i`. It returns the
-- requests left, all pairs and the size read.
unfoldable pub parse_pairs : ℕ → ℕ → List Pair → Bytes → ℕ → Outcome (ℕ × List Pair × ℕ)
parse_pairs zero mem pairs s i = no_fuel
parse_pairs (suc fuel) mem pairs s i =
    let t = next_token s in
    let more = alloc_pair mem >>= λ left.
    parse_pair s >>= λ (pair, j). parse_pairs fuel left (pairs ++ pair ∷ []) (drop j s) (i + j) in
    if t.size == 0
    then failed
    else if t.size == 1 && get_or s t.off 0 == b'}'
    then done (mem, pairs, t.off + i + 1)
    else more

-- `parse_struct`; each round of its loop reads some bytes, so the fuel suffices.
unfoldable pub parse_struct : ℕ → Bytes → Outcome (ℕ × Struct × ℕ)
parse_struct mem s =
    let t = next_token s in
    let i = t.off + t.size in
    let u = next_token (drop i s) in
    let j = i + (u.off + 1) in
    let more = parse_pairs (suc (length s)) mem [] (drop j s) j >>= λ (left, pairs, k).
    done (left, record { name = at (drop t.off s) t.size; pairs = pairs }, k) in
    if t.size == 0
    then failed
    else if not (u.size == 1) || not (get_or s (i + u.off) 0 == b'{')
    then failed
    else more
