-- ===== src/Parser/Token.antt =====
-- The lexical level of src/base/bano_parser.c.
pub mod Skips
pub mod Next
pub mod Word
use bano.Base.{
  ℕ, zero, suc, ◌+◌, Bool, true, false, not, ◌&&◌, ◌||◌, List, [], ◌∷◌, Bytes, codes, length, take,
  drop, ◌==◌, if◌then◌else◌,
}

unfoldable pub is_space : ℕ → Bool
is_space c = c == b' ' || c == b'\t'

unfoldable pub is_nl : ℕ → Bool
is_nl c = c == b'\r' || c == b'\n'

unfoldable pub is_white : ℕ → Bool
unfolding is_nl is_space
is_white c = is_nl c || is_space c

unfoldable pub is_comment : ℕ → Bool
is_comment c = c == b'#'

unfoldable pub is_directive : ℕ → Bool
is_directive c = c == b'.'

-- `memcmp`, as a test for equal bytes
equal : Bytes → Bytes → Bool
equal [] [] = true
equal (x ∷ a) (y ∷ b) = let rest = equal a b in if x == y then rest else false
equal _ _ = false

unfoldable pub is_include_directive : Bytes → ℕ → Bool
unfolding equal
is_include_directive s n =
    if not (n == 8)
    then false
    else if not (equal (take 8 s) (codes ".include"))
    then false
    else true

unfoldable pub skip_whites : Bytes → ℕ
skip_whites [] = 0
skip_whites (c ∷ s) = let rest = skip_whites s in if is_white c then suc rest else 0

unfoldable pub skip_comment : Bytes → ℕ
skip_comment [] = 0
skip_comment (c ∷ s) = let rest = skip_comment s in if is_nl c then 1 else suc rest

-- The loop's body behind the white space, on the bytes left; `next` goes round again.
unfoldable pub skip_one_comment : (Bytes → ℕ) → Bytes → ℕ
skip_one_comment next [] = 0
skip_one_comment next (c ∷ s) =
    let j = skip_comment (c ∷ s) in
    let more = j + next (drop j (c ∷ s)) in if not (is_comment c) then 0 else more

-- One round of the loop of `skip_comments_and_whites`.
unfoldable pub skip_round : (Bytes → ℕ) → Bytes → ℕ
skip_round next [] = 0
skip_round next (c ∷ s) =
    let i = if is_white c then skip_whites (c ∷ s) else 0 in
    i + skip_one_comment next (drop i (c ∷ s))

unfoldable pub skip_loop : ℕ → Bytes → ℕ
skip_loop zero s = 0
skip_loop (suc fuel) s = skip_round (skip_loop fuel) s

-- Each round but the last skips a comment, so the fuel suffices.
unfoldable pub skip_comments_and_whites : Bytes → ℕ
skip_comments_and_whites s = skip_loop (suc (length s)) s

-- The loop of `next_token` that measures the token.
unfoldable pub token_size : Bytes → ℕ
token_size [] = 0
token_size (c ∷ s) = let rest = token_size s in if is_space c || is_nl c then 0 else suc rest

-- `tok[0]` and `tok[1]`
pub record Token : Type 0 where
  pub off : ℕ
  pub size : ℕ

unfoldable pub next_token : Bytes → Token
next_token s =
    let off = skip_comments_and_whites s in record { off = off; size = token_size (drop off s) }
