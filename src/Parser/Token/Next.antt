-- ===== src/Parser/Token/Next.antt =====
-- The token that `next_token` finds.
use bano.Base.{
  ℕ, zero, suc, ◌+◌, ◌≤◌, [], ◌∷◌, arith, Bytes, length, take, drop, if◌then◌else◌, length-drop,
}
use bano.Parser.Token.{
  is_white, skip_loop, skip_comments_and_whites, skip_whites, skip_comment, skip_one_comment,
  skip_round, token_size, Token, next_token,
}
use bano.Parser.Token.Skips.{Skips, None, AtToken, AtWhite, Skips-skip_loop, skip_loop-AtToken}

-- `t` is the next token of `s`: only white space and comments stand before it, it begins with no
-- white space and no comment, holds no white space, and goes on up to white space or the end.
pub record IsNext (s : Bytes) (t : Token) : Type 0 where
  pub skipped : Skips (drop t.off s) s
  pub begins : AtToken (drop t.off s)
  pub text : None is_white (take t.size (drop t.off s))
  pub stops : AtWhite (drop t.size (drop t.off s))
  pub within : t.off + t.size ≤ length s

token_size-text : (s : Bytes) → None is_white (take (token_size s) s)
unfolding token_size is_white
token_size-text [] = tt
token_size-text (c ∷ s) = ground (arith, token_size-text s)

token_size-stops : (s : Bytes) → AtWhite (drop (token_size s) s)
unfolding token_size is_white
token_size-stops [] = tt
token_size-stops (c ∷ s) = ground (arith, token_size-stops s)

token_size-le : (s : Bytes) → token_size s ≤ length s
unfolding token_size
token_size-le [] = omega arith
token_size-le (c ∷ s) = ground (arith, token_size-le s)

skip_whites-le : (s : Bytes) → skip_whites s ≤ length s
unfolding skip_whites
skip_whites-le [] = omega arith
skip_whites-le (c ∷ s) = ground (arith, skip_whites-le s)

skip_comment-le : (s : Bytes) → skip_comment s ≤ length s
unfolding skip_comment
skip_comment-le [] = omega arith
skip_comment-le (c ∷ s) = ground (arith, skip_comment-le s)

skip_one_comment-le :
    (next : Bytes → ℕ) (q : Bytes)
    → ((t : Bytes) → next t ≤ length t)
    → skip_one_comment next q ≤ length q
unfolding skip_one_comment
skip_one_comment-le next [] h = omega arith
skip_one_comment-le next (c ∷ t) h =
    let j = skip_comment (c ∷ t) in
    ground (arith, h (drop j (c ∷ t)), skip_comment-le (c ∷ t), length-drop j (c ∷ t))

skip_loop-le : (fuel : ℕ) (s : Bytes) → skip_loop fuel s ≤ length s
unfolding skip_loop skip_round
skip_loop-le zero s = omega arith
skip_loop-le (suc fuel) [] = omega arith
skip_loop-le (suc fuel) (c ∷ s) =
    let i = if is_white c then skip_whites (c ∷ s) else 0 in
    let le : i ≤ length (c ∷ s) = ground (arith, skip_whites-le (c ∷ s)) in
    omega (
      arith,
      skip_one_comment-le (skip_loop fuel) (drop i (c ∷ s)) (skip_loop-le fuel),
      length-drop i (c ∷ s),
    )

-- `next_token` returns the next token of every input: only white space and comments stand before
-- it, it begins with neither, holds no white space, goes on up to white space or the end, and is
-- within the input.
pub next_token-IsNext : (s : Bytes) → IsNext s (next_token s)
unfolding next_token skip_comments_and_whites
next_token-IsNext s = record {
  skipped = Skips-skip_loop (suc (length s)) s;
  begins = skip_loop-AtToken (suc (length s)) s (omega arith);
  text = token_size-text (drop (skip_comments_and_whites s) s);
  stops = token_size-stops (drop (skip_comments_and_whites s) s);
  within =
      let off = skip_loop (suc (length s)) s in
      omega (arith, skip_loop-le (suc (length s)) s, token_size-le (drop off s), length-drop off s);
}
