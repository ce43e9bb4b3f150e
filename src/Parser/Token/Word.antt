-- ===== src/Parser/Token/Word.antt =====
-- `next_token` on a word between white space.
use bano.Base.{ℕ, ◌≡◌, refl, false, [], ◌∷◌, ◌++◌, arith, Bytes, length, drop-append}
use bano.Parser.Token.{
  is_white, is_comment, skip_loop, skip_comments_and_whites, skip_whites, skip_one_comment,
  skip_round, token_size, next_token,
}
use bano.Parser.Token.Skips.{All, None, AtWhite}

-- A word holds no white space, is not empty, and is not the start of a comment.
pub data IsWord : Bytes → Type 0 where
  word :
      {c : ℕ} {w : Bytes}
      → is_comment c ≡ false
      → is_white c ≡ false
      → None is_white w
      → IsWord (c ∷ w)

token_size-append : (w r : Bytes) → None is_white w → AtWhite r → token_size (w ++ r) ≡ length w
unfolding token_size is_white
token_size-append [] [] h k = refl
token_size-append [] (c ∷ r) h k = ground arith
token_size-append (c ∷ w) r h k = ground (arith, token_size-append w r h.1 k)

skip_whites-append :
    (ws : Bytes) (c : ℕ) (r : Bytes)
    → All is_white ws
    → is_white c ≡ false
    → skip_whites (ws ++ c ∷ r) ≡ length ws
unfolding skip_whites
skip_whites-append [] c r h k = rw k
skip_whites-append (x ∷ ws) c r h k = rw (h.0, skip_whites-append ws c r h.1 k)

skip_one_comment-other :
    (next : Bytes → ℕ) (c : ℕ) (r : Bytes)
    → is_comment c ≡ false
    → skip_one_comment next (c ∷ r) ≡ 0
unfolding skip_one_comment
skip_one_comment-other next c r h = rw h

skip_round-append :
    (next : Bytes → ℕ) (ws : Bytes) (c : ℕ) (r : Bytes)
    → All is_white ws
    → is_white c ≡ false
    → is_comment c ≡ false
    → skip_round next (ws ++ c ∷ r) ≡ length ws
unfolding skip_round
skip_round-append next [] c r h k n = rw (k, skip_one_comment-other next c r n) (omega arith)
skip_round-append next (x ∷ ws) c r h k n =
    rw
      (
        h.0,
        skip_whites-append (x ∷ ws) c r h k,
        drop-append (x ∷ ws) (c ∷ r) (length (x ∷ ws)) refl,
        skip_one_comment-other next c r n,
      )
      (omega arith)

-- Between white space and white space, or the end, `next_token` finds a word.
pub next_token-IsWord :
    (ws w r : Bytes)
    → All is_white ws
    → IsWord w
    → AtWhite r
    → next_token (ws ++ (w ++ r)) ≡ record { off = length ws; size = length w }
unfolding next_token skip_comments_and_whites skip_loop
next_token-IsWord ws _ r h (word {c} {w} n k t) a = rw (
  skip_round-append (skip_loop (length (ws ++ (c ∷ (w ++ r))))) ws c (w ++ r) h k n,
  drop-append ws (c ∷ (w ++ r)) (length ws) refl,
  token_size-append (c ∷ w) r (k, t) a,
)
