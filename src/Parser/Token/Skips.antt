-- ===== src/Parser/Token/Skips.antt =====
-- What `next_token` skips and what it returns.
use bano.Base.{
  ℕ, zero, suc, ◌≤◌, ◌<◌, ◌≡◌, refl, sym, ap, ◌⊎◌, inl, inr, Bool, true, false, [], ◌∷◌, ◌++◌,
  arith, Bytes, length, drop, Bool-cases, length-drop, drop-add, drop-nil,
}
use native.Mathlib.Nat.{zero-add}
use bano.Parser.Token.{
  is_nl, is_white, is_comment, skip_whites, skip_comment, skip_one_comment, skip_round, skip_loop,
}

abbrev pub All : (ℕ → Bool) → Bytes → Type 0
All p [] = Unit {0}
All p (c ∷ s) = (p c ≡ true) × All p s

abbrev pub None : (ℕ → Bool) → Bytes → Type 0
None p [] = Unit {0}
None p (c ∷ s) = (p c ≡ false) × None p s

-- White space and whole comments stand between `s` and `r`; a comment ends with its line or with
-- the input.
pub data Skips (r : Bytes) : Bytes → Type 0 where
  stop : {s : Bytes} → s ≡ r → Skips r s
  white : {c : ℕ} {s : Bytes} → is_white c ≡ true → Skips r s → Skips r (c ∷ s)
  comment :
      {c : ℕ} {s t : Bytes} (body : Bytes) (e : ℕ)
      → is_comment c ≡ true
      → None is_nl body
      → is_nl e ≡ true
      → t ≡ body ++ e ∷ s
      → Skips r s
      → Skips r (c ∷ t)
  last_comment : {c : ℕ} {t : Bytes} → is_comment c ≡ true → None is_nl t → r ≡ [] → Skips r (c ∷ t)

-- `r` begins with neither white space nor a comment.
abbrev pub AtToken : Bytes → Type 0
AtToken [] = Unit {0}
AtToken (c ∷ s) = (is_white c ≡ false) × (is_comment c ≡ false)

-- `r` begins with white space.
abbrev pub AtWhite : Bytes → Type 0
AtWhite [] = Unit {0}
AtWhite (c ∷ s) = is_white c ≡ true

Skips-skip_whites : (s r : Bytes) → Skips r (drop (skip_whites s) s) → Skips r s
unfolding skip_whites
Skips-skip_whites [] r k = k
Skips-skip_whites (c ∷ s) r k = elim (Bool-cases (is_white c)) [
  | inl w ↦ white w (Skips-skip_whites s r (rw w at k))
  | inr n ↦ rw n at k
]

-- A comment's text runs to the end of its line, or of the input.
comment_text :
    (t : Bytes)
    → (None is_nl t × (drop (skip_comment t) t ≡ []))
      ⊎ ((body : Bytes) × (e : ℕ) × (s : Bytes) × None is_nl body
          × (is_nl e ≡ true)
          × (t ≡ body ++ e ∷ s)
          × (drop (skip_comment t) t ≡ s))
unfolding skip_comment
comment_text [] = inl (tt, refl)
comment_text (c ∷ t) = elim (Bool-cases (is_nl c)) [
  | inl n ↦ inr ([], c, t, tt, n, refl, rw n)
  | inr m ↦ elim (comment_text t) [
    | inl (none, end) ↦ inl ((m, none), rw m end)
    | inr (body, e, s, none, n, eq, end) ↦
        inr (c ∷ body, e, s, (m, none), n, ap (◌∷◌ c) eq, rw m end)
  ]
]

skip_comment-suc :
    (c : ℕ) (t : Bytes) → is_comment c ≡ true → skip_comment (c ∷ t) ≡ suc (skip_comment t)
unfolding is_comment is_nl skip_comment
skip_comment-suc c t h = ground arith

-- Behind a comment the loop goes on with what follows it.
drop-skip_one_comment :
    (next : Bytes → ℕ) (c : ℕ) (t u : Bytes)
    → is_comment c ≡ true
    → drop (skip_comment t) t ≡ u
    → drop (skip_one_comment next (c ∷ t)) (c ∷ t) ≡ drop (next u) u
unfolding skip_one_comment
drop-skip_one_comment next c t u h e =
    rw (h, skip_comment-suc c t h, drop-add (suc (skip_comment t)) _ (c ∷ t), e)

drop-skip_one_comment_other :
    (next : Bytes → ℕ) (q : Bytes)
    → (q ≡ []) ⊎ ((c : ℕ) × (t : Bytes) × (q ≡ c ∷ t) × (is_comment c ≡ false))
    → drop (skip_one_comment next q) q ≡ q
unfolding skip_one_comment
drop-skip_one_comment_other next q (inl e) = rw e
drop-skip_one_comment_other next q (inr (c, t, e, h)) = rw (e, h)

module _ (fuel : ℕ) (ih : (t : Bytes) → Skips (drop (skip_loop fuel t) t) t) where
  Skips-skip_one_comment : (q : Bytes) → Skips (drop (skip_one_comment (skip_loop fuel) q) q) q
  Skips-skip_one_comment [] = stop (sym (drop-skip_one_comment_other _ [] (inl refl)))
  Skips-skip_one_comment (c ∷ t) = elim (Bool-cases (is_comment c)) [
    | inr n ↦ stop (sym (drop-skip_one_comment_other _ (c ∷ t) (inr (c, t, refl, n))))
    | inl h ↦ elim (comment_text t) [
      | inl (none, end) ↦
          rw (drop-skip_one_comment (skip_loop fuel) c t [] h end)
            (last_comment h none (drop-nil _))
      | inr (body, e, s, none, n, eq, end) ↦
          rw (drop-skip_one_comment (skip_loop fuel) c t s h end)
            (comment body e h none n eq (ih s))
    ]
  ]

  Skips-skip_round : (s : Bytes) → Skips (drop (skip_round (skip_loop fuel) s) s) s
  unfolding skip_round
  Skips-skip_round [] = stop refl
  Skips-skip_round (c ∷ s) = elim (Bool-cases (is_white c)) [
    | inl w ↦
        rw (w, drop-add (skip_whites (c ∷ s)) _ (c ∷ s))
          (Skips-skip_whites (c ∷ s) _ (Skips-skip_one_comment _))
    | inr n ↦ rw (n, zero-add) (Skips-skip_one_comment (c ∷ s))
  ]

pub Skips-skip_loop : (fuel : ℕ) (s : Bytes) → Skips (drop (skip_loop fuel s) s) s
unfolding skip_loop
Skips-skip_loop zero s = stop refl
Skips-skip_loop (suc fuel) s = Skips-skip_round fuel (Skips-skip_loop fuel) s

abbrev NotWhite : Bytes → Type 0
NotWhite [] = Unit {0}
NotWhite (c ∷ s) = is_white c ≡ false

skip_whites-NotWhite : (s : Bytes) → NotWhite (drop (skip_whites s) s)
unfolding skip_whites
skip_whites-NotWhite [] = tt
skip_whites-NotWhite (c ∷ s) = elim (Bool-cases (is_white c)) [
  | inl w ↦ rw w (skip_whites-NotWhite s)
  | inr n ↦ rw n n
]

length-drop-le : (n : ℕ) (s : Bytes) → length (drop n s) ≤ length s
length-drop-le n s = omega (arith, length-drop n s)

module _ (fuel : ℕ) (ih : (t : Bytes) → length t < fuel → AtToken (drop (skip_loop fuel t) t)) where
  skip_one_comment-AtToken :
      (q : Bytes)
      → NotWhite q
      → length q ≤ fuel
      → AtToken (drop (skip_one_comment (skip_loop fuel) q) q)
  skip_one_comment-AtToken [] w h = rw (drop-nil (skip_one_comment (skip_loop fuel) [])) tt
  skip_one_comment-AtToken (c ∷ t) w h = elim (Bool-cases (is_comment c)) [
    | inl k ↦
        rw (drop-skip_one_comment (skip_loop fuel) c t (drop (skip_comment t) t) k refl)
          (ih (drop (skip_comment t) t) (omega (arith, length-drop-le (skip_comment t) t)))
    | inr n ↦ rw (drop-skip_one_comment_other (skip_loop fuel) (c ∷ t) (inr (c, t, refl, n))) (w, n)
  ]

  skip_round-AtToken :
      (s : Bytes) → length s ≤ fuel → AtToken (drop (skip_round (skip_loop fuel) s) s)
  unfolding skip_round
  skip_round-AtToken [] h = tt
  skip_round-AtToken (c ∷ s) h = elim (Bool-cases (is_white c)) [
    | inl w ↦
        rw (w, drop-add (skip_whites (c ∷ s)) _ (c ∷ s))
          (skip_one_comment-AtToken (drop (skip_whites (c ∷ s)) (c ∷ s))
            (skip_whites-NotWhite (c ∷ s))
            (omega (arith, length-drop-le (skip_whites (c ∷ s)) (c ∷ s))))
    | inr n ↦ rw (n, zero-add) (skip_one_comment-AtToken (c ∷ s) n h)
  ]

-- With more fuel than bytes the loop ends at a token or at the end.
pub skip_loop-AtToken :
    (fuel : ℕ) (s : Bytes) → length s < fuel → AtToken (drop (skip_loop fuel s) s)
unfolding skip_loop
skip_loop-AtToken zero s h = absurd (omega arith)
skip_loop-AtToken (suc fuel) s h = skip_round-AtToken fuel (skip_loop-AtToken fuel) s (omega arith)
