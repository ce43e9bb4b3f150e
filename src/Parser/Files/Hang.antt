-- ===== src/Parser/Files/Hang.antt =====
-- When `parse_buf` returns.
use bano.Base.{
  ℕ, zero, suc, ◌+◌, ◌≤◌, ◌<◌, ◌≡◌, ◌≢◌, refl, ◌⊎◌, inl, inr, true, false, Option, [], ◌∷◌, arith,
  Bytes, length, drop, get_or, ◌==◌, Bool-cases, length-drop, drop-add,
}
use bano.Parser.Token.{next_token, is_directive, is_include_directive}
use bano.Parser.Token.Skips.{AtToken, AtWhite}
use bano.Parser.Token.Next.{next_token-IsNext}
use bano.Parser.Outcome.{
  Outcome, done, no_fuel, ◌>>=◌, alloc, >>=-eq-done, >>=-eq-no_fuel, >>=-ne-no_fuel,
  alloc-ne-no_fuel,
}
use bano.Parser.Structs.{parse_struct}
use bano.Parser.Structs.Total.{parse_struct-ne-no_fuel, parse_struct_bounds}
use bano.Parser.Files.{
  Parser, parse_directive, parse_new_struct, parse_directive_or_struct, parse_buf,
}

-- The next token of the input begins with a dot.
pub record AtDirective (s : Bytes) : Type 0 where
  pub present : (next_token s).size ≢ 0
  pub dotted : is_directive (get_or s (next_token s).off 0) ≡ true

-- Only the end of the input has an empty token, and it stands behind all bytes.
AtToken-AtWhite-length : (s : Bytes) → AtToken s → AtWhite s → length s ≡ 0
AtToken-AtWhite-length [] h k = refl
AtToken-AtWhite-length (c ∷ s) h k = ground arith

pub next_token_end : (s : Bytes) → (next_token s).size ≡ 0 → (next_token s).off ≡ length s
next_token_end s z =
    let r = next_token-IsNext s in
    let e = AtToken-AtWhite-length (drop (next_token s).off s) r.begins (rw z at r.stops) in
    omega (arith, e, r.within, length-drop (next_token s).off s)

module _ (mapped : Bytes → Option Bytes) where
  parse_new_struct-ne-no_fuel : (p : Parser) (s : Bytes) → parse_new_struct mapped p s ≢ no_fuel
  unfolding parse_new_struct
  parse_new_struct-ne-no_fuel p s =
      >>=-ne-no_fuel (alloc p.mem >>= alloc) _
        (>>=-ne-no_fuel (alloc p.mem) alloc (alloc-ne-no_fuel p.mem)
          (λ left _. alloc-ne-no_fuel left))
        (λ left _.
          >>=-ne-no_fuel (parse_struct left s) _ (parse_struct-ne-no_fuel left s) (λ x e f. cc))

  parse_new_struct_bounds :
      (p q : Parser) (s : Bytes) (j : ℕ)
      → parse_new_struct mapped p s ≡ done (q, j)
      → (0 < j) × (j ≤ length s)
  unfolding parse_new_struct
  parse_new_struct_bounds p q s j h =
      let (left, _, h1) = >>=-eq-done (alloc p.mem >>= alloc) _ h in
      let (x, e, h2) = >>=-eq-done (parse_struct left s) _ h1 in
      ground (arith, parse_struct_bounds left s e)

  -- One step that is not a directive returns, and takes some bytes.
  step_bounds :
      (parse : Parser → Bytes → Outcome Parser) (p : Parser) (c : ℕ) (s : Bytes)
      → (AtDirective (c ∷ s))
        ⊎ ((parse_directive_or_struct mapped parse p (c ∷ s) ≢ no_fuel)
            × ((q : Parser) (j : ℕ)
                → parse_directive_or_struct mapped parse p (c ∷ s) ≡ done (q, j)
                → (0 < j) × (j ≤ length (c ∷ s))))
  unfolding parse_directive_or_struct
  step_bounds parse p c s =
      let t = next_token (c ∷ s) in
      elim (Bool-cases (t.size == 0)) [
        | inl z ↦
            let off = next_token_end (c ∷ s) (ground arith) in
            rw z (inr (λ e. cc, λ q j e. ground arith))
        | inr p0 ↦ elim (Bool-cases (is_directive (get_or (c ∷ s) t.off 0))) [
          | inl d ↦ inl (record { present = ground arith; dotted = d })
          | inr n ↦
              rw (p0, n)
                (inr (
                  parse_new_struct-ne-no_fuel p (c ∷ s),
                  λ q j. parse_new_struct_bounds p q (c ∷ s) j,
                ))
        ]
      ]

  -- Where `parse_buf` does not return although it has more fuel than bytes, there is a position in
  -- the input from which the next token begins with a dot.
  pub parse_buf-returns :
      (fuel : ℕ) (p : Parser) (s : Bytes)
      → length s < fuel
      → parse_buf mapped fuel p s ≡ no_fuel
      → (k : ℕ) × (k ≤ length s) × AtDirective (drop k s)
  unfolding parse_buf
  parse_buf-returns zero p s h e = absurd (omega arith)
  parse_buf-returns (suc fuel) p [] h e = cc
  parse_buf-returns (suc fuel) p (c ∷ s) h e = elim (step_bounds (parse_buf mapped fuel) p c s) [
    | inl d ↦ (0, omega arith, d)
    | inr (total, bounds) ↦
        elim (>>=-eq-no_fuel (parse_directive_or_struct mapped (parse_buf mapped fuel) p (c ∷ s)) _
          e) [
            | inl stuck ↦ absurd (total stuck)
            | inr ((q, j), step, rest) ↦
                let b = bounds q j step in
                let (k, fits, d) =
                  parse_buf-returns fuel q (drop j (c ∷ s))
                    (omega (arith, b, length-drop j (c ∷ s))) rest in
                (j + k, omega (arith, b, length-drop j (c ∷ s)), rw (drop-add j k (c ∷ s)) d)
          ]
  ]

  -- `parse_buf` never returns on an input whose next token is a directive other than `.include`:
  -- no fuel is enough.
  pub parse_buf-no_fuel :
      (fuel : ℕ) (p : Parser) (s : Bytes)
      → AtDirective s
      → is_include_directive (drop (next_token s).off s) (next_token s).size ≡ false
      → parse_buf mapped fuel p s ≡ no_fuel
  unfolding parse_buf parse_directive_or_struct parse_directive is_directive
  parse_buf-no_fuel zero p s d n = refl
  parse_buf-no_fuel (suc fuel) p [] d n = cc d.dotted
  parse_buf-no_fuel (suc fuel) p (c ∷ s) d n = ground (arith, parse_buf-no_fuel fuel p (c ∷ s) d n)
