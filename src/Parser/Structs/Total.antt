-- ===== src/Parser/Structs/Total.antt =====
-- The sizes that `parse_pair` and `parse_struct` read, and the end of their loop.
use bano.Base.{
  ℕ, zero, suc, ◌+◌, ◌≤◌, ◌<◌, ◌≡◌, ◌≢◌, refl, inl, inr, ◌&&◌, List, [], ◌∷◌, ◌++◌, arith, Bytes,
  length, drop, get_or, ◌==◌, Bool-cases, length-drop,
}
use bano.Strings.{BanoString}
use bano.Parser.Token.{Token, next_token}
use bano.Parser.Token.Next.{next_token-IsNext}
use bano.Parser.Outcome.{
  >>=-eq-done, Outcome, done, no_fuel, ◌>>=◌, alloc, >>=-ne-no_fuel, alloc-ne-no_fuel,
}
use bano.Parser.Structs.{at, Pair, Struct, parse_pair, alloc_pair, parse_pairs, parse_struct}

-- The three tokens of a pair that was read.
pub record PairTokens (s : Bytes) (p : Pair) (j : ℕ) : Type 0 where
  pub t : Token
  pub u : Token
  pub v : Token
  pub is_t : t ≡ next_token s
  pub is_u : u ≡ next_token (drop (t.off + t.size) s)
  pub is_v : v ≡ next_token (drop (t.off + t.size + (u.off + u.size)) s)
  pub t_pos : 0 < t.size
  pub u_pos : 0 < u.size
  pub v_pos : 0 < v.size
  pub is_p : p ≡ record {
    key = at (drop t.off s) t.size;
    val = at (drop (t.off + t.size + (u.off + u.size) + v.off) s) v.size;
  }
  pub is_j : j ≡ t.off + t.size + (u.off + u.size) + v.off + v.size

pub parse_pair-PairTokens :
    (s : Bytes) {p : Pair} {j : ℕ} → parse_pair s ≡ done (p, j) → PairTokens s p j
unfolding parse_pair
parse_pair-PairTokens s {p} {j} h =
    let a = next_token s in
    let b = next_token (drop (a.off + a.size) s) in
    let c = next_token (drop (a.off + a.size + (b.off + b.size)) s) in
    record {
      t = a;
      u = b;
      v = c;
      is_t = refl;
      is_u = refl;
      is_v = refl;
      t_pos = ground arith;
      u_pos = ground arith;
      v_pos = ground arith;
      is_p = ground arith;
      is_j = ground arith;
    }

-- A pair takes at least three bytes of the input, and no more than there are.
pub parse_pair_bounds :
    (s : Bytes) {p : Pair} {j : ℕ} → parse_pair s ≡ done (p, j) → (3 ≤ j) × (j ≤ length s)
parse_pair_bounds s h =
    let r = parse_pair-PairTokens s h in
    let a = rw (← r.is_t) at (next_token-IsNext s) in
    let i = r.t.off + r.t.size in
    let b = rw (← r.is_u) at (next_token-IsNext (drop i s)) in
    let k = i + (r.u.off + r.u.size) in
    let c = rw (← r.is_v) at (next_token-IsNext (drop k s)) in
    let e = r.is_j in
    let x = r.t_pos in
    let y = r.u_pos in
    let z = r.v_pos in
    omega (arith, a.within, b.within, c.within, length-drop i s, length-drop k s, e, x, y, z)

parse_pair-ne-no_fuel : (s : Bytes) → parse_pair s ≢ no_fuel
unfolding parse_pair
parse_pair-ne-no_fuel s = ground arith

alloc_pair-ne-no_fuel : (mem : ℕ) → alloc_pair mem ≢ no_fuel
unfolding alloc_pair
alloc_pair-ne-no_fuel mem =
    >>=-ne-no_fuel (alloc mem) alloc (alloc-ne-no_fuel mem) (λ left _. alloc-ne-no_fuel left)

parse_pairs-ne-no_fuel :
    (fuel mem : ℕ) (pairs : List Pair) (s : Bytes) (i : ℕ)
    → length s < fuel
    → parse_pairs fuel mem pairs s i ≢ no_fuel
unfolding parse_pairs
parse_pairs-ne-no_fuel zero mem pairs s i h = absurd (omega arith)
parse_pairs-ne-no_fuel (suc fuel) mem pairs s i h =
    let rest = λ (left : ℕ).
      λ (x : Pair × ℕ). parse_pairs fuel left (pairs ++ x.0 ∷ []) (drop x.1 s) (i + x.1) in
    let more =
      >>=-ne-no_fuel (alloc_pair mem) (λ left. parse_pair s >>= rest left)
        (alloc_pair-ne-no_fuel mem)
        (λ left _. >>=-ne-no_fuel (parse_pair s) (rest left) (parse_pair-ne-no_fuel s) (λ x e.
          parse_pairs-ne-no_fuel fuel left (pairs ++ x.0 ∷ []) (drop x.1 s) (i + x.1)
            (omega (arith, parse_pair_bounds s e, length-drop x.1 s)))) in
    ground (arith, more)

-- The loop reads at least the closing brace, and no more than there is.
parse_pairs_bounds :
    (fuel mem : ℕ) (pairs : List Pair) (s : Bytes) (i : ℕ) {left k : ℕ} {all : List Pair}
    → parse_pairs fuel mem pairs s i ≡ done (left, all, k)
    → (i < k) × (k ≤ i + length s)
unfolding parse_pairs
parse_pairs_bounds zero mem pairs s i h = cc
parse_pairs_bounds (suc fuel) mem pairs s i {left} {k} {all} h =
    let t = next_token s in
    let within = (next_token-IsNext s).within in
    elim (Bool-cases (t.size == 0)) [
      | inl z ↦ cc (rw z at h)
      | inr p ↦ elim (Bool-cases (t.size == 1 && get_or s t.off 0 == b'}')) [
        | inl last ↦ ground (arith, rw (p, last) at h)
        | inr go ↦
            let rest = λ (m : ℕ).
              λ (x : Pair × ℕ). parse_pairs fuel m (pairs ++ x.0 ∷ []) (drop x.1 s) (i + x.1) in
            let (m, _, h1) =
              >>=-eq-done (alloc_pair mem) (λ m. parse_pair s >>= rest m) (rw (p, go) at h) in
            let (x, e, h2) = >>=-eq-done (parse_pair s) (rest m) h1 in
            let b = parse_pair_bounds s e in
            let c = parse_pairs_bounds fuel m (pairs ++ x.0 ∷ []) (drop x.1 s) (i + x.1) h2 in
            omega (arith, b, c, length-drop x.1 s)
      ]
    ]

-- What follows the opening brace of a structure.
abbrev body : ℕ → Bytes → BanoString → ℕ → Outcome (ℕ × Struct × ℕ)
body mem s name j = parse_pairs (suc (length s)) mem [] (drop j s) j >>= λ (left, pairs, k).
    done (left, record { name = name; pairs = pairs }, k)

body-ne-no_fuel : (mem : ℕ) (s : Bytes) (name : BanoString) (j : ℕ) → body mem s name j ≢ no_fuel
body-ne-no_fuel mem s name j =
    >>=-ne-no_fuel (parse_pairs (suc (length s)) mem [] (drop j s) j) _
      (parse_pairs-ne-no_fuel (suc (length s)) mem [] (drop j s) j (omega (arith, length-drop j s)))
      (λ x e f. cc)

body_bounds :
    (mem : ℕ) (s : Bytes) (name : BanoString) (j : ℕ) {left k : ℕ} {strukt : Struct}
    → body mem s name j ≡ done (left, strukt, k)
    → (j < k) × (k ≤ j + length (drop j s))
body_bounds mem s name j h =
    let (x, e, f) = >>=-eq-done (parse_pairs (suc (length s)) mem [] (drop j s) j) _ h in
    ground (arith, parse_pairs_bounds (suc (length s)) mem [] (drop j s) j e)

-- `parse_struct` returns on every input and with any memory: its fuel always suffices.
pub parse_struct-ne-no_fuel : (mem : ℕ) (s : Bytes) → parse_struct mem s ≢ no_fuel
unfolding parse_struct
parse_struct-ne-no_fuel mem s =
    let t = next_token s in
    let u = next_token (drop (t.off + t.size) s) in
    ground (arith, body-ne-no_fuel mem s (at (drop t.off s) t.size) (t.off + t.size + (u.off + 1)))

-- Where `parse_struct` reads a structure, it takes at least one byte, and no more than there are.
pub parse_struct_bounds :
    (mem : ℕ) (s : Bytes) {left k : ℕ} {strukt : Struct}
    → parse_struct mem s ≡ done (left, strukt, k)
    → (0 < k) × (k ≤ length s)
unfolding parse_struct
parse_struct_bounds mem s {left} {k} {strukt} h =
    let t = next_token s in
    let i = t.off + t.size in
    let u = next_token (drop i s) in
    let j = i + (u.off + 1) in
    let b = λ (e : body mem s (at (drop t.off s) t.size) j ≡ done (left, strukt, k)).
      body_bounds mem s (at (drop t.off s) t.size) j e in
    ground (
      arith,
      b,
      (next_token-IsNext s).within,
      (next_token-IsNext (drop i s)).within,
      length-drop i s,
      length-drop j s,
    )
