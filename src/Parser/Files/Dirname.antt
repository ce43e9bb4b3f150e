-- ===== src/Parser/Files/Dirname.antt =====
-- What `get_dirname` makes of a path.
use bano.Base.{
  ℕ, ◌+◌, ◌≤◌, ◌<◌, ◌≡◌, refl, ap, ◌∙◌, Bool, none, some, [], ◌∷◌, ◌++◌, arith, Bytes, length, take,
  if◌then◌else◌, ◌==◌,
}
use native.Mathlib.Nat.{zero-add, suc-add}
use bano.Parser.Token.Skips.{None}
use bano.Parser.Files.{pathlen, dirname_loop, get_dirname}

abbrev pub is_slash : ℕ → Bool
is_slash c = c == b'/'

dirname_loop-None :
    (base : Bytes) (i j : ℕ)
    → None is_slash base
    → i + length base ≤ pathlen
    → dirname_loop base i j ≡ some j
unfolding dirname_loop
dirname_loop-None [] i j h le = refl
dirname_loop-None (c ∷ base) i j h le = ground (arith, dirname_loop-None base (i + 1) j h.1)

dirname_loop-slash :
    (dir base : Bytes) (i j : ℕ)
    → None is_slash base
    → i + length dir + length base < pathlen
    → dirname_loop (dir ++ b'/' ∷ base) i j ≡ some (i + length dir)
unfolding dirname_loop
dirname_loop-slash [] base i j h le = ground (arith, dirname_loop-None base (i + 1) i h)
dirname_loop-slash (c ∷ dir) base i j h le =
    ground (arith, dirname_loop-slash dir base (i + 1) (if c == b'/' then i else j) h (omega arith))

take_slash :
    (dir base : Bytes) → take (length dir + 1) ((dir ++ b'/' ∷ base) ++ 0 ∷ []) ≡ dir ++ b'/' ∷ []
take_slash [] base = refl
take_slash (c ∷ dir) base = rw (suc-add (length dir) 1) (ap (◌∷◌ c) (take_slash dir base))

-- For a path of at most 256 bytes with a slash, `get_dirname` returns the path up to its last
-- slash.
pub get_dirname-slash :
    (dir base : Bytes)
    → None is_slash base
    → length dir + length base < pathlen
    → get_dirname (dir ++ b'/' ∷ base) ≡ some (dir ++ b'/' ∷ [])
unfolding get_dirname
get_dirname-slash dir base h le =
    let whole = dir ++ b'/' ∷ base in
    ap (λ found. elim found [ none ↦ none | some j ↦ some (take (j + 1) (whole ++ 0 ∷ [])) ])
      (dirname_loop-slash dir base 0 0 h (omega arith))
    ∙ ap some (rw (zero-add (length dir)) (take_slash dir base))

-- For a path of one up to 256 bytes with no slash, `get_dirname` returns its first byte.
pub get_dirname-no_slash :
    (c : ℕ) (base : Bytes)
    → None is_slash (c ∷ base)
    → length base < pathlen
    → get_dirname (c ∷ base) ≡ some (c ∷ [])
unfolding get_dirname
get_dirname-no_slash c base h le = rw (dirname_loop-None (c ∷ base) 0 0 h (omega arith))
