-- ===== src/Strings/Compare.antt =====
-- What `bano_string_cmp_cstr` and `bano_string_to_bool` accept.
use bano.Base.{ℕ, zero, suc, ◌≤◌, ◌≡◌, refl, ◌↔◌, true, [], ◌∷◌, ◌++◌, arith, Bytes, length, take}
use bano.Strings.{BanoString, content, cmp_loop, cmp_cstr}

-- The string lies within the bytes that it points into.
abbrev pub IsSlice : BanoString → Type 0
IsSlice s = s.size ≤ length s.bytes

abbrev pub IsPrefix : Bytes → Bytes → Type 0
IsPrefix a b = (rest : Bytes) × (b ≡ a ++ rest)

cmp_loop-IsPrefix :
    (n : ℕ) (a b : Bytes) → n ≤ length a → cmp_loop n a b ≡ true → IsPrefix (take n a) b
unfolding cmp_loop
cmp_loop-IsPrefix zero a b h e = (b, refl)
cmp_loop-IsPrefix (suc n) [] b h e = absurd (omega arith)
cmp_loop-IsPrefix (suc n) (x ∷ a) [] h e = cc
cmp_loop-IsPrefix (suc n) (x ∷ a) (y ∷ b) h e =
    let (rest, p) = cmp_loop-IsPrefix n a b (omega arith) (ground arith) in (rest, ground arith)

IsPrefix-cmp_loop :
    (n : ℕ) (a b rest : Bytes) → n ≤ length a → b ≡ take n a ++ rest → cmp_loop n a b ≡ true
unfolding cmp_loop
IsPrefix-cmp_loop zero a b rest h e = refl
IsPrefix-cmp_loop (suc n) [] b rest h e = absurd (omega arith)
IsPrefix-cmp_loop (suc n) (x ∷ a) [] rest h e = cc
IsPrefix-cmp_loop (suc n) (x ∷ a) (y ∷ b) rest h e = ground (arith, IsPrefix-cmp_loop n a b rest)

-- For a string within its buffer, `bano_string_cmp_cstr` returns 0 exactly when the string is a
-- prefix of the C string.
pub cmp_cstr-IsPrefix :
    (s : BanoString) (b : Bytes) → IsSlice s → (cmp_cstr s b ≡ true) ↔ IsPrefix (content s) b
unfolding cmp_cstr
cmp_cstr-IsPrefix s b h =
    (cmp_loop-IsPrefix s.size s.bytes b h, λ (rest, e). IsPrefix-cmp_loop s.size s.bytes b rest h e)
