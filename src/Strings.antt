-- ===== src/Strings.antt =====
-- src/base/bano_string.c: counted strings that point into a larger buffer, and their conversions.
-- A `const char*` argument is the list of its bytes without the NUL. `strtoul` is a parameter: it
-- is given the bytes from its argument on, and the base. A NULL result of `malloc` is the argument
-- `granted = false`.
pub mod Compare
pub mod Arrays
use bano.Base.{
  ℕ, zero, suc, ◌+◌, ◌-◌, ◌*◌, ◌%◌, ◌^◌, Bool, true, false, not, ◌&&◌, Option, none, some, [], ◌∷◌,
  ◌++◌, Bytes, codes, get_or, take, drop, ltb, ◌==◌, if◌then◌else◌,
}

-- `bano_string_t`: `bytes` holds what the pointer `data` leads to, which goes on past `size`.
pub record BanoString : Type 0 where
  pub bytes : Bytes
  pub size : ℕ

-- `bano_string_init_with_data`
abbrev pub init_with_data : Bytes → ℕ → BanoString
init_with_data b n = record { bytes = b; size = n }

-- `bano_string_init`
abbrev pub init : BanoString
init = init_with_data [] 0

-- The bytes that a string stands for.
abbrev pub content : BanoString → Bytes
content s = take s.size s.bytes

-- The loop of `bano_string_cmp_cstr`, with `n` rounds left.
cmp_loop : ℕ → Bytes → Bytes → Bool
cmp_loop zero a b = true
cmp_loop (suc n) a [] = false
cmp_loop (suc n) a (y ∷ b) =
    let rest = cmp_loop n (drop 1 a) b in if not (get_or a 0 0 == y) then false else rest

-- `bano_string_cmp_cstr`; `true` stands for the result 0, `false` for -1.
unfoldable pub cmp_cstr : BanoString → Bytes → Bool
unfolding cmp_loop
cmp_cstr s b = cmp_loop s.size s.bytes b

-- `bano_string_to_bool`
pub to_bool : BanoString → Option ℕ
to_bool s =
    if cmp_cstr s (codes "yes")
    then some 1
    else if cmp_cstr s (codes "true")
    then some 1
    else if cmp_cstr s (codes "1")
    then some 1
    else if cmp_cstr s (codes "no")
    then some 0
    else if cmp_cstr s (codes "false")
    then some 0
    else if cmp_cstr s (codes "0")
    then some 0
    else none

-- `get_base`, on a buffer that holds a NUL
pub get_base : Bytes → ℕ
get_base s =
    if not (not (get_or s 0 0 == 0) && not (get_or s 1 0 == 0))
    then 10
    else if not (get_or s 0 0 == b'0' && get_or s 1 0 == b'x')
    then 10
    else 16

module _ (strtoul : Bytes → ℕ → ℕ) where
  -- `bano_string_to_uint32`
  unfoldable pub to_uint32 : BanoString → Option ℕ
  unfolding get_base
  to_uint32 s =
      let buf = content s ++ 0 ∷ [] in
      if not (ltb s.size 32) then none else some (strtoul buf (get_base buf) % 2 ^ 32)

  -- `bano_string_to_uint16`
  unfoldable pub to_uint16 : BanoString → Option ℕ
  to_uint16 s = elim (to_uint32 s) [ none ↦ none | some x ↦ some (x % 2 ^ 16) ]

  -- The loop of `bano_string_to_array`, at `data + i * 5` with `n` elements left.
  array_loop : ℕ → Bytes → Bytes
  array_loop zero p = []
  array_loop (suc n) p = (strtoul p 16 % 2 ^ 8) ∷ array_loop n (drop 5 p)

  -- `bano_string_to_array`; `n * 5 - 1` is a `size_t`.
  pub to_array : BanoString → ℕ → Option Bytes
  unfolding array_loop
  to_array s n =
      if not (s.size == (n * 5 + 2 ^ 64 - 1) % 2 ^ 64) then none else some (array_loop n s.bytes)

  -- `bano_string_to_cipher_key`; `BANO_CIPHER_KEY_SIZE` is 16.
  pub to_cipher_key : BanoString → Option Bytes
  to_cipher_key s = to_array s 16

-- `bano_string_to_cstr`: a fresh copy, which ends with a NUL.
pub to_cstr : Bool → BanoString → Option Bytes
to_cstr granted s = if not granted then none else some (content s ++ 0 ∷ [])
