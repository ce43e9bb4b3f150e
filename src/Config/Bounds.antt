-- ===== src/Config/Bounds.antt =====
-- The sizes of what the configuration callbacks of src/base/bano_base.c write.
use bano.Base.{
  ℕ, ◌%◌, ◌^◌, ◌<◌, ◌≡◌, Bool, true, false, not, none, some, List, if◌then◌else◌, Bytes, codes,
  take, length, length-take, ltb, set_bit, arith, Option-cases, inl, inr,
}
use bano.Strings.{BanoString, cmp_cstr, to_bool, to_uint16, to_uint32}
use bano.Parser.Structs.{Pair}
use bano.Nodl.{Keyval, keyval_init}
use bano.Config.{apply_each}
use bano.Config.Stops.{apply_each-keeps}
use bano.Config.Pairs.{
  flag_by, keyval_flag, keyval_name, keyval_fmt, keyval_base, apply_nodl_keyval_pair,
}

-- A description of a key fits: the name and its NUL the 32 bytes, the key and the flags their words.
pub record IsKeyval (kv : Keyval) : Type 0 where
  pub flags_fit : kv.flags < 2 ^ 12
  pub name_fits : length kv.name < 32
  pub key_fits : kv.key < 2 ^ 16

-- The flag with this bit stays within the 12 flags.
abbrev Fits : ℕ → Type 0
Fits k = (x : ℕ) → x < 2 ^ 12 → set_bit k x < 2 ^ 12

length-take_lt : (n : ℕ) (s : Bytes) → n < 32 → length (take n s) < 32
length-take_lt n s h = omega (arith, length-take n s)

keyval_name-IsKeyval : (kv : Keyval) (s : BanoString) → IsKeyval kv → IsKeyval (keyval_name kv s).0
unfolding keyval_name
keyval_name-IsKeyval kv s h = record {
  flags_fit = h.flags_fit;
  name_fits = length-take_lt (if not (ltb s.size 32) then 31 else s.size) s.bytes (ground arith);
  key_fits = h.key_fits;
}

flag_by-lt : (k : ℕ) (s : BanoString) (x : ℕ) → Fits k → x < 2 ^ 12 → (flag_by k s x).0 < 2 ^ 12
unfolding flag_by
flag_by-lt k s x fits lt = elim (Option-cases (to_bool s)) [
  | inl n ↦ rw (n, flag_by) lt
  | inr (b, n) ↦ rw (n, flag_by) (ground (arith, fits x lt))
]

keyval_flag-IsKeyval :
    (k : ℕ) (kv : Keyval) (s : BanoString) → Fits k → IsKeyval kv → IsKeyval (keyval_flag k kv s).0
unfolding keyval_flag
keyval_flag-IsKeyval k kv s fits h = record {
  flags_fit = flag_by-lt k s kv.flags fits h.flags_fit;
  name_fits = h.name_fits;
  key_fits = h.key_fits;
}

-- A property of both branches is one of the conditional.
pub both : {A : Type 0} (P : A → Type 0) (b : Bool) {x y : A} → P x → P y → P (if b then x else y)
both P true h k = h
both P false h k = k

abbrev Writes : Keyval × Bool → Type 0
Writes r = IsKeyval r.0

with_flags : (kv : Keyval) (f : ℕ) → IsKeyval kv → f < 2 ^ 12 → IsKeyval (record kv { flags = f })
with_flags kv f h lt = record { flags_fit = lt; name_fits = h.name_fits; key_fits = h.key_fits }

abbrev Low : ℕ → Type 0
Low x = x < 2 ^ 12

keyval_fmt-IsKeyval : (kv : Keyval) (s : BanoString) → IsKeyval kv → IsKeyval (keyval_fmt kv s).0
unfolding keyval_fmt
keyval_fmt-IsKeyval kv s h =
    let low = h.flags_fit in
    let f1 =
      both Low (cmp_cstr s (codes "bool")) {x = set_bit 0 kv.flags} (ground (arith, low)) (
        both Low (cmp_cstr s (codes "uint8")) {x = set_bit 1 kv.flags} (ground (arith, low)) low) in
    let f2 = both Low (cmp_cstr s (codes "uint16")) (fit2 _ f1) f1 in
    both Writes (cmp_cstr s (codes "uint32")) (with_flags kv _ h (fit3 _ f2)) (with_flags kv _ h f2)
  where
    fit2 : Fits 2
    fit2 x lt = ground (arith, lt)

    fit3 : Fits 3
    fit3 x lt = ground (arith, lt)

keyval_base-IsKeyval : (kv : Keyval) (s : BanoString) → IsKeyval kv → IsKeyval (keyval_base kv s).0
unfolding keyval_base
keyval_base-IsKeyval kv s h =
    let low = h.flags_fit in
    both Writes (cmp_cstr s (codes "dec")) (with_flags kv _ h (ground (arith, low)))
      (both Writes (cmp_cstr s (codes "bin")) (with_flags kv _ h (ground (arith, low))) h)

module _ (strtoul : Bytes → ℕ → ℕ) where
  to_uint16-lt : (s : BanoString) (x : ℕ) → to_uint16 strtoul s ≡ some x → x < 2 ^ 16
  unfolding to_uint16
  to_uint16-lt s x e = elim (Option-cases (to_uint32 strtoul s)) [
    | inl n ↦ cc (rw (n, to_uint16) at e)
    | inr (y, n) ↦
        let is_x : y % 2 ^ 16 ≡ x = cc (rw (n, to_uint16) at e) in rw (← is_x) (omega arith)
  ]

  -- Whatever the pair says, the description still fits: no write leaves the 32 bytes of the name.
  pub apply_nodl_keyval_pair-IsKeyval :
      (kv : Keyval) (p : Pair) → IsKeyval kv → IsKeyval (apply_nodl_keyval_pair strtoul kv p).0
  unfolding apply_nodl_keyval_pair
  apply_nodl_keyval_pair-IsKeyval kv p h =
      let flag = λ (k : ℕ). λ (fits : Fits k). keyval_flag-IsKeyval k kv p.val fits h in
      let is = λ (name : Bytes). cmp_cstr p.key name in
      both Writes (is (codes "name")) (keyval_name-IsKeyval kv p.val h) (
        both Writes (is (codes "key")) key (
          both Writes (is (codes "fmt")) (keyval_fmt-IsKeyval kv p.val h) (
            both Writes (is (codes "base")) (keyval_base-IsKeyval kv p.val h) (
              both Writes (is (codes "mtime")) (flag 6 (λ x lt. ground (arith, lt))) (
                both Writes (is (codes "get")) (flag 7 (λ x lt. ground (arith, lt))) (
                  both Writes (is (codes "set")) (flag 8 (λ x lt. ground (arith, lt))) (
                    both Writes (is (codes "ack")) (flag 10 (λ x lt. ground (arith, lt))) (
                      both Writes (is (codes "rst")) (flag 9 (λ x lt. ground (arith, lt))) (
                        both Writes (is (codes "notif")) (flag 11 (λ x lt. ground (arith, lt)))
                          h)))))))))
    where
      key : Writes (elim (to_uint16 strtoul p.val) as (λ _. Keyval × Bool) [
        | none ↦ (kv, true)
        | some x ↦ (record kv { key = x }, false)
      ])
      key = elim (Option-cases (to_uint16 strtoul p.val)) [
        | inl n ↦ rw n h
        | inr (x, n) ↦ rw n (record {
          flags_fit = h.flags_fit;
          name_fits = h.name_fits;
          key_fits = to_uint16-lt p.val x n;
        })
      ]

  -- Whatever the pairs of a structure for a key say, and wherever the loop over them ends, the
  -- name and its NUL fit the 32 bytes for it, and key and flags fit their words.
  pub apply_pairs-IsKeyval :
      (ps : List Pair) → IsKeyval (apply_each (apply_nodl_keyval_pair strtoul) keyval_init ps).0
  apply_pairs-IsKeyval ps =
      apply_each-keeps (apply_nodl_keyval_pair strtoul) IsKeyval apply_nodl_keyval_pair-IsKeyval
        keyval_init ps
        (record { flags_fit = omega arith; name_fits = omega arith; key_fits = omega arith })
