-- ===== src/Tests/Strings.antt =====
-- src/base/bano_string.c on small strings, with a hexadecimal `strtoul`.
use bano.Base.{
  ℕ, ◌+◌, ◌-◌, ◌*◌, ◌/◌, ◌%◌, ◌<◌, ◌≡◌, refl, ◌↔◌, true, some, [], ◌∷◌, arith, Bytes, drop, codes,
  leb, if◌then◌else◌,
}
use bano.Strings.{BanoString, content, cmp_cstr, to_array}
use bano.Strings.Compare.{IsPrefix, cmp_cstr-IsPrefix}
use bano.Strings.Arrays.{hex_digit, is_hex, Ends, ReadsBytes, array_text, to_array-array_text}

abbrev digit : ℕ → ℕ
digit c = if leb b'a' c then c - b'a' + 10 else if leb b'A' c then c - b'A' + 10 else c - b'0'

abbrev digits : ℕ → Bytes → ℕ
digits n [] = n
digits n (c ∷ s) = let rest = digits (n * 16 + digit c) s in if is_hex c then rest else n

-- Skips the "0x" and reads digits.
abbrev pub hexadecimal : Bytes → ℕ → ℕ
hexadecimal s base = digits 0 (drop 2 s)

digits-Ends : (n : ℕ) (rest : Bytes) → Ends rest → digits n rest ≡ n
digits-Ends n [] h = refl
digits-Ends n (c ∷ rest) h = rw h

hex_digit-is_hex : (d : ℕ) → d < 16 → is_hex (hex_digit d) ≡ true
unfolding hex_digit
hex_digit-is_hex d h = ground arith

digit-hex_digit : (d : ℕ) → d < 16 → digit (hex_digit d) ≡ d
unfolding hex_digit
digit-hex_digit d h = ground arith

hexadecimal-ReadsBytes : ReadsBytes hexadecimal
hexadecimal-ReadsBytes b rest h e =
    let hi : b / 16 < 16 = omega arith in
    let lo : b % 16 < 16 = omega arith in
    rw
      (
        hex_digit-is_hex (b / 16) hi,
        hex_digit-is_hex (b % 16) lo,
        digit-hex_digit (b / 16) hi,
        digit-hex_digit (b % 16) lo,
        digits-Ends ((0 * 16 + b / 16) * 16 + b % 16) rest e,
      )
      (omega arith)

abbrev key : Bytes
key = 0 ∷ 255 ∷ 16 ∷ []

to_array-array_text_example :
    to_array hexadecimal (record { bytes = array_text key (codes "\n}"); size = 14 }) 3 ≡ some key
to_array-array_text_example =
    to_array-array_text hexadecimal key (codes "\n}") 14 hexadecimal-ReadsBytes (ground arith) refl
      (omega arith) (omega arith) (omega arith)

abbrev short_true : BanoString
short_true = record { bytes = codes "t }"; size = 1 }

cmp_cstr-IsPrefix_example :
    (cmp_cstr short_true (codes "true") ≡ true) ↔ IsPrefix (content short_true) (codes "true")
cmp_cstr-IsPrefix_example = cmp_cstr-IsPrefix short_true (codes "true") (omega arith)
