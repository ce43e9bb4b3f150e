-- ===== src/Strings/Arrays.antt =====
-- `bano_string_to_array` on the text of an array, "0x00,0x01,...".
use bano.Base.{
  ℕ, ◌+◌, ◌-◌, ◌*◌, ◌/◌, ◌%◌, ◌^◌, ◌<◌, ◌≡◌, refl, Bool, false, some, [], ◌∷◌, arith, Bytes,
  AreBytes, length, ltb, leb, if◌then◌else◌, ◌&&◌, ◌||◌,
}
use bano.Strings.{array_loop, to_array}

-- The lower case digit for a value below 16.
unfoldable pub hex_digit : ℕ → ℕ
hex_digit d = if ltb d 10 then b'0' + d else b'a' + d - 10

abbrev pub is_hex : ℕ → Bool
is_hex c = (leb b'0' c && leb c b'9') || (leb b'a' c && leb c b'f') || (leb b'A' c && leb c b'F')

-- The text that follows a number does not carry it on.
abbrev pub Ends : Bytes → Type 0
Ends [] = Unit {0}
Ends (c ∷ cs) = is_hex c ≡ false

abbrev pub byte_text : ℕ → Bytes → Bytes
byte_text b rest = b'0' ∷ b'x' ∷ hex_digit (b / 16) ∷ hex_digit (b % 16) ∷ rest

-- The documented behaviour of `strtoul(p, NULL, 16)` on the text of a byte.
abbrev pub ReadsBytes : (Bytes → ℕ → ℕ) → Type 0
ReadsBytes strtoul =
    (b : ℕ) (rest : Bytes) → b < 256 → Ends rest → strtoul (byte_text b rest) 16 ≡ b

-- The bytes `a`, each in the format, with a comma between two of them, before `rest`.
abbrev pub array_text : Bytes → Bytes → Bytes
array_text [] rest = rest
array_text (b ∷ []) rest = byte_text b rest
array_text (b ∷ c ∷ a) rest = byte_text b (b',' ∷ array_text (c ∷ a) rest)

module _ (strtoul : Bytes → ℕ → ℕ) where
  array_loop-text :
      (a rest : Bytes)
      → ReadsBytes strtoul
      → AreBytes a
      → Ends rest
      → array_loop strtoul (length a) (array_text a rest) ≡ a
  unfolding array_loop
  array_loop-text [] rest reads h e = refl
  array_loop-text (b ∷ []) rest reads h e = ground (arith, reads b rest)
  array_loop-text (b ∷ c ∷ a) rest reads h e =
      ground
        (arith, reads b (b',' ∷ array_text (c ∷ a) rest), array_loop-text (c ∷ a) rest reads h.1 e)

  -- `bano_string_to_array` gives back from one up to 2 ^ 32 bytes from their text, followed by
  -- anything that is no hexadecimal digit, if the size is that of the text and `strtoul` reads the
  -- text of a byte as documented.
  pub to_array-array_text :
      (a rest : Bytes) (size : ℕ)
      → ReadsBytes strtoul
      → AreBytes a
      → Ends rest
      → 0 < length a
      → length a < 2 ^ 32
      → size ≡ length a * 5 - 1
      → to_array strtoul (record { bytes = array_text a rest; size = size }) (length a) ≡ some a
  unfolding to_array
  to_array-array_text a rest size reads h e pos small fits =
      ground (arith, array_loop-text a rest reads h e)
