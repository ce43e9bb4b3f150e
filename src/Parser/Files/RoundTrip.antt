-- ===== src/Parser/Files/RoundTrip.antt =====
-- `parse_buf` on what the printers of src/base/bano_parser.c print.
use bano.Base.{
  ℕ, zero, suc, ◌+◌, ◌*◌, ◌<◌, ◌≡◌, refl, sym, ap, ◌∙◌, false, Option, List, [], ◌∷◌, ◌++◌, arith,
  Bytes, length, drop, get_or, drop-append, append_assoc, append-nil, length-append, length-drop,
}
use bano.Strings.{content}
use bano.Parser.Token.{is_white, is_directive, next_token}
use bano.Parser.Token.Skips.{All, AtWhite, AtToken}
use bano.Parser.Token.Next.{next_token-IsNext}
use bano.Parser.Token.Word.{IsWord, word, next_token-IsWord}
use bano.Parser.Outcome.{Outcome, done, alloc, ◌>>=◌}
use bano.Parser.Structs.{Pair, Struct}
use bano.Parser.Structs.Print.{print_pair, print_pairs, print_struct, ArePrintable}
use bano.Parser.Structs.Pairs.{length-IsWord, body_text}
use bano.Parser.Structs.ReadBack.{struct_text, SameStruct, parse_struct_text}
use bano.Parser.Files.{Parser, parse_new_struct, parse_directive_or_struct, parse_buf}

-- `bano_list_foreach` with `print_struct_item`
unfoldable pub print_structs : List Struct → Bytes
print_structs [] = []
print_structs (s ∷ ss) = print_struct s ++ print_structs ss

-- What the printers print can be read back: names, keys and values are words, no name begins with
-- a dot, and no key is a closing brace.
pub data CanPrint : List Struct → Type 0 where
  nil : CanPrint []
  cons :
      {s : Struct} {ss : List Struct}
      → IsWord (content s.name)
      → is_directive (get_or (content s.name) 0 0) ≡ false
      → ArePrintable s.pairs
      → CanPrint ss
      → CanPrint (s ∷ ss)

-- Two lists of structures that stand for the same bytes.
pub data SameStructs : List Struct → List Struct → Type 0 where
  nil : SameStructs [] []
  cons :
      {a b : Struct} {xs ys : List Struct}
      → SameStruct a b
      → SameStructs xs ys
      → SameStructs (a ∷ xs) (b ∷ ys)

-- Requests for memory: two for each structure, and two for each pair.
abbrev pub needs : List Struct → ℕ
needs [] = 0
needs (s ∷ ss) = 2 + 2 * length s.pairs + needs ss

-- The same text, each structure behind the line break that ends the one before it.
abbrev file_text : Bytes → List Struct → Bytes
file_text ws [] = ws
file_text ws (s ∷ ss) = struct_text ws s (file_text (b'\n' ∷ []) ss)

print_pairs-body_text :
    (ps : List Pair) (r : Bytes) → b'\n' ∷ (print_pairs ps ++ (b'}' ∷ r)) ≡ body_text ps r
unfolding print_pairs print_pair
print_pairs-body_text [] r = refl
print_pairs-body_text (p ∷ ps) r = rw (← print_pairs-body_text ps r) (simp append_assoc)

file_text-print_structs : (ss : List Struct) (ws : Bytes) → file_text ws ss ≡ ws ++ print_structs ss
unfolding print_structs print_struct
file_text-print_structs [] ws = sym (append-nil ws)
file_text-print_structs (s ∷ ss) ws =
    rw
      (
        file_text-print_structs ss (b'\n' ∷ []),
        ← print_pairs-body_text s.pairs (b'\n' ∷ print_structs ss),
      )
      (simp append_assoc)

-- The first byte of the text is that of the word behind the white space.
first-byte :
    (ws : Bytes) {w : Bytes} (r : Bytes)
    → IsWord w
    → get_or (ws ++ (w ++ r)) (length ws) 0 ≡ get_or w 0 0
first-byte [] r (word n h t) = refl
first-byte (c ∷ ws) r h = first-byte ws r h

alloc_twice : (mem n : ℕ) → mem ≡ suc (suc n) → (alloc mem >>= alloc) ≡ done n
alloc_twice zero n e = absurd (omega arith)
alloc_twice (suc zero) n e = absurd (omega arith)
alloc_twice (suc (suc m)) n e = ground arith

body_text-append : (ps : List Pair) (r : Bytes) → body_text ps r ≡ body_text ps [] ++ r
body_text-append [] r = refl
body_text-append (p ∷ ps) r = rw (body_text-append ps r) (simp append_assoc)

drop-struct_text :
    (ws : Bytes) (s : Struct) (r : Bytes)
    → drop (length (struct_text ws s [])) (struct_text ws s r) ≡ r
drop-struct_text ws s r =
    let e : struct_text ws s r ≡ struct_text ws s [] ++ r =
      rw (body_text-append s.pairs r) (simp append_assoc) in
    rw e (drop-append (struct_text ws s []) r (length (struct_text ws s [])) refl)

drop-length : (s : Bytes) → drop (length s) s ≡ []
drop-length [] = refl
drop-length (c ∷ s) = drop-length s

-- In white space there is no token.
All-drop : (n : ℕ) (s : Bytes) → All is_white s → All is_white (drop n s)
All-drop zero s h = h
All-drop (suc n) [] h = tt
All-drop (suc n) (c ∷ s) h = All-drop n s h.1

length-AtToken-white : (q : Bytes) → All is_white q → AtToken q → length q ≡ 0
length-AtToken-white [] h a = refl
length-AtToken-white (c ∷ q) h a = ground arith

next_token-white :
    (s : Bytes) → All is_white s → ((next_token s).off ≡ length s) × ((next_token s).size ≡ 0)
next_token-white s h =
    let r = next_token-IsNext s in
    let q = drop (next_token s).off s in
    let e = length-AtToken-white q (All-drop (next_token s).off s h) r.begins in
    omega (arith, e, r.within, length-drop (next_token s).off s)

nl-white : All is_white (b'\n' ∷ [])
unfolding is_white
nl-white = (refl, tt)

file_text-AtWhite : (ss : List Struct) → AtWhite (file_text (b'\n' ∷ []) ss)
unfolding is_white
file_text-AtWhite [] = refl
file_text-AtWhite (s ∷ ss) = refl

struct_text-grows : (ws : Bytes) (s : Struct) (r : Bytes) → length r < length (struct_text ws s r)
struct_text-grows ws s r =
    let name = content s.name in
    let t = b'\n' ∷ b'{' ∷ body_text s.pairs r in
    omega (
      arith,
      length-append ws (name ++ t),
      length-append name t,
      ap length (body_text-append s.pairs r),
      length-append (body_text s.pairs []) r,
    )

module _ (mapped : Bytes → Option Bytes) where
  parse_struct-step :
      (parse : Parser → Bytes → Outcome Parser) (p : Parser) (left : ℕ) (ws : Bytes) (s : Struct)
      (r : Bytes)
      → All is_white ws
      → IsWord (content s.name)
      → is_directive (get_or (content s.name) 0 0) ≡ false
      → ArePrintable s.pairs
      → AtWhite r
      → p.mem ≡ 2 + 2 * length s.pairs + left
      → (out : Struct) × (parse_directive_or_struct mapped parse p (struct_text ws s r)
          ≡ done (
            record p { structs = p.structs ++ out ∷ []; mem = left },
            length (struct_text ws s []),
          ))
        × SameStruct out s
  unfolding parse_directive_or_struct parse_new_struct is_white
  parse_struct-step parse p left ws s r hw hn nd hp a e =
      let (out, run, same) =
        parse_struct_text left (left + 2 * length s.pairs) ws s r hw hn hp a refl in
      let name = content s.name in
      let tail = b'\n' ∷ b'{' ∷ body_text s.pairs r in
      let e' : p.mem ≡ suc (suc (left + 2 * length s.pairs)) = omega arith in
      (
        out,
        rw
            (
              next_token-IsWord ws name tail hw hn refl,
              first-byte ws tail hn,
              nd,
              alloc_twice p.mem (left + 2 * length s.pairs) e',
              run,
            )
            (ground (arith, length-IsWord hn)),
        same,
      )

  -- A round of the loop, at an input that is not empty.
  parse_buf-step :
      (fuel : ℕ) (p q : Parser) (s : Bytes) (j : ℕ)
      → 0 < length s
      → parse_directive_or_struct mapped (parse_buf mapped fuel) p s ≡ done (q, j)
      → parse_buf mapped (suc fuel) p s ≡ parse_buf mapped fuel q (drop j s)
  unfolding parse_buf
  parse_buf-step fuel p q [] j h e = absurd (omega arith)
  parse_buf-step fuel p q (c ∷ s) j h e = rw e

  parse_buf-nil : (fuel : ℕ) (p : Parser) → 0 < fuel → parse_buf mapped fuel p [] ≡ done p
  unfolding parse_buf
  parse_buf-nil zero p h = absurd (omega arith)
  parse_buf-nil (suc fuel) p h = refl

  parse_buf-white :
      (fuel : ℕ) (p : Parser) (ws : Bytes)
      → All is_white ws
      → length ws < fuel
      → parse_buf mapped fuel p ws ≡ done p
  unfolding parse_directive_or_struct
  parse_buf-white fuel p [] h lt = parse_buf-nil fuel p lt
  parse_buf-white zero p (c ∷ ws) h lt = absurd (omega arith)
  parse_buf-white (suc fuel) p (c ∷ ws) h lt =
      let s = c ∷ ws in
      let (o, z) = next_token-white s h in
      parse_buf-step fuel p p s (next_token s).off (omega arith) (rw z)
      ∙ rw (o, drop-length s) (parse_buf-nil fuel p (omega arith))

  parse_buf-file_text :
      (fuel left : ℕ) (p : Parser) (ws : Bytes) (ss : List Struct)
      → All is_white ws
      → CanPrint ss
      → length (file_text ws ss) < fuel
      → p.mem ≡ needs ss + left
      → (out : List Struct) × (parse_buf mapped fuel p (file_text ws ss)
          ≡ done (record p { structs = p.structs ++ out; mem = left }))
        × SameStructs out ss
  parse_buf-file_text fuel left p ws [] hw h lt e =
      let m : p.mem ≡ left = omega arith in
      (
        [],
        parse_buf-white fuel p ws hw lt
            ∙ (λ i. done (record p { structs = sym (append-nil p.structs) i; mem = m i })),
        nil,
      )
  parse_buf-file_text zero left p ws (s ∷ ss) hw h lt e = absurd (omega arith)
  parse_buf-file_text (suc fuel) left p ws (s ∷ ss) hw (cons hn nd hp h) lt e =
      let r = file_text (b'\n' ∷ []) ss in
      let grows = struct_text-grows ws s r in
      let (out, run, same) =
        parse_struct-step (parse_buf mapped fuel) p (needs ss + left) ws s r hw hn nd hp
          (file_text-AtWhite ss) (omega arith) in
      let q = record p { structs = p.structs ++ out ∷ []; mem = needs ss + left } in
      let (outs, runs, sames) =
        parse_buf-file_text fuel left q (b'\n' ∷ []) ss nl-white h (omega (arith, grows)) refl in
      (
        out ∷ outs,
        parse_buf-step fuel p q (struct_text ws s r) (length (struct_text ws s []))
              (omega (arith, grows)) run
            ∙ rw (drop-struct_text ws s r) (runs ∙ rw append_assoc),
        cons same sames,
      )

  -- Parsing the text that the printers print for structures that can be printed, with two requests
  -- of memory for each structure and each pair and more fuel than bytes, returns: it adds
  -- structures with the same names, keys and values in the same order, and changes nothing else
  -- but the memory.
  pub parse_buf-print_structs :
      (fuel left : ℕ) (p : Parser) (ss : List Struct)
      → CanPrint ss
      → length (print_structs ss) < fuel
      → p.mem ≡ needs ss + left
      → (out : List Struct) × (parse_buf mapped fuel p (print_structs ss)
          ≡ done (record p { structs = p.structs ++ out; mem = left }))
        × SameStructs out ss
  parse_buf-print_structs fuel left p ss h lt e =
      let same = file_text-print_structs ss [] in
      rw (← same) (parse_buf-file_text fuel left p [] ss tt h (rw same lt) e)
