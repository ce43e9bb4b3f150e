-- ===== src/Parser/Structs/ReadBack.antt =====
-- `parse_struct` on a printed structure.
use bano.Base.{
  get_or-drop, ℕ, suc, ◌+◌, ◌*◌, ◌≡◌, refl, ◌∙◌, [], ◌∷◌, ◌++◌, arith, Bytes, length, drop,
  drop-append, drop-add, length-append,
}
use bano.Strings.{content}
use bano.Parser.Token.{is_white, is_comment}
use bano.Parser.Token.Skips.{All, AtWhite}
use bano.Parser.Token.Word.{IsWord, word, next_token-IsWord}
use bano.Parser.Outcome.{done}
use bano.Parser.Structs.{at, Struct, parse_struct}
use bano.Parser.Structs.Print.{SamePairs, ArePrintable}
use bano.Parser.Structs.Pairs.{
  length-IsWord, body_text, body_text-AtWhite, at-content, next-1, parse_pairs_text,
}

-- A structure behind white space, with `r` behind its closing brace.
abbrev pub struct_text : Bytes → Struct → Bytes → Bytes
struct_text ws st r = ws ++ (content st.name ++ (b'\n' ∷ b'{' ∷ body_text st.pairs r))

-- Two structures that stand for the same bytes.
pub record SameStruct (a b : Struct) : Type 0 where
  pub same_name : content a.name ≡ content b.name
  pub same_pairs : SamePairs a.pairs b.pairs

pub parse_struct_text :
    (left mem : ℕ) (ws : Bytes) (st : Struct) (r : Bytes)
    → All is_white ws
    → IsWord (content st.name)
    → ArePrintable st.pairs
    → AtWhite r
    → mem ≡ left + 2 * length st.pairs
    → (out : Struct) × (parse_struct mem (struct_text ws st r)
        ≡ done (left, out, length (struct_text ws st [])))
      × SameStruct out st
unfolding parse_struct is_white is_comment
parse_struct_text left mem ws st r hw hn hp a e =
    let name = content st.name in
    let tail = b'\n' ∷ b'{' ∷ body_text st.pairs r in
    let s = struct_text ws st r in
    let i = length ws + length name in
    let split : drop i s ≡ tail =
      drop-add (length ws) (length name) s
      ∙ rw (drop-append ws (name ++ tail) (length ws) refl)
          (drop-append name tail (length name) refl) in
    let (all, run, same) =
      parse_pairs_text (suc (length s)) left mem st.pairs [] r (i + (1 + 1)) hp a
        (omega (arith, length-append ws (name ++ tail), length-append name tail)) e in
    let tail' = b'\n' ∷ b'{' ∷ body_text st.pairs [] in
    let n : i + (1 + 1) + length (body_text st.pairs []) ≡ length (struct_text ws st []) =
      omega (arith, length-append ws (name ++ tail'), length-append name tail') in
    (
      record { name = at (name ++ tail) (length name); pairs = all },
      rw
          (
            next_token-IsWord ws name tail hw hn refl,
            split,
            next-1 b'\n' (b'{' ∷ []) (body_text st.pairs r) refl (word refl refl tt)
                (body_text-AtWhite st.pairs r),
            get_or-drop s i 1 0,
            split,
            drop-add i (1 + 1) s,
            split,
            drop-append ws (name ++ tail) (length ws) refl,
            run,
            n,
          )
          (ground (arith, length-IsWord hn)),
      record { same_name = at-content name tail; same_pairs = same },
    )
