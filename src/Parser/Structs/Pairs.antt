-- ===== src/Parser/Structs/Pairs.antt =====
-- The loop of `parse_struct` on printed pairs.
use bano.Base.{
  ℕ, zero, suc, ◌+◌, ◌*◌, ◌<◌, ◌≡◌, ◌≢◌, refl, sym, ap, ◌∙◌, true, false, ◌&&◌, List, [], ◌∷◌, ◌++◌,
  arith, Bytes, length, drop, get_or, drop-append, take-append, drop-add, append_assoc,
  length-append, ◌==◌, ==_iff, Bool-cases, inl, inr, append-nil,
}
use bano.Strings.{content}
use bano.Parser.Token.{is_white, is_comment, next_token}
use bano.Parser.Token.Skips.{AtWhite}
use bano.Parser.Token.Word.{IsWord, word, next_token-IsWord}
use bano.Parser.Outcome.{done}
use bano.Parser.Structs.{at, Pair, parse_pair, alloc_pair, parse_pairs}
use bano.Parser.Structs.Print.{SamePairs, nil, cons, ArePrintable}

-- A pair behind a line break, as the parser meets it.
pub length-IsWord : {w : Bytes} → IsWord w → 0 < length w
length-IsWord (word n k t) = omega arith

abbrev pub pair_text : Bytes → Bytes → Bytes → Bytes
pair_text k v r = b'\n' ∷ (k ++ (b' ' ∷ b'=' ∷ b' ' ∷ (v ++ r)))

pub at-content : (w r : Bytes) → content (at (w ++ r) (length w)) ≡ w
at-content w r = take-append w r (length w) refl

pub next-1 :
    (a : ℕ) (w r : Bytes)
    → is_white a ≡ true
    → IsWord w
    → AtWhite r
    → next_token (a ∷ (w ++ r)) ≡ record { off = 1; size = length w }
next-1 a w r h = next_token-IsWord (a ∷ []) w r (h, tt)

parse_pair_text :
    (k v r : Bytes)
    → IsWord k
    → IsWord v
    → AtWhite r
    → parse_pair (pair_text k v r)
      ≡ done (
        record {
          key = at (k ++ (b' ' ∷ b'=' ∷ b' ' ∷ (v ++ r))) (length k);
          val = at (v ++ r) (length v);
        },
        length k + 4 + length v,
      )
unfolding parse_pair is_white is_comment
parse_pair_text k v r hk hv a =
    let text = pair_text k v r in
    let rest = b' ' ∷ b'=' ∷ b' ' ∷ (v ++ r) in
    let i = 1 + length k in
    let d = drop-append (b'\n' ∷ k) rest i (omega arith) in
    rw
      (
        next-1 b'\n' k rest refl hk refl,
        d,
        next-1 b' ' (b'=' ∷ []) (b' ' ∷ (v ++ r)) refl (word refl refl tt) refl,
        drop-add i 2 text,
        d,
        next-1 b' ' v r refl hv a,
        drop-add (i + 2) 1 text,
        drop-add i 2 text,
        d,
      )
      (ground (arith, length-IsWord hk, length-IsWord hv))

-- The text from behind an opening brace on, each pair behind a line break.
abbrev pub body_text : List Pair → Bytes → Bytes
body_text [] r = b'\n' ∷ b'}' ∷ r
body_text (p ∷ ps) r = pair_text (content p.key) (content p.val) (body_text ps r)

pub body_text-AtWhite : (ps : List Pair) (r : Bytes) → AtWhite (body_text ps r)
unfolding is_white
body_text-AtWhite [] r = refl
body_text-AtWhite (p ∷ ps) r = refl

-- A key is not taken for the closing brace.
not_brace :
    (k r : Bytes)
    → IsWord k
    → k ≢ b'}' ∷ []
    → (length k == 1 && get_or (b'\n' ∷ (k ++ r)) 1 0 == b'}') ≡ false
not_brace [] r h ne = refl
not_brace (c ∷ []) r h ne = elim (Bool-cases (c == b'}')) [
  | inl e ↦ absurd (ne (ap (λ (x : ℕ). x ∷ []) ((==_iff c b'}').0 e)))
  | inr e ↦ e
]
not_brace (c ∷ d ∷ w) r h ne = ground arith

-- The text of one pair with nothing behind it.
length-pair_text : (k v r : Bytes) → length (pair_text k v r) ≡ length k + 4 + length v + length r
length-pair_text k v r =
    omega (arith, length-append k (b' ' ∷ b'=' ∷ b' ' ∷ (v ++ r)), length-append v r)

drop-pair_text : (k v r : Bytes) → drop (length k + 4 + length v) (pair_text k v r) ≡ r
drop-pair_text k v r =
    let head = b'\n' ∷ (k ++ (b' ' ∷ b'=' ∷ b' ' ∷ v)) in
    let e : pair_text k v r ≡ head ++ r =
      ap (◌∷◌ b'\n') (sym (append_assoc k (b' ' ∷ b'=' ∷ b' ' ∷ v) r)) in
    rw e (
      drop-append head r (length k + 4 + length v)
        (omega (arith, length-append k (b' ' ∷ b'=' ∷ b' ' ∷ v))))

-- The pair that the parser makes of such a text.
abbrev parsed : Bytes → Bytes → Bytes → Pair
parsed k v r = record {
  key = at (k ++ (b' ' ∷ b'=' ∷ b' ' ∷ (v ++ r))) (length k);
  val = at (v ++ r) (length v);
}

-- One round of the loop takes one pair.
parse_pairs_step :
    (fuel mem : ℕ) (acc : List Pair) (k v r : Bytes) (i : ℕ)
    → IsWord k
    → k ≢ b'}' ∷ []
    → IsWord v
    → AtWhite r
    → parse_pairs (suc fuel) (suc (suc mem)) acc (pair_text k v r) i
      ≡ parse_pairs fuel mem (acc ++ parsed k v r ∷ []) r (i + (length k + 4 + length v))
unfolding parse_pairs alloc_pair is_white
parse_pairs_step fuel mem acc k v r i hk ne hv a =
    let rest = b' ' ∷ b'=' ∷ b' ' ∷ (v ++ r) in
    rw
      (
        next-1 b'\n' k rest refl hk refl,
        not_brace k rest hk ne,
        parse_pair_text k v r hk hv a,
        drop-pair_text k v r,
      )
      (ground (arith, length-IsWord hk))

pub parse_pairs_text :
    (fuel left mem : ℕ) (ps acc : List Pair) (r : Bytes) (i : ℕ)
    → ArePrintable ps
    → AtWhite r
    → length (body_text ps r) < fuel
    → mem ≡ left + 2 * length ps
    → (all : List Pair) × (parse_pairs fuel mem acc (body_text ps r) i
        ≡ done (left, acc ++ all, i + length (body_text ps [])))
      × SamePairs all ps
parse_pairs_text zero left mem ps acc r i h a lt e = absurd (omega arith)
parse_pairs_text (suc fuel) left mem [] acc r i h a lt e = ([], last, nil)
  where
    last : parse_pairs (suc fuel) mem acc (body_text [] r) i ≡ done (left, acc ++ [], i + 2)
    last =
        unfold parse_pairs is_white is_comment in
        rw (next-1 b'\n' (b'}' ∷ []) r refl (word refl refl tt) a, append-nil) (ground arith)
parse_pairs_text (suc fuel) left mem (p ∷ ps) acc r i (cons hk ne hv h) a lt e =
    let k = content p.key in
    let v = content p.val in
    let q = parsed k v (body_text ps r) in
    let j = length k + 4 + length v in
    let (all, run, same) =
      parse_pairs_text fuel left (left + 2 * length ps) ps (acc ++ q ∷ []) r (i + j) h a
        (omega (arith, length-pair_text k v (body_text ps r))) refl in
    let step =
      parse_pairs_step fuel (left + 2 * length ps) acc k v (body_text ps r) i hk ne hv
        (body_text-AtWhite ps r) in
    let e' : mem ≡ suc (suc (left + 2 * length ps)) = omega arith in
    let n : i + j + length (body_text ps []) ≡ i + length (body_text (p ∷ ps) []) =
      omega (arith, length-pair_text k v (body_text ps [])) in
    (
      q ∷ all,
      rw e' (step ∙ run ∙ rw (n, append_assoc)),
      cons (record { same_key = at-content k _; same_val = at-content v _ }) same,
    )
