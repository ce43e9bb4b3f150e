-- ===== src/Parser/Structs/Print.antt =====
-- The printers of the unit test in src/base/bano_parser.c, and what can be printed.
use bano.Base.{◌≡◌, ◌≢◌, List, [], ◌∷◌, ◌++◌, Bytes, codes}
use bano.Strings.{content}
use bano.Parser.Token.Word.{IsWord}
use bano.Parser.Structs.{Pair, Struct}

-- `print_pair_item`
unfoldable pub print_pair : Pair → Bytes
print_pair p = content p.key ++ (codes " = " ++ (content p.val ++ codes "\n"))

-- `bano_list_foreach` with `print_pair_item`
unfoldable pub print_pairs : List Pair → Bytes
print_pairs [] = []
print_pairs (p ∷ ps) = print_pair p ++ print_pairs ps

-- `print_struct_item`
unfoldable pub print_struct : Struct → Bytes
print_struct s = content s.name ++ (codes "\n{\n" ++ (print_pairs s.pairs ++ codes "}\n"))

-- Two pairs, or two lists of pairs, that stand for the same bytes.
pub record SamePair (p q : Pair) : Type 0 where
  pub same_key : content p.key ≡ content q.key
  pub same_val : content p.val ≡ content q.val

pub data SamePairs : List Pair → List Pair → Type 0 where
  nil : SamePairs [] []
  cons :
      {p q : Pair} {ps qs : List Pair}
      → SamePair p q
      → SamePairs ps qs
      → SamePairs (p ∷ ps) (q ∷ qs)

-- Keys and values are words, and no key is a closing brace.
pub data ArePrintable : List Pair → Type 0 where
  nil : ArePrintable []
  cons :
      {p : Pair} {ps : List Pair}
      → IsWord (content p.key)
      → content p.key ≢ b'}' ∷ []
      → IsWord (content p.val)
      → ArePrintable ps
      → ArePrintable (p ∷ ps)
