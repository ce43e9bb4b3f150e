-- ===== src/Parser/Files.antt =====
-- Buffers, directives and files of src/base/bano_parser.c.
pub mod Hang
pub mod RoundTrip
pub mod Dirname
use bano.Base.{
  ℕ, zero, suc, ◌+◌, Bool, true, false, not, ◌&&◌, ◌||◌, Option, none, some, List, [], ◌∷◌, ◌++◌,
  Bytes, length, take, drop, get_or, leb, ◌==◌, if◌then◌else◌,
}
use bano.Strings.{BanoString}
use bano.Parser.Token.{
  Token, is_space, is_nl, is_white, is_comment, skip_whites, skip_comment, skip_one_comment,
  skip_round, skip_loop, skip_comments_and_whites, token_size, next_token, is_directive,
  is_include_directive,
}
use bano.Parser.Outcome.{Outcome, done, failed, no_fuel, ◌>>=◌, alloc}
use bano.Parser.Structs.{Struct, parse_pair, alloc_pair, parse_pairs, parse_struct}

-- `bano_parser_t`, with the number of requests that `malloc` still grants. `top_dir` holds the
-- `top_len` bytes that are used; of a buffer only its bytes are kept.
pub record Parser : Type 0 where
  pub top_dir : Bytes
  pub bufs : List Bytes
  pub structs : List Struct
  pub mem : ℕ

-- `BANO_PARSER_PATHLEN`
abbrev pub pathlen : ℕ
pathlen = 256

-- What a `const char*` shows of an array.
abbrev pub until_nul : Bytes → Bytes
until_nul [] = []
until_nul (c ∷ s) = let rest = until_nul s in if c == 0 then [] else c ∷ rest

-- The loop of `get_dirname` from `path + i` on.
dirname_loop : Bytes → (i j : ℕ) → Option ℕ
dirname_loop [] i j = some j
dirname_loop (c ∷ path) i j =
    let rest = dirname_loop path (i + 1) (if c == b'/' then i else j) in
    if i == pathlen then none else rest

-- `get_dirname`
unfoldable pub get_dirname : Bytes → Option Bytes
unfolding dirname_loop
get_dirname path = elim (dirname_loop path 0 0) [
  | none ↦ none
  | some j ↦ some (take (j + 1) (path ++ 0 ∷ []))
]

-- `mapped` tells what `open`, `fstat` and `mmap` yield together for a path: the bytes of the file,
-- or nothing where one of them fails.
module _ (mapped : Bytes → Option Bytes) where
  map_file : Bytes → Outcome Bytes
  map_file path = elim (mapped path) [ none ↦ failed | some b ↦ done b ]

  -- `alloc_mmap_buf`: the requests left and the bytes
  alloc_mmap_buf : Bytes → ℕ → Outcome (ℕ × Bytes)
  alloc_mmap_buf path mem = alloc mem >>= λ left. map_file path >>= λ b. done (left, b)

  -- The body of `parse_directive` for an include: `parse` is `parse_buf`, `i` the size read so far.
  parse_include : (Parser → Bytes → Outcome Parser) → Parser → Bytes → ℕ → Outcome (Parser × ℕ)
  parse_include parse p s i =
      let t = next_token (drop i s) in
      let path = until_nul (p.top_dir ++ take t.size (drop (i + t.off) s)) in
      if t.size == 0 || leb pathlen (length p.top_dir + t.size)
      then failed
      else (alloc_mmap_buf path p.mem >>= λ (left, b). parse (record p { mem = left }) b >>= λ q.
          alloc q.mem >>= λ last.
          done (record q { bufs = q.bufs ++ b ∷ []; mem = last }, i + (t.off + t.size)))

  -- `parse_directive`
  parse_directive : (Parser → Bytes → Outcome Parser) → Parser → Bytes → Outcome (Parser × ℕ)
  parse_directive parse p s =
      let t = next_token s in
      if t.size == 0 || not (is_directive (get_or s t.off 0))
      then failed
      else if is_include_directive (drop t.off s) t.size
      then parse_include parse p s (t.off + t.size)
      else done (p, 0)

  -- The structure's two requests, and the structure at the end of the list.
  parse_new_struct : Parser → Bytes → Outcome (Parser × ℕ)
  parse_new_struct p s = alloc p.mem >>= alloc >>= λ left.
      parse_struct left s >>= λ (last, strukt, j).
      done (record p { structs = p.structs ++ strukt ∷ []; mem = last }, j)

  -- `parse_directive_or_struct`
  parse_directive_or_struct :
      (Parser → Bytes → Outcome Parser) → Parser → Bytes → Outcome (Parser × ℕ)
  parse_directive_or_struct parse p s =
      let t = next_token s in
      if t.size == 0
      then done (p, t.off)
      else if is_directive (get_or s t.off 0)
      then parse_directive parse p s
      else parse_new_struct p s

  -- `parse_buf`; the fuel bounds the rounds of its loop and the depth of the includes.
  pub parse_buf : ℕ → Parser → Bytes → Outcome Parser
  parse_buf zero p s = no_fuel
  parse_buf (suc fuel) p [] = done p
  parse_buf (suc fuel) p (c ∷ s) =
      parse_directive_or_struct (λ q b. parse_buf fuel q b) p (c ∷ s) >>= λ (q, j).
      parse_buf fuel q (drop j (c ∷ s))

  -- `bano_parser_load_file`, with the requests that `malloc` grants
  unfoldable pub load_file : ℕ → ℕ → Bytes → Outcome Parser
  unfolding is_space is_nl is_white is_comment skip_whites skip_comment skip_one_comment skip_round
      skip_loop skip_comments_and_whites token_size next_token is_directive is_include_directive
      parse_pair alloc_pair parse_pairs parse_struct get_dirname map_file alloc_mmap_buf
      parse_include parse_directive parse_new_struct parse_directive_or_struct parse_buf
  load_file fuel mem path = elim (get_dirname path) [
    | none ↦ failed
    | some dir ↦ alloc_mmap_buf path mem >>= λ (left, b). alloc left >>= λ last.
        parse_buf fuel (record { top_dir = dir; bufs = b ∷ []; structs = []; mem = last }) b
  ]
