-- ===== src/Config/Nodls.antt =====
-- The descriptions of nodes that src/base/bano_base.c loads from the files of a directory.
use bano.Base.{
  ℕ, zero, suc, ◌+◌, ◌-◌, ◌/◌, ◌%◌, ◌^◌, Bool, true, false, not, ◌&&◌, ◌||◌, Option, none, some,
  List, [], ◌∷◌, ◌++◌, ◌==◌, if◌then◌else◌, Bytes, codes, take, drop, get_or, ltb, leb,
}
use bano.Strings.{BanoString, content, cmp_cstr}
use bano.Parser.Outcome.{Outcome, done, failed, no_fuel, ◌>>=◌}
use bano.Parser.Structs.{Struct}
use bano.Parser.Files.{load_file, until_nul}
use bano.Dict.{DictPair, Dict, get_hash, list_at, set_list, dict_add, dict_del, take_mem}
use bano.Nodl.{Keyval, Nodl, keyval_init, nodl_init}
use bano.Config.{apply_each}
use bano.Config.Pairs.{apply_nodl_keyval_pair}

-- A digit of "%08x"
abbrev pub hex_of : ℕ → ℕ
hex_of d = if ltb d 10 then b'0' + d else b'a' + d - 10

-- The text of "%08x", from the digit of weight `16 ^ n` down
abbrev pub hex_digits : ℕ → ℕ → Bytes
hex_digits zero x = []
hex_digits (suc n) x = hex_of (x / 16 ^ n % 16) ∷ hex_digits n x

-- A name that is empty becomes the key in hexadecimal.
unfoldable pub default_name : Keyval → Keyval
default_name kv =
    if get_or kv.name 0 0 == 0 then record kv { name = codes "0x" ++ hex_digits 8 kv.key } else kv

-- `is_hex`
unfoldable pub is_hex : ℕ → Bool
is_hex c = (leb b'0' c && leb c b'9') || (leb b'a' c && leb c b'f')

-- `strcmp`, as a test for equal strings
unfoldable pub same_text : Bytes → Bytes → Bool
same_text [] [] = true
same_text (x ∷ a) (y ∷ b) = let rest = same_text a b in if x == y then rest else false
same_text _ _ = false

-- The first `n` bytes of a file name are hexadecimal digits.
unfoldable pub hex_prefix : ℕ → Bytes → Bool
hex_prefix zero s = true
hex_prefix (suc n) s =
    let rest = hex_prefix n (drop 1 s) in if is_hex (get_or s 0 0) then rest else false

-- The last pair of a list gets a value.
unfoldable pub set_last : {V : Type 0} → List (DictPair V) → V → List (DictPair V)
set_last [] v = []
set_last (x ∷ []) v = record x { val = v } ∷ []
set_last (x ∷ (y ∷ ys)) v = x ∷ set_last (y ∷ ys) v

-- A write to the value of the pair that `bano_dict_add` has added, which is the last one in its list
unfoldable pub set_added : {V : Type 0} → Dict V → ℕ → V → Dict V
set_added d k v = set_list d (get_hash d k) (set_last (list_at d (get_hash d k)) v)

-- The memory that is left, the descriptions, and whether an error is set.
pub record Nodls : Type 0 where
  pub mem : ℕ
  pub nodls : Dict Nodl
  pub err : Bool

-- `mapped` is what `alloc_mmap_buf` reads, as in Parser.Files, `fuel` and `parser_mem` are those of
-- the parser.
module _ (strtoul : Bytes → ℕ → ℕ) (mapped : Bytes → Option Bytes) (fuel parser_mem : ℕ) where
  -- `apply_nodl_struct`; a refusal of memory ends the loop with no error set.
  unfoldable pub apply_nodl_struct : ℕ × Nodl → Struct → (ℕ × Nodl) × Bool
  apply_nodl_struct (mem, d) s =
      let r = apply_each (apply_nodl_keyval_pair strtoul) keyval_init s.pairs in
      let kv = r.0 in
      let added : (ℕ × Nodl) × Bool = elim (dict_add mem d kv.key (default_name kv)) [
        | none ↦ ((mem, d), false)
        | some (left, e) ↦ ((left, e), false)
      ] in
      let same : (ℕ × Nodl) × Bool = ((mem, d), false) in
      let wrong : (ℕ × Nodl) × Bool = ((mem, d), true) in
      if not (cmp_cstr s.name (codes "keyval")) then same else if r.1 then wrong else added

  -- `load_nodl_file`; the parser's memory is its own, since all of it is given back at the end.
  unfoldable pub load_nodl_file : ℕ → Nodl → Bytes → Outcome ((ℕ × Nodl) × Bool)
  load_nodl_file mem d path = elim (load_file mapped fuel parser_mem path) [
    | done p ↦ done (apply_each apply_nodl_struct (mem, d) p.structs)
    | failed ↦ done ((mem, d), true)
    | no_fuel ↦ no_fuel
  ]

  -- The dictionary of a new description; where its memory is refused, it has no lists.
  unfoldable pub fresh_nodl : ℕ → ℕ × Nodl
  fresh_nodl mem = elim (nodl_init mem) [
    | none ↦ (mem, record { lists = []; log2_nlist = 3 })
    | some r ↦ r
  ]

  -- A description is filled from its file, through the pointer that `bano_dict_add` gave; where that
  -- fails, the first one with the same number is taken out.
  unfoldable pub fill_nodl : Bytes → ℕ → ℕ → Dict Nodl → Outcome (Nodls × Bool)
  fill_nodl path id mem all =
      let (left, fresh) = fresh_nodl mem in
      load_nodl_file left fresh path >>= λ ((last, d), wrong).
      let filled = set_added all id d in
      let bad = elim (dict_del filled id) as (λ _. Dict Nodl) [ none ↦ filled | some (x, e) ↦ e ] in
      done (record { mem = last; nodls = if wrong then bad else filled; err = false }, false)

  -- The body of the loop of `load_nodl_dir` for the entry `name`; `true` ends the loop.
  unfoldable pub load_nodl_entry : Bytes → Nodls → Bytes → Outcome (Nodls × Bool)
  load_nodl_entry dirname st name =
      let id = strtoul name 16 % 2 ^ 32 in
      let path = until_nul (dirname ++ b'/' ∷ take 8 name ++ codes ".nodl") in
      let skip : Outcome (Nodls × Bool) = done (st, false) in
      let entry : Outcome (Nodls × Bool) =
        elim (dict_add st.mem st.nodls id (record { lists = []; log2_nlist = 0 })) [
          | none ↦ done (record st { err = true }, true)
          | some (left, all) ↦ fill_nodl path id left all
        ] in
      if not (hex_prefix 8 name)
      then skip
      else if not (same_text (drop 8 name) (codes ".nodl"))
      then skip
      else entry

  unfoldable pub load_nodl_entries : Bytes → Nodls → List Bytes → Outcome Nodls
  load_nodl_entries dirname st [] = done st
  load_nodl_entries dirname st (x ∷ xs) = load_nodl_entry dirname st x >>= λ (next, stop).
      let rest = load_nodl_entries dirname next xs in
      let last : Outcome Nodls = done next in if stop then last else rest

  -- `load_nodl_dir`; `listing` is what `opendir` and `readdir` yield for a path, or nothing.
  unfoldable pub load_nodl_dir :
      (Bytes → Option (List Bytes)) → ℕ → Dict Nodl → BanoString → Outcome Nodls
  load_nodl_dir listing mem all dirname =
      let wrong : Outcome Nodls = done (record { mem = mem; nodls = all; err = true }) in
      elim (take_mem mem) [
        | none ↦ wrong
        | some left ↦ elim (listing (until_nul (content dirname))) [
          | none ↦ wrong
          | some names ↦
              load_nodl_entries (content dirname) (record { mem = left; nodls = all; err = false })
                names
        ]
      ]
