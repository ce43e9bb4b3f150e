-- ===== src/Config/Station.antt =====
-- `apply_base_pair` of src/base/bano_base.c: the settings of the base itself.
pub mod Keeps
use bano.Base.{
  ℕ, ◌%◌, ◌^◌, Bool, true, false, not, Option, none, some, List, [], ◌∷◌, ◌==◌, if◌then◌else◌,
  Bytes, codes, set_bit, clear_bit,
}
use bano.Strings.{BanoString, cmp_cstr, to_bool, to_uint32, to_cipher_key}
use bano.Parser.Outcome.{Outcome, done, failed, no_fuel, ◌>>=◌}
use bano.Parser.Structs.{Pair}
use bano.Cipher.{Alg, alg_none, alg_xtea, Cipher}
use bano.Dict.{Dict}
use bano.Nodl.{Nodl}
use bano.Config.Pairs.{flag_by}
use bano.Config.Nodls.{Nodls, load_nodl_dir}

-- The fields of `bano_base_t` that a configuration sets, and the memory left for descriptions.
pub record Station : Type 0 where
  pub flags : ℕ
  pub nodls : Dict Nodl
  pub cipher : Cipher
  pub addr : ℕ
  pub mem : ℕ

-- `BANO_BASE_FLAG_NEW_NODES`, as the number of its bit
abbrev pub flag_new_nodes : ℕ
flag_new_nodes = 2

-- `BANO_DEFAULT_BASE_ADDR`
abbrev pub default_base_addr : ℕ
default_base_addr = 0x5a5a5a5a

-- The branch for "cipher_alg"
unfoldable pub cipher_alg_pair : Station → BanoString → Station × Bool
cipher_alg_pair b s =
    let with_alg = λ (a : Alg).
      let r : Station × Bool =
        (record b { cipher = record { alg = a; key = b.cipher.key } }, false) in
      r in
    let unknown : Station × Bool = (b, true) in
    if cmp_cstr s (codes "none")
    then with_alg alg_none
    else if cmp_cstr s (codes "xtea")
    then with_alg alg_xtea
    else unknown

module _ (strtoul : Bytes → ℕ → ℕ) (mapped : Bytes → Option Bytes)
    (listing : Bytes → Option (List Bytes)) (fuel parser_mem : ℕ) where
  -- The branch for "addr"
  unfoldable pub addr_pair : Station → BanoString → Station × Bool
  addr_pair b s =
      let default : Station × Bool = (record b { addr = default_base_addr }, false) in
      let word : Station × Bool = elim (to_uint32 strtoul s) [
        | none ↦ (b, true)
        | some x ↦ (record b { addr = x }, false)
      ] in
      if cmp_cstr s (codes "default") then default else word

  -- The branch for "cipher_key"
  unfoldable pub cipher_key_pair : Station → BanoString → Station × Bool
  cipher_key_pair b s = elim (to_cipher_key strtoul s) [
    | none ↦ (b, true)
    | some k ↦ (record b { cipher = record { alg = b.cipher.alg; key = k } }, false)
  ]

  -- The branch for "nodl_dir"
  unfoldable pub nodl_dir_pair : Station → BanoString → Outcome (Station × Bool)
  nodl_dir_pair b s = load_nodl_dir strtoul mapped fuel parser_mem listing b.mem b.nodls s >>= λ r.
      done (record b { nodls = r.nodls; mem = r.mem }, r.err)

  -- `apply_base_pair`
  unfoldable pub apply_base_pair : Station → Pair → Outcome (Station × Bool)
  apply_base_pair b p =
      let new_nodes : Station × Bool =
        let r = flag_by flag_new_nodes p.val b.flags in (record b { flags = r.0 }, r.1) in
      let unknown : Station × Bool = (b, true) in
      if cmp_cstr p.key (codes "addr")
      then done (addr_pair b p.val)
      else if cmp_cstr p.key (codes "nodl_dir")
      then nodl_dir_pair b p.val
      else if cmp_cstr p.key (codes "cipher_alg")
      then done (cipher_alg_pair b p.val)
      else if cmp_cstr p.key (codes "cipher_key")
      then done (cipher_key_pair b p.val)
      else if cmp_cstr p.key (codes "new_nodes")
      then done new_nodes
      else done unknown

  -- `bano_parser_foreach_pair` with it
  unfoldable pub apply_base_pairs : Station → List Pair → Outcome (Station × Bool)
  apply_base_pairs b [] = done (b, false)
  apply_base_pairs b (p ∷ ps) = apply_base_pair b p >>= λ (c, wrong).
      let rest = apply_base_pairs c ps in
      let stopped : Outcome (Station × Bool) = done (c, true) in if wrong then stopped else rest
