-- ===== src/Nodl.antt =====
-- src/base/bano_nodl.c: the description of a kind of node, a dictionary of the keys that it has.
pub mod Agree
use bano.Base.{
  ℕ, Bool, true, false, not, Option, none, some, List, [], ◌∷◌, ◌==◌, if◌then◌else◌, Bytes,
}
use bano.Dict.{DictPair, Dict, dict_init}

-- `bano_nodl_keyval_t`; `name` holds the bytes before the NUL that ends it.
pub record Keyval : Type 0 where
  pub flags : ℕ
  pub name : Bytes
  pub key : ℕ

-- The flags, as the numbers of their bits.
abbrev pub fmt_bool : ℕ
fmt_bool = 0

abbrev pub fmt_uint8 : ℕ
fmt_uint8 = 1

abbrev pub fmt_uint16 : ℕ
fmt_uint16 = 2

abbrev pub fmt_uint32 : ℕ
fmt_uint32 = 3

abbrev pub base_bin : ℕ
base_bin = 4

abbrev pub base_dec : ℕ
base_dec = 5

abbrev pub flag_mtime : ℕ
flag_mtime = 6

abbrev pub flag_get : ℕ
flag_get = 7

abbrev pub flag_set : ℕ
flag_set = 8

abbrev pub flag_rst : ℕ
flag_rst = 9

abbrev pub flag_ack : ℕ
flag_ack = 10

abbrev pub flag_notif : ℕ
flag_notif = 11

-- `bano_nodl_t`
abbrev pub Nodl : Type 0
Nodl = Dict Keyval

-- `bano_nodl_init`
abbrev pub nodl_init : ℕ → Option (ℕ × Nodl)
nodl_init mem = dict_init mem

-- `bano_nodl_keyval_init`
abbrev pub keyval_init : Keyval
keyval_init = record { flags = 0; name = []; key = 0 }

-- `find_keyval_item` under `bano_list_foreach`
unfoldable pub find_keyval_item : List (DictPair Keyval) → ℕ → Option Keyval
find_keyval_item [] key = none
find_keyval_item (x ∷ xs) key =
    let rest = find_keyval_item xs key in if not (x.val.key == key) then rest else some x.val

-- ... and under `bano_dict_foreach`
unfoldable pub find_in_lists : List (List (DictPair Keyval)) → ℕ → Option Keyval
find_in_lists [] key = none
find_in_lists (l ∷ ls) key = elim (find_keyval_item l key) [
  | none ↦ find_in_lists ls key
  | some kv ↦ some kv
]

-- `bano_nodl_find_key`
unfoldable pub nodl_find_key : Nodl → ℕ → Option Keyval
nodl_find_key d key = find_in_lists d.lists key

-- `bano_nodl_has_key`
unfoldable pub nodl_has_key : Nodl → ℕ → Bool
nodl_has_key d key = elim (nodl_find_key d key) [ none ↦ false | some kv ↦ true ]
