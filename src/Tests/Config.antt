-- ===== src/Tests/Config.antt =====
-- The configuration callbacks of src/base/bano_base.c on a few pairs.
use bano.Base.{
  ℕ, zero, suc, ◌≡◌, refl, Option, none, List, [], ◌∷◌, Bytes, codes, add32, sub32, arith,
}
use bano.Parser.Structs.{at, Pair}
use bano.Cipher.{alg_none, alg_xtea}
use bano.Dict.{hash_32_to_n, get_hash, list_at, dict_get}
use bano.Nodl.{Keyval, Nodl, nodl_find_key}
use bano.Nodl.Agree.{IsPlaced, nodl_find_key-dict_get}
use bano.Config.{apply_each}
use bano.Config.Pairs.{NodeInfo, apply_node_pair}
use bano.Config.Nodes.{IsNodeInfo, apply_node_pairs-IsNodeInfo}
use bano.Config.Station.{Station}
use bano.Config.Station.Keeps.{IsStation}
use bano.Tests.Strings.{hexadecimal}

abbrev pair : Bytes → ℕ → Bytes → ℕ → Pair
pair k n v m = record { key = at k n; val = at v m }

abbrev name_pair : Pair
name_pair = pair (codes "name") 4 (codes "led0") 4

abbrev fmt_pair : Pair
fmt_pair = pair (codes "fmt") 3 (codes "uint8") 5

abbrev station : Station
station = record {
  flags = 0;
  nodls = record { lists = []; log2_nlist = 3 };
  cipher = record { alg = alg_none; key = [] };
  addr = 0;
  mem = 10;
}

station-IsStation : IsStation station
station-IsStation = record { handled = λ e. cc; addr_fits = omega arith }

abbrev base_pairs : List Pair
base_pairs =
    pair (codes "addr") 4 (codes "default") 7 ∷ pair (codes "cipher_alg") 10 (codes "xtea") 4 ∷ []

abbrev configured : Station
configured = record station { cipher = record { alg = alg_xtea; key = [] }; addr = 0x5a5a5a5a }

abbrev nothing : {A : Type 0} → Bytes → Option A
nothing path = none

abbrev led : Keyval
led = record { flags = 0; name = codes "led0"; key = 7 }

abbrev leds : Nodl
leds = record { lists = (record { key = 7; val = led } ∷ []) ∷ [] ∷ []; log2_nlist = 1 }

leds-IsPlaced : IsPlaced leds
unfolding get_hash hash_32_to_n list_at add32 sub32
leds-IsPlaced zero = (refl, refl, tt)
leds-IsPlaced (suc zero) = tt
leds-IsPlaced (suc (suc h)) = tt

nodl_find_key-dict_get_example : nodl_find_key leds 7 ≡ dict_get leds 7
nodl_find_key-dict_get_example = nodl_find_key-dict_get leds 7 leds-IsPlaced

abbrev new_node : NodeInfo
new_node = record { flags = 0; addr = 0; name = []; seed = 0; nodl_id = 0 }

new_node-IsNodeInfo : IsNodeInfo new_node
new_node-IsNodeInfo = record {
  name_fits = omega arith;
  addr_fits = omega arith;
  seed_fits = omega arith;
  nodl_id_fits = omega arith;
}

abbrev node_pairs : List Pair
node_pairs = name_pair ∷ pair (codes "addr") 4 (codes "0x2a") 4 ∷ []

apply_node_pairs-IsNodeInfo_example :
    IsNodeInfo (apply_each (apply_node_pair hexadecimal) new_node node_pairs).0
apply_node_pairs-IsNodeInfo_example =
    apply_node_pairs-IsNodeInfo hexadecimal new_node node_pairs new_node-IsNodeInfo
