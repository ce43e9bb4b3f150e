-- ===== src/Config/Nodes.antt =====
-- The sizes of what src/base/bano_base.c writes into the description of a node.
use bano.Base.{
  ℕ, ◌<◌, ◌^◌, Bool, true, false, none, some, List, Bytes, codes, length, length-take, ltb, arith,
  Bool-cases, Option-cases, inl, inr,
}
use bano.Strings.{BanoString, cmp_cstr, to_uint32}
use bano.Parser.Structs.{Pair}
use bano.Config.{apply_each}
use bano.Config.Stops.{apply_each-keeps}
use bano.Config.Bounds.{both}
use bano.Config.Station.Keeps.{to_uint32-lt}
use bano.Config.Pairs.{NodeInfo, node_name_pair, apply_node_pair}

-- The name and its NUL fit their 32 bytes, the numbers their words.
pub record IsNodeInfo (n : NodeInfo) : Type 0 where
  pub name_fits : length n.name < 32
  pub addr_fits : n.addr < 2 ^ 32
  pub seed_fits : n.seed < 2 ^ 32
  pub nodl_id_fits : n.nodl_id < 2 ^ 32

abbrev Writes : NodeInfo × Bool → Type 0
Writes r = IsNodeInfo r.0

with_flags : (n : NodeInfo) (f : ℕ) → IsNodeInfo n → IsNodeInfo (record n { flags = f })
with_flags n f h = record {
  name_fits = h.name_fits;
  addr_fits = h.addr_fits;
  seed_fits = h.seed_fits;
  nodl_id_fits = h.nodl_id_fits;
}

node_name_pair-IsNodeInfo :
    (n : NodeInfo) (s : BanoString) → IsNodeInfo n → IsNodeInfo (node_name_pair n s).0
unfolding node_name_pair
node_name_pair-IsNodeInfo n s h = elim (Bool-cases (ltb s.size 32)) [
  | inl fits ↦ rw fits (record {
    name_fits = ground (arith, length-take s.size s.bytes, fits);
    addr_fits = h.addr_fits;
    seed_fits = h.seed_fits;
    nodl_id_fits = h.nodl_id_fits;
  })
  | inr long ↦ rw long h
]

module _ (strtoul : Bytes → ℕ → ℕ) where
  -- What a number that is read, or is none, leaves.
  word_pair :
      (s : BanoString) (n : NodeInfo) (put : ℕ → NodeInfo)
      → IsNodeInfo n
      → ((x : ℕ) → x < 2 ^ 32 → IsNodeInfo (put x))
      → Writes (elim (to_uint32 strtoul s) as (λ _. NodeInfo × Bool) [
        | none ↦ (n, true)
        | some x ↦ (put x, false)
      ])
  word_pair s n put h k = elim (Option-cases (to_uint32 strtoul s)) [
    | inl e ↦ rw e h
    | inr (x, e) ↦ rw e (k x (to_uint32-lt strtoul s x e))
  ]

  apply_node_pair-IsNodeInfo :
      (n : NodeInfo) (p : Pair) → IsNodeInfo n → IsNodeInfo (apply_node_pair strtoul n p).0
  unfolding apply_node_pair
  apply_node_pair-IsNodeInfo n p h =
      let is = λ (name : Bytes). cmp_cstr p.key name in
      both Writes (is (codes "addr"))
        (word_pair p.val _ _ (with_flags n _ h) (λ x lt. record {
          name_fits = h.name_fits;
          addr_fits = lt;
          seed_fits = h.seed_fits;
          nodl_id_fits = h.nodl_id_fits;
        }))
        (both Writes (is (codes "name")) (node_name_pair-IsNodeInfo n p.val h) (
          both Writes (is (codes "seed"))
            (word_pair p.val _ _ (with_flags n _ h) (λ x lt. record {
              name_fits = h.name_fits;
              addr_fits = h.addr_fits;
              seed_fits = lt;
              nodl_id_fits = h.nodl_id_fits;
            }))
            (both Writes (is (codes "nodl_id"))
              (word_pair p.val _ _ (with_flags n _ h) (λ x lt. record {
                name_fits = h.name_fits;
                addr_fits = h.addr_fits;
                seed_fits = h.seed_fits;
                nodl_id_fits = lt;
              }))
              (both Writes (is (codes "cipher")) (with_flags n _ h) h))))

  -- Whatever the pairs of a structure for a node say, and wherever the loop over them ends, the
  -- name and its NUL fit the 32 bytes for it, and the numbers fit 32 bits, if they did before.
  pub apply_node_pairs-IsNodeInfo :
      (n : NodeInfo) (ps : List Pair)
      → IsNodeInfo n
      → IsNodeInfo (apply_each (apply_node_pair strtoul) n ps).0
  apply_node_pairs-IsNodeInfo =
      apply_each-keeps (apply_node_pair strtoul) IsNodeInfo apply_node_pair-IsNodeInfo
