-- ===== src/Setup/Attached.antt =====
-- The nodes of a base while its configuration is applied.
use bano.Base.{
  ℕ, ◌+◌, ◌≤◌, ◌<◌, ◌^◌, ◌≡◌, ◌⊎◌, refl, ap, Bool, true, false, none, some, List, [], ◌∷◌, ◌++◌,
  ◌==◌, ==_refl, if◌then◌else◌, length, has_bit, set_bit, arith, Bool-cases, Option-cases, inl, inr,
}
use bano.Items.{Ptr}
use bano.Dict.{dict_get, dict_init, take_mem}
use bano.Nodl.{Nodl}
use bano.Config.Pairs.{NodeInfo, node_addr, node_nodl_id, node_cipher, node_socket, node_name}
use bano.Config.Nodes.{IsNodeInfo}
use bano.Timers.{Mem, malloc}
use bano.Network.Lookup.{node_at-at}
use bano.Network.Safe.{NodesApart}
use bano.Network.Safe.Nodes.{append-NodesApart, node_at-append}
use bano.Network.{NodeVal, Node, BanoBase, node_at, node_alloc, add_tail_node, add_node}

abbrev pub is_in : Ptr → List Ptr → Bool
is_in p [] = false
is_in p (x ∷ xs) = let rest = is_in p xs in if x == p then true else rest

-- A node that is attached: its socket is one of the base, it has a description, its name and its
-- address fit, and no request waits.
pub record IsAttached (sockets : List Ptr) (n : Node) : Type 0 where
  pub has_socket : is_in n.socket sockets ≡ true
  pub has_nodl : (d : Nodl) × (n.nodl ≡ some d)
  pub name_fits : length n.name < 32
  pub addr_fits : n.addr < 2 ^ 32
  pub idle : (n.posted_ios ≡ []) × (n.pending_ios ≡ [])

abbrev pub AllAttached : List Ptr → List Node → Type 0
AllAttached sockets [] = Unit {0}
AllAttached sockets (n ∷ ns) = IsAttached sockets n × AllAttached sockets ns

pub AllAttached-append :
    (sockets : List Ptr) (ns : List Node) (n : Node)
    → AllAttached sockets ns
    → IsAttached sockets n
    → AllAttached sockets (ns ++ n ∷ [])
AllAttached-append sockets [] n h k = (k, tt)
AllAttached-append sockets (x ∷ xs) n h k = (h.0, AllAttached-append sockets xs n h.1 k)

pub is_in-append : (p : Ptr) (xs ys : List Ptr) → is_in p xs ≡ true → is_in p (xs ++ ys) ≡ true
is_in-append p [] ys h = cc
is_in-append p (x ∷ xs) ys h = ground (arith, is_in-append p xs ys)

pub is_in-last : (p : Ptr) (xs : List Ptr) → is_in p (xs ++ p ∷ []) ≡ true
is_in-last p [] = rw (==_refl p) refl
is_in-last p (x ∷ xs) = ground (arith, is_in-last p xs)

-- Sockets are only added.
pub AllAttached-more :
    (sockets more : List Ptr) (ns : List Node)
    → AllAttached sockets ns
    → AllAttached (sockets ++ more) ns
AllAttached-more sockets more [] h = tt
AllAttached-more sockets more (n ∷ ns) h = (
  record {
    has_socket = is_in-append n.socket sockets more h.0.has_socket;
    has_nodl = h.0.has_nodl;
    name_fits = h.0.name_fits;
    addr_fits = h.0.addr_fits;
    idle = h.0.idle;
  },
  AllAttached-more sockets more ns h.1,
)

malloc-fresh :
    (m k : Mem) (p : Ptr) → malloc m ≡ some (p, k) → (p ≡ m.fresh) × (k.fresh ≡ m.fresh + 1)
unfolding malloc take_mem
malloc-fresh m k p e = ground (arith, e)

-- What `bano_node_alloc` gives: a node without a name and without requests.
node_alloc-fresh :
    (m k : Mem) (addr : ℕ) (socket : Ptr) (n : Node)
    → node_alloc m addr socket ≡ some (k, n)
    → (n.addr ≡ addr)
      × (n.socket ≡ socket)
      × (n.name ≡ [])
      × (n.posted_ios ≡ [])
      × (n.pending_ios ≡ [])
      × (n.at ≡ m.fresh)
      × (k.fresh ≡ m.fresh + 1)
unfolding node_alloc
node_alloc-fresh m k addr socket n e = elim (Option-cases (malloc m)) [
  | inl full ↦ cc (rw (node_alloc, full) at e)
  | inr ((p, j), granted) ↦ elim (Option-cases (dict_init {V = NodeVal} j.left)) [
    | inl unset ↦
        let f = rw (node_alloc, granted, unset) at e in
        let g = malloc-fresh m j p granted in ground (arith, f, g)
    | inr ((left, d), set) ↦
        let f = rw (node_alloc, granted, set) at e in
        let g = malloc-fresh m j p granted in ground (arith, f, g)
  ]
]

-- The nodes have addresses below `fresh`, no two the same.
pub record AreDistinct (fresh : ℕ) (ns : List Node) : Type 0 where
  pub apart : NodesApart ns
  pub old : (p : Ptr) (n : Node) → node_at ns p ≡ some n → n.at < fresh

pub nil-AreDistinct : (f : ℕ) → AreDistinct f []
unfolding node_at
nil-AreDistinct f = record { apart = tt; old = λ p n e. cc e }

pub AreDistinct-le : (f g : ℕ) (ns : List Node) → f ≤ g → AreDistinct f ns → AreDistinct g ns
AreDistinct-le f g ns le h = record { apart = h.apart; old = λ p n e. omega (arith, h.old p n e) }

AreDistinct-append :
    (f g : ℕ) (ns : List Node) (n : Node)
    → AreDistinct f ns
    → f ≤ n.at
    → n.at < g
    → AreDistinct g (ns ++ n ∷ [])
unfolding node_at
AreDistinct-append f g ns n h new lt =
    let out : node_at ns n.at ≡ none = elim (Option-cases (node_at ns n.at)) [
      | inl e ↦ e
      | inr (m, e) ↦ absurd (omega (arith, node_at-at ns n.at m e, h.old n.at m e))
    ] in
    record {
      apart = append-NodesApart ns n h.apart out;
      old = λ p m e. elim (Option-cases (node_at ns p)) [
        | inr (k, found) ↦
            let is_k : k ≡ m = cc (rw (node_at-append ns n p, found) at e) in
            omega (arith, h.old p m (rw is_k at found))
        | inl gone ↦
            let last = rw (node_at-append ns n p, gone) at e in
            elim (Bool-cases (n.at == p)) [
              | inl same ↦
                  let is_n : n ≡ m = cc (rw same at last) in omega (arith, lt, ap (λ x. x.at) is_n)
              | inr other ↦ cc (rw other at last)
            ]
      ];
    }

-- From `b` to `c` at most one node is added, behind the others, which is attached to the socket `q`, and
-- nothing else changes but the memory.
pub record Grows (q : Ptr) (b c : BanoBase) : Type 0 where
  pub same_sockets : c.sockets ≡ b.sockets
  pub same_timers : c.timers ≡ b.timers
  pub same_cipher : c.cipher ≡ b.cipher
  pub same_addr : c.addr ≡ b.addr
  pub attached : AllAttached b.sockets c.nodes
  pub distinct : AreDistinct c.mem.fresh c.nodes
  pub newest : (c.nodes ≡ b.nodes) ⊎ ((n : Node) × (c.nodes ≡ b.nodes ++ n ∷ []) × (n.socket ≡ q))

-- The node that `bano_add_node` makes of a fresh one
abbrev named : NodeInfo → Node → Node
named info new =
    let n1 : Node =
      if has_bit node_cipher info.flags
      then record new { flags = set_bit node_cipher new.flags }
      else new in
    if has_bit node_name info.flags
    then record n1 { flags = set_bit node_name n1.flags; name = info.name }
    else n1

module _ (b : BanoBase) (info : NodeInfo) (q : Ptr) (fits : IsNodeInfo info)
    (known : is_in q b.sockets ≡ true) (all : AllAttached b.sockets b.nodes)
    (dist : AreDistinct b.mem.fresh b.nodes) where
  stays : (m : Mem) → b.mem.fresh ≤ m.fresh → Grows q b (record b { mem = m })
  stays m le = record {
    same_sockets = refl;
    same_timers = refl;
    same_cipher = refl;
    same_addr = refl;
    attached = all;
    distinct = AreDistinct-le b.mem.fresh m.fresh b.nodes le dist;
    newest = inl refl;
  }

  named_socket :
      (m k : Mem) (new : Node)
      → node_alloc m info.addr q ≡ some (k, new)
      → (named info new).socket ≡ q
  named_socket m k new e =
      let at_socket = (node_alloc-fresh m k info.addr q new e).1 in ground (arith, at_socket)

  named-IsAttached :
      (m k : Mem) (new : Node) (d : Nodl)
      → node_alloc m info.addr q ≡ some (k, new)
      → IsAttached b.sockets (record (named info new) { nodl = some d })
  named-IsAttached m k new d e =
      let (at_addr, at_socket, no_name, no_posted, no_pending, at_fresh, next) =
        node_alloc-fresh m k info.addr q new e in
      let short = fits.name_fits in
      let named_fits : length (named info new).name < 32 = ground (arith, no_name, short) in
      let sock = named_socket m k new e in
      let addr : (named info new).addr ≡ info.addr = ground (arith, at_addr) in
      record {
        has_socket = rw sock known;
        has_nodl = (d, refl);
        name_fits = named_fits;
        addr_fits = rw addr fits.addr_fits;
        idle = (ground (arith, no_posted), ground (arith, no_pending));
      }

  later :
      (m : Mem) (new : Node) → node_alloc b.mem info.addr q ≡ some (m, new) → b.mem.fresh ≤ m.fresh
  later m new e =
      let (a, s, na, po, pe, at_fresh, next) = node_alloc-fresh b.mem m info.addr q new e in
      omega (arith, next)

  new_at :
      (m : Mem) (new : Node)
      → node_alloc b.mem info.addr q ≡ some (m, new)
      → b.mem.fresh ≤ (named info new).at
  new_at m new e =
      let (a, s, na, po, pe, at_fresh, next) = node_alloc-fresh b.mem m info.addr q new e in
      ground (arith, at_fresh)

  new_lt :
      (m k : Mem) (p : Ptr) (new : Node)
      → node_alloc b.mem info.addr q ≡ some (m, new)
      → malloc m ≡ some (p, k)
      → (named info new).at < k.fresh
  new_lt m k p new e f =
      let (a, s, na, po, pe, at_fresh, next) = node_alloc-fresh b.mem m info.addr q new e in
      let last = (malloc-fresh m k p f).1 in ground (arith, at_fresh, next, last)

  pub add_node-Grows : Grows q b (add_node b info q).0
  unfolding add_node add_tail_node
  add_node-Grows = elim (Bool-cases (has_bit node_socket info.flags)) [
    | inr s ↦ rw (add_node, s) (stays b.mem (omega arith))
    | inl s ↦ elim (Bool-cases (has_bit node_addr info.flags)) [
      | inr a ↦ rw (add_node, s, a) (stays b.mem (omega arith))
      | inl a ↦ elim (Bool-cases (has_bit node_nodl_id info.flags)) [
        | inr i ↦ rw (add_node, s, a, i) (stays b.mem (omega arith))
        | inl i ↦ elim (Option-cases (node_alloc b.mem info.addr q)) [
          | inl full ↦ rw (add_node, s, a, i, full) (stays b.mem (omega arith))
          | inr ((m, new), alloc) ↦ elim (Option-cases (dict_get b.nodls info.nodl_id)) [
            | inl no_nodl ↦ rw (add_node, s, a, i, alloc, no_nodl) (stays m (later m new alloc))
            | inr (d, nodl) ↦ elim (Option-cases (malloc m)) [
              | inl full ↦ rw (add_node, s, a, i, alloc, nodl, full) (stays m (later m new alloc))
              | inr ((p, k), item) ↦
                  rw (add_node, s, a, i, alloc, nodl, item)
                    (record {
                      same_sockets = refl;
                      same_timers = refl;
                      same_cipher = refl;
                      same_addr = refl;
                      attached =
                          AllAttached-append b.sockets b.nodes _ all
                            (named-IsAttached b.mem m new d alloc);
                      distinct =
                          AreDistinct-append b.mem.fresh k.fresh b.nodes _ dist (new_at m new alloc)
                            (new_lt m k p new alloc item);
                      newest = inr (
                        record (named info new) { nodl = some d },
                        refl,
                        named_socket b.mem m new alloc,
                      );
                    })
            ]
          ]
        ]
      ]
    ]
  ]
