-- ===== src/Items.antt =====
-- src/base/bano_list.c on a heap: a list is the addresses of its first and its last item. A result
-- of `malloc` is an address or, for NULL, none; a dereference of an address that holds no item is
-- a fault, which is the outcome `none`.
pub mod Seg
pub mod Update
pub mod Refine
pub mod Insert
pub mod Before
pub mod Loops
pub mod Visit
use bano.Base.{ℕ, Bool, true, false, Option, none, some, List, [], ◌∷◌, ◌==◌, if◌then◌else◌}

abbrev pub Ptr : Type 0
Ptr = ℕ

abbrev pub null : Ptr
null = 0

-- `bano_list_t`
pub record BanoList : Type 0 where
  pub head : Ptr
  pub tail : Ptr

module _ (V : Type 0) where
  -- `bano_list_item_t`; what `data` points to is of the type V.
  pub record Item : Type 0 where
    pub data_at : V
    pub next : Ptr
    pub prev : Ptr

  abbrev pub Heap : Type 0
  Heap = Ptr → Option Item

  -- The heap and the list after a call, with `true` for the result 0.
  pub record After : Type 0 where
    pub heap : Heap
    pub list : BanoList
    pub ok : Bool

-- `bano_list_init`
abbrev pub list_init : BanoList
list_init = record { head = null; tail = null }

module _ {V : Type 0} where
  unfoldable pub write : Heap V → Ptr → Option (Item V) → Heap V
  write h p c a = if a == p then c else h a

  -- `p->next = q`
  unfoldable pub set_next : Heap V → Ptr → Ptr → Option (Heap V)
  set_next h p q = elim (h p) [
    | none ↦ none
    | some n ↦ some (write h p (some (record n { next = q })))
  ]

  -- `p->prev = q`
  unfoldable pub set_prev : Heap V → Ptr → Ptr → Option (Heap V)
  set_prev h p q = elim (h p) [
    | none ↦ none
    | some n ↦ some (write h p (some (record n { prev = q })))
  ]

  -- `bano_list_add_tail`
  unfoldable pub add_tail : Heap V → BanoList → V → Option Ptr → Option (After V)
  add_tail h l v none = some (record { heap = h; list = l; ok = false })
  add_tail h l v (some i) =
      let g = write h i (some (record { data_at = v; next = null; prev = l.tail })) in
      let first : Option (After V) =
        some (record { heap = g; list = record { head = i; tail = i }; ok = true }) in
      let behind : Option (After V) = elim (set_next g l.tail i) [
        | none ↦ none
        | some e ↦ some (record { heap = e; list = record l { tail = i }; ok = true })
      ] in
      if l.tail == null then first else behind

  -- `bano_list_add_head`
  unfoldable pub add_head : Heap V → BanoList → V → Option Ptr → Option (After V)
  add_head h l v none = some (record { heap = h; list = l; ok = false })
  add_head h l v (some i) =
      let g = write h i (some (record { data_at = v; next = l.head; prev = null })) in
      let first : Option (After V) =
        some (record { heap = g; list = record { head = i; tail = i }; ok = true }) in
      let before : Option (After V) = elim (set_prev g l.head i) [
        | none ↦ none
        | some e ↦ some (record { heap = e; list = record l { head = i }; ok = true })
      ] in
      if l.head == null then first else before

  -- The end of `bano_list_add_before`: the links between the new item and the one behind it.
  unfoldable pub link_before : Heap V → BanoList → (n i : Ptr) → Option (After V)
  link_before h l n i = elim (set_next h i n) [
    | none ↦ none
    | some g ↦ elim (set_prev g n i) [
      | none ↦ none
      | some e ↦ some (record { heap = e; list = l; ok = true })
    ]
  ]

  -- `bano_list_add_before`; the new item's `prev` stays NULL.
  unfoldable pub add_before : Heap V → BanoList → Ptr → V → Option Ptr → Option (After V)
  add_before h l n v none = some (record { heap = h; list = l; ok = false })
  add_before h l n v (some i) =
      let g = write h i (some (record { data_at = v; next = null; prev = null })) in
      let first = link_before g (record l { head = i }) n i in
      let inner : Option (After V) = elim (g n) [
        | none ↦ none
        | some x ↦ elim (set_next g x.prev i) [ none ↦ none | some e ↦ link_before e l n i ]
      ] in
      if n == l.head then first else inner

  -- The two steps of `bano_list_del` on an item with the links `q` and `r`, each with its branches.
  unfoldable pub unlink_next : Heap V → BanoList → (q r : Ptr) → Option (Heap V × BanoList)
  unlink_next h l q r =
      let moved : Option (Heap V × BanoList) = some (h, record l { head = q }) in
      let linked : Option (Heap V × BanoList) = elim (set_next h r q) [
        | none ↦ none
        | some g ↦ some (g, l)
      ] in
      if r == null then moved else linked

  unfoldable pub unlink_prev : Heap V → BanoList → (q r : Ptr) → Option (Heap V × BanoList)
  unlink_prev h l q r =
      let moved : Option (Heap V × BanoList) = some (h, record l { tail = r }) in
      let linked : Option (Heap V × BanoList) = elim (set_prev h q r) [
        | none ↦ none
        | some g ↦ some (g, l)
      ] in
      if q == null then moved else linked

  -- `bano_list_del`
  unfoldable pub del : Heap V → BanoList → Ptr → Option (Heap V × BanoList)
  del h l i = elim (h i) [
    | none ↦ none
    | some n ↦ elim (unlink_next h l n.next n.prev) [
      | none ↦ none
      | some (g, k) ↦ elim (g i) [
        | none ↦ none
        | some m ↦ elim (unlink_prev g k m.next m.prev) [
          | none ↦ none
          | some (e, j) ↦ some (write e i none, j)
        ]
      ]
    ]
  ]

-- `bano_list_is_empty`
abbrev pub is_empty : BanoList → Bool
is_empty l = l.head == null
