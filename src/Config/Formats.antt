-- ===== src/Config/Formats.antt =====
-- The formats of a key in src/base/bano_base.c.
use bano.Base.{
  ◌≡◌, ◌↔◌, refl, ap, ◌∙◌, ℕ, true, false, [], ◌∷◌, ◌++◌, Bytes, codes, Bool-cases, inl, inr,
  get_or, ◌==◌, ==_iff,
}
use bano.Strings.{BanoString, content, cmp_cstr}
use bano.Strings.Compare.{IsSlice, IsPrefix, cmp_cstr-IsPrefix}
use bano.Parser.Structs.{Pair}
use bano.Nodl.{Keyval}
use bano.Config.Pairs.{keyval_fmt, apply_nodl_keyval_pair}

-- A string does not match a C string that begins otherwise.
no_match :
    (s : BanoString) (c d : ℕ) (a b : Bytes)
    → IsSlice s
    → content s ≡ c ∷ a
    → (d == c) ≡ false
    → cmp_cstr s (d ∷ b) ≡ false
no_match s c d a b sl e ne = elim (Bool-cases (cmp_cstr s (d ∷ b))) [
  | inl m ↦
      let (rest, p) = (cmp_cstr-IsPrefix s (d ∷ b) sl).0 m in
      let same : d ≡ c = ap (λ l. get_or l 0 0) (p ∙ ap (λ l. l ++ rest) e) in
      cc ((==_iff d c).1 same, ne)
  | inr m ↦ m
]

module _ (strtoul : Bytes → ℕ → ℕ) where
  -- A pair with the key "fmt", whose strings lie within their buffers, is accepted exactly if its
  -- value is a prefix of "uint32".
  pub apply_nodl_keyval_pair-fmt :
      (kv : Keyval) (p : Pair)
      → IsSlice p.key
      → IsSlice p.val
      → content p.key ≡ codes "fmt"
      → ((apply_nodl_keyval_pair strtoul kv p).1 ≡ false)
        ↔ IsPrefix (content p.val) (codes "uint32")
  unfolding apply_nodl_keyval_pair keyval_fmt
  apply_nodl_keyval_pair-fmt kv p sk sv e =
      let no_name = no_match p.key b'f' b'n' (codes "mt") (codes "ame") sk e refl in
      let no_key = no_match p.key b'f' b'k' (codes "mt") (codes "ey") sk e refl in
      let is_fmt : cmp_cstr p.key (codes "fmt") ≡ true =
        (cmp_cstr-IsPrefix p.key (codes "fmt") sk).1 ([], rw e refl) in
      let (to, from) = cmp_cstr-IsPrefix p.val (codes "uint32") sv in
      rw (no_name, no_key, is_fmt)
        (elim (Bool-cases (cmp_cstr p.val (codes "uint32"))) [
          | inl m ↦ rw m ((λ _. to m), (λ _. refl))
          | inr m ↦ rw m ((λ x. cc), (λ pre. cc (from pre, m)))
        ])
