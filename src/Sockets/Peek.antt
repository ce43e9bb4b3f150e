-- ===== src/Sockets/Peek.antt =====
-- The loop of `do_peek` of src/base/bano_socket_snrf.c.
use bano.Base.{
  ℕ, zero, suc, ◌<◌, ◌≡◌, refl, Option, none, some, List, [], ◌∷◌, Bytes, take, arith, length,
}
use bano.Sockets.{Snrf, SnrfMsg, payload, other, msg_size, do_peek}

-- What the library documents of the messages that it holds back: the first is given and taken out.
abbrev pub NextPending : {H : Type 0} → (H → List SnrfMsg) → Snrf H → H → Type 0
NextPending {H} pending s h = elim (pending h) as (λ _. Type 0) [
  | [] ↦ s.get_pending_msg h ≡ none
  | m ∷ ms ↦ (g : H) × (s.get_pending_msg h ≡ some (g, m)) × (pending g ≡ ms)
]

-- The first payload, and the messages behind it.
abbrev pub first_payload : List SnrfMsg → List SnrfMsg × Option Bytes
first_payload [] = ([], none)
first_payload (payload bytes ∷ ms) = (ms, some (take msg_size bytes))
first_payload (other ∷ ms) = first_payload ms

module _ {H : Type 0} (s : Snrf H) (pending : H → List SnrfMsg)
    (next : (h : H) → NextPending pending s h) where
  peek :
      (ms : List SnrfMsg) (fuel : ℕ) (h : H)
      → pending h ≡ ms
      → length ms < fuel
      → (g : H) × (do_peek s fuel h ≡ some (g, (first_payload ms).1))
        × (pending g ≡ (first_payload ms).0)
  unfolding do_peek
  peek ms zero h e l = absurd (omega (arith, l))
  peek [] (suc fuel) h e l =
      let n : s.get_pending_msg h ≡ none = rw (NextPending, e) at (next h) in
      (h, rw (do_peek, n) refl, e)
  peek (payload bytes ∷ ms) (suc fuel) h e l =
      let (g, n, p) = (rw (NextPending, e) at (next h)) in (g, rw (do_peek, n) refl, p)
  peek (other ∷ ms) (suc fuel) h e l =
      let (g, n, p) = (rw (NextPending, e) at (next h)) in
      let (k, run, q) = peek ms fuel g p (omega (arith, l)) in (k, rw (do_peek, n) run, q)

  -- On a library that hands out the messages held back in order, `do_peek` ends with the first
  -- payload among them and drops those up to it, or all where there is none; fuel of one more than
  -- their number is enough.
  pub do_peek-first :
      (fuel : ℕ) (h : H)
      → length (pending h) < fuel
      → (g : H) × (do_peek s fuel h ≡ some (g, (first_payload (pending h)).1))
        × (pending g ≡ (first_payload (pending h)).0)
  do_peek-first fuel h l = peek (pending h) fuel h refl l
