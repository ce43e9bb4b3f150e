-- ===== src/Camera/Swaps.antt =====
-- What `swap_lines` of src/base/bano_cam.c does to two lines that do not overlap.
use bano.Base.{
  Step, returns, ◌>>=◌, ℕ, zero, suc, ◌+◌, ◌*◌, ◌≡◌, refl, sym, true, [], ◌∷◌, ◌++◌, append_assoc,
  leb, Bytes, length, length-append, length-take, length-drop, take-append-drop, take, drop,
  drop-append, take-append, arith,
}
use bano.Camera.{put, swap_at, swap_words}

-- A memory with two lines in it
abbrev pub row : (t x m y b : Bytes) → Bytes
row t x m y b = t ++ (x ++ (m ++ (y ++ b)))

-- `f` swaps `n` bytes at its two places.
abbrev pub Swaps : (Bytes → ℕ → ℕ → Step Bytes) → ℕ → Type 0
Swaps f n =
    (t x m y b : Bytes)
    → length x ≡ n
    → length y ≡ n
    → f (row t x m y b) (length t) (length t + n + length m) ≡ returns (row t y m x b)

regroup : (t x m r : Bytes) → (t ++ (x ++ m)) ++ r ≡ t ++ (x ++ (m ++ r))
regroup t x m r = simp (append_assoc)

pub length-row :
    (t x m y b : Bytes)
    → length (row t x m y b) ≡ length t + length x + length m + length y + length b
length-row t x m y b = omega (
  arith,
  length-append t (x ++ (m ++ (y ++ b))),
  length-append x (m ++ (y ++ b)),
  length-append m (y ++ b),
  length-append y b,
)

read_at :
    (t x r : Bytes) (i n : ℕ) → i ≡ length t → n ≡ length x → take n (drop i (t ++ (x ++ r))) ≡ x
read_at t x r i n e f = rw (drop-append t (x ++ r) i e) (take-append x r n f)

put_at :
    (t x y r : Bytes) (i : ℕ)
    → i ≡ length t
    → length x ≡ length y
    → put i y (t ++ (x ++ r)) ≡ t ++ (y ++ r)
put_at t x y r i e f =
    let behind : i + length y ≡ length (t ++ x) = omega (arith, e, f, length-append t x) in
    let split : (t ++ x) ++ r ≡ t ++ (x ++ r) = append_assoc t x r in
    let rest : drop (i + length y) (t ++ (x ++ r)) ≡ r =
      rw split at (drop-append (t ++ x) r (i + length y) behind) in
    rw (take-append t (x ++ r) i e, rest) refl

pub swap_at-Swaps : (n : ℕ) → Swaps (swap_at n) n
unfolding swap_at
swap_at-Swaps n t x m y b hx hy =
    let i : ℕ = length t in
    let k : ℕ = length t + n + length m in
    let total = length-row t x m y b in
    let first : leb (i + n) (length (row t x m y b)) ≡ true = ground (arith, total, hx, hy) in
    let second : leb (k + n) (length (row t x m y b)) ≡ true = ground (arith, total, hx, hy) in
    let upto : k ≡ length (t ++ (x ++ m)) =
      omega (arith, hx, length-append t (x ++ m), length-append x m) in
    let upto' : k ≡ length (t ++ (y ++ m)) =
      omega (arith, hy, length-append t (y ++ m), length-append y m) in
    let tmp : take n (drop i (row t x m y b)) ≡ x = read_at t x (m ++ (y ++ b)) i n refl (sym hx) in
    let there : take n (drop k (row t x m y b)) ≡ y =
      rw (regroup t x m (y ++ b)) at (read_at (t ++ (x ++ m)) y b k n upto (sym hy)) in
    let once : put i y (row t x m y b) ≡ row t y m y b =
      put_at t x y (m ++ (y ++ b)) i refl (omega (arith, hx, hy)) in
    let twice : put k x (row t y m y b) ≡ row t y m x b =
      rw (regroup t y m (y ++ b), regroup t y m (x ++ b)) at
        (put_at (t ++ (y ++ m)) y x b k upto' (omega (arith, hx, hy))) in
    rw (swap_at, first, second, tmp, there, once, twice) refl

apart :
    (t x1 x2 m y1 y2 b : Bytes) → row t (x1 ++ x2) m (y1 ++ y2) b ≡ row t x1 (x2 ++ m) y1 (y2 ++ b)
apart t x1 x2 m y1 y2 b = simp (append_assoc)

ahead :
    (t x1 x2 m y1 y2 b : Bytes) → row (t ++ x1) x2 (m ++ y1) y2 b ≡ row t x1 (x2 ++ m) y1 (y2 ++ b)
ahead t x1 x2 m y1 y2 b = simp (append_assoc)

-- Both swaps, on lines in two parts
in_parts :
    (f g : Bytes → ℕ → ℕ → Step Bytes) (n k : ℕ)
    → Swaps f n
    → Swaps g k
    → (t x1 x2 m y1 y2 b : Bytes) → length x1 ≡ n
    → length x2 ≡ k
    → length y1 ≡ n
    → length y2 ≡ k
    → (f (row t (x1 ++ x2) m (y1 ++ y2) b) (length t) (length t + (n + k) + length m) >>= λ e.
        g e (length t + n) (length t + (n + k) + length m + n))
      ≡ returns (row t (y1 ++ y2) m (x1 ++ x2) b)
in_parts f g n k hf hg t x1 x2 m y1 y2 b lx1 lx2 ly1 ly2 =
    let at_y : length t + n + length (x2 ++ m) ≡ length t + (n + k) + length m =
      omega (arith, length-append x2 m, lx2) in
    let at_x : length (t ++ y1) ≡ length t + n = omega (arith, length-append t y1, ly1) in
    let at_y' : length (t ++ y1) + k + length (m ++ x1) ≡ length t + (n + k) + length m + n =
      omega (arith, length-append t y1, length-append m x1, ly1, lx1) in
    let one = rw at_y at (hf t x1 (x2 ++ m) y1 (y2 ++ b) lx1 ly1) in
    let two = rw (at_y', at_x) at (hg (t ++ y1) x2 (m ++ x1) y2 b lx2 ly2) in
    let two' = rw (ahead t y1 x2 m x1 y2 b, ahead t y1 y2 m x1 x2 b) at two in
    rw (apart t x1 x2 m y1 y2 b, apart t y1 y2 m x1 x2 b, one, two') refl

-- One swap behind another
pub then-Swaps :
    (f g : Bytes → ℕ → ℕ → Step Bytes) (n k : ℕ)
    → Swaps f n
    → Swaps g k
    → Swaps (λ d a b. f d a b >>= λ e. g e (a + n) (b + n)) (n + k)
then-Swaps f g n k hf hg t x m y b hx hy =
    let both =
      in_parts f g n k hf hg t (take n x) (drop n x) m (take n y) (drop n y) b
        (omega (arith, length-take n x, hx)) (omega (arith, length-drop n x, hx))
        (omega (arith, length-take n y, hy)) (omega (arith, length-drop n y, hy)) in
    rw (take-append-drop n x, take-append-drop n y) at both

pub swap_words-Swaps : (w : ℕ) → Swaps (swap_words w) (w * 4)
unfolding swap_words
swap_words-Swaps zero t [] m [] b hx hy = refl
swap_words-Swaps zero t (c ∷ x) m y b hx hy = absurd (omega (arith, hx))
swap_words-Swaps zero t x m (c ∷ y) b hx hy = absurd (omega (arith, hy))
swap_words-Swaps (suc w) t x m y b hx hy =
    let both =
      then-Swaps (swap_at 4) (swap_words w) 4 (w * 4) (swap_at-Swaps 4) (swap_words-Swaps w) in
    let size : 4 + w * 4 ≡ suc w * 4 = omega arith in
    rw size at (both t x m y b (omega (arith, hx)) (omega (arith, hy)))
