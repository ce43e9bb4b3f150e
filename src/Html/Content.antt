-- ===== src/Html/Content.antt =====
-- What a page holds after writes to it.
use bano.Base.{
  ℕ, suc, zero, sym, ap, Bool-cases, Option-cases, ◌+◌, ◌-◌, ◌*◌, ◌/◌, ◌≤◌, ◌<◌, ◌≡◌, refl, ◌∙◌,
  ◌⊎◌, inl, inr, Bool, true, false, Option, none, some, [], ◌∷◌, ◌++◌, if◌then◌else◌, ◌==◌, ltb,
  leb, length, take, drop, Bytes, arith, length-append, length-take, length-drop, take-append,
  append_assoc,
}
use bano.Html.{
  Html, Realloc, write_at, vsnprintf, resize_data, free_data, on_error, do_vsnprintf, html_printf,
  File, read_in, html_include, html_data,
}

-- What `realloc` promises: a new block has the size asked for, and begins with the old one.
abbrev pub IsRealloc : Realloc → Type 0
IsRealloc r =
    (block : Bytes) (n : ℕ) (grown : Bytes)
    → r block n ≡ some grown
    → length block ≤ n
    → (length grown ≡ n) × (take (length block) grown ≡ block)

-- The block has its size, and what is written lies in it.
abbrev pub IsPage : Html → Type 0
IsPage h = (length h.data_block ≡ h.size) × (h.off ≤ h.size)

-- A page that failed, or one that holds the bytes.
abbrev pub Shows : Html → Option Bytes → Type 0
Shows h none = IsPage h × (h.is_err ≡ true) × (h.off ≡ 0)
Shows h (some bytes) = IsPage h × (h.is_err ≡ false) × (html_data h ≡ bytes)

-- `realloc` has refused.
abbrev pub Refused : Realloc → Type 0
Refused r = (block : Bytes) × (n : ℕ) × (r block n ≡ none)

take-take : (i j : ℕ) (xs : Bytes) → i ≤ j → take i (take j xs) ≡ take i xs
take-take zero j xs l = refl
take-take (suc i) zero xs l = absurd (omega arith)
take-take (suc i) (suc j) [] l = refl
take-take (suc i) (suc j) (x ∷ xs) l = ap (◌∷◌ x) (take-take i j xs (omega arith))

take-all : (xs : Bytes) (n : ℕ) → length xs ≤ n → take n xs ≡ xs
take-all [] zero l = refl
take-all [] (suc n) l = refl
take-all (x ∷ xs) zero l = absurd (omega arith)
take-all (x ∷ xs) (suc n) l = ap (◌∷◌ x) (take-all xs n (omega arith))

-- A write inside the block leaves what is before it.
write_at-runs :
    (block : Bytes) (i : ℕ) (xs : Bytes)
    → i + length xs ≤ length block
    → (b : Bytes) × (write_at block i xs ≡ some b)
      × (length b ≡ length block)
      × (take i b ≡ take i block)
      × (take (i + length xs) b ≡ take i block ++ xs)
unfolding write_at
write_at-runs block i xs l =
    let rest : Bytes = drop (i + length xs) block in
    let front : length (take i block) ≡ i = omega (arith, length-take i block, l) in
    let both : length (take i block ++ xs) ≡ i + length xs =
      omega (arith, length-append (take i block) xs, front) in
    (
      take i block ++ xs ++ rest,
      ground (arith, l),
      omega (
        arith,
        both,
        length-append (take i block ++ xs) rest,
        length-drop (i + length xs) block,
        l,
      ),
      rw (append_assoc (take i block) xs rest)
          (take-append (take i block) (xs ++ rest) i (sym front)),
      take-append (take i block ++ xs) rest (i + length xs) (sym both),
    )

-- `vsnprintf` writes inside the buffer, and all of a text that is shorter than it.
vsnprintf-runs :
    (block : Bytes) (off n : ℕ) (text : Bytes)
    → off + n ≡ length block
    → (b : Bytes) × (vsnprintf block off n text ≡ some b)
      × (length b ≡ length block)
      × (take off b ≡ take off block)
      × (length text < n → take (off + length text) b ≡ take off block ++ text)
unfolding vsnprintf
vsnprintf-runs block off zero text e = (block, refl, refl, refl, λ l. absurd (omega (arith, l)))
vsnprintf-runs block off (suc n) text e =
    let xs : Bytes = take (suc n - 1) text ++ 0 ∷ [] in
    let size : length xs ≤ suc n =
      omega (arith, length-append (take (suc n - 1) text) (0 ∷ []), length-take (suc n - 1) text) in
    let (b, runs, same, before, written) = write_at-runs block off xs (omega (arith, e, size)) in
    let whole : length text < suc n → take (off + length text) b ≡ take off block ++ text = λ l.
      let all : xs ≡ text ++ 0 ∷ [] = rw (take-all text (suc n - 1) (omega (arith, l))) refl in
      let long : length xs ≡ suc (length text) =
        rw all (omega (arith, length-append text (0 ∷ []))) in
      rw (sym (take-take (off + length text) (off + length xs) b (omega (arith, long)))) (
        rw (written, all, sym (append_assoc (take off block) text (0 ∷ [])))
          (take-append (take off block ++ text) (0 ∷ []) (off + length text)
            (omega (arith, length-append (take off block) text, length-take off block, e)))) in
    (b, ground (arith, runs), same, before, whole)

-- A block that `realloc` grants is larger than what is asked for, and keeps the page.
resize_data-grows :
    (r : Realloc) (h : Html) (size : ℕ)
    → IsRealloc r
    → IsPage h
    → h.size ≤ size
    → ((g : Html) × (resize_data r h size ≡ (g, true))
        × IsPage g
        × (size < g.size)
        × (g.off ≡ h.off)
        × (g.is_err ≡ h.is_err)
        × (html_data g ≡ html_data h))
      ⊎ ((g : Html) × (resize_data r h size ≡ (g, false)) × Refused r)
unfolding resize_data html_data
resize_data-grows r h size lawful (sized, within) l =
    let n : ℕ = (size + 4096) / 4096 * 4096 in
    let more : size < n = omega arith in
    elim (Option-cases (r h.data_block n)) [
      | inl e ↦ inr (record h { is_err = true }, rw (resize_data, e) refl, (h.data_block, n, e))
      | inr (grown, e) ↦
          let (long, keeps) = lawful h.data_block n grown e (omega (arith, sized, l, more)) in
          inl (
            record h { data_block = grown; size = n },
            rw (resize_data, e) refl,
            (long, omega (arith, within, l, more)),
            more,
            refl,
            refl,
            rw (sym (take-take h.off (length h.data_block) grown (omega (arith, sized, within))))
                (rw keeps refl),
          )
    ]

on_error-Shows : (h : Html) → Shows (on_error h) none
unfolding on_error free_data
on_error-Shows h = ((refl, omega arith), refl, refl)

-- A text that fits needs no resize, whatever `once` is.
do_vsnprintf-fits :
    (r : Realloc) (once : ℕ) (h : Html) (text : Bytes)
    → IsPage h
    → h.is_err ≡ false
    → length text < h.size - h.off
    → (g : Html) × (do_vsnprintf r once h text ≡ some (g, true))
      × Shows g (some (html_data h ++ text))
unfolding do_vsnprintf html_data
do_vsnprintf-fits r zero h text (sized, within) fine l =
    let (b, runs, same, before, whole) =
      vsnprintf-runs h.data_block h.off (h.size - h.off) text (omega (arith, sized, within)) in
    (
      record h { data_block = b; off = h.off + length text },
      rw (do_vsnprintf, runs) (ground (arith, l)),
      ((omega (arith, same, sized), omega (arith, l)), fine, whole l),
    )
do_vsnprintf-fits r (suc once) h text (sized, within) fine l =
    let (b, runs, same, before, whole) =
      vsnprintf-runs h.data_block h.off (h.size - h.off) text (omega (arith, sized, within)) in
    (
      record h { data_block = b; off = h.off + length text },
      rw (do_vsnprintf, runs) (ground (arith, l)),
      ((omega (arith, same, sized), omega (arith, l)), fine, whole l),
    )

-- The second round has a buffer that the text fits in.
do_vsnprintf-grows :
    (r : Realloc) (h : Html) (text : Bytes)
    → IsRealloc r
    → IsPage h
    → h.is_err ≡ false
    → h.size - h.off ≤ length text
    → (g : Html) × (ok : Bool) × (do_vsnprintf r 1 h text ≡ some (g, ok))
      × (Shows g (some (html_data h ++ text)) ⊎ (Shows g none × Refused r))
unfolding do_vsnprintf html_data
do_vsnprintf-grows r h text lawful (sized, within) fine l =
    let (b, runs, same, before, _) =
      vsnprintf-runs h.data_block h.off (h.size - h.off) text (omega (arith, sized, within)) in
    let g : Html = record h { data_block = b } in
    elim (resize_data-grows r g (h.off + length text + 1) lawful
      (omega (arith, same, sized), within) (omega (arith, l, within))) [
        | inr (g2, resized, refused) ↦ (
          on_error g2,
          false,
          rw (do_vsnprintf, runs, resized) (ground (arith, l)),
          inr (on_error-Shows g2, refused),
        )
        | inl (g2, resized, page, more, off_same, err_same, data_same) ↦
            let (g3, again, shows) =
              do_vsnprintf-fits r 0 g2 text page (err_same ∙ fine)
                (omega (arith, more, off_same)) in
            (
              g3,
              true,
              rw (do_vsnprintf, runs, resized) (ground (arith, l, again)),
              inl (rw (sym (data_same ∙ before)) shows),
            )
      ]

-- A page with a text behind it; one that failed stays so.
abbrev pub append : Option Bytes → Option Bytes → Option Bytes
append (some bytes) (some text) = some (bytes ++ text)
append (some bytes) none = none
append none text = none

-- What of a file is written: all that `fstat` finds, if it is read.
abbrev pub file_text : File → Option Bytes
file_text f =
    if f.is_open
    then elim (f.st_size) [
      | none ↦ none
      | some n ↦ elim (f.read) [
        | none ↦ none
        | some bytes ↦ if length (take n bytes) == n then some (take n bytes) else none
      ]
    ]
    else none

-- The page, or a failed one where `realloc` has refused.
abbrev pub Written : Realloc → Option (Html × Bool) → Option Bytes → Type 0
Written r result p =
    (g : Html) × (ok : Bool) × (result ≡ some (g, ok)) × (Shows g p ⊎ (Shows g none × Refused r))

pub html_printf-Written :
    (r : Realloc) (h : Html) (p text : Option Bytes)
    → IsRealloc r
    → Shows h p
    → Written r (html_printf r h text) (append p text)
unfolding html_printf
html_printf-Written r h none text lawful (page, bad, empty) =
    (h, false, ground (arith, bad), inl (page, bad, empty))
html_printf-Written r h (some bytes) none lawful (page, fine, shown) =
    (on_error h, false, ground (arith, fine), inl (on_error-Shows h))
html_printf-Written r h (some bytes) (some text) lawful (page, fine, shown) =
    elim (Bool-cases (leb (h.size - h.off) (length text))) [
      | inl e ↦
          let l : h.size - h.off ≤ length text = ground (arith, e) in
          let (g, ok, runs, shows) = do_vsnprintf-grows r h text lawful page fine l in
          (g, ok, ground (arith, fine, runs), rw (sym shown) shows)
      | inr e ↦
          let l : length text < h.size - h.off = ground (arith, e) in
          let (g, runs, shows) = do_vsnprintf-fits r 1 h text page fine l in
          (g, true, ground (arith, fine, runs), inl (rw (sym shown) shows))
    ]

-- A file read where there is room for it.
read_in-Written :
    (r : Realloc) (h : Html) (n : ℕ) (read : Option Bytes) (bytes : Bytes)
    → Shows h (some bytes)
    → h.off + n ≤ h.size
    → Written r
        (read_in h n read)
        (append (some bytes) (file_text (record { is_open = true; st_size = some n; read = read })))
unfolding read_in html_data
read_in-Written r h n none bytes shows room = (on_error h, false, refl, inl (on_error-Shows h))
read_in-Written r h n (some more) bytes ((sized, within), fine, shown) room =
    let got : Bytes = take n more in
    let (b, runs, same, before, whole) =
      write_at-runs h.data_block h.off got (omega (arith, sized, room, length-take n more)) in
    elim (Bool-cases (length got == n)) [
      | inl e ↦
          let full : length got ≡ n = ground (arith, e) in
          (
            record h { data_block = b; off = h.off + n },
            true,
            rw (read_in, runs, e) refl,
            inl (
                rw e (
                  (omega (arith, same, sized), room),
                  fine,
                  ap (λ k. take (h.off + k) b) (sym full) ∙ whole ∙ ap (λ xs. xs ++ got) shown,
                )),
          )
      | inr e ↦ (
        on_error (record h { data_block = b }),
        false,
        rw (read_in, runs, e) refl,
        inl (rw e (on_error-Shows (record h { data_block = b }))),
      )
    ]

pub html_include-Written :
    (r : Realloc) (h : Html) (p : Option Bytes) (f : File)
    → IsRealloc r
    → Shows h p
    → Written r (html_include r h f) (append p (file_text f))
unfolding html_include html_data on_error free_data
html_include-Written r h none f lawful (page, bad, empty) =
    (h, false, ground (arith, bad), inl (page, bad, empty))
html_include-Written r h (some bytes) f lawful (page, fine, shown) = elim (Bool-cases (f.is_open)) [
  | inr e ↦ (on_error h, false, rw (html_include, fine, e) refl, inl (rw e (on_error-Shows h)))
  | inl opened ↦ elim (Option-cases (f.st_size)) [
    | inl e ↦ (
      on_error h,
      false,
      rw (html_include, fine, opened, e) refl,
      inl (rw (opened, e) (on_error-Shows h)),
    )
    | inr (n, size) ↦ elim (Bool-cases (ltb h.size (h.off + n))) [
      | inr e ↦
          let (g, ok, runs, shows) =
            read_in-Written r h n f.read bytes (page, fine, shown) (ground (arith, e)) in
          (g, ok, rw (html_include, fine, opened, size, e) runs, rw (opened, size) shows)
      | inl e ↦ elim (resize_data-grows r h (h.off + n) lawful page (ground (arith, e))) [
        | inr (g, resized, refused) ↦ (
          on_error g,
          false,
          rw (html_include, fine, opened, size, e, resized) refl,
          inr (on_error-Shows g, refused),
        )
        | inl (g, resized, paged, more, off_same, err_same, data_same) ↦
            let (g2, ok, runs, shows) =
              read_in-Written r g n f.read bytes (paged, err_same ∙ fine, data_same ∙ shown)
                (omega (arith, more, off_same)) in
            (
              g2,
              ok,
              rw (html_include, fine, opened, size, e, resized) runs,
              rw (opened, size) shows,
            )
      ]
    ]
  ]
]
