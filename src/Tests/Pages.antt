-- ===== src/Tests/Pages.antt =====
-- A page of one node with one key, in blocks that are filled up with zeros.
use bano.Base.{
  false, ◌++◌, ℕ, suc, zero, ◌≡◌, ◌≤◌, ◌<◌, refl, ap, ◌⊎◌, true, some, List, [], ◌∷◌, Bytes, length,
  take, codes, arith, ◌*◌, ◌-◌, ◌/◌, ◌%◌, ◌^◌, ◌==◌, ltb, if◌then◌else◌, drop, append_assoc, ◌+◌,
}
use bano.Nodl.{Keyval}
use bano.Dict.{Dict}
use bano.Config.Pairs.{node_name}
use bano.Network.{Node, NodeVal, err_failure}
use bano.Html.{Realloc, File}
use bano.Html.Content.{IsRealloc, Refused}
use bano.Pages.{
  Write, html, base_writes, complete_httpd_msg, plain_compl, format_time, gen_node_html,
  gen_pair_html, each,
}
use bano.Pages.Shown.{page_text, reply_of, complete_httpd_msg-page}
use bano.Pages.{digit, hex}
use bano.Pages.Requests.{same, on_request, ReadsHex, on_request-form}

abbrev fill : ℕ → Bytes → Bytes
fill zero xs = []
fill (suc n) [] = 0 ∷ fill n []
fill (suc n) (x ∷ xs) = x ∷ fill n xs

length-fill : (n : ℕ) (xs : Bytes) → length (fill n xs) ≡ n
length-fill zero xs = refl
length-fill (suc n) [] = ap suc (length-fill n [])
length-fill (suc n) (x ∷ xs) = ap suc (length-fill n xs)

take-fill : (n : ℕ) (xs : Bytes) → length xs ≤ n → take (length xs) (fill n xs) ≡ xs
take-fill zero [] l = refl
take-fill zero (x ∷ xs) l = absurd (omega arith)
take-fill (suc n) [] l = refl
take-fill (suc n) (x ∷ xs) l = ap (◌∷◌ x) (take-fill n xs (omega arith))

abbrev granting : Realloc
granting block n = some (fill n block)

granting-IsRealloc : IsRealloc granting
granting-IsRealloc block n grown e l =
    let same : fill n block ≡ grown = cc e in rw (← same) (length-fill n block, take-fill n block l)

abbrev css : File
css = record { is_open = true; st_size = some 2; read = some (97 ∷ 98 ∷ []) }

abbrev door : Keyval
door = record { flags = 0; name = codes "door"; key = 1 }

abbrev values : Dict NodeVal
values = record {
  lists = (record { key = 1; val = record { val = 3; mtime = 5 } } ∷ []) ∷ [];
  log2_nlist = 0;
}

abbrev node : Node
node = record {
  at = 1;
  flags = 2 ^ node_name;
  addr = 9;
  name = codes "hall";
  socket = 2;
  nodl = some (record { lists = (record { key = 1; val = door } ∷ []) ∷ []; log2_nlist = 0 });
  posted_ios = [];
  pending_ios = [];
  keyval_pairs = some values;
}

written : (ws : List Write) × (base_writes css 70 (node ∷ []) 0 3 ≡ some ws)
unfolding base_writes gen_node_html gen_pair_html each
written = (_, refl)

complete_httpd_msg-page_example :
    (complete_httpd_msg granting css 70 (node ∷ []) html 0 3
      ≡ some (reply_of (page_text (some []) written.0)))
    ⊎ ((complete_httpd_msg granting css 70 (node ∷ []) html 0 3 ≡ some (plain_compl err_failure 0))
        × Refused granting)
complete_httpd_msg-page_example =
    complete_httpd_msg-page granting css 70 (node ∷ []) 0 3 written.0 granting-IsRealloc written.1

two_hours : format_time 7300 100 ≡ codes "2 h"
unfolding format_time
two_hours = refl

-- A `strtoul` that reads hexadecimal digits up to a NUL behind the first two bytes.
abbrev of_digit : ℕ → ℕ
of_digit c = if ltb c 58 then c - 48 else c - 87

abbrev read_digits : ℕ → Bytes → ℕ
read_digits n [] = n
read_digits n (c ∷ cs) =
    let rest : ℕ = read_digits (n * 16 + of_digit c) cs in if c == 0 then n else rest

of_digit-digit : (d : ℕ) → d < 16 → (of_digit (digit d) ≡ d) × ((digit d == 0) ≡ false)
of_digit-digit d l = ground (arith, l)

digits_of :
    (w : ℕ)
    → (n : ℕ) → (rest : Bytes) → n < 16 ^ w
    → read_digits 0 (hex w n ++ rest) ≡ read_digits n rest
digits_of zero n rest l = ap (λ k. read_digits k rest) (omega (arith, l))
digits_of (suc w) n rest l =
    let (value, nonzero) = of_digit-digit (n % 16) (omega arith) in
    let power : 16 ^ suc w ≡ 16 * 16 ^ w = grind arith in
    rw
      (
        append_assoc (hex w (n / 16)) (digit (n % 16) ∷ []) rest,
        digits_of w (n / 16) (digit (n % 16) ∷ rest) (omega (arith, l, power)),
        nonzero,
        value,
      )
      (ap (λ k. read_digits k rest) (omega arith))

-- The variables of a form.
abbrev vars : Bytes → Bytes
vars name =
    if same name (codes "naddr")
    then codes "0x" ++ hex 8 9
    else if same name (codes "key")
    then codes "0x" ++ hex 4 1
    else codes "0x" ++ hex 8 3

abbrev hex_strtoul : Bytes → ℕ → ℕ
hex_strtoul buf base = read_digits 0 (drop 2 buf)

hex_strtoul-ReadsHex : ReadsHex hex_strtoul vars
hex_strtoul-ReadsHex w n short l = digits_of w n (0 ∷ []) l

on_request-form_example :
    ((on_request hex_strtoul vars).0.naddr ≡ 9)
    × ((on_request hex_strtoul vars).0.key ≡ 1)
    × ((on_request hex_strtoul vars).0.val ≡ 3)
on_request-form_example =
    on_request-form hex_strtoul vars 9 1 3 hex_strtoul-ReadsHex (omega arith) (omega arith)
      (omega arith) refl refl refl
