-- ===== src/Pages.antt =====
-- The pages of src/base/bano_base.c for the web server, as it is built without a camera. The calls that
-- fill a page are the list of what they write, in their order; none of them looks at what another
-- returned. The file ./conf/bano.css, the time and `realloc` are parameters.
pub mod Shown
pub mod Buffers
pub mod Requests
use bano.Base.{
  ℕ, suc, zero, ◌+◌, ◌-◌, ◌*◌, ◌/◌, ◌%◌, Bool, true, false, ◌||◌, Option, none, some, List, [], ◌∷◌,
  ◌++◌, if◌then◌else◌, ltb, leb, ◌==◌, length, Bytes, codes, has_bit,
}
use Prim.Native.String.{String}
use bano.Dict.{DictPair, dict_get}
use bano.Nodl.{Keyval, base_dec, flag_mtime, flag_get, flag_set, flag_rst, flag_ack}
use bano.Config.Pairs.{node_name}
use bano.Network.{Node, NodeVal, err_failure}
use bano.Html.{Html, Realloc, File, html_init, html_printf, html_include, html_data}

-- A digit of `%x`, and `%0wx` for a number of at most `w` digits.
abbrev pub digit : ℕ → ℕ
digit d = if ltb d 10 then 48 + d else 87 + d

abbrev pub hex : ℕ → ℕ → Bytes
hex zero n = []
hex (suc w) n = hex w (n / 16) ++ digit (n % 16) ∷ []

-- `%u` and `%lu`, for a number of at most `w` digits
abbrev pub dec : ℕ → ℕ → Bytes
dec zero n = []
dec (suc w) n =
    let front : Bytes = dec w (n / 10) in (if ltb n 10 then [] else front) ++ (48 + n % 10) ∷ []

-- `format_time`, with what it puts in `buf` before the NUL
unfoldable pub format_time : (tm_now tm_mod : ℕ) → Bytes
format_time tm_now tm_mod =
    let d : ℕ = if leb tm_now tm_mod then 0 else tm_now - tm_mod in
    if ltb 86400 d
    then dec 20 (d / 86400) ++ codes " d"
    else if ltb 3600 d
    then dec 20 (d / 3600) ++ codes " h"
    else if ltb 60 d
    then dec 20 (d / 60) ++ codes " m"
    else dec 20 d ++ codes " s"

-- A call of `bano_html_printf`, with its text, or of `bano_html_include`.
pub data Write : Type 0 where
  print : Bytes → Write
  style : File → Write

abbrev pub line : String → Write
line s = print (codes s ++ 10 ∷ [])

abbrev pub one_if : Bool → Write → List Write
one_if true w = w ∷ []
one_if false w = []

abbrev pub bit : Bool → Bytes
bit true = codes "1"
bit false = codes "0"

abbrev pub val_text : Keyval → ℕ → Bytes
val_text kv v = if has_bit base_dec kv.flags then dec 10 v else codes "0x" ++ hex 8 v

-- The value and the time that `gen_pair_html` shows for a key.
unfoldable pub shown_val : Option NodeVal → ℕ
shown_val none = 4294967295
shown_val (some v) = v.val

unfoldable pub shown_mtime : (tm_now : ℕ) → Keyval → Option NodeVal → Bytes
shown_mtime tm_now kv none = codes "na"
shown_mtime tm_now kv (some v) =
    if has_bit flag_mtime kv.flags then format_time tm_now v.mtime else codes "na"

-- The post form, and the form for a variable that is only read.
unfoldable pub post_form : (naddr : ℕ) → Keyval → (mtime val : Bytes) → List Write
post_form naddr kv mtime val =
    print (
      codes "<form action='/?naddr=0x"
      ++ hex 8 naddr
      ++ codes "&key=0x"
      ++ hex 4 kv.key
      ++ codes "&is_ack="
      ++ bit (has_bit flag_ack kv.flags)
      ++ codes "' method='post'>"
      ++ 10 ∷ [])
    ∷ print (codes "<div class='bano_mtime'> " ++ mtime ++ codes " </div>" ++ 10 ∷ [])
    ∷ print (codes "<div class='bano_key'> " ++ kv.name ++ codes " </div>")
    ∷ print (codes "<input type='text' name='val' value='")
    ∷ print val
    ∷ line "' />"
    ∷ (one_if (has_bit flag_set kv.flags) (line "<input type='submit' name='op' value='set' />")
        ++ one_if (has_bit flag_get kv.flags) (line "<input type='submit' name='op' value='get' />")
        ++ one_if (has_bit flag_rst kv.flags) (line "<input type='submit' name='op' value='rst' />")
        ++ line "</form>" ∷ [])

unfoldable pub readonly_form : Keyval → (mtime val : Bytes) → List Write
readonly_form kv mtime val =
    print (codes "<div class='bano_mtime'> " ++ mtime ++ codes " </div>" ++ 10 ∷ [])
    ∷ print (codes "<div class='bano_key'> " ++ kv.name ++ codes " </div>" ++ 10 ∷ [])
    ∷ print (codes "<div class='bano_val'> ")
    ∷ print val
    ∷ line " </div>"
    ∷ line "<br/>"
    ∷ []

-- A node whose dictionary has no memory is one that C reads undefined.
unfoldable pub gen_pair_html : (tm_now : ℕ) → Node → Keyval → Option (List Write)
gen_pair_html tm_now n kv = elim (n.keyval_pairs) [
  | none ↦ none
  | some d ↦
      let v : Option NodeVal = dict_get d kv.key in
      let mtime : Bytes = shown_mtime tm_now kv v in
      let val : Bytes = val_text kv (shown_val v) in
      let form : List Write = post_form n.addr kv mtime val in
      let plain : List Write = readonly_form kv mtime val in
      let posts : Bool =
        has_bit flag_set kv.flags || has_bit flag_get kv.flags || has_bit flag_rst kv.flags in
      some (if posts then form else plain)
]

-- `bano_list_foreach` with a function that writes
unfoldable pub each : {A : Type 0} → (A → Option (List Write)) → List A → Option (List Write)
each f [] = some []
each f (x ∷ xs) =
    let rest : Option (List Write) = each f xs in
    elim (f x) [
      | none ↦ none
      | some first ↦ elim rest [ none ↦ none | some more ↦ some (first ++ more) ]
    ]

-- `bano_node_get_name`
abbrev pub node_get_name : Node → Bytes
node_get_name n = if has_bit node_name n.flags then n.name else codes "none"

unfoldable pub gen_node_html : (tm_now : ℕ) → Node → Option (List Write)
gen_node_html tm_now n =
    let front : List Write =
      line "<div class='bano_box bano_node'>"
      ∷ print (codes "<div class='bano_mtime'> na </div>")
      ∷ print (codes "<div class='bano_key'> name </div>")
      ∷ print (codes "<div class='bano_val'> " ++ node_get_name n ++ codes " </div>")
      ∷ line "<br/>"
      ∷ print (codes "<div class='bano_mtime'> na </div>")
      ∷ print (codes "<div class='bano_key'> address </div>")
      ∷ print (codes "<div class='bano_val'> 0x" ++ hex 8 n.addr ++ codes " </div>")
      ∷ line "<br/>"
      ∷ [] in
    let back : List Write = line "</div>" ∷ line "<br/>" ∷ [] in
    elim (n.nodl) [
      | none ↦ some (front ++ back)
      | some nodl ↦
          elim (each (λ (l : List (DictPair Keyval)). each (λ p. gen_pair_html tm_now n p.val) l)
            nodl.lists) [ none ↦ none | some pairs ↦ some (front ++ pairs ++ back) ]
    ]

abbrev pub status : ℕ → Bytes
status zero = codes "success"
status (suc e) = codes "error"

-- What `gen_base_html` writes behind `bano_html_init`.
unfoldable pub base_writes :
    File → (tm_now : ℕ) → List Node → (compl_err compl_val : ℕ) → Option (List Write)
base_writes css tm_now nodes compl_err compl_val = elim (each (gen_node_html tm_now) nodes) [
  | none ↦ none
  | some shown ↦ some (
      line "<html><body>"
      ∷ line "<style media='screen' type='text/css'>"
      ∷ style css
      ∷ line "</style>"
      ∷ (shown
          ++ line "<div class='bano_box bano_refresh'>"
            ∷ line "<form action='/' method='get'>"
            ∷ line "<input type='submit' value='refresh' />"
            ∷ line "</form>"
            ∷ line "</div>"
            ∷ line "<br/>"
            ∷ print (
                codes "<div class='bano_box bano_status bano_status_"
                ++ status compl_err
                ++ codes "'>"
                ++ 10 ∷ [])
            ∷ print (
                codes "status: "
                ++ status compl_err
                ++ codes " (0x"
                ++ hex 8 compl_err
                ++ codes ", 0x"
                ++ hex 8 compl_val
                ++ codes ")"
                ++ 10 ∷ [])
            ∷ line "</div>"
            ∷ line "</body></html>"
            ∷ []))
]

unfoldable pub write_one : Realloc → Html → Write → Option (Html × Bool)
write_one r h (print text) = html_printf r h (some text)
write_one r h (style f) = html_include r h f

unfoldable pub write_all : Realloc → Html → List Write → Option Html
write_all r h [] = some h
write_all r h (w ∷ ws) = elim (write_one r h w) [ none ↦ none | some (g, ok) ↦ write_all r g ws ]

unfoldable pub gen_base_html :
    Realloc → File → (tm_now : ℕ) → List Node → (compl_err compl_val : ℕ) → Option Html
gen_base_html r css tm_now nodes compl_err compl_val =
    elim (base_writes css tm_now nodes compl_err compl_val) [
      | none ↦ none
      | some ws ↦ write_all r html_init ws
    ]

-- `BANO_HTTPD_MSG_FMT_xxx`
pub data Fmt : Type 0 where
  plain_text html : Fmt

-- What `bano_httpd_complete_msg` sends: the headers for the type and the size, and the data.
pub record Reply : Type 0 where
  pub content_type : Bytes
  pub content_length : Bytes
  pub body : Bytes

unfoldable pub httpd_complete_msg : Fmt → (page : Bytes) → (size : ℕ) → Reply
httpd_complete_msg plain_text page size = record {
  content_type = codes "text/plain";
  content_length = dec 20 size;
  body = page;
}
httpd_complete_msg html page size = record {
  content_type = codes "text/html";
  content_length = dec 20 size;
  body = page;
}

-- From the label `on_plain_compl` on
unfoldable pub plain_compl : (compl_err compl_val : ℕ) → Reply
plain_compl compl_err compl_val =
    let text : Bytes = codes "0x" ++ hex 8 compl_err ++ codes ", 0x" ++ hex 8 compl_val in
    httpd_complete_msg plain_text text (length text)

unfoldable pub complete_httpd_msg :
    Realloc → File → (tm_now : ℕ) → List Node → Fmt → (compl_err compl_val : ℕ) → Option Reply
complete_httpd_msg r css tm_now nodes plain_text compl_err compl_val =
    some (plain_compl compl_err compl_val)
complete_httpd_msg r css tm_now nodes html compl_err compl_val =
    elim (gen_base_html r css tm_now nodes compl_err compl_val) [
      | none ↦ none
      | some h ↦ some (
          if h.is_err
          then plain_compl err_failure 0
          else httpd_complete_msg html (html_data h) h.off)
    ]
