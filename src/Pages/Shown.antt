-- ===== src/Pages/Shown.antt =====
-- What the web server sends for a request that is complete.
use bano.Base.{
  ℕ, ◌≡◌, refl, ◌⊎◌, inl, inr, Option, none, some, List, [], ◌∷◌, Bytes, arith, length, length-take,
  ap₂, if◌then◌else◌,
}
use bano.Html.{Html, Realloc, File, html_init, html_data}
use bano.Html.Content.{
  IsRealloc, Shows, Refused, append, file_text, Written, html_printf-Written, html_include-Written,
}
use bano.Network.{Node, err_failure}
use bano.Pages.{
  Write, print, style, base_writes, write_one, write_all, gen_base_html, html, Reply,
  httpd_complete_msg, plain_compl, complete_httpd_msg,
}

-- The text of a page, one write behind the other; none where a file is not read.
abbrev pub text_of : Write → Option Bytes
text_of (print text) = some text
text_of (style f) = file_text f

abbrev pub page_text : Option Bytes → List Write → Option Bytes
page_text p [] = p
page_text p (w ∷ ws) = page_text (append p (text_of w)) ws

page_text-none : (ws : List Write) → page_text none ws ≡ none
page_text-none [] = refl
page_text-none (w ∷ ws) = page_text-none ws

failed_page : (g : Html) (ws : List Write) → Shows g (page_text none ws) → Shows g none
failed_page g ws shown = rw (page_text-none ws) at shown

write_one-Written :
    (r : Realloc) (h : Html) (p : Option Bytes) (w : Write)
    → IsRealloc r
    → Shows h p
    → Written r (write_one r h w) (append p (text_of w))
unfolding write_one
write_one-Written r h p (print text) lawful shows =
    html_printf-Written r h p (some text) lawful shows
write_one-Written r h p (style f) lawful shows = html_include-Written r h p f lawful shows

-- The writes never fault, and the page has all of their texts, unless `realloc` has refused.
write_all-Shows :
    (r : Realloc) (h : Html) (p : Option Bytes) (ws : List Write)
    → IsRealloc r
    → Shows h p
    → (g : Html) × (write_all r h ws ≡ some g)
      × (Shows g (page_text p ws) ⊎ (Shows g none × Refused r))
unfolding write_all
write_all-Shows r h p [] lawful shows = (h, refl, inl shows)
write_all-Shows r h p (w ∷ ws) lawful shows =
    let (g, ok, runs, result) = write_one-Written r h p w lawful shows in
    elim result [
      | inl shown ↦
          let (g2, more, last) = write_all-Shows r g (append p (text_of w)) ws lawful shown in
          (g2, rw (write_all, runs) more, last)
      | inr (failed, refused) ↦
          let (g2, more, last) = write_all-Shows r g none ws lawful failed in
          (
            g2,
            rw (write_all, runs) more,
            inr (elim last [
              | inl shown ↦ (failed_page g2 ws shown, refused)
              | inr (shown, _) ↦ (shown, refused)
            ]),
          )
    ]

html_init-Shows : Shows html_init (some [])
unfolding html_init html_data
html_init-Shows = ((refl, omega arith), refl, refl)

-- The reply in the format HTML: the whole page, with its size, or the error of a page that failed.
abbrev pub reply_of : Option Bytes → Reply
reply_of (some text) = httpd_complete_msg html text (length text)
reply_of none = plain_compl err_failure 0

shown_reply :
    (h : Html) (p : Option Bytes)
    → Shows h p
    → some (
        if h.is_err then plain_compl err_failure 0 else httpd_complete_msg html (html_data h) h.off)
      ≡ some (reply_of p)
unfolding html_data
shown_reply h none (page, bad, empty) = rw bad refl
shown_reply h (some text) ((sized, within), fine, shown) =
    let size : h.off ≡ length text =
      rw (← shown) (omega (arith, length-take h.off h.data_block, sized, within)) in
    simp fine (ap₂ (λ body n. some (httpd_complete_msg html body n)) shown size)

-- For a request in the format HTML, where every node that is shown has memory for its values and
-- `realloc` keeps what a block holds: the reply is the page with all texts written, one behind the
-- other, and its size, or, where the file of styles is not read or `realloc` has refused, the
-- failure in the format of plain text.
pub complete_httpd_msg-page :
    (r : Realloc) (css : File) (tm_now : ℕ) (nodes : List Node) (compl_err compl_val : ℕ)
    (ws : List Write)
    → IsRealloc r
    → base_writes css tm_now nodes compl_err compl_val ≡ some ws
    → (complete_httpd_msg r css tm_now nodes html compl_err compl_val
        ≡ some (reply_of (page_text (some []) ws)))
      ⊎ ((complete_httpd_msg r css tm_now nodes html compl_err compl_val
            ≡ some (plain_compl err_failure 0))
          × Refused r)
unfolding complete_httpd_msg gen_base_html
complete_httpd_msg-page r css tm_now nodes compl_err compl_val ws lawful e =
    let (h, runs, last) = write_all-Shows r html_init (some []) ws lawful html_init-Shows in
    elim last [
      | inl shown ↦ inl (
          rw (complete_httpd_msg, gen_base_html, e, runs)
            (shown_reply h (page_text (some []) ws) shown))
      | inr ((page, bad, _), refused) ↦
          inr (rw (complete_httpd_msg, gen_base_html, e, runs, bad) refl, refused)
    ]
