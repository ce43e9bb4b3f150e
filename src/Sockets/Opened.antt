-- ===== src/Sockets/Opened.antt =====
-- The sockets that `bano_socket_alloc` of src/base/bano_socket.c opens.
use bano.Base.{ℕ, ◌≡◌, refl, true, some, Bool-cases, Option-cases, inl, inr}
use bano.Dict.{take_mem}
use bano.Sockets.{
  Snrf, SnrfInfo, SocketInfo, SocketType, type_snrf, type_httpd, type_invalid, Socket, radio, httpd,
  set_keyvals, settings, Opening, opened, refused, closed, snrf_open, httpd_open, socket_alloc,
}

-- A radio that the library has opened and on which all settings have succeeded, and nothing since, or
-- the socket of the web server
pub data IsOpen {H : Type 0} (s : Snrf H) : Socket H → Type 0 where
  radio_open :
      (si : SnrfInfo) (g h : H)
      → s.open_with_path si.dev_path ≡ some g
      → set_keyvals s g (settings s si) ≡ (h, true)
      → IsOpen s (radio h)
  httpd_opened : IsOpen s httpd

module _ {H : Type 0} (s : Snrf H) where
  snrf_open-IsOpen :
      (mem left : ℕ) (si : SnrfInfo) (h : H)
      → snrf_open s mem si ≡ (left, opened h)
      → IsOpen s (radio h)
  unfolding snrf_open
  snrf_open-IsOpen mem left si h e = elim (Option-cases (take_mem mem)) [
    | inl full ↦ cc (rw (snrf_open, full) at e)
    | inr (k, granted) ↦ elim (Option-cases (s.open_with_path si.dev_path)) [
      | inl no_path ↦ cc (rw (snrf_open, granted, no_path) at e)
      | inr (g, path) ↦ elim (Bool-cases (set_keyvals s g (settings s si)).1) [
        | inr stop ↦ cc (rw (snrf_open, granted, path, stop) at e)
        | inl all ↦
            let is_h : (set_keyvals s g (settings s si)).0 ≡ h =
              cc (rw (snrf_open, granted, path, all) at e) in
            radio_open si g h path (λ i. (is_h i, all i))
      ]
    ]
  ]

  -- Whatever memory is left, a socket that is made is open.
  pub socket_alloc-IsOpen :
      (mem : ℕ) (info : SocketInfo) (c : Socket H)
      → (socket_alloc s mem info).1 ≡ some c
      → IsOpen s c
  unfolding socket_alloc
  socket_alloc-IsOpen mem info c e = elim (Option-cases (take_mem mem)) [
    | inl full ↦ cc (rw (socket_alloc, full) at e)
    | inr (left, granted) ↦ by_type left granted info.type_of refl
  ]
    where
      by_type :
          (left : ℕ) → take_mem mem ≡ some left → (t : SocketType) → info.type_of ≡ t → IsOpen s c
      by_type left granted type_invalid is_t = cc (rw (socket_alloc, granted, is_t) at e)
      by_type left granted type_httpd is_t = elim (Option-cases (httpd_open s left)) [
        | inl full ↦ cc (rw (socket_alloc, granted, is_t, full) at e)
        | inr (last, done) ↦
            let is_c : httpd ≡ c = cc (rw (socket_alloc, granted, is_t, done) at e) in
            rw (← is_c) httpd_opened
      ]
      by_type left granted type_snrf is_t = by_radio (snrf_open s left info.snrf) refl
        where
          by_radio : (r : ℕ × Opening H) → snrf_open s left info.snrf ≡ r → IsOpen s c
          by_radio (last, opened h) run =
              let is_c : radio h ≡ c = cc (rw (socket_alloc, granted, is_t, run) at e) in
              rw (← is_c) (snrf_open-IsOpen left last info.snrf h run)
          by_radio (last, refused) run = cc (rw (socket_alloc, granted, is_t, run) at e)
          by_radio (last, closed h) run = cc (rw (socket_alloc, granted, is_t, run) at e)
