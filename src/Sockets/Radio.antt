-- ===== src/Sockets/Radio.antt =====
-- What the radio is set to, and what it has sent.
use bano.Base.{
  ℕ, ◌≡◌, ◌≢◌, refl, true, false, some, List, [], ◌∷◌, ◌++◌, ◌==◌, ==_refl, if◌then◌else◌, Bytes,
  take, arith, Bool-cases, Option-cases, inl, inr,
}
use bano.Dict.{take_mem}
use bano.Sockets.{Snrf, SnrfInfo, msg_size, set_keyvals, do_write, settings, opened, snrf_open}

-- What the library does in a call that succeeds: `value` is what the radio holds for a key, `sent`
-- the payloads that it has sent, each with the address set at that time. Nothing is said of a call that
-- fails.
pub record IsRadio {H : Type 0} (s : Snrf H) : Type 0 where
  pub value : H → ℕ → ℕ
  pub sent : H → List (ℕ × Bytes)
  pub set_value :
      (h : H) (k v j : ℕ)
      → (s.set_keyval h k v).1 ≡ true
      → value (s.set_keyval h k v).0 j ≡ (if j == k then v else value h j)
  pub set_sent :
      (h : H) (k v : ℕ) → (s.set_keyval h k v).1 ≡ true → sent (s.set_keyval h k v).0 ≡ sent h
  pub write_sent :
      (h : H) (m : Bytes)
      → (s.write_payload h m).1 ≡ true
      → sent (s.write_payload h m).0 ≡ sent h ++ (value h s.key_tx_addr, m) ∷ []

-- The last value that a list of settings has for a key, or the one before.
abbrev pub last_value : List (ℕ × ℕ) → ℕ → ℕ → ℕ
last_value [] j v = v
last_value ((k, x) ∷ kvs) j v = last_value kvs j (if j == k then x else v)

module _ {H : Type 0} (s : Snrf H) (r : IsRadio s) where
  set_keyvals-sent :
      (h : H) (kvs : List (ℕ × ℕ))
      → (set_keyvals s h kvs).1 ≡ true
      → r.sent (set_keyvals s h kvs).0 ≡ r.sent h
  unfolding set_keyvals
  set_keyvals-sent h [] e = refl
  set_keyvals-sent h ((k, v) ∷ kvs) e = elim (Bool-cases (s.set_keyval h k v).1) [
    | inl f ↦
        let rest = set_keyvals-sent (s.set_keyval h k v).0 kvs (rw f at e) in
        rw (f, rest) (r.set_sent h k v f)
    | inr f ↦ cc (rw f at e)
  ]

  set_keyvals-value :
      (h : H) (kvs : List (ℕ × ℕ)) (j : ℕ)
      → (set_keyvals s h kvs).1 ≡ true
      → r.value (set_keyvals s h kvs).0 j ≡ last_value kvs j (r.value h j)
  unfolding set_keyvals
  set_keyvals-value h [] j e = refl
  set_keyvals-value h ((k, v) ∷ kvs) j e = elim (Bool-cases (s.set_keyval h k v).1) [
    | inl f ↦
        let now = r.set_value h k v j f in
        let rest = set_keyvals-value (s.set_keyval h k v).0 kvs j (rw f at e) in
        rw (f, rest, now) refl
    | inr f ↦ cc (rw f at e)
  ]

  abbrev pub now_sent : H → ℕ → Bytes → List (ℕ × Bytes)
  now_sent h addr m = r.sent h ++ (addr, take msg_size m) ∷ []

  -- On a library for the radio in which a setting that succeeds sets its key, leaves the others
  -- and sends nothing, and a payload written with success is sent with the address set, with
  -- different keys for the state and for the address to send to: where `do_write` returns 0,
  -- exactly one payload has been sent, the first 17 bytes of the message, to the given address.
  pub do_write-sent :
      (h : H) (addr : ℕ) (m : Bytes)
      → s.key_tx_addr ≢ s.key_state
      → (do_write s h addr m).1 ≡ true
      → r.sent (do_write s h addr m).0 ≡ now_sent h addr m
  unfolding do_write
  do_write-sent h addr m ne done =
      let kvs : List (ℕ × ℕ) =
        (s.key_state, s.state_conf) ∷ (s.key_tx_addr, addr) ∷ (s.key_state, s.state_txrx) ∷ [] in
      let g : H = (set_keyvals s h kvs).0 in
      elim (Bool-cases (set_keyvals s h kvs).1) [
        | inr e ↦ cc (rw (do_write, e) at done)
        | inl e ↦
            let same : r.sent g ≡ r.sent h = set_keyvals-sent h kvs e in
            let differ : (s.key_tx_addr == s.key_state) ≡ false = ground (arith, ne) in
            let at_addr : r.value g s.key_tx_addr ≡ addr =
              rw (differ, ==_refl s.key_tx_addr) at (set_keyvals-value h kvs s.key_tx_addr e) in
            let wrote = r.write_sent g (take msg_size m) (rw (do_write, e) at done) in
            rw (do_write, e) (rw (same, at_addr) at wrote)
      ]

  -- On a library for the radio whose calls do what they say where they succeed, a radio that `bano_socket_snrf_open`
  -- has opened holds for each key the last value that was set for it, or the one from its opening.
  pub snrf_open-set :
      (mem left : ℕ) (si : SnrfInfo) (h : H) (j : ℕ)
      → snrf_open s mem si ≡ (left, opened h)
      → (g : H) × (s.open_with_path si.dev_path ≡ some g)
        × (r.value h j ≡ last_value (settings s si) j (r.value g j))
  unfolding snrf_open
  snrf_open-set mem left si h j e = elim (Option-cases (take_mem mem)) [
    | inl none_left ↦ cc (rw (snrf_open, none_left) at e)
    | inr (k, granted) ↦ elim (Option-cases (s.open_with_path si.dev_path)) [
      | inl no_path ↦ cc (rw (snrf_open, granted, no_path) at e)
      | inr (g, path) ↦
          let kvs = settings s si in
          elim (Bool-cases (set_keyvals s g kvs).1) [
            | inr stop ↦ cc (rw (snrf_open, granted, path, stop) at e)
            | inl all ↦
                let is_h : (set_keyvals s g kvs).0 ≡ h =
                  cc (rw (snrf_open, granted, path, all) at e) in
                (g, path, rw (← is_h) (set_keyvals-value g kvs j all))
          ]
    ]
  ]
