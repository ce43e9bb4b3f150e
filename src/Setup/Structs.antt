-- ===== src/Setup/Structs.antt =====
-- The structures of a configuration file, and the opening of a base, on what holds of the base.
use bano.Base.{
  Step, returns, out_of_fuel, undefined, ◌>>=◌, ℕ, ◌<◌, ◌^◌, ◌≡◌, refl, Bool, true, false, Option,
  none, some, List, [], ◌∷◌, ==_refl, if◌then◌else◌, Bytes, codes, set_bit, arith, Bool-cases,
  Option-cases, inl, inr,
}
use bano.Strings.{cmp_cstr}
use bano.Dict.{dict_init}
use bano.Nodl.{Nodl}
use bano.Parser.Outcome.{Outcome, done, failed, no_fuel}
use bano.Parser.Structs.{Struct, Pair}
use bano.Parser.Files.{Parser, load_file}
use bano.Config.{apply_each}
use bano.Config.Pairs.{NodeInfo, node_socket, apply_node_pair}
use bano.Config.Nodes.{IsNodeInfo, apply_node_pairs-IsNodeInfo}
use bano.Config.Station.{apply_base_pairs}
use bano.Config.Station.Keeps.{apply_base_pairs-IsStation}
use bano.Timers.{Mem}
use bano.Network.{BanoBase, add_node}
use bano.Sms.{SmsHandle, SmsLib, open_with_lib}
use bano.Sockets.{Snrf, type_invalid}
use bano.Setup.{
  Setup, Raw, station_of, base_struct, socket_struct, node_struct, httpd_struct, cam_struct,
  sms_struct, apply_struct, apply_structs, apply_conf, initial, with_sms, bano_open,
}
use bano.Setup.Pairs.{
  SocketPairs, apply_socket_pair, apply_httpd_pair, CamInfo, apply_cam_pair, SmsInfo,
  apply_sms_pair,
}
use bano.Setup.Attached.{is_in, nil-AreDistinct, add_node-Grows}
use bano.Config.Bounds.{both}
use bano.Setup.Opened.{
  IsSetup, Leaves, Leaves->>=, Leaves-if, with_mem, with_rest, base_Leaves, grown, List-cases,
  add_socket-Leaves, httpd_init-Leaves, finish,
}

-- The pairs of a node, from what memory holds before.
pub node_fits :
    (strtoul : Bytes → ℕ → ℕ) (n : NodeInfo) (ps : List Pair)
    → IsNodeInfo n
    → IsNodeInfo
        (apply_each (apply_node_pair strtoul) (record n { flags = set_bit node_socket 0 }) ps).0
node_fits strtoul n ps h = apply_node_pairs-IsNodeInfo strtoul _ ps (record {
  name_fits = h.name_fits;
  addr_fits = h.addr_fits;
  seed_fits = h.seed_fits;
  nodl_id_fits = h.nodl_id_fits;
})

module _ {H K : Type 0} (snrf : Snrf H) (server : Bytes → Bool) (cam : CamInfo → Bool)
    (sms : SmsLib K) (strtoul : Bytes → ℕ → ℕ) (mapped : Bytes → Option Bytes)
    (listing : Bytes → Option (List Bytes)) (fuel parser_mem : ℕ) (raw : Struct → Raw)
    (raw_fits : (s : Struct) → IsNodeInfo (raw s).node) where
  base_struct-Leaves :
      (st : Setup H) (s : Struct)
      → IsSetup snrf st
      → Leaves snrf
          (base_struct snrf server cam sms strtoul mapped listing fuel parser_mem raw st s)
  unfolding base_struct
  base_struct-Leaves st s h =
      base_Leaves snrf st
        (apply_base_pairs strtoul mapped listing fuel parser_mem (station_of st.base) s.pairs) h
        (λ c wrong.
          apply_base_pairs-IsStation strtoul mapped listing fuel parser_mem (station_of st.base) c
            s.pairs wrong h.station)

  socket_struct-Leaves :
      (st : Setup H) (s : Struct)
      → IsSetup snrf st
      → Leaves snrf
          (socket_struct snrf server cam sms strtoul mapped listing fuel parser_mem raw st s)
  unfolding socket_struct
  socket_struct-Leaves st s h =
      let init : SocketPairs = record {
        info = record { type_of = type_invalid; snrf = (raw s).snrf };
        mem = st.parser_mem;
      } in
      let r = apply_each (apply_socket_pair st.base.addr) init s.pairs in
      let k = with_rest snrf st r.0.mem st.is_httpd st.is_cam st.is_sms h in
      Leaves-if snrf r.1 _ _ k
        (Leaves->>= snrf _ _ (add_socket-Leaves snrf _ r.0.info k) (λ x g. g))

  node_struct-Leaves :
      (st : Setup H) (s : Struct)
      → IsSetup snrf st
      → Leaves snrf
          (node_struct snrf server cam sms strtoul mapped listing fuel parser_mem raw st s)
  unfolding node_struct
  node_struct-Leaves st s h = elim (List-cases st.base.sockets) [
    | inl empty ↦ rw (node_struct, empty) h
    | inr (q, qs, e) ↦
        let init : NodeInfo = record (raw s).node { flags = set_bit node_socket 0 } in
        let r = apply_each (apply_node_pair strtoul) init s.pairs in
        let fits : IsNodeInfo r.0 = node_fits strtoul (raw s).node s.pairs (raw_fits s) in
        let known : is_in q st.base.sockets ≡ true = rw (e, ==_refl q) refl in
        let g =
          grown snrf st q (add_node st.base r.0 q).0 h
            (add_node-Grows st.base r.0 q fits known h.attached h.distinct) in
        elim (Bool-cases r.1) [
          | inl w ↦ rw (node_struct, e, w) h
          | inr w ↦ rw (node_struct, e, w) g
        ]
  ]

  pub httpd_struct-Leaves :
      (st : Setup H) (s : Struct)
      → IsSetup snrf st
      → Leaves snrf
          (httpd_struct snrf server cam sms strtoul mapped listing fuel parser_mem raw st s)
  unfolding httpd_struct
  httpd_struct-Leaves st s h =
      let r = apply_each (apply_httpd_pair strtoul) (record (raw s).httpd { flags = 0 }) s.pairs in
      Leaves-if snrf r.1 _ _ h (
        Leaves->>= snrf _ _ (httpd_init-Leaves snrf server st (raw s).snrf r.0 h)
          (λ x g. started x g))
    where
      started :
          (x : Setup H × Bool)
          → IsSetup snrf x.0
          → IsSetup snrf (if x.1 then record x.0 { is_httpd = true } else x.0)
      started (c, true) g = with_rest snrf c c.parser_mem true c.is_cam c.is_sms g
      started (c, false) g = g

  cam_struct-Leaves :
      (st : Setup H) (s : Struct)
      → IsSetup snrf st
      → Leaves snrf (cam_struct snrf server cam sms strtoul mapped listing fuel parser_mem raw st s)
  unfolding cam_struct
  cam_struct-Leaves st s h =
      let r = apply_each (apply_cam_pair strtoul) (record (raw s).cam { flags = 0 }) s.pairs in
      let on = with_rest snrf st st.parser_mem st.is_httpd true st.is_sms h in
      elim (Bool-cases r.1) [
        | inl e ↦ rw (cam_struct, e) h
        | inr e ↦ elim (Bool-cases (cam r.0)) [
          | inl f ↦ rw (cam_struct, e, f) on
          | inr f ↦ rw (cam_struct, e, f) h
        ]
      ]

  sms_struct-Leaves :
      (st : Setup H) (s : Struct)
      → IsSetup snrf st
      → Leaves snrf (sms_struct snrf server cam sms strtoul mapped listing fuel parser_mem raw st s)
  unfolding sms_struct
  sms_struct-Leaves st s h =
      let init : SmsInfo = record {
        addr = none;
        port = none;
        creds = (raw s).creds;
        mem = st.base.mem.left;
      } in
      let r = apply_each (apply_sms_pair strtoul) init s.pairs in
      let m : Mem = record st.base.mem { left = r.0.mem } in
      let k = with_mem snrf st m (omega arith) h in
      let b : BanoBase = record st.base { mem = m } in
      Leaves-if snrf r.1 _ _ k (opened_Leaves (record st { base = b }) (open_with_lib sms r.0) k)
    where
      opened_Leaves :
          (left : Setup H) (run : Step (Option (SmsHandle K)))
          → IsSetup snrf left
          → Leaves snrf (
              run >>= λ o. elim o as (λ _. Step (Setup H × Bool)) [
                | none ↦ returns (left, true)
                | some handle ↦ returns (with_sms snrf left handle, false)
              ])
      opened_Leaves left (returns none) k = k
      opened_Leaves left (returns (some handle)) k = record {
        station = record { handled = k.station.handled; addr_fits = k.station.addr_fits };
        open_sockets = k.open_sockets;
        attached = k.attached;
        no_timers = k.no_timers;
        distinct = k.distinct;
      }
      opened_Leaves left out_of_fuel k = tt
      opened_Leaves left undefined k = tt

  apply_struct-Leaves :
      (st : Setup H) (s : Struct)
      → IsSetup snrf st
      → Leaves snrf
          (apply_struct snrf server cam sms strtoul mapped listing fuel parser_mem raw st s)
  unfolding apply_struct
  apply_struct-Leaves st s h =
      let is = λ (name : Bytes). cmp_cstr s.name name in
      both (Leaves snrf) (is (codes "base")) (base_struct-Leaves st s h) (
        both (Leaves snrf) (is (codes "socket")) (socket_struct-Leaves st s h) (
          both (Leaves snrf) (is (codes "node")) (node_struct-Leaves st s h) (
            both (Leaves snrf) (is (codes "http_server")) (httpd_struct-Leaves st s h) (
              both (Leaves snrf) (is (codes "cam")) (cam_struct-Leaves st s h)
                (both (Leaves snrf) (is (codes "sms")) (sms_struct-Leaves st s h) h)))))

  apply_structs-Leaves :
      (st : Setup H) (ss : List Struct)
      → IsSetup snrf st
      → Leaves snrf
          (apply_structs snrf server cam sms strtoul mapped listing fuel parser_mem raw st ss)
  unfolding apply_structs
  apply_structs-Leaves st [] h = h
  apply_structs-Leaves st (s ∷ ss) h =
      Leaves->>= snrf _ _ (apply_struct-Leaves st s h)
        (λ r k. Leaves-if snrf r.1 _ _ k (apply_structs-Leaves r.0 ss k))

  abbrev pub open_with : Mem → (flags : ℕ) → Option ℕ → Option Bytes → Bytes → Step (Setup H × Bool)
  open_with = bano_open snrf server cam sms strtoul mapped listing fuel parser_mem raw

  conf_Leaves :
      (st : Setup H) (o : Outcome Parser)
      → IsSetup snrf st
      → Leaves snrf (elim o as (λ _. Step (Setup H × Bool)) [
        | done p ↦
            apply_structs snrf server cam sms strtoul mapped listing fuel parser_mem raw
              (record st { parser_mem = p.mem })
              p.structs
        | failed ↦ returns (st, true)
        | no_fuel ↦ out_of_fuel
      ])
  conf_Leaves st (done p) h =
      apply_structs-Leaves _ p.structs (with_rest snrf st p.mem st.is_httpd st.is_cam st.is_sms h)
  conf_Leaves st failed h = h
  conf_Leaves st no_fuel h = tt

  conf-Leaves :
      (st : Setup H) (path : Bytes)
      → IsSetup snrf st
      → Leaves snrf
          (apply_conf snrf server cam sms strtoul mapped listing fuel parser_mem raw st path)
  unfolding apply_conf
  conf-Leaves st path h = conf_Leaves st (load_file mapped fuel parser_mem path) h

  finish-IsSetup :
      (run : Step (Setup H × Bool)) (st : Setup H)
      → Leaves snrf run
      → (run >>= finish snrf) ≡ returns (st, true)
      → IsSetup snrf st
  finish-IsSetup (returns (next, true)) st h e = cc e
  finish-IsSetup (returns (next, false)) st h e = let same : next ≡ st = cc e in rw (← same) h
  finish-IsSetup out_of_fuel st h e = cc e
  finish-IsSetup undefined st h e = cc e

  -- From any file, where `bano_open` returns 0 the base has a cipher that is handled and an
  -- address of 32 bits, if the one given has; each of its sockets is that of the web server, or a
  -- radio that the library has opened and on which all settings of a structure have succeeded, and
  -- which has not been closed; and each of its nodes has a description and no request, is attached
  -- to one of its sockets, and has a name and an address that fit, if those in uninitialized
  -- memory do; no timer runs, and the nodes have addresses in memory that is not free, no two the
  -- same.
  pub bano_open-IsSetup :
      (m : Mem) (flags : ℕ) (addr : Option ℕ) (conf_path : Option Bytes) (key : Bytes)
      (st : Setup H)
      → ((a : ℕ) → addr ≡ some a → a < 2 ^ 32)
      → open_with m flags addr conf_path key ≡ returns (st, true)
      → IsSetup snrf st
  unfolding bano_open apply_conf
  bano_open-IsSetup m flags addr conf_path key st small e =
      elim (Option-cases (dict_init {V = Nodl} m.left)) [
        | inl full ↦ cc (rw (bano_open, full) at e)
        | inr ((left, nodls), made) ↦
            let start : Setup H = initial snrf (record m { left = left }) flags addr nodls key in
            let fits : start.base.addr < 2 ^ 32 = elim (Option-cases addr) [
              | inl unset ↦ rw unset (omega arith)
              | inr (a, given) ↦ rw given (small a given)
            ] in
            let h : IsSetup snrf start = record {
              station = record { handled = λ f. cc; addr_fits = fits };
              open_sockets = tt;
              attached = tt;
              no_timers = refl;
              distinct = nil-AreDistinct m.fresh;
            } in
            elim (Option-cases conf_path) [
              | inl plain ↦
                  let same : start ≡ st = cc (rw (bano_open, made, plain) at e) in rw (← same) h
              | inr (path, conf) ↦
                  finish-IsSetup _ st (conf-Leaves start path h) (rw (bano_open, made, conf) at e)
            ]
      ]
