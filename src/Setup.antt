-- ===== src/Setup.antt =====
-- How src/base/bano_base.c sets a base up: `apply_struct`, `apply_conf`, `bano_open`, `bano_close`
-- and what they call, as built with the web server, the camera and text messages. The library for
-- the radio is a parameter, as in Sockets; whether the web server and the camera start is one
-- each, and so is what the library for text messages gives. What memory holds before it is written to is `Raw`.
pub mod Pairs
pub mod Attached
pub mod Opened
pub mod Structs
pub mod Ports
pub mod Started
use bano.Base.{
  Step, returns, out_of_fuel, undefined, ◌>>=◌, ℕ, ◌+◌, ◌-◌, ◌^◌, Bool, true, false, not, Option,
  none, some, List, [], ◌∷◌, ◌++◌, if◌then◌else◌, ltb, Bytes, codes, has_bit, set_bit,
}
use bano.Items.{Ptr}
use bano.Strings.{BanoString, cmp_cstr}
use bano.Parser.Outcome.{Outcome, done, failed, no_fuel}
use bano.Parser.Structs.{Struct}
use bano.Parser.Files.{Parser, load_file}
use bano.Dict.{Dict, dict_init, take_mem}
use bano.Cipher.{Cipher, alg_none}
use bano.Nodl.{Nodl}
use bano.Config.{apply_each}
use bano.Config.Pairs.{NodeInfo, node_socket, apply_node_pair}
use bano.Config.Station.{Station, apply_base_pairs, default_base_addr}
use bano.Timers.{Mem, timer_init}
use bano.Network.{Io, BanoBase, add_node}
use bano.Pages.{dec}
use bano.Sockets.{
  Snrf, SnrfInfo, SocketInfo, type_httpd, type_invalid, Socket, socket_alloc, socket_close,
}
use bano.Sms.{SmsHandle, SmsLib, open_with_lib}
use bano.Setup.Pairs.{
  SocketPairs, apply_socket_pair, HttpdInfo, httpd_port, apply_httpd_pair, CamInfo, apply_cam_pair,
  SmsInfo, apply_sms_pair,
}

-- A base with its sockets at their addresses, and which of its servers run, as `is_httpd`, `is_cam` and
-- `is_sms` say. `parser_mem` is the memory left for the parser's copies of strings.
pub record Setup (H : Type 0) : Type 0 where
  pub base : BanoBase
  pub devices : List (Ptr × Socket H)
  pub parser_mem : ℕ
  pub is_httpd : Bool
  pub is_cam : Bool
  pub is_sms : Bool

-- What the union `u` of `struct apply_data` holds before a structure is applied.
pub record Raw : Type 0 where
  pub snrf : SnrfInfo
  pub node : NodeInfo
  pub httpd : HttpdInfo
  pub cam : CamInfo
  pub creds : Bytes

-- The fields that `apply_base_pair` sees
abbrev pub station_of : BanoBase → Station
station_of b = record {
  flags = b.flags;
  nodls = b.nodls;
  cipher = b.cipher;
  addr = b.addr;
  mem = b.mem.left;
}

abbrev pub with_station : BanoBase → Station → BanoBase
with_station b s = record b {
  flags = s.flags;
  nodls = s.nodls;
  cipher = s.cipher;
  addr = s.addr;
  mem = record b.mem { left = s.mem };
}

-- "%hd" of a port
abbrev pub port_text : ℕ → Bytes
port_text port = if ltb port (2 ^ 15) then dec 5 port else codes "-" ++ dec 5 (2 ^ 16 - port)

module _ {H : Type 0} (snrf : Snrf H) where
  -- `bano_add_socket`. Where its item gets no memory, `bano_socket_free` frees all nodes of the base,
  -- which stay in its list.
  unfoldable pub add_socket : Setup H → SocketInfo → Step (Setup H × Bool)
  add_socket st info =
      let (left, r) = socket_alloc snrf st.base.mem.left info in
      let fresh : Ptr = st.base.mem.fresh in
      let with_mem = λ (n : ℕ).
        let b : BanoBase = record st.base { mem = record { left = n; fresh = fresh + 1 } } in b in
      elim r as (λ _. Step (Setup H × Bool)) [
        | none ↦ returns (record st { base = with_mem left }, false)
        | some s ↦ elim (take_mem left) as (λ _. Step (Setup H × Bool)) [
          | none ↦ elim st.base.nodes as (λ _. Step (Setup H × Bool)) [
            | [] ↦ returns (record st { base = with_mem left }, false)
            | n ∷ ns ↦ undefined
          ]
          | some last ↦
              let b : BanoBase = with_mem last in
              returns (
                record st {
                  base = record b { sockets = b.sockets ++ fresh ∷ [] };
                  devices = (fresh, s) ∷ st.devices;
                },
                true,
              )
        ]
      ]

  -- `bano_httpd_init`; `server` says whether all behind `bano_add_socket` succeeds, with the text of the
  -- port.
  unfoldable pub httpd_init :
      (server : Bytes → Bool) → Setup H → SnrfInfo → HttpdInfo → Step (Setup H × Bool)
  httpd_init server st raw info =
      add_socket st (record { type_of = type_httpd; snrf = raw }) >>= λ (next, ok).
      let port : ℕ = if has_bit httpd_port info.flags then info.port else 80 in
      let wrong : Step (Setup H × Bool) = returns (next, false) in
      let started : Step (Setup H × Bool) = returns (next, server (port_text port)) in
      if ok then started else wrong

  abbrev close_all : List (Ptr × Socket H) → List (Ptr × Socket H)
  close_all [] = []
  close_all ((p, s) ∷ ss) = (p, socket_close snrf s) ∷ close_all ss

  -- `bano_close`, which is what `bano_open` does under `on_error_0` as well: the nodes go first, and
  -- `bano_socket_free` finds none left.
  unfoldable pub bano_close : Setup H → Setup H
  bano_close st = record st {
    base = record st.base { nodes = []; sockets = []; timers = [] };
    devices = close_all st.devices;
    is_httpd = false;
    is_cam = false;
    is_sms = false;
  }

  -- `bano_base_info_t`; `BANO_BASE_FLAG_ADDR` and `BANO_BASE_FLAG_CONF` say what is given.
  abbrev pub initial : Mem → (flags : ℕ) → Option ℕ → Dict Nodl → Bytes → Setup H
  initial m flags addr nodls key = record {
    base = record {
      flags = flags;
      nodes = [];
      sockets = [];
      timers = timer_init;
      nodls = nodls;
      cipher = record { alg = alg_none; key = key };
      addr = elim addr as (λ _. ℕ) [ none ↦ default_base_addr | some a ↦ a ];
      sms_ready = false;
      mem = m;
      ios = λ p. none;
      events = [];
    };
    devices = [];
    parser_mem = 0;
    is_httpd = false;
    is_cam = false;
    is_sms = false;
  }

  -- The base with `sms` as the handle; where the address is not given, what it was.
  abbrev pub with_sms : {K : Type 0} → Setup H → SmsHandle K → Setup H
  with_sms st handle = record st {
    base = record st.base {
      sms_ready = elim (handle.addr) as (λ _. Bool) [ none ↦ st.base.sms_ready | some a ↦ true ];
    };
    is_sms = true;
  }

  module _ {K : Type 0} (server : Bytes → Bool) (cam : CamInfo → Bool) (sms : SmsLib K)
      (strtoul : Bytes → ℕ → ℕ) (mapped : Bytes → Option Bytes)
      (listing : Bytes → Option (List Bytes)) (fuel parser_mem : ℕ) (raw : Struct → Raw) where
    -- The branches of `apply_struct`, each with `true` for an error
    unfoldable pub base_struct : Setup H → Struct → Step (Setup H × Bool)
    base_struct st s =
        elim (apply_base_pairs strtoul mapped listing fuel parser_mem (station_of st.base)
          s.pairs) [
            | done (b, wrong) ↦ returns (record st { base = with_station st.base b }, wrong)
            | failed ↦ undefined
            | no_fuel ↦ out_of_fuel
          ]

    unfoldable pub socket_struct : Setup H → Struct → Step (Setup H × Bool)
    socket_struct st s =
        let init : SocketPairs = record {
          info = record { type_of = type_invalid; snrf = (raw s).snrf };
          mem = st.parser_mem;
        } in
        let r = apply_each (apply_socket_pair st.base.addr) init s.pairs in
        let left : Setup H = record st { parser_mem = r.0.mem } in
        let wrong : Step (Setup H × Bool) = returns (left, true) in
        let added : Step (Setup H × Bool) =
          add_socket left r.0.info >>= λ (next, ok). returns (next, not ok) in
        if r.1 then wrong else added

    unfoldable pub node_struct : Setup H → Struct → Step (Setup H × Bool)
    node_struct st s = elim st.base.sockets as (λ _. Step (Setup H × Bool)) [
      | [] ↦ returns (st, true)
      | q ∷ qs ↦
          let init : NodeInfo = record (raw s).node { flags = set_bit node_socket 0 } in
          let r = apply_each (apply_node_pair strtoul) init s.pairs in
          let wrong : Step (Setup H × Bool) = returns (st, true) in
          let added = add_node st.base r.0 q in
          let after : Step (Setup H × Bool) = returns (record st { base = added.0 }, not added.1) in
          if r.1 then wrong else after
    ]

    unfoldable pub httpd_struct : Setup H → Struct → Step (Setup H × Bool)
    httpd_struct st s =
        let r =
          apply_each (apply_httpd_pair strtoul) (record (raw s).httpd { flags = 0 }) s.pairs in
        let wrong : Step (Setup H × Bool) = returns (st, true) in
        let inited : Step (Setup H × Bool) = httpd_init server st (raw s).snrf r.0 >>= λ (next, ok).
        returns ((if ok then record next { is_httpd = true } else next), not ok) in
        if r.1 then wrong else inited

    unfoldable pub cam_struct : Setup H → Struct → Step (Setup H × Bool)
    cam_struct st s =
        let r = apply_each (apply_cam_pair strtoul) (record (raw s).cam { flags = 0 }) s.pairs in
        let wrong : Step (Setup H × Bool) = returns (st, true) in
        let good : Step (Setup H × Bool) = returns (record st { is_cam = true }, false) in
        if r.1 then wrong else if cam r.0 then good else wrong

    unfoldable pub sms_struct : Setup H → Struct → Step (Setup H × Bool)
    sms_struct st s =
        let init : SmsInfo = record {
          addr = none;
          port = none;
          creds = (raw s).creds;
          mem = st.base.mem.left;
        } in
        let r = apply_each (apply_sms_pair strtoul) init s.pairs in
        let b : BanoBase = record st.base { mem = record st.base.mem { left = r.0.mem } } in
        let left : Setup H = record st { base = b } in
        let wrong : Step (Setup H × Bool) = returns (left, true) in
        let opens : Step (Setup H × Bool) = open_with_lib sms r.0 >>= λ o.
        elim o as (λ _. Step (Setup H × Bool)) [
          | none ↦ wrong
          | some handle ↦ returns (with_sms left handle, false)
        ] in
        if r.1 then wrong else opens

    -- `apply_struct`
    unfoldable pub apply_struct : Setup H → Struct → Step (Setup H × Bool)
    apply_struct st s =
        let is = λ (name : Bytes). cmp_cstr s.name name in
        let ignored : Step (Setup H × Bool) = returns (st, false) in
        if is (codes "base")
        then base_struct st s
        else if is (codes "socket")
        then socket_struct st s
        else if is (codes "node")
        then node_struct st s
        else if is (codes "http_server")
        then httpd_struct st s
        else if is (codes "cam")
        then cam_struct st s
        else if is (codes "sms")
        then sms_struct st s
        else ignored

    -- `bano_parser_foreach_struct` with it
    unfoldable pub apply_structs : Setup H → List Struct → Step (Setup H × Bool)
    apply_structs st [] = returns (st, false)
    apply_structs st (s ∷ ss) = apply_struct st s >>= λ (next, wrong).
        let rest = apply_structs next ss in
        let stopped : Step (Setup H × Bool) = returns (next, true) in
        if wrong then stopped else rest

    -- `apply_conf`
    unfoldable pub apply_conf : Setup H → Bytes → Step (Setup H × Bool)
    apply_conf st path =
        elim (load_file mapped fuel parser_mem path) as (λ _. Step (Setup H × Bool)) [
          | done p ↦ apply_structs (record st { parser_mem = p.mem }) p.structs
          | failed ↦ returns (st, true)
          | no_fuel ↦ out_of_fuel
        ]

    -- `bano_open`: `false` for an error, with all that was opened closed. Where `bano_dict_init` gets
    -- no memory, the descriptions are not set.
    unfoldable pub bano_open :
        Mem → (flags : ℕ) → Option ℕ → (conf_path : Option Bytes) → Bytes → Step (Setup H × Bool)
    bano_open m flags addr conf_path key =
        elim (dict_init {V = Nodl} m.left) as (λ _. Step (Setup H × Bool)) [
          | none ↦ undefined
          | some (left, nodls) ↦
              let st = initial (record m { left = left }) flags addr nodls key in
              elim conf_path as (λ _. Step (Setup H × Bool)) [
                | none ↦ returns (st, true)
                | some path ↦ apply_conf st path >>= λ (next, wrong).
                    let good : Step (Setup H × Bool) = returns (next, true) in
                    let bad : Step (Setup H × Bool) = returns (bano_close next, false) in
                    if wrong then bad else good
              ]
        ]
