-- ===== src/Setup/Ports.antt =====
-- Which socket a node of the configuration is given: the first of the base.
use bano.Base.{
  Step, returns, out_of_fuel, undefined, ◌>>=◌, ℕ, ◌+◌, ◌≡◌, ◌⊎◌, set_bit, refl, Bool, true, false,
  Option, none, some, List, [], ◌∷◌, ◌++◌, ==_refl, if◌then◌else◌, Bytes, Bool-cases, Option-cases,
  inl, inr,
}
use bano.Items.{Ptr}
use bano.Dict.{take_mem}
use bano.Parser.Structs.{Struct}
use bano.Config.{apply_each}
use bano.Config.Nodes.{IsNodeInfo}
use bano.Config.Pairs.{NodeInfo, node_socket, apply_node_pair}
use bano.Network.{Node, BanoBase, add_node}
use bano.Sms.{SmsLib}
use bano.Sockets.{
  Snrf, SnrfInfo, SocketInfo, type_httpd, Socket, httpd, httpd_open, socket_alloc, socket_write,
}
use bano.Setup.{Setup, Raw, add_socket, httpd_init, node_struct, httpd_struct}
use bano.Setup.Pairs.{HttpdInfo, apply_httpd_pair, CamInfo}
use bano.Setup.Attached.{is_in, add_node-Grows}
use bano.Setup.Structs.{node_fits, httpd_struct-Leaves}
use bano.Setup.Opened.{device_of, IsSetup}

-- Without memory for its item, a socket is not added.
no_item :
    {H A : Type 0} (ns : List A) (x next : Setup H) (f : Setup H → Step (Setup H × Bool))
    → ((elim ns as (λ _. Step (Setup H × Bool)) [ [] ↦ returns (x, false) | n ∷ rest ↦ undefined ])
        >>= λ r. if r.1 then f r.0 else returns (r.0, false))
      ≡ returns (next, true)
    → ⊥
no_item [] x next f e = cc e
no_item (n ∷ ns) x next f e = cc e

-- An initialization that succeeds, or one behind which `apply_struct` has an error.
init_cases :
    {H : Type 0} (m : Step (Setup H × Bool))
    → ((c : Setup H) × (m ≡ returns (c, true)))
      ⊎ ((k : Setup H × Bool → Step (Setup H × Bool)) (web : Setup H)
          → ((c : Setup H) → k (c, false) ≡ returns (c, true))
          → ◌>>=◌ m k ≡ returns (web, false)
          → ⊥)
init_cases (returns (c, true)) = inl (c, refl)
init_cases (returns (c, false)) = inr (λ k web h e. let stop = h c in cc (e, stop))
init_cases out_of_fuel = inr (λ k web h e. cc e)
init_cases undefined = inr (λ k web h e. cc e)

module _ {H : Type 0} (snrf : Snrf H) where
  -- A step adds no node, or one on a socket that no write succeeds on.
  abbrev pub Unreachable : (web next : Setup H) → Type 0
  Unreachable web next =
      (next.base.nodes ≡ web.base.nodes)
      ⊎ ((n : Node) × (next.base.nodes ≡ web.base.nodes ++ n ∷ [])
          × ((d : Socket H) × (device_of next.devices n.socket ≡ some d)
              × ((addr : ℕ) (m : Bytes) → (socket_write snrf d addr m).1 ≡ false)))

  -- Where the web server is set up before any socket, its socket is the first of the base.
  pub httpd_init-first :
      (server : Bytes → Bool) (st next : Setup H) (raw : SnrfInfo) (info : HttpdInfo)
      → st.base.sockets ≡ []
      → httpd_init snrf server st raw info ≡ returns (next, true)
      → (p : Ptr) × (next.base.sockets ≡ p ∷ []) × (device_of next.devices p ≡ some httpd)
  unfolding httpd_init add_socket socket_alloc httpd_open
  httpd_init-first server st next raw info none_yet e =
      let q : Ptr = st.base.mem.fresh in
      let info_of : SocketInfo = record { type_of = type_httpd; snrf = raw } in
      let full : Setup H = record st {
        base = record st.base {
          mem = record { left = (socket_alloc snrf st.base.mem.left info_of).0; fresh = q + 1 };
        };
      } in
      elim (Option-cases (take_mem st.base.mem.left)) [
        | inl a ↦
            let alloc : socket_alloc snrf st.base.mem.left info_of ≡ (st.base.mem.left, none) =
              rw (socket_alloc, a) refl in
            cc (rw (httpd_init, add_socket, alloc) at e)
        | inr (i, a) ↦ elim (Option-cases (take_mem i)) [
          | inl b ↦
              let alloc : socket_alloc snrf st.base.mem.left info_of ≡ (i, none) =
                rw (socket_alloc, a, httpd_open, b) refl in
              cc (rw (httpd_init, add_socket, alloc) at e)
          | inr (j, b) ↦
              let alloc : socket_alloc snrf st.base.mem.left info_of ≡ (j, some httpd) =
                rw (socket_alloc, a, httpd_open, b) refl in
              elim (Option-cases (take_mem j)) [
                | inl c ↦
                    let none_added : add_socket snrf st info_of
                        ≡ (elim st.base.nodes as (λ _. Step (Setup H × Bool)) [
                          | [] ↦ returns (full, false)
                          | n ∷ ns ↦ undefined
                        ]) =
                      rw (add_socket, alloc) (rw (alloc, c) refl) in
                    absurd (no_item st.base.nodes full next _ (rw (httpd_init, none_added) at e))
                | inr (k, c) ↦
                    let after : BanoBase = record st.base {
                      mem = record { left = k; fresh = q + 1 };
                      sockets = st.base.sockets ++ q ∷ [];
                    } in
                    let more : Setup H = record st {
                      base = after;
                      devices = (q, httpd) ∷ st.devices;
                    } in
                    let added : add_socket snrf st info_of ≡ returns (more, true) =
                      rw (add_socket, alloc) (rw (alloc, c) refl) in
                    let is_next : more ≡ next = cc (rw (httpd_init, added) at e) in
                    rw (← is_next) (q, rw none_yet refl, rw (==_refl q) refl)
              ]
        ]
      ]

  module _ {K : Type 0} (server : Bytes → Bool) (cam : CamInfo → Bool) (sms : SmsLib K)
      (strtoul : Bytes → ℕ → ℕ) (mapped : Bytes → Option Bytes)
      (listing : Bytes → Option (List Bytes)) (fuel parser_mem : ℕ) (raw : Struct → Raw)
      (raw_fits : (s : Struct) → IsNodeInfo (raw s).node) where
    -- A node that is added where the only socket is the one of the web server.
    behind :
        (web next : Setup H) (t : Struct) (wrong : Bool) (p : Ptr)
        → IsSetup snrf web
        → web.base.sockets ≡ p ∷ []
        → device_of web.devices p ≡ some httpd
        → node_struct snrf server cam sms strtoul mapped listing fuel parser_mem raw web t
          ≡ returns (next, wrong)
        → Unreachable web next
    unfolding node_struct socket_write
    behind web next t wrong p h only device f =
        let init : NodeInfo = record (raw t).node { flags = set_bit node_socket 0 } in
        let r = apply_each (apply_node_pair strtoul) init t.pairs in
        let known : is_in p web.base.sockets ≡ true = rw (only, ==_refl p) refl in
        let fits : IsNodeInfo r.0 = node_fits strtoul (raw t).node t.pairs (raw_fits t) in
        let g = add_node-Grows web.base r.0 p fits known h.attached h.distinct in
        elim (Bool-cases r.1) [
          | inl w ↦
              let same : web ≡ next = cc (rw (node_struct, only, w) at f) in inl (rw (← same) refl)
          | inr w ↦
              let after : Setup H = record web { base = (add_node web.base r.0 p).0 } in
              let same : after ≡ next = cc (rw (node_struct, only, w) at f) in
              elim g.newest [
                | inl none_added ↦ inl (rw (← same) none_added)
                | inr (n, added, at_p) ↦
                    let found : device_of after.devices n.socket ≡ some httpd = rw at_p device in
                    inr (n, rw (← same) added, (httpd, rw (← same) found, λ addr m. refl))
              ]
        ]

    -- Where the structure of the web server is applied with success before any socket is added,
    -- the structure for a node that is applied next adds no node, or one attached to the socket of
    -- the web server, on which every write fails; what uninitialized memory holds for a node is
    -- taken to fit.
    pub node_struct-unreachable :
        (st web next : Setup H) (s t : Struct) (wrong : Bool)
        → IsSetup snrf st
        → st.base.sockets ≡ []
        → httpd_struct snrf server cam sms strtoul mapped listing fuel parser_mem raw st s
          ≡ returns (web, false)
        → node_struct snrf server cam sms strtoul mapped listing fuel parser_mem raw web t
          ≡ returns (next, wrong)
        → Unreachable web next
    unfolding httpd_struct
    node_struct-unreachable st web next s t wrong h empty e f =
        let r =
          apply_each (apply_httpd_pair strtoul) (record (raw s).httpd { flags = 0 }) s.pairs in
        let leaves =
          httpd_struct-Leaves snrf server cam sms strtoul mapped listing fuel parser_mem raw
            raw_fits st s h in
        let k : IsSetup snrf web = rw e at leaves in
        elim (Bool-cases r.1) [
          | inl bad ↦ cc (rw (httpd_struct, bad) at e)
          | inr good ↦ elim (init_cases (httpd_init snrf server st (raw s).snrf r.0)) [
            | inl (c, run) ↦
                let (p, only, device) = httpd_init-first server st c (raw s).snrf r.0 empty run in
                let is_web : record c { is_httpd = true } ≡ web =
                  cc (rw (httpd_struct, good, run) at e) in
                behind web next t wrong p k (rw (← is_web) only) (rw (← is_web) device) f
            | inr stop ↦ absurd (stop _ web (λ c. refl) (rw (httpd_struct, good) at e))
          ]
        ]
