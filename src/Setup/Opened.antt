-- ===== src/Setup/Opened.antt =====
-- What holds of a base of src/base/bano_base.c when its configuration is applied.
use bano.Base.{
  Step, returns, out_of_fuel, undefined, ◌>>=◌, ℕ, ◌+◌, ◌≤◌, arith, ◌≡◌, ◌⊎◌, refl, ◌∙◌, Bool, true,
  false, Option, none, some, List, [], ◌∷◌, ◌++◌, ◌==◌, ==_refl, if◌then◌else◌, Bytes, Bool-cases,
  Option-cases, inl, inr,
}
use bano.Items.{Ptr}
use bano.Dict.{take_mem}
use bano.Parser.Outcome.{Outcome, done, failed, no_fuel}
use bano.Config.Station.{Station}
use bano.Config.Station.Keeps.{IsStation}
use bano.Timers.{Mem}
use bano.Network.{BanoBase}
use bano.Sockets.{Snrf, SnrfInfo, SocketInfo, type_httpd, Socket, socket_alloc}
use bano.Sockets.Opened.{IsOpen, socket_alloc-IsOpen}
use bano.Setup.{Setup, station_of, with_station, add_socket, httpd_init, bano_close}
use bano.Setup.Pairs.{HttpdInfo}
use bano.Setup.Attached.{AllAttached, AllAttached-more, AreDistinct, AreDistinct-le, Grows}

abbrev pub device_of : {H : Type 0} → List (Ptr × Socket H) → Ptr → Option (Socket H)
device_of [] p = none
device_of ((q, s) ∷ ss) p = let rest = device_of ss p in if q == p then some s else rest

-- Each address leads to a socket that is open.
abbrev pub AllOpen : {H : Type 0} → Snrf H → List (Ptr × Socket H) → List Ptr → Type 0
AllOpen snrf ds [] = Unit {0}
AllOpen {H} snrf ds (p ∷ ps) =
    ((s : Socket H) × (device_of ds p ≡ some s) × IsOpen snrf s) × AllOpen snrf ds ps

AllOpen-more :
    {H : Type 0} (snrf : Snrf H) (ds : List (Ptr × Socket H)) (p : Ptr) (s : Socket H)
    (ps : List Ptr)
    → IsOpen snrf s
    → AllOpen snrf ds ps
    → AllOpen snrf ((p, s) ∷ ds) (ps ++ p ∷ [])
AllOpen-more snrf ds p s [] o h = ((s, rw (==_refl p) refl, o), tt)
AllOpen-more snrf ds p s (q ∷ qs) o h = (
  elim (Bool-cases (p == q)) [ inl e ↦ (s, rw e refl, o) | inr e ↦ (h.0.0, rw e h.0.1, h.0.2) ],
  AllOpen-more snrf ds p s qs o h.1,
)

-- The cipher is one that is handled, the address of the base fits, every socket is open, every node is
-- attached, no timer runs, and the nodes have addresses that are no longer free, no two the same.
pub record IsSetup {H : Type 0} (snrf : Snrf H) (st : Setup H) : Type 0 where
  pub station : IsStation (station_of st.base)
  pub open_sockets : AllOpen snrf st.devices st.base.sockets
  pub attached : AllAttached st.base.sockets st.base.nodes
  pub no_timers : st.base.timers ≡ []
  pub distinct : AreDistinct st.base.mem.fresh st.base.nodes

-- What a step may leave.
abbrev pub Leaves : {H : Type 0} → Snrf H → Step (Setup H × Bool) → Type 0
Leaves snrf (returns r) = IsSetup snrf r.0
Leaves snrf out_of_fuel = Unit {0}
Leaves snrf undefined = Unit {0}

pub Leaves->>= :
    {H : Type 0} (snrf : Snrf H) (m : Step (Setup H × Bool))
    (k : Setup H × Bool → Step (Setup H × Bool))
    → Leaves snrf m
    → ((r : Setup H × Bool) → IsSetup snrf r.0 → Leaves snrf (k r))
    → Leaves snrf (m >>= k)
Leaves->>= snrf (returns r) k h f = f r h
Leaves->>= snrf out_of_fuel k h f = tt
Leaves->>= snrf undefined k h f = tt

pub Leaves-if :
    {H : Type 0} (snrf : Snrf H) (c : Bool) (x y : Step (Setup H × Bool))
    → Leaves snrf x
    → Leaves snrf y
    → Leaves snrf (if c then x else y)
Leaves-if snrf true x y h k = h
Leaves-if snrf false x y h k = k

-- Only the memory of the base changes, or what is no field of the invariant.
pub with_mem :
    {H : Type 0} (snrf : Snrf H) (st : Setup H) (m : Mem)
    → st.base.mem.fresh ≤ m.fresh
    → IsSetup snrf st
    → IsSetup snrf (record st { base = record st.base { mem = m } })
with_mem snrf st m le h = record {
  station = record { handled = h.station.handled; addr_fits = h.station.addr_fits };
  open_sockets = h.open_sockets;
  attached = h.attached;
  no_timers = h.no_timers;
  distinct = AreDistinct-le st.base.mem.fresh m.fresh st.base.nodes le h.distinct;
}

pub with_rest :
    {H : Type 0} (snrf : Snrf H) (st : Setup H) (n : ℕ) (x y z : Bool)
    → IsSetup snrf st
    → IsSetup snrf (record st { parser_mem = n; is_httpd = x; is_cam = y; is_sms = z })
with_rest snrf st n x y z h = record {
  station = h.station;
  open_sockets = h.open_sockets;
  attached = h.attached;
  no_timers = h.no_timers;
  distinct = h.distinct;
}

pub List-cases : {A : Type 0} (xs : List A) → (xs ≡ []) ⊎ ((y : A) × (ys : List A) × (xs ≡ y ∷ ys))
List-cases [] = inl refl
List-cases (x ∷ xs) = inr (x, xs, refl)

without_nodes :
    {H A : Type 0} (snrf : Snrf H) (ns : List A) (x : Setup H × Bool)
    → IsSetup snrf x.0
    → Leaves snrf
        (elim ns as (λ _. Step (Setup H × Bool)) [ [] ↦ returns x | n ∷ rest ↦ undefined ])
without_nodes snrf [] x k = k
without_nodes snrf (n ∷ ns) x k = tt

-- The settings of the base
pub base_Leaves :
    {H : Type 0} (snrf : Snrf H) (st : Setup H) (o : Outcome (Station × Bool))
    → IsSetup snrf st
    → ((c : Station) (wrong : Bool) → o ≡ done (c, wrong) → IsStation c)
    → Leaves snrf (elim o as (λ _. Step (Setup H × Bool)) [
      | done (b, wrong) ↦ returns (record st { base = with_station st.base b }, wrong)
      | failed ↦ undefined
      | no_fuel ↦ out_of_fuel
    ])
base_Leaves snrf st (done (c, wrong)) h f =
    let g = f c wrong refl in
    record {
      station = record { handled = g.handled; addr_fits = g.addr_fits };
      open_sockets = h.open_sockets;
      attached = h.attached;
      no_timers = h.no_timers;
      distinct = h.distinct;
    }
base_Leaves snrf st failed h f = tt
base_Leaves snrf st no_fuel h f = tt

pub grown :
    {H : Type 0} (snrf : Snrf H) (st : Setup H) (q : Ptr) (c : BanoBase)
    → IsSetup snrf st
    → Grows q st.base c
    → IsSetup snrf (record st { base = c })
grown snrf st q c h g = record {
  station = record {
    handled = rw g.same_cipher h.station.handled;
    addr_fits = rw g.same_addr h.station.addr_fits;
  };
  open_sockets = rw g.same_sockets h.open_sockets;
  attached = rw g.same_sockets g.attached;
  no_timers = g.same_timers ∙ h.no_timers;
  distinct = g.distinct;
}

module _ {H : Type 0} (snrf : Snrf H) where
  pub add_socket-Leaves :
      (st : Setup H) (info : SocketInfo) → IsSetup snrf st → Leaves snrf (add_socket snrf st info)
  unfolding add_socket
  add_socket-Leaves st info h =
      let left : ℕ = (socket_alloc snrf st.base.mem.left info).0 in
      let p : Ptr = st.base.mem.fresh in
      let kept = λ (n : ℕ). with_mem snrf st (record { left = n; fresh = p + 1 }) (omega arith) h in
      elim (Option-cases (socket_alloc snrf st.base.mem.left info).1) [
        | inl bad ↦ rw (add_socket, bad) (kept left)
        | inr (s, made) ↦ elim (Option-cases (take_mem left)) [
          | inr (last, item) ↦
              rw (add_socket, made, item)
                (record {
                  station = record { handled = h.station.handled; addr_fits = h.station.addr_fits };
                  open_sockets =
                      AllOpen-more snrf st.devices p s st.base.sockets
                        (socket_alloc-IsOpen snrf st.base.mem.left info s made) h.open_sockets;
                  attached = AllAttached-more st.base.sockets (p ∷ []) st.base.nodes h.attached;
                  no_timers = h.no_timers;
                  distinct =
                      AreDistinct-le st.base.mem.fresh (st.base.mem.fresh + 1) st.base.nodes
                        (omega arith) h.distinct;
                })
          | inl full ↦ rw (add_socket, made, full) (without_nodes snrf st.base.nodes _ (kept left))
        ]
      ]

  pub httpd_init-Leaves :
      (server : Bytes → Bool) (st : Setup H) (raw : SnrfInfo) (info : HttpdInfo)
      → IsSetup snrf st
      → Leaves snrf (httpd_init snrf server st raw info)
  unfolding httpd_init
  httpd_init-Leaves server st raw info h =
      Leaves->>= snrf _ _ (add_socket-Leaves st (record { type_of = type_httpd; snrf = raw }) h)
        (λ r k. Leaves-if snrf r.1 _ _ k k)

  -- What `bano_open` makes of the result of `apply_conf`.
  abbrev pub finish : Setup H × Bool → Step (Setup H × Bool)
  finish r =
      let good : Step (Setup H × Bool) = returns (r.0, true) in
      let bad : Step (Setup H × Bool) = returns (bano_close snrf r.0, false) in
      if r.1 then bad else good
