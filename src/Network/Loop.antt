-- ===== src/Network/Loop.antt =====
-- `bano_start_loop` of src/base/bano_base.c: one round of its loop as a function of what the world
-- does in it.
use bano.Base.{
  ℕ, Bool, true, false, not, Option, none, some, List, [], ◌∷◌, ◌==◌, if◌then◌else◌, Bytes, ◌||◌,
  ◌&&◌,
}
use bano.Items.{Ptr}
use bano.Timers.{timer_add, Timeval, timer_update}
use bano.Network.{Event, node_called, Node, Io, LoopInfo, BanoBase}
use bano.Network.Expire.{expire}
use bano.Network.Receive.{handle_bano_msg}
use bano.Network.Send.{write_all}
use bano.Network.Web.{HttpdMsg, handle_httpd_msg}

-- What a socket reads: a message from a node, or from the web server.
pub data Incoming : Type 0 where
  from_node : (socket : Ptr) (bytes : Bytes) → Incoming
  from_web : HttpdMsg → Incoming

-- What `bano_socket_read` does on a socket that is set in `rset`: the result 0 with a message, -2,
-- or another error.
pub data ReadResult : Type 0 where
  read_ok : Incoming → ReadResult
  read_partial : ReadResult
  read_failed : ReadResult

-- What the world does in a round: the time, the messages that `bano_socket_peek` gives, the result
-- of `select` with the time that it leaves, or `none` for an error, and then the sockets that can be
-- read, with what they read, and written.
pub record Round : Type 0 where
  pub now : ℕ
  pub peeked : List Incoming
  pub selected : Option (ℕ × Timeval)
  pub reads : List (Ptr × ReadResult)
  pub writable : Ptr → Bool

-- The base, `loop_timer`, and whether the loop goes on.
pub record LoopState : Type 0 where
  pub base : BanoBase
  pub loop_timer : Option Ptr
  pub goes_on : Bool

abbrev pub has_socket : List Ptr → Ptr → Bool
has_socket [] p = false
has_socket (x ∷ xs) p = let rest = has_socket xs p in if x == p then true else rest

abbrev del_socket : List Ptr → Ptr → List Ptr
del_socket [] p = []
del_socket (x ∷ xs) p = let rest = del_socket xs p in if x == p then xs else x ∷ rest

-- `fill_wset` under `bano_list_foreach`: the sockets in `wset`.
unfoldable pub fill_wset : List Node → List Ptr
fill_wset [] = []
fill_wset (n ∷ ns) = elim n.posted_ios [ [] ↦ fill_wset ns | c ∷ cs ↦ n.socket ∷ fill_wset ns ]

abbrev is_nil : {A : Type 0} → List A → Bool
is_nil [] = true
is_nil (x ∷ xs) = false

-- `nfd` is not 0, or there is a timer.
unfoldable pub has_events : BanoBase → Bool
has_events b = not (is_nil b.sockets && is_nil (fill_wset b.nodes) && is_nil b.timers)

-- The first step of a round; `goes_on` is false where there is no memory
-- for the timer.
unfoldable pub add_loop_timer : LoopInfo → BanoBase → Option Ptr → Option LoopState
add_loop_timer info b (some p) = some (record { base = b; loop_timer = some p; goes_on = true })
add_loop_timer info b none =
    let same : Option LoopState = some (record { base = b; loop_timer = none; goes_on = true }) in
    let added : Option LoopState = elim (timer_add b.mem b.timers info.timer_ms) [
      | none ↦ none
      | some (m, ts, none) ↦
          some (record {
            base = record b { mem = m; timers = ts };
            loop_timer = none;
            goes_on = false;
          })
      | some (m, ts, some p) ↦
          some (record {
            base = record b { mem = m; timers = ts };
            loop_timer = some p;
            goes_on = true;
          })
    ] in
    if info.timer_fn then added else same

-- The update of the timer that is due next, and its branch where it has run out: `err` is the
-- result of `select`, and so is the number in the result.
unfoldable pub update_timer :
    BanoBase → Option Ptr → ℕ → Timeval → Option (BanoBase × Option Ptr × ℕ)
update_timer b loop_timer err left = elim b.timers [
  | [] ↦
      let unset : Option (BanoBase × Option Ptr × ℕ) = none in
      let same : Option (BanoBase × Option Ptr × ℕ) = some (b, loop_timer, err) in
      if err == 0 then unset else same
  | t ∷ ts ↦
      let u = timer_update t left in
      let c = record b { timers = u ∷ ts } in
      let expired : Option (BanoBase × Option Ptr × ℕ) = elim (expire c loop_timer u) [
        | none ↦ none
        | some (d, lt) ↦ some (d, lt, 0)
      ] in
      let pending : Option (BanoBase × Option Ptr × ℕ) = some (c, loop_timer, err) in
      if (u.rel_ms == 0) || (err == 0) then expired else pending
]

-- `do_new_node` for the nodes of a list
unfoldable pub do_new_nodes : List Node → List Event → List Event
do_new_nodes [] es = es
do_new_nodes (n ∷ ns) es = do_new_nodes ns (node_called n.at ∷ es)

abbrev pub with_new_nodes : LoopInfo → BanoBase → BanoBase
with_new_nodes info b = record b {
  events = if info.node_fn then do_new_nodes b.nodes b.events else b.events;
}

module _ (write : Ptr → ℕ → Bytes → Bool) (raw : Io) (capture : ℕ) (info : LoopInfo) where
  unfoldable pub handle_msg : BanoBase → ℕ → Incoming → Option BanoBase
  handle_msg b now (from_node s bytes) = handle_bano_msg info b now s bytes
  handle_msg b now (from_web m) = handle_httpd_msg raw capture b now m

  -- `peek_msg` under `bano_list_foreach`
  unfoldable pub peek_all : BanoBase → ℕ → List Incoming → Option BanoBase
  peek_all b now [] = some b
  peek_all b now (m ∷ ms) = elim (handle_msg b now m) [ none ↦ none | some c ↦ peek_all c now ms ]

  -- `read_msg`; an error frees the socket, and with it every node of the base.
  unfoldable pub read_msg : BanoBase → ℕ → Ptr → ReadResult → Option BanoBase
  read_msg b now s (read_ok m) = handle_msg b now m
  read_msg b now s read_partial = some b
  read_msg b now s read_failed = elim b.nodes [
    | [] ↦ some (record b { sockets = del_socket b.sockets s })
    | n ∷ ns ↦ none
  ]

  -- `bano_list_foreach` with it, over the sockets that can be read
  unfoldable pub read_all : BanoBase → ℕ → List (Ptr × ReadResult) → Option BanoBase
  read_all b now [] = some b
  read_all b now ((s, r) ∷ rs) = elim (read_msg b now s r) [
    | none ↦ none
    | some c ↦ read_all c now rs
  ]

  -- What a round does when `select` has returned `err`, not negative.
  unfoldable pub after_select : BanoBase → Option Ptr → Round → ℕ → Timeval → Option LoopState
  after_select b loop_timer round err left =
      let wset = fill_wset b.nodes in
      elim (update_timer b loop_timer err left) [
        | none ↦ none
        | some (c, lt, n) ↦
            let idle : Option LoopState =
              some (record { base = c; loop_timer = lt; goes_on = true }) in
            let ready = λ (p : Ptr). has_socket wset p && round.writable p in
            let busy : Option LoopState = elim (read_all c round.now round.reads) [
              | none ↦ none
              | some d ↦ elim (write_all write ready d d.nodes) [
                | none ↦ none
                | some e ↦ some (record { base = e; loop_timer = lt; goes_on = true })
              ]
            ] in
            if n == 0 then idle else busy
      ]

  -- A round of `bano_start_loop`
  unfoldable pub loop_round : BanoBase → Option Ptr → Round → Option LoopState
  loop_round b loop_timer round = elim (add_loop_timer info b loop_timer) [
    | none ↦ none
    | some s ↦
        let ended : Option LoopState = some s in
        let goes : Option LoopState = elim (peek_all s.base round.now round.peeked) [
          | none ↦ none
          | some c ↦
              let spins : Option LoopState =
                some (record { base = c; loop_timer = s.loop_timer; goes_on = true }) in
              let selects : Option LoopState = elim round.selected [
                | none ↦ some (record { base = c; loop_timer = s.loop_timer; goes_on = false })
                | some (err, left) ↦ after_select c s.loop_timer round err left
              ] in
              if has_events c then selects else spins
        ] in
        if s.goes_on then goes else ended
  ]

  -- `bano_start_loop` over some rounds
  unfoldable pub loop_rounds : BanoBase → Option Ptr → List Round → Option LoopState
  loop_rounds b loop_timer [] = some (record { base = b; loop_timer = loop_timer; goes_on = true })
  loop_rounds b loop_timer (r ∷ rs) = elim (loop_round b loop_timer r) [
    | none ↦ none
    | some s ↦
        let rest = loop_rounds s.base s.loop_timer rs in
        let ended : Option LoopState = some s in if s.goes_on then rest else ended
  ]

  -- `bano_start_loop`: the nodes that the base has, and then the rounds
  unfoldable pub start_loop : BanoBase → List Round → Option LoopState
  start_loop b rs = loop_rounds (with_new_nodes info b) none rs
