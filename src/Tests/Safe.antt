-- ===== src/Tests/Safe.antt =====
-- Rounds of the loop of src/base/bano_base.c on a base with a node, and a message from a new one.
use bano.Base.{
  ℕ, ◌^◌, ◌≡◌, refl, Bool, true, none, some, List, [], ◌∷◌, ◌==◌, Bytes, arith, Bool-cases, inl,
  inr, add32,
}
use bano.Items.{Ptr}
use bano.Config.Station.{flag_new_nodes}
use bano.Timers.{Timer, Timeval, timer_update}
use bano.Network.{Node, default_retry_ms, BanoBase, node_at}
use bano.Network.Receive.{handle_bano_msg}
use bano.Network.Web.{HttpdMsg, httpd_get}
use bano.Network.Loop.{from_node, from_web, read_ok, read_partial, Round, LoopState, loop_rounds}
use bano.Network.Safe.{AreNodes, Notifies, IsSafe, IsSafeFor}
use bano.Network.Safe.Idle.{idle-IsSafe}
use bano.Network.Safe.Handlers.{handle_bano_msg-IsSafeFor}
use bano.Network.Safe.Update.{Waited}
use bano.Network.Safe.Rounds.{Behaves, loop_rounds-IsSafeFor}
use bano.Tests.Network.{values, node, request, base, info}

abbrev quiet_node : Node
quiet_node = record node { pending_ios = [] }

abbrev quiet : BanoBase
quiet = record base {
  flags = 2 ^ flag_new_nodes;
  nodes = quiet_node ∷ [];
  timers = [];
  ios = λ p. none;
}

quiet-AreNodes : AreNodes 50 (quiet_node ∷ [])
unfolding node_at
quiet-AreNodes = record {
  apart = (refl, tt);
  each = λ p n e. elim (Bool-cases (10 == p)) [
    | inr other ↦ cc (rw other at e)
    | inl same ↦
        let is_n : quiet_node ≡ n = cc (rw same at e) in
        rw (← is_n) (record {
          old = omega arith;
          pairs = (values.0, refl);
          posted_apart = tt;
          pending_apart = tt;
        })
  ];
}

quiet-IsSafe : IsSafe default_retry_ms quiet
unfolding node_at
quiet-IsSafe =
    idle-IsSafe default_retry_ms quiet (omega arith) quiet-AreNodes
      (λ p n e. elim (Bool-cases (10 == p)) [
        | inr other ↦ cc (rw other at e)
        | inl same ↦ let is_n : quiet_node ≡ n = cc (rw same at e) in rw (← is_n) (refl, refl)
      ])
      refl

quiet-Notifies : Notifies quiet.sms_ready quiet.nodes
unfolding node_at
quiet-Notifies p n e d key kv is_d = elim (Bool-cases (10 == p)) [
  | inr other ↦ cc (rw other at e)
  | inl same ↦
      let is_n : quiet_node ≡ n = cc (rw same at e) in
      let no_nodl : n.nodl ≡ none = rw (← is_n) refl in cc (no_nodl, is_d)
]

abbrev incoming : Bytes
incoming = 0 ∷ 9 ∷ 0 ∷ 0 ∷ 0 ∷ 0 ∷ 0 ∷ 0 ∷ 0 ∷ 7 ∷ 0 ∷ 1 ∷ 0 ∷ 0 ∷ 0 ∷ 0 ∷ 0 ∷ []

abbrev asks : HttpdMsg
asks = record { op = httpd_get; naddr = 5; key = 7; val = 0; is_ack = 0 }

abbrev no_time : Timeval
no_time = record { tv_sec = 0; tv_usec = 0 }

abbrev pub rounds : List Round
rounds =
    record {
      now = 1000;
      peeked = from_node 11 incoming ∷ [];
      selected = some (1, no_time);
      reads = (11, read_ok (from_web asks)) ∷ [];
      writable = λ p. true;
    }
    ∷ record {
      now = 1001;
      peeked = [];
      selected = some (1, no_time);
      reads = (11, read_partial) ∷ [];
      writable = λ p. true;
    }
    ∷ []

abbrev pub always : Ptr → ℕ → Bytes → Bool
always p addr bytes = true

no_time-Waited : (ts : List Timer) → Waited ts 1 no_time
unfolding timer_update add32
no_time-Waited [] = λ e. absurd (omega (arith, e))
no_time-Waited (t ∷ ts) = omega arith

pub always_writes : (p : Ptr) (addr : ℕ) (bytes : Bytes) → always p addr bytes ≡ true
always_writes p addr bytes = refl

pub rounds-Behaves : (b : BanoBase) → Behaves always request 0 info always_writes refl b rounds
rounds-Behaves b =
    (tt, λ c e. no_time-Waited c.timers, λ s e. (tt, λ c f. no_time-Waited c.timers, λ t f. tt))

loop_rounds-IsSafeFor_example :
    (s : LoopState) × (loop_rounds always request 0 info quiet none rounds ≡ some s)
    × IsSafeFor default_retry_ms 5 s.base
loop_rounds-IsSafeFor_example =
    loop_rounds-IsSafeFor always request 0 info always_writes refl 5 quiet rounds
      (rounds-Behaves quiet) (quiet-IsSafe, omega arith, quiet-Notifies)

handle_bano_msg-IsSafeFor_example :
    (d : BanoBase) × (handle_bano_msg info quiet 1000 11 incoming ≡ some d) × IsSafeFor 1700 5 d
handle_bano_msg-IsSafeFor_example =
    handle_bano_msg-IsSafeFor 1700 5 info quiet 1000 11 incoming
      (quiet-IsSafe, omega arith, quiet-Notifies)
