-- ===== src/Setup/Started.antt =====
-- `bano_start_loop` of src/base/bano_base.c on a base that `bano_open` has opened.
use bano.Base.{
  returns, ℕ, ◌+◌, ◌<◌, ◌^◌, ◌≡◌, refl, Bool, true, false, Option, some, List, [], ◌∷◌, ◌==◌, ◌≤◌,
  Bytes, arith, Bool-cases, inl, inr,
}
use bano.Items.{Ptr}
use bano.Dict.{Dict}
use bano.Parser.Structs.{Struct}
use bano.Config.Nodes.{IsNodeInfo}
use bano.Timers.{Mem}
use bano.Network.{NodeVal, Node, Io, default_retry_ms, LoopInfo, node_at}
use bano.Network.Loop.{Round, LoopState, with_new_nodes, start_loop}
use bano.Network.Safe.{Notifies, IsSafe, posted_total, IsSafeFor}
use bano.Network.Safe.Idle.{idle-IsSafe}
use bano.Network.Safe.Rounds.{Behaves, rounds_cost, loop_rounds-IsSafeFor}
use bano.Sms.{SmsLib}
use bano.Sockets.{Snrf}
use bano.Setup.{Setup, Raw}
use bano.Setup.Pairs.{CamInfo}
use bano.Setup.Attached.{IsAttached, AllAttached}
use bano.Setup.Opened.{IsSetup}
use bano.Setup.Structs.{open_with, bano_open-IsSetup}

-- Each node has its dictionary.
abbrev pub HavePairs : List Node → Type 0
HavePairs [] = Unit {0}
HavePairs (n ∷ ns) = ((d : Dict NodeVal) × (n.keyval_pairs ≡ some d)) × HavePairs ns

node_at-both :
    (sockets : List Ptr) (ns : List Node) (p : Ptr) (n : Node)
    → AllAttached sockets ns
    → HavePairs ns
    → node_at ns p ≡ some n
    → IsAttached sockets n × ((d : Dict NodeVal) × (n.keyval_pairs ≡ some d))
unfolding node_at
node_at-both sockets [] p n a h e = cc e
node_at-both sockets (x ∷ xs) p n a h e = elim (Bool-cases (x.at == p)) [
  | inl here ↦ let is_n : x ≡ n = cc (rw here at e) in rw (← is_n) (a.0, h.0)
  | inr behind ↦ node_at-both sockets xs p n a.1 h.1 (rw behind at e)
]

-- No node of the base has a posted request.
no_posted : (sockets : List Ptr) (ns : List Node) → AllAttached sockets ns → posted_total ns ≡ 0
no_posted sockets [] a = refl
no_posted sockets (n ∷ ns) a = rw (a.0.idle.0, no_posted sockets ns a.1) refl

IsSetup-IsSafe :
    {H : Type 0} (snrf : Snrf H) (st : Setup H)
    → IsSetup snrf st
    → HavePairs st.base.nodes
    → IsSafe default_retry_ms st.base
IsSetup-IsSafe snrf st h pairs =
    let both = λ (p : Ptr) (n : Node) (e : node_at st.base.nodes p ≡ some n).
      node_at-both st.base.sockets st.base.nodes p n h.attached pairs e in
    idle-IsSafe default_retry_ms st.base (omega arith)
      (record {
        apart = h.distinct.apart;
        each = λ p n e.
            let (attached, has) = both p n e in
            let (posted, pending) = attached.idle in
            record {
              old = h.distinct.old p n e;
              pairs = has;
              posted_apart = rw posted tt;
              pending_apart = rw pending tt;
            };
      })
      (λ p n e. (both p n e).0.idle) h.no_timers

module _ {H K : Type 0} (snrf : Snrf H) (server : Bytes → Bool) (cam : CamInfo → Bool)
    (sms : SmsLib K) (strtoul : Bytes → ℕ → ℕ) (mapped : Bytes → Option Bytes)
    (listing : Bytes → Option (List Bytes)) (fuel parser_mem : ℕ) (raw : Struct → Raw)
    (raw_fits : (s : Struct) → IsNodeInfo (raw s).node) (write : Ptr → ℕ → Bytes → Bool) (io : Io)
    (capture : ℕ) (info : LoopInfo)
    (writes : (p : Ptr) (addr : ℕ) (bytes : Bytes) → write p addr bytes ≡ true)
    (no_timer : info.timer_fn ≡ false) where
  -- On a base that `bano_open` has opened with success, from any file, `bano_start_loop` returns
  -- from any list of rounds without a step that the C language leaves undefined, and leaves the
  -- base safe as in `loop_rounds-IsSafeFor`, under its conditions on the memory, the writes, the
  -- reads, the timer of the loop and `select`, if no description of a node asks for text messages
  -- unless a structure for them has been applied with an address, if `bano_dict_init` got memory
  -- for the dictionary of each node, and if the address given and what uninitialized memory holds
  -- for a node fit.
  pub start_loop-bano_open :
      (m : Mem) (flags : ℕ) (addr : Option ℕ) (conf_path : Option Bytes) (key : Bytes)
      (st : Setup H) (k : ℕ) (rs : List Round)
      → ((a : ℕ) → addr ≡ some a → a < 2 ^ 32)
      → open_with snrf server cam sms strtoul mapped listing fuel parser_mem raw raw_fits m flags
          addr conf_path key
        ≡ returns (st, true)
      → HavePairs st.base.nodes
      → k + rounds_cost rs ≤ st.base.mem.left
      → Notifies st.base.sms_ready st.base.nodes
      → Behaves write io capture info writes no_timer (with_new_nodes info st.base) rs
      → (s : LoopState) × (start_loop write io capture info st.base rs ≡ some s)
        × IsSafeFor default_retry_ms k s.base
  unfolding start_loop
  start_loop-bano_open m flags addr conf_path key st k rs fits opened pairs mem notifies behaves =
      let h =
        bano_open-IsSetup snrf server cam sms strtoul mapped listing fuel parser_mem raw raw_fits m
          flags addr conf_path key st fits opened in
      let idle = no_posted st.base.sockets st.base.nodes h.attached in
      loop_rounds-IsSafeFor write io capture info writes no_timer k (with_new_nodes info st.base) rs
        behaves (IsSetup-IsSafe snrf st h pairs, omega (arith, mem, idle), notifies)
