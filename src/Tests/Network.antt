-- ===== src/Tests/Network.antt =====
-- The requests of src/base/bano_base.c to a single node.
use bano.Base.{
  ℕ, ◌≡◌, ◌<◌, ◌+◌, ◌^◌, codes, ◌==◌, Bool-cases, inl, inr, refl, Bool, true, false, none, some, [],
  ◌∷◌, Bytes, arith, if◌then◌else◌,
}
use bano.Items.{Ptr}
use bano.Cipher.{alg_none}
use bano.Dict.{Dict, init_with_nlist, dict_get, take_mem}
use bano.Dict.Wf.{IsDict}
use bano.Dict.Init.{init_with_nlist-IsDict}
use bano.Message.Wire.{IsMsg}
use bano.Network.Exchange.{SameCipher, plain, IsOldest}
use bano.Network.Exchange.Answered.{Board, IsReady, Exchanged, exchange_set, exchange_get}
use bano.Message.{op_get, Msg, op_set}
use bano.Nodl.{Keyval, Nodl, flag_notif, find_keyval_item, find_in_lists, nodl_find_key}
use bano.Timers.{malloc, Timer}
use bano.Network.{
  NodeVal, Cell, Node, Io, LoopInfo, BanoBase, put_io, put_node, node_at, bano_post_io,
  find_node_by_addr,
}
use bano.Network.Receive.{cmp_pending_io, answer, handle_set_msg}
use bano.Network.Stored.{Stored, any_key, described, handle_set_msg-Stored}
use bano.Network.Answers.{completion, answer-completes}
use bano.Network.Balance.{AllHaveFn, IsBalanced}
use bano.Network.Balance.Runs.{Run, asks, stop, next, Run-IsBalanced}
use bano.Network.Loop.{loop_rounds}
use bano.Network.Retry.{posted, going, unanswered}
use bano.Network.Retry.GivenUp.{GivenUp, loop_rounds-GivenUp}

abbrev pub values :
    (d : Dict NodeVal) × (init_with_nlist 1 3 ≡ some (0, d))
    × IsDict d
    × ((k : ℕ) → dict_get d k ≡ none)
values = init_with_nlist-IsDict 0 3 (omega arith)

abbrev message : Msg
message = record { op = op_set; flags = 0; saddr = 5; csum = 0; token = 0; key = 7; val = 1 }

abbrev cell : Cell
cell = record { at = 20; io = 21 }

abbrev pub node : Node
node = record {
  at = 10;
  flags = 0;
  addr = 5;
  name = [];
  socket = 11;
  nodl = none;
  posted_ios = [];
  pending_ios = cell ∷ [];
  keyval_pairs = some values.0;
}

abbrev pub request : Io
request = record {
  node = 10;
  flags = 1;
  timer = 30;
  retry_ms = 1700;
  retry_count = 3;
  compl_err = 0;
  compl_val = 0;
  compl_fn = some 40;
  msg = message;
}

abbrev timer : Timer
timer = record {
  at = 30;
  rel_ms = 1700;
  target = some (record { node = 10; cell = some 20 });
  linked = true;
}

abbrev pub base : BanoBase
base = record {
  flags = 0;
  nodes = node ∷ [];
  sockets = 11 ∷ [];
  timers = timer ∷ [];
  nodls = record { lists = []; log2_nlist = 3 };
  cipher = record { alg = alg_none; key = [] };
  addr = 0;
  sms_ready = false;
  mem = record { left = 100; fresh = 50 };
  ios = λ p. if p == 21 then some request else none;
  events = [];
}

abbrev pub info : LoopInfo
info = record { set_fn = true; get_fn = true; node_fn = true; timer_fn = false; timer_ms = 0 }

-- A description that asks for a text message, on a base that can send it
abbrev bell : Keyval
bell = record { flags = 2 ^ flag_notif; name = codes "bell"; key = 7 }

abbrev bells : Nodl
bells = record { lists = (record { key = 7; val = bell } ∷ []) ∷ []; log2_nlist = 0 }

abbrev bell_node : Node
bell_node = record node { nodl = some bells }

abbrev with_bell : BanoBase
with_bell = record base { nodes = bell_node ∷ []; sms_ready = true }

handle_set_msg-Stored_example :
    (c : BanoBase) × (handle_set_msg info with_bell 1000 message bell_node ≡ some c)
    × Stored bell_node values.0 7 (record { val = 1; mtime = 1000 }) c
unfolding node_at nodl_find_key find_in_lists find_keyval_item
handle_set_msg-Stored_example =
    handle_set_msg-Stored info with_bell 1000 message bell_node values.0 refl refl values.2
      (omega arith) refl refl (described bells bell refl refl (λ e. refl))

answer-completes_example :
    answer base message node
    ≡ some (record base {
      nodes = put_node base.nodes (record node { pending_ios = [] });
      timers = [];
      ios = put_io base.ios 21 none;
      events = completion message request [];
    })
unfolding cmp_pending_io
answer-completes_example =
    answer-completes base message node cell request [] [] timer [] [] refl tt refl refl refl
      (refl, tt) refl refl

abbrev writes : Ptr → ℕ → Bytes → Bool
writes p addr bytes = p == 11

loop_rounds-GivenUp_example :
    (g : GivenUp writes request 0 info base node cell request 3) × (loop_rounds writes request 0
        info
        (posted base node cell)
        none
        (unanswered 0 (record { tv_sec = 1; tv_usec = 0 }) 3)
      ≡ some (going g.after))
loop_rounds-GivenUp_example =
    loop_rounds-GivenUp writes request 0 info 3 base node cell request 0
      (record { tv_sec = 1; tv_usec = 0 })
      (record { live = refl; mine = refl; reply = refl; fits = omega arith }) refl (omega arith)
      refl refl

abbrev asked_node : Node
asked_node = record node { posted_ios = record { at = 50; io = 60 } ∷ [] }

abbrev asked : BanoBase
asked = record base {
  mem = record { left = 99; fresh = 51 };
  nodes = asked_node ∷ [];
  ios = put_io (put_io base.ios 60 (some request)) 60 (some request);
}

base-AllHaveFn : AllHaveFn base.ios
base-AllHaveFn p io e = elim (Bool-cases (p == 21)) [
  | inl same ↦ let is_io : request ≡ io = cc (rw same at e) in (40, rw (← is_io) refl)
  | inr other ↦ cc (rw other at e)
]

asks-Run : Run writes info 1 base asked
unfolding bano_post_io malloc take_mem node_at put_io put_node
asks-Run = next (asks 10 60 request 40 refl refl) stop

Run-IsBalanced_example : IsBalanced 1 base asked
Run-IsBalanced_example = Run-IsBalanced writes info asks-Run base-AllHaveFn

no_cipher : SameCipher 5 false (λ p. p) (λ p. p) base.cipher node.flags
no_cipher = plain refl refl

node-IsReady : IsReady base node 7 5
unfolding find_node_by_addr node_at
node-IsReady = record {
  by_addr = refl;
  at_n = refl;
  is_addr = refl;
  addr_fits = omega arith;
  pairs = values.0;
  has_pairs = refl;
  has_mem = omega arith;
  knows = any_key refl;
}

abbrev question : Io
question = record request { msg = record message { op = op_get } }

abbrev asking : BanoBase
asking = record base { ios = λ p. if p == 21 then some question else none }

asking-IsReady : IsReady asking node 7 5
unfolding find_node_by_addr node_at
asking-IsReady = record {
  by_addr = refl;
  at_n = refl;
  is_addr = refl;
  addr_fits = omega arith;
  pairs = values.0;
  has_pairs = refl;
  has_mem = omega arith;
  knows = any_key refl;
}

request-IsOldest : IsOldest base node cell request
request-IsOldest = record {
  rest = [];
  is_first = refl;
  live = refl;
  timer = timer;
  before = [];
  behind = [];
  is_timers = refl;
  linked = (refl, tt);
  not_before = refl;
  is_timer = refl;
}

question-IsOldest : IsOldest asking node cell question
question-IsOldest = record {
  rest = [];
  is_first = refl;
  live = refl;
  timer = timer;
  before = [];
  behind = [];
  is_timers = refl;
  linked = (refl, tt);
  not_before = refl;
  is_timer = refl;
}

message-IsMsg : (o : ℕ) → o < 4 → IsMsg (record message { op = o })
message-IsMsg o h = record {
  op_fits = h;
  flags_fits = omega arith;
  saddr_fits = omega arith;
  csum_fits = omega arith;
  token_fits = omega arith;
  key_fits = omega arith;
  val_fits = omega arith;
}

abbrev sets : ℕ → ℕ → ℕ
sets key val = 1

abbrev gets : ℕ → ℕ × ℕ
gets key = (0, key + 1)

abbrev board : Board
board = record {
  node_addr = 5;
  has_cipher = false;
  enc = λ p. p;
  dec = λ p. p;
  set_handler = sets;
  get_handler = gets;
}

exchange_set_example : Exchanged board info base 1000 11 node cell request 40 1
exchange_set_example =
    exchange_set board info base 1000 11 node cell request 40 node-IsReady no_cipher
      request-IsOldest refl (message-IsMsg 0 (omega arith)) refl refl refl refl

exchange_get_example : Exchanged board info asking 1000 11 node cell question 40 8
exchange_get_example =
    exchange_get board info asking 1000 11 node cell question 40 asking-IsReady no_cipher
      question-IsOldest refl (message-IsMsg 1 (omega arith)) refl (omega arith) refl refl
