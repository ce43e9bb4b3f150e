-- ===== src/Tests/Program.antt =====
-- The program asked to set the value of a key on the only node.
use bano.Base.{ℕ, ◌≡◌, ◌%◌, ◌^◌, refl, false, none, some, List, [], ◌∷◌, Bytes, codes}
use bano.Cipher.{alg_none}
use bano.Dict.{take_mem}
use bano.Config.Nodls.{same_text}
use bano.Message.{op_set}
use bano.Timers.{malloc}
use bano.Network.{Node, Io, BanoBase, node_at}
use bano.Program.{Job, str_to_uint32, args_job, on_node}
use bano.Program.Posted.{set_args, Posts, set_args-Posts}

abbrev raw : Io
raw = record {
  node = 0;
  flags = 0;
  timer = 0;
  retry_ms = 0;
  retry_count = 0;
  compl_err = 0;
  compl_val = 0;
  compl_fn = none;
  msg = record { op = 0; flags = 0; saddr = 0; csum = 0; token = 0; key = 0; val = 0 };
}

abbrev node : Node
node = record {
  at = 10;
  flags = 0;
  addr = 7;
  name = [];
  socket = 11;
  nodl = none;
  posted_ios = [];
  pending_ios = [];
  keyval_pairs = none;
}

abbrev base : BanoBase
base = record {
  flags = 0;
  nodes = node ∷ [];
  sockets = 11 ∷ [];
  timers = [];
  nodls = record { lists = []; log2_nlist = 3 };
  cipher = record { alg = alg_none; key = [] };
  addr = 0;
  mem = record { left = 2; fresh = 100 };
  sms_ready = false;
  ios = λ p. none;
  events = [];
}

-- Reads every text as 7.
abbrev seven : Bytes → ℕ → ℕ
seven s base_of = 7

abbrev arguments : List Bytes
arguments = set_args (codes "7") (codes "7") (codes "7") (codes "1")

found : node_at base.nodes 10 ≡ some node
unfolding node_at
found = refl

for_io : malloc base.mem ≡ some (100, record { left = 1; fresh = 101 })
unfolding malloc take_mem
for_io = refl

for_cell : malloc (record { left = 1; fresh = 101 }) ≡ some (101, record { left = 0; fresh = 102 })
unfolding malloc take_mem
for_cell = refl

address : 7 ≡ str_to_uint32 seven (codes "7")
unfolding str_to_uint32
address = refl

set_args-Posts_example :
    (job : Job) × (args_job seven arguments ≡ some job)
    × Posts raw 40 base 10 100 101 node
        (record { left = 1; fresh = 101 })
        (record { left = 0; fresh = 102 })
        found
        for_io
        for_cell
        op_set
        (str_to_uint32 seven (codes "7") % 2 ^ 16)
        (str_to_uint32 seven (codes "7"))
        (same_text (codes "1") (codes "1"))
        (on_node raw 40 job base 10)
set_args-Posts_example =
    set_args-Posts raw 40 base 10 100 101 node (record { left = 1; fresh = 101 })
      (record { left = 0; fresh = 102 }) found for_io for_cell seven (codes "7") (codes "7")
      (codes "7") (codes "1") address
