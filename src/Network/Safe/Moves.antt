-- ===== src/Network/Safe/Moves.antt =====
-- A request of src/base/bano_base.c that leaves a place, or comes to one.
use bano.Base.{
  ℕ, ◌<◌, ◌≡◌, ◌⊎◌, ap, sym, ◌∙◌, true, false, Option, none, some, List, ◌==◌, has_bit, ==_iff,
  arith, Bool-cases, inl, inr,
}
use bano.Items.{Ptr}
use bano.Timers.{Timer, Target}
use bano.Network.{Cell, Node, Io, io_reply, put_io}
use bano.Network.Lookup.{put_io-same, put_io-other}
use bano.Network.Safe.{Place, cell_at, target_at, IsHeld, Leads, AreHeld}
use bano.Network.Safe.Clock.{Deleted}
use bano.Network.Safe.Cells.{Removed, Added}

-- No place has the request at `p`.
abbrev pub Unheld : List Node → Ptr → Type 0
Unheld ns p = (y : Place) (d : Cell) → cell_at ns y ≡ some d → (d.io == p) ≡ false

module _ (ms fresh : ℕ) (ns us : List Node) (ts : List Timer) (ios : Ptr → Option Io) (x : Place)
    (c : Cell) (h : AreHeld ms ns ts ios fresh) (in_x : cell_at ns x ≡ some c)
    (r : Removed ns us x) where
  -- No place has a request that has left.
  pub Removed-Unheld : Unheld us c.io
  Removed-Unheld y d e = elim (Bool-cases (d.io == c.io)) [
    | inr other ↦ other
    | inl same ↦
        let is_x = h.once y x d c (r.keeps y d e) in_x ((==_iff d.io c.io).0 same) in
        let gone : cell_at us y ≡ none = ap (cell_at us) is_x ∙ r.gone in cc (gone, e)
  ]

  module _ (o : Option Io) where
    pub posted_removed : x.waits ≡ false → AreHeld ms us ts (put_io ios c.io o) fresh
    posted_removed is_posted = record {
      held = λ y d e.
          let k = h.held y d (r.keeps y d e) in
          record {
            io = k.io;
            live = put_io-other ios c.io d.io o (Removed-Unheld y d e) ∙ k.live;
            mine = k.mine;
            time = k.time;
            old_cell = k.old_cell;
            old_io = k.old_io;
            timed = k.timed;
          };
      once = λ y z d f in_y in_z. h.once y z d f (r.keeps y d in_y) (r.keeps z f in_z);
      leads = λ t g e.
          let k = h.leads t g e in
          elim (r.others (record { waits = true; node = k.q; cell = k.a }) k.c k.there) [
            | inl is_x ↦
                let waits : true ≡ x.waits = ap (λ y. y.waits) is_x in cc (waits, is_posted)
            | inr stays ↦ record {
              q = k.q;
              a = k.a;
              c = k.c;
              io = k.io;
              there = stays;
              is_g = k.is_g;
              live =
                  put_io-other ios c.io k.c.io o
                    (Removed-Unheld (record { waits = true; node = k.q; cell = k.a }) k.c stays)
                  ∙ k.live;
              has_it = k.has_it;
              old = k.old;
            }
          ];
    }

    module _ (io : Io) (live : ios c.io ≡ some io) (waits : x.waits ≡ true) (s : ℕ)
        (vs : List Timer) (gone : Deleted s ts vs io.timer) where
      -- Another request has another timer.
      other_timer :
          (y : Place) (d : Cell) (jo : Io)
          → cell_at us y ≡ some d
          → y.waits ≡ true
          → ios d.io ≡ some jo
          → (jo.timer == io.timer) ≡ false
      other_timer y d jo e wait there = elim (Bool-cases (jo.timer == io.timer)) [
        | inr other ↦ other
        | inl same ↦
            let k = h.held x c in_x in
            let l = h.held y d (r.keeps y d e) in
            let is_io : k.io ≡ io = cc (k.live, live) in
            let is_jo : l.io ≡ jo = cc (l.live, there) in
            let equal : jo.timer ≡ io.timer = (==_iff jo.timer io.timer).0 same in
            let mine = rw is_io at (k.timed waits) in
            let its = rw (is_jo, equal) at (l.timed wait) in
            let is_x : y ≡ x = cc (mine, its, wait, waits) in
            let none_at : cell_at us y ≡ none = ap (cell_at us) is_x ∙ r.gone in cc (none_at, e)
      ]

      pub pending_removed : AreHeld ms us vs (put_io ios c.io o) fresh
      pending_removed = record {
        held = λ y d e.
            let k = h.held y d (r.keeps y d e) in
            record {
              io = k.io;
              live = put_io-other ios c.io d.io o (Removed-Unheld y d e) ∙ k.live;
              mine = k.mine;
              time = k.time;
              old_cell = k.old_cell;
              old_io = k.old_io;
              timed =
                  λ wait. gone.same k.io.timer (other_timer y d k.io e wait k.live) ∙ k.timed wait;
            };
        once = λ y z d f in_y in_z. h.once y z d f (r.keeps y d in_y) (r.keeps z f in_z);
        leads = λ t g e. elim (Bool-cases (t == io.timer)) [
          | inl same ↦
              let is_t : t ≡ io.timer = (==_iff t io.timer).0 same in
              let none_at : target_at vs t ≡ none = ap (target_at vs) is_t ∙ gone.gone in
              cc (none_at, e)
          | inr other ↦
              let k = h.leads t g (sym (gone.same t other) ∙ e) in
              elim (r.others (record { waits = true; node = k.q; cell = k.a }) k.c k.there) [
                | inl is_x ↦
                    let is_c : k.c ≡ c = cc (ap (cell_at ns) is_x, k.there, in_x) in
                    let at_c : ios k.c.io ≡ some io = ap (λ e. ios e.io) is_c ∙ live in
                    let is_io : k.io ≡ io = cc (k.live, at_c) in
                    let timer : io.timer ≡ t = sym (ap (λ e. e.timer) is_io) ∙ k.has_it in
                    ground (arith, other, timer)
                | inr stays ↦ record {
                  q = k.q;
                  a = k.a;
                  c = k.c;
                  io = k.io;
                  there = stays;
                  is_g = k.is_g;
                  live =
                      put_io-other ios c.io k.c.io o
                        (Removed-Unheld (record { waits = true; node = k.q; cell = k.a }) k.c stays)
                      ∙ k.live;
                  has_it = k.has_it;
                  old = k.old;
                }
              ]
        ];
      }

module _ (ms fresh : ℕ) (ns us : List Node) (ts vs : List Timer) (ios : Ptr → Option Io) (x : Place)
    (c : Cell) (io : Io) (h : AreHeld ms ns ts ios fresh) (r : Added ns us x c)
    (free : Unheld ns c.io) (mine : io.node ≡ x.node)
    (time : has_bit io_reply io.flags ≡ true → io.retry_ms ≡ ms) (old_cell : x.cell < fresh)
    (old_io : c.io < fresh)
    (same : (t : Ptr) (g : Option Target) → target_at ts t ≡ some g → target_at vs t ≡ some g)
    (timed : x.waits ≡ true
      → target_at vs io.timer ≡ some (some (record { node = x.node; cell = some x.cell })))
    (new : (t : Ptr) (g : Option Target)
      → target_at vs t ≡ some g
      → Leads us (put_io ios c.io (some io)) fresh t g ⊎ (target_at ts t ≡ some g)) where
  pub added-AreHeld : AreHeld ms us vs (put_io ios c.io (some io)) fresh
  added-AreHeld = record {
    held = λ y d e. elim (r.new y d e) [
      | inl in_y ↦
          let k = h.held y d in_y in
          record {
            io = k.io;
            live = put_io-other ios c.io d.io (some io) (free y d in_y) ∙ k.live;
            mine = k.mine;
            time = k.time;
            old_cell = k.old_cell;
            old_io = k.old_io;
            timed = λ wait. same k.io.timer _ (k.timed wait);
          }
      | inr (is_x, is_c) ↦ rw (is_x, is_c) here
    ];
    once = λ y z d f in_y in_z eq. elim (r.new y d in_y) [
      | inl old_y ↦ elim (r.new z f in_z) [
        | inl old_z ↦ h.once y z d f old_y old_z eq
        | inr (is_x, is_c) ↦ ground (arith, free y d old_y, eq, ap (λ e. e.io) is_c)
      ]
      | inr (is_x, is_c) ↦ elim (r.new z f in_z) [
        | inl old_z ↦ ground (arith, free z f old_z, eq, ap (λ e. e.io) is_c)
        | inr (is_x2, is_c2) ↦ is_x ∙ sym is_x2
      ]
    ];
    leads = λ t g e. elim (new t g e) [
      | inl k ↦ k
      | inr old ↦
          let k = h.leads t g old in
          let y : Place = record { waits = true; node = k.q; cell = k.a } in
          record {
            q = k.q;
            a = k.a;
            c = k.c;
            io = k.io;
            there = r.keeps y k.c k.there;
            is_g = k.is_g;
            live = put_io-other ios c.io k.c.io (some io) (free y k.c k.there) ∙ k.live;
            has_it = k.has_it;
            old = k.old;
          }
    ];
  }
    where
      here : IsHeld ms vs (put_io ios c.io (some io)) fresh x c
      here = record {
        io = io;
        live = put_io-same ios c.io (some io);
        mine = mine;
        time = time;
        old_cell = old_cell;
        old_io = old_io;
        timed = timed;
      }
