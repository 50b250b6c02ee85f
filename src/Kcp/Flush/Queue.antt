-- ===== src/Kcp/Flush/Queue.antt =====
-- Moving segments from Snd_queue into Snd_buf.
use golang_tools.Base.{
  ℕ, zero, suc, ◌+◌, ◌-◌, ◌%◌, ◌^◌, ◌≤◌, ◌<◌, ◌≡◌, refl, sym, ap, ◌∙◌, arith, List, [], ◌∷◌, ◌++◌,
  length, drop, append_assoc, append-nil, lt→ltb, le→ltb,
}
use golang_tools.Base.Word.{sub32}
use golang_tools.Kcp.Define.{Segment, Kcp}
use golang_tools.Kcp.Flush.{stamped, move_queue}

-- The first `m` segments of the queue as they enter the buffer, numbered from `n` on.
unfoldable pub entering : ℕ → Kcp → ℕ → ℕ → List Segment → List Segment
entering wnd k n zero segs = []
entering wnd k n (suc m) [] = []
entering wnd k n (suc m) (seg ∷ segs) =
    record (stamped wnd k seg) { sn = n } ∷ entering wnd k (n + 1) m segs

-- The number of segments that move: as many as there are and as the window has room for.
unfoldable pub moving : List Segment → ℕ → ℕ
moving [] room = 0
moving (seg ∷ segs) zero = 0
moving (seg ∷ segs) (suc room) = suc (moving segs room)

abbrev pub moved : ℕ → ℕ → List Segment → Kcp → Kcp
moved wnd m segs k = record k {
  snd_buf = k.snd_buf ++ entering wnd k k.snd_nxt m segs;
  snd_queue = drop m segs;
  nsnd_que = length (drop m segs) % 2 ^ 32;
  nsnd_buf = (k.nsnd_buf + m) % 2 ^ 32;
  snd_nxt = k.snd_nxt + m;
}

abbrev one_moved : ℕ → Segment → List Segment → Kcp → Kcp
one_moved wnd seg segs k = record k {
  snd_buf = k.snd_buf ++ (stamped wnd k seg ∷ []);
  snd_queue = segs;
  nsnd_que = length segs % 2 ^ 32;
  nsnd_buf = (k.nsnd_buf + 1) % 2 ^ 32;
  snd_nxt = k.snd_nxt + 1;
}

move_one_step :
    (cwnd wnd : ℕ) (seg : Segment) (segs : List Segment) (k : Kcp)
    → k.nsnd_que ≡ length (seg ∷ segs) % 2 ^ 32
    → k.snd_nxt < k.snd_una + cwnd
    → k.snd_una + cwnd < 2 ^ 32
    → move_queue cwnd wnd (seg ∷ segs) k ≡ move_queue cwnd wnd segs (one_moved wnd seg segs k)
unfolding move_queue
move_one_step cwnd wnd seg segs k counted room small =
    let limit : (k.snd_una + cwnd) % 2 ^ 32 ≡ k.snd_una + cwnd = omega arith in
    let fewer : sub32 k.nsnd_que 1 ≡ length segs % 2 ^ 32 = omega arith in
    let next : (k.snd_nxt + 1) % 2 ^ 32 ≡ k.snd_nxt + 1 = omega arith in
    rw (limit, lt→ltb k.snd_nxt (k.snd_una + cwnd) room, fewer, next)

move_queue_full :
    (cwnd wnd : ℕ) (segs : List Segment) (k : Kcp)
    → k.snd_una + cwnd ≤ k.snd_nxt
    → k.snd_una + cwnd < 2 ^ 32
    → move_queue cwnd wnd segs k ≡ k
unfolding move_queue
move_queue_full cwnd wnd [] k full small = refl
move_queue_full cwnd wnd (seg ∷ segs) k full small =
    let limit : (k.snd_una + cwnd) % 2 ^ 32 ≡ k.snd_una + cwnd = omega arith in
    rw (limit, le→ltb k.snd_nxt (k.snd_una + cwnd) full)

moved_none :
    (wnd : ℕ) (segs : List Segment) (k : Kcp)
    → k.snd_queue ≡ segs
    → k.nsnd_que ≡ length segs % 2 ^ 32
    → k.nsnd_buf < 2 ^ 32
    → k ≡ moved wnd 0 segs k
unfolding entering
moved_none wnd segs k e counted small =
    let buf_count : (k.nsnd_buf + 0) % 2 ^ 32 ≡ k.nsnd_buf = omega arith in
    let nxt : k.snd_nxt + 0 ≡ k.snd_nxt = omega arith in
    λ i. record k {
      snd_buf = sym (append-nil k.snd_buf) i;
      snd_queue = e i;
      nsnd_que = counted i;
      nsnd_buf = sym buf_count i;
      snd_nxt = sym nxt i;
    }

entering-one_moved :
    (wnd n m : ℕ) (x : Segment) (xs segs : List Segment) (k : Kcp)
    → entering wnd (one_moved wnd x xs k) n m segs ≡ entering wnd k n m segs
unfolding entering
entering-one_moved wnd n zero x xs segs k = refl
entering-one_moved wnd n (suc m) x xs [] k = refl
entering-one_moved wnd n (suc m) x xs (seg ∷ segs) k =
    ap (◌∷◌ (record (stamped wnd k seg) { sn = n })) (entering-one_moved wnd (n + 1) m x xs segs k)

moved_cons :
    (wnd m : ℕ) (seg : Segment) (segs : List Segment) (k : Kcp)
    → moved wnd m segs (one_moved wnd seg segs k) ≡ moved wnd (suc m) (seg ∷ segs) k
unfolding entering
moved_cons wnd m seg segs k =
    let count : ((k.nsnd_buf + 1) % 2 ^ 32 + m) % 2 ^ 32 ≡ (k.nsnd_buf + suc m) % 2 ^ 32 =
      omega arith in
    let nxt : k.snd_nxt + 1 + m ≡ k.snd_nxt + suc m = omega arith in
    λ i. record k {
      snd_buf = entered i;
      snd_queue = drop m segs;
      nsnd_que = length (drop m segs) % 2 ^ 32;
      nsnd_buf = count i;
      snd_nxt = nxt i;
    }
  where
    entered :
        (k.snd_buf ++ (stamped wnd k seg ∷ []))
          ++ entering wnd (one_moved wnd seg segs k) (k.snd_nxt + 1) m segs
        ≡ k.snd_buf ++ (stamped wnd k seg ∷ entering wnd k (k.snd_nxt + 1) m segs)
    entered =
        rw (entering-one_moved wnd (k.snd_nxt + 1) m seg segs segs k)
          (append_assoc k.snd_buf (stamped wnd k seg ∷ []) (entering wnd k (k.snd_nxt + 1) m segs))

move_queue-moved_lem :
    (cwnd wnd room : ℕ) (segs : List Segment) (k : Kcp)
    → k.snd_queue ≡ segs
    → k.nsnd_que ≡ length segs % 2 ^ 32
    → k.nsnd_buf < 2 ^ 32
    → k.snd_una + cwnd < 2 ^ 32
    → room ≡ k.snd_una + cwnd - k.snd_nxt
    → move_queue cwnd wnd segs k ≡ moved wnd (moving segs room) segs k
unfolding moving
move_queue-moved_lem cwnd wnd room [] k e counted buf small hr =
    unfold move_queue in moved_none wnd [] k e counted buf
move_queue-moved_lem cwnd wnd zero (seg ∷ segs) k e counted buf small hr =
    move_queue_full cwnd wnd (seg ∷ segs) k (omega arith) small
    ∙ moved_none wnd (seg ∷ segs) k e counted buf
move_queue-moved_lem cwnd wnd (suc room) (seg ∷ segs) k e counted buf small hr =
    move_one_step cwnd wnd seg segs k counted (omega arith) small
    ∙ move_queue-moved_lem cwnd wnd room segs (one_moved wnd seg segs k) refl refl (omega arith)
        small (omega arith)
    ∙ moved_cons wnd (moving segs room) seg segs k

-- If Nsnd_que counts Snd_queue, and Nsnd_buf and the window's end fit 32 bits, the loop moves as many
-- segments as the queue has and the sending window leaves room for. They enter Snd_buf in order and
-- numbered from Snd_nxt on. The rest of the queue stays, the counters and Snd_nxt keep up, and
-- nothing else changes.
pub move_queue-moved :
    (cwnd wnd : ℕ) (k : Kcp)
    → k.nsnd_que ≡ length k.snd_queue % 2 ^ 32
    → k.nsnd_buf < 2 ^ 32
    → k.snd_una + cwnd < 2 ^ 32
    → move_queue cwnd wnd k.snd_queue k
      ≡ moved wnd (moving k.snd_queue (k.snd_una + cwnd - k.snd_nxt)) k.snd_queue k
move_queue-moved cwnd wnd k counted buf small =
    move_queue-moved_lem cwnd wnd _ k.snd_queue k refl counted buf small refl

moving-le : (segs : List Segment) (room : ℕ) → moving segs room ≤ room
unfolding moving
moving-le [] room = omega arith
moving-le (seg ∷ segs) zero = omega arith
moving-le (seg ∷ segs) (suc room) = omega (arith, moving-le segs room)

-- Under the same conditions, if Snd_nxt is not beyond the sending window, it is not beyond it after
-- the loop.
pub move_queue_window :
    (cwnd wnd : ℕ) (k : Kcp)
    → k.nsnd_que ≡ length k.snd_queue % 2 ^ 32
    → k.nsnd_buf < 2 ^ 32
    → k.snd_una + cwnd < 2 ^ 32
    → k.snd_nxt ≤ k.snd_una + cwnd
    → (move_queue cwnd wnd k.snd_queue k).snd_nxt ≤ k.snd_una + cwnd
move_queue_window cwnd wnd k counted buf small within =
    rw (move_queue-moved cwnd wnd k counted buf small)
      (omega (arith, moving-le k.snd_queue (k.snd_una + cwnd - k.snd_nxt)))
