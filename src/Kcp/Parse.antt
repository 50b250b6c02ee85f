-- ===== src/Kcp/Parse.antt =====
-- kcp/parse.go: what the fields of a received segment do to the buffers of the connection.
pub mod Deletion
pub mod Una
pub mod Receive
pub mod Ends
pub mod Ack
pub mod Rto
use golang_tools.Base.{
  ℕ, zero, suc, ltb, leb, ◌==◌, if◌then◌else◌, Bool, true, false, ◌&&◌, ◌||◌, none, some, List, [],
  ◌∷◌, ◌++◌, length, get_elem?, set,
}
use golang_tools.Base.Int.{ℤ, pos, ◌+ℤ◌, ◌-ℤ◌, ◌*ℤ◌, quot, ltb_ℤ}
use golang_tools.Base.Word.{add32, sub32, mul32, wrap32, signed32}
use golang_tools.Base.Run.{Run, done, panic, stuck, after, index_out_of_range, slice_out_of_range}
use golang_tools.Base.Slice.{Slice, of_list, shown, delete_at}
use golang_tools.Compare.{min_int32, max_int32}
use golang_tools.Kcp.Define.{Segment, Kcp, rto_max}

-- Snd_buf and its counter while a loop walks the buffer.
pub record SndBuf : Type 0 where
  pub items : Slice Segment
  pub nsnd_buf : ℕ

abbrev pub open_snd_buf : Kcp → SndBuf
open_snd_buf k = record { items = of_list k.snd_buf; nsnd_buf = k.nsnd_buf }

abbrev pub close_snd_buf : Kcp → SndBuf → Kcp
close_snd_buf k b = record k { snd_buf = shown b.items; nsnd_buf = b.nsnd_buf }

-- Runs a loop over Snd_buf inside the connection.
abbrev pub on_snd_buf : Kcp → Run SndBuf (Unit {0}) → Run Kcp (Unit {0})
on_snd_buf k (done b x) = done (close_snd_buf k b) x
on_snd_buf k (panic e b) = panic e (close_snd_buf k b)
on_snd_buf k stuck = stuck

-- `kcp.Snd_buf = append(kcp.Snd_buf[:i], kcp.Snd_buf[i+1:]...); kcp.Nsnd_buf--`
abbrev pub delete_snd : ℕ → SndBuf → Run SndBuf (Unit {0})
delete_snd i b = elim (delete_at i b.items) [
  | none ↦ panic slice_out_of_range b
  | some s ↦ done (record { items = s; nsnd_buf = sub32 b.nsnd_buf 1 }) tt
]

-- The loop of Parse_Una: `rounds` iterations are left, the next at index `i`.
unfoldable pub una_loop : ℕ → ℕ → ℕ → SndBuf → Run SndBuf (Unit {0})
una_loop una zero i b = done b tt
una_loop una (suc rounds) i b = elim (get_elem? b.items.array i) [
  | none ↦ panic index_out_of_range b
  | some seg ↦
      after (if ltb seg.sn una then delete_snd i b else done b tt)
        (λ b' _. una_loop una rounds (suc i) b')
]

unfoldable pub parse_una : ℕ → Kcp → Run Kcp (Unit {0})
parse_una una k = on_snd_buf k (una_loop una (length k.snd_buf) 0 (open_snd_buf k))

-- Shrink_Buf reads the field Una of the first buffered segment.
unfoldable pub shrink_buf : Kcp → Kcp
shrink_buf k = elim k.snd_buf [
  | [] ↦ record k { snd_una = k.snd_nxt }
  | seg ∷ _ ↦ record k { snd_una = seg.una }
]

-- The new Rx_rttval and Rx_srtt of Update_Ack. `delta -= delta` leaves zero.
unfoldable pub smooth : ℤ → ℤ → ℤ → ℤ × ℤ
smooth rttval srtt rtt =
    if ltb_ℤ srtt (pos 0) || ltb_ℤ (pos 0) srtt
    then (let d = wrap32 (rtt -ℤ srtt) in
        let delta = (if ltb_ℤ d (pos 0) then wrap32 (d -ℤ d) else d) in
        let rttval' = quot (wrap32 (wrap32 (pos 3 *ℤ srtt) +ℤ delta)) 4 in
        let srtt' = quot (wrap32 (wrap32 (pos 7 *ℤ srtt) +ℤ rtt)) 8 in
        (rttval', (if ltb_ℤ srtt' (pos 1) then pos 1 else srtt')))
    else (quot rtt 2, rtt)

-- Rx_rto from the smoothed values: held between Rx_minrto and IKCP_RTO_MAX.
unfoldable pub clamp_rto : ℤ → ℕ → ℤ → ℤ → ℤ
clamp_rto minrto interval rttval srtt =
    let rto = wrap32 (srtt +ℤ max_int32 (signed32 interval) (wrap32 (pos 4 *ℤ rttval))) in
    min_int32 (max_int32 minrto rto) (pos rto_max)

unfoldable pub update_ack : ℤ → Kcp → Kcp
update_ack rtt k =
    let (rttval, srtt) = smooth k.rx_rttval k.rx_srtt rtt in
    record k {
      rx_rttval = rttval;
      rx_srtt = srtt;
      rx_rto = clamp_rto k.rx_minrto k.interval rttval srtt;
    }

-- The loop of Parse_Ack, with its two breaks.
unfoldable pub ack_loop : ℕ → ℕ → ℕ → SndBuf → Run SndBuf (Unit {0})
ack_loop sn zero i b = done b tt
ack_loop sn (suc rounds) i b = elim (get_elem? b.items.array i) [
  | none ↦ panic index_out_of_range b
  | some seg ↦
      let rest = ack_loop sn rounds (suc i) b in
      if sn == seg.sn then delete_snd i b else if ltb sn seg.sn then done b tt else rest
]

unfoldable pub parse_ack : ℕ → Kcp → Run Kcp (Unit {0})
parse_ack sn k =
    if ltb sn k.snd_una || leb k.snd_nxt sn
    then done k tt
    else on_snd_buf k (ack_loop sn (length k.snd_buf) 0 (open_snd_buf k))

-- `kcp.AckList[i] = x`
abbrev pub write_ack : ℕ → ℕ → Kcp → Run Kcp (Unit {0})
write_ack i x k =
    if ltb i (length k.ack_list)
    then done (record k { ack_list = set k.ack_list i x }) tt
    else panic index_out_of_range k

unfoldable pub ack_push : ℕ → ℕ → Kcp → Run Kcp (Unit {0})
ack_push sn ts k = after (write_ack (mul32 k.ack_count 2) sn k) (λ k' _.
    after (write_ack (add32 (mul32 k.ack_count 2) 1) ts k')
      (λ k'' _. done (record k'' { ack_count = add32 k.ack_count 1 }) tt))

-- The search for a repeated number in Parse_Data: it ends at a smaller number.
unfoldable pub is_repeat : ℕ → List Segment → Bool
is_repeat sn [] = false
is_repeat sn (seg ∷ segs) =
    let rest = is_repeat sn segs in
    if seg.sn == sn then true else if ltb seg.sn sn then false else rest

-- Rcv_buf, Rcv_queue and their counters while Parse_Data moves segments.
pub record RcvBuf : Type 0 where
  pub items : Slice Segment
  pub nrcv_buf : ℕ
  pub rcv_queue : List Segment
  pub nrcv_que : ℕ
  pub rcv_nxt : ℕ

abbrev pub close_rcv_buf : Kcp → RcvBuf → Kcp
close_rcv_buf k b = record k {
  rcv_buf = shown b.items;
  nrcv_buf = b.nrcv_buf;
  rcv_queue = b.rcv_queue;
  nrcv_que = b.nrcv_que;
  rcv_nxt = b.rcv_nxt;
}

abbrev pub on_rcv_buf : Kcp → Run RcvBuf (Unit {0}) → Run Kcp (Unit {0})
on_rcv_buf k (done b x) = done (close_rcv_buf k b) x
on_rcv_buf k (panic e b) = panic e (close_rcv_buf k b)
on_rcv_buf k stuck = stuck

-- The body of the moving loop. The queue has the segment before the deletion can panic.
abbrev pub move_one : Segment → ℕ → RcvBuf → Run RcvBuf (Unit {0})
move_one seg i b =
    let queue = b.rcv_queue ++ (seg ∷ []) in
    elim (delete_at i b.items) [
      | none ↦ panic slice_out_of_range (record b { rcv_queue = queue })
      | some s ↦
          done
            (record {
              items = s;
              nrcv_buf = sub32 b.nrcv_buf 1;
              rcv_queue = queue;
              nrcv_que = add32 b.nrcv_que 1;
              rcv_nxt = add32 b.rcv_nxt 1;
            })
            tt
    ]

unfoldable pub move_loop : ℕ → ℕ → ℕ → RcvBuf → Run RcvBuf (Unit {0})
move_loop wnd zero i b = done b tt
move_loop wnd (suc rounds) i b = elim (get_elem? b.items.array i) [
  | none ↦ panic index_out_of_range b
  | some seg ↦
      let next = after (move_one seg i b) (λ b' _. move_loop wnd rounds (suc i) b') in
      if seg.sn == b.rcv_nxt && ltb b.nrcv_que wnd then next else done b tt
]

-- Rcv_buf with the new segment at its end.
abbrev pub open_rcv_buf : Segment → Kcp → RcvBuf
open_rcv_buf seg k = record {
  items = of_list (k.rcv_buf ++ (seg ∷ []));
  nrcv_buf = add32 k.nrcv_buf 1;
  rcv_queue = k.rcv_queue;
  nrcv_que = k.nrcv_que;
  rcv_nxt = k.rcv_nxt;
}

unfoldable pub parse_data : Segment → Kcp → Run Kcp (Unit {0})
parse_data seg k =
    if leb (add32 k.rcv_nxt k.rcv_wnd) seg.sn || ltb seg.sn k.rcv_nxt
    then done k tt
    else if is_repeat seg.sn k.rcv_buf
    then done k tt
    else on_rcv_buf k
        (move_loop k.rcv_wnd (length (k.rcv_buf ++ (seg ∷ []))) 0 (open_rcv_buf seg k))

-- The copies that the loop of Parse_Faskack works on, with FastACK counted up.
unfoldable pub bump_copies : ℕ → List Segment → List Segment
bump_copies sn [] = []
bump_copies sn (seg ∷ segs) =
    if ltb sn seg.sn
    then seg ∷ segs
    else (if sn == seg.sn then seg else record seg { fast_ack = add32 seg.fast_ack 1 })
      ∷ bump_copies sn segs

-- The copies are dropped: `for _, seg := range` hands the loop copies, not the buffer's elements.
unfoldable pub parse_fastack : ℕ → ℕ → Kcp → Kcp
parse_fastack sn ts k =
    if ltb sn k.snd_una || leb k.snd_nxt sn then k else (let copies = bump_copies sn k.snd_buf in k)
