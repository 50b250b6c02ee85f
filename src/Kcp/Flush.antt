-- ===== src/Kcp/Flush.antt =====
-- Flush of kcp/kcp.go: acknowledgements, window probes, and the segments that are due.
pub mod Probe
pub mod Queue
pub mod Windows
pub mod Outcome
use Prim.Native.Nat.{bit_or}
use golang_tools.Base.{
  ℕ, zero, suc, ◌+◌, ◌*◌, ◌/◌, ltb, leb, ◌==◌, if◌then◌else◌, ◌||◌, not, List, [], ◌∷◌, ◌++◌,
  length, get_elem?, none, some,
}
use golang_tools.Base.Int.{pos, negsuc, ltb_ℤ}
use golang_tools.Base.Word.{add32, sub32, mul32, to_u32}
use golang_tools.Base.Run.{Run, done, panic, stuck, M, after, index_out_of_range, nil_call}
use golang_tools.Compare.{max_uint32, min_uint32}
use golang_tools.Kcp.Define.{
  Segment, zero_segment, Kcp, overhead, cmd_ack, cmd_push, cmd_wask, cmd_wins, ask_send, ask_tell,
  probe_init, probe_limit, thresh_min,
}
use golang_tools.Kcp.Seg.{encode}
use golang_tools.Kcp.Due.{Plan, new_plan, judge}

-- The variable outputBuffer, and the buffers that Output was called with. The callback is taken
-- not to change the connection.
pub record Flushing : Type 0 where
  pub kcp : Kcp
  pub buffer : List ℕ
  pub calls : List (List ℕ)

-- `kcp.Output(outputBuffer, …); outputBuffer = make([]byte, 0)`
abbrev pub output : M Flushing (Unit {0})
output s =
    if s.kcp.output_set
    then done (record s { buffer = []; calls = s.calls ++ (s.buffer ∷ []) }) tt
    else panic nil_call s

-- The buffer is sent when `need` bytes more would pass Mtu.
abbrev pub make_room : ℕ → M Flushing (Unit {0})
make_room need s = if ltb s.kcp.mtu (length s.buffer + need) then output s else done s tt

-- `outputBuffer = append(outputBuffer, seg.Encode()...)`
abbrev pub append_header : Segment → M Flushing (Unit {0})
append_header seg s = elim (encode seg) [
  | done b bs ↦ done (record s { buffer = s.buffer ++ bs }) tt
  | panic e b ↦ panic e s
  | stuck ↦ stuck
]

-- `kcp.AckList[i]`
abbrev pub ack_at : ℕ → M Flushing ℕ
ack_at i s = elim (get_elem? s.kcp.ack_list i) [
  | none ↦ panic index_out_of_range s
  | some x ↦ done s x
]

-- The acknowledgements from number `i` on; the segment that carried the last one is used again.
unfoldable pub flush_acks : ℕ → ℕ → Segment → M Flushing Segment
flush_acks zero i seg s = done s seg
flush_acks (suc rounds) i seg s = after (make_room overhead s) λ s1 _.
    after (ack_at (i * 2) s1) λ s2 sn. after (ack_at (i * 2 + 1) s2) λ s3 ts.
      let seg' = record seg { sn = sn; ts = ts } in
      after (append_header seg' s3) λ s4 _. flush_acks rounds (suc i) seg' s4

-- Probe_wait, Ts_probe and Probe, by the peer's window.
unfoldable pub probe_timer : Kcp → Kcp
probe_timer k =
    if k.rmt_wnd == 0
    then (if k.probe_wait == 0
        then record k { probe_wait = probe_init; ts_probe = add32 k.current probe_init }
        else if leb k.ts_probe k.current
        then (let base = (if ltb k.probe_wait probe_init then probe_init else k.probe_wait) in
            let longer = add32 base (base / 2) in
            let wait = (if ltb probe_limit longer then probe_limit else longer) in
            record k {
              probe_wait = wait;
              ts_probe = add32 k.current wait;
              probe = bit_or k.probe ask_send;
            })
        else k)
    else record k { ts_probe = 0; probe_wait = 0 }

-- The probe, or the answer to one, in the segment that carried the acknowledgements.
unfoldable pub flush_probe : Segment → M Flushing Segment
flush_probe seg s =
    if s.kcp.probe == ask_send || s.kcp.probe == ask_tell
    then (let seg' = record seg {
      cmd = (if s.kcp.probe == ask_send then cmd_wask else cmd_wins);
    } in
        after (make_room overhead s) λ s1 _. after (append_header seg' s1) λ s2 _. done s2 seg')
    else done s seg

-- The sending window.
unfoldable pub send_window : Kcp → ℕ
send_window k =
    let cwnd = min_uint32 k.rmt_wnd k.snd_wnd in
    if ltb_ℤ k.nocwnd (pos 0) || ltb_ℤ (pos 0) k.nocwnd then cwnd else min_uint32 k.cwnd cwnd

-- A segment of the queue as it enters the buffer.
abbrev pub stamped : ℕ → Kcp → Segment → Segment
stamped wnd k seg = record seg {
  conv = k.conv;
  cmd = cmd_push;
  wnd = wnd;
  ts = k.current;
  sn = k.snd_nxt;
  una = k.rcv_nxt;
  resend_ts = k.current;
  rto = to_u32 k.rx_rto;
  fast_ack = 0;
  xmit = 0;
}

-- The loop from Snd_queue to Snd_buf; the list is what is left of the queue.
unfoldable pub move_queue : ℕ → ℕ → List Segment → Kcp → Kcp
move_queue cwnd wnd [] k = k
move_queue cwnd wnd (seg ∷ segs) k =
    let next = move_queue cwnd wnd segs (record k {
      snd_buf = k.snd_buf ++ (stamped wnd k seg ∷ []);
      snd_queue = segs;
      nsnd_que = sub32 k.nsnd_que 1;
      nsnd_buf = add32 k.nsnd_buf 1;
      snd_nxt = add32 k.snd_nxt 1;
    }) in
    if ltb k.snd_nxt (add32 k.snd_una cwnd) then next else k

-- Sends a copy that is due.
abbrev pub send_copy : ℕ → Segment → M Flushing (Unit {0})
send_copy wnd copy s =
    let seg = record copy { ts = s.kcp.current; wnd = wnd; una = s.kcp.rcv_nxt } in
    after (make_room (add32 overhead seg.len) s) λ s1 _. after (append_header seg s1) λ s2 _.
      let s3 = (if ltb 0 seg.len then record s2 { buffer = s2.buffer ++ seg.bytes } else s2) in
      done
        (if leb s3.kcp.dead_link seg.xmit
          then record s3 { kcp = record (s3.kcp) { state = negsuc 0 } }
          else s3)
        tt

-- The loop over Snd_buf. `for _, segment := range` works on copies, so that Snd_buf stays as it is.
unfoldable pub flush_buf : ℕ → Plan → List Segment → M Flushing Plan
flush_buf wnd p [] s = done s p
flush_buf wnd p (seg ∷ segs) s =
    let v = judge s.kcp p seg in
    let s1 = record s { kcp = record (s.kcp) { xmit = add32 s.kcp.xmit v.timeouts } } in
    after (if v.need_send then send_copy wnd v.seg s1 else done s1 tt)
      λ s2 _. flush_buf wnd v.plan segs s2

-- Ssthresh, Cwnd and Incr at the end; `cwnd` is the sending window.
unfoldable pub shrink_windows : ℕ → Plan → Kcp → Kcp
shrink_windows cwnd p k =
    let at_least = λ (t : ℕ). if ltb t thresh_min then thresh_min else t in
    let half = at_least (sub32 k.snd_nxt k.snd_una / 2) in
    let fast = add32 half (to_u32 p.resent) in
    let k1 =
      (if p.change
        then record k { ssthresh = half; cwnd = fast; incr = mul32 fast k.mss }
        else k) in
    let k2 =
      (if p.lost
        then record k1 { ssthresh = at_least (cwnd / 2); cwnd = 1; incr = k1.mss }
        else k1) in
    if ltb k2.cwnd 1 then record k2 { cwnd = 1; incr = k2.mss } else k2

-- The acknowledgement that Flush begins with.
abbrev pub ack_segment : Kcp → Segment
ack_segment k = record zero_segment {
  conv = k.conv;
  cmd = cmd_ack;
  wnd = max_uint32 (sub32 k.rcv_wnd k.nrcv_que) 0;
  una = k.rcv_nxt;
}

-- The part of Flush from the sending window on.
unfoldable pub flush_segments : Segment → M Flushing (Unit {0})
flush_segments seg s =
    let cwnd = send_window s.kcp in
    let k = move_queue cwnd seg.wnd s.kcp.snd_queue s.kcp in
    after (flush_buf seg.wnd (new_plan k) k.snd_buf (record s { kcp = k })) λ s1 p.
      after (if ltb 0 (length s1.buffer) then output s1 else done s1 tt)
        λ s2 _. done (record s2 { kcp = shrink_windows cwnd p s2.kcp }) tt

unfoldable pub flush : Kcp → Run Flushing (Unit {0})
flush k =
    let s : Flushing = record { kcp = k; buffer = []; calls = [] } in
    if k.updated == 0
    then done s tt
    else after (flush_acks k.ack_count 0 (ack_segment k) s) λ s1 seg.
      let k1 = probe_timer (record (s1.kcp) { ack_count = 0 }) in
      after (flush_probe seg (record s1 { kcp = k1 }))
        λ s2 seg'. flush_segments seg' (record s2 { kcp = record (s2.kcp) { probe = 0 } })
