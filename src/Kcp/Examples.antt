-- ===== src/Kcp/Examples.antt =====
-- The theorems about the connection at concrete inputs, and runs of the code on small ones.
use golang_tools.Base.{
  ℕ, ◌+◌, ◌-◌, ◌*◌, ◌%◌, ◌^◌, ◌≡◌, refl, arith, true, false, List, [], ◌∷◌, ◌++◌, length, take, All,
}
use golang_tools.Base.Int.{pos, ◌≤ℤ◌}
use golang_tools.Base.Slice.{delete_at}
use golang_tools.Base.Run.{done, Panics, Ensures, Returns}
use golang_tools.Kcp.Define.{Segment, zero_segment, Kcp, create, rto_max}
use golang_tools.Kcp.Parse.{
  una_loop, ack_loop, smooth, clamp_rto, shrink_buf, parse_una, parse_ack, update_ack,
}
use golang_tools.Kcp.Parse.Una.{swept, overruns}
use golang_tools.Kcp.Parse.Una.Outcome.{swept_kcp, parse_una-swept, parse_una-Panics}
use golang_tools.Kcp.Parse.Receive.{
  receive_all, delivered, receive_all-delivered, receive_all-ahead,
}
use golang_tools.Kcp.Parse.Ack.{without, parse_ack-without}
use golang_tools.Kcp.Parse.Rto.{update_ack_bounds}
use golang_tools.Kcp.Send.{send, send_loop, set_nodelay, split_num}
use golang_tools.Kcp.Send.Pieces.{queued, carried, IsPiece, Fragments, send_splits}
use golang_tools.Kcp.Seg.{encode, encode-Panics}
use golang_tools.Kcp.Input.{
  input, input_loop, input_round, on_segment, on_ack, note_ack, read_header,
}
use golang_tools.Kcp.Input.Header.{layout, travels, read_header-layout}
use golang_tools.Kcp.Input.Outcome.{IsError, input-IsError}
use golang_tools.Kcp.Due.{Plan}
use golang_tools.Kcp.Flush.{flush, move_queue}
use golang_tools.Kcp.Flush.Queue.{moved, moving, move_queue-moved}
use golang_tools.Kcp.Flush.Outcome.{flush-Panics_new}
use golang_tools.Kcp.Counts.{AreCounted}
use golang_tools.Kcp.Counts.Calls.{
  Call, sends, receives, tunes, flushes, call, call_all, call_all-AreCounted,
}

abbrev numbered : ℕ → Segment
numbered n = record zero_segment { sn = n }

abbrev fresh : Kcp
fresh = create 7

-- A connection with segments of two bytes.
abbrev tiny : Kcp
tiny = record (create 7) { mss = 2 }

-- Three segments, 4, 5 and 6, are in flight.
abbrev flying : Kcp
flying = record (create 7) {
  snd_buf = numbered 4 ∷ numbered 5 ∷ numbered 6 ∷ [];
  nsnd_buf = 3;
  snd_una = 4;
  snd_nxt = 7;
}

abbrev waiting : Kcp
waiting = record (create 7) { snd_queue = numbered 0 ∷ numbered 0 ∷ []; nsnd_que = 2; updated = 1 }

-- `una` 5 acknowledges the first segment, and the loop skips the second.
parse_una-swept_example : parse_una 5 flying ≡ done (swept_kcp 5 flying) tt
unfolding create overruns
parse_una-swept_example = parse_una-swept 5 flying refl refl

-- `una` 7 acknowledges all three.
parse_una-Panics_example : Panics (parse_una 7 flying)
unfolding create overruns
parse_una-Panics_example = parse_una-Panics 7 flying refl refl

-- Of 4, 5 and 6 the loop deletes 4 and leaves 5 unseen, though 6 acknowledges it.
skips : swept 6 flying.snd_buf ≡ numbered 5 ∷ numbered 6 ∷ []
unfolding create swept
skips = refl

receive_all-delivered_example :
    receive_all (numbered 0 ∷ numbered 1 ∷ []) fresh
    ≡ done (delivered (numbered 0 ∷ numbered 1 ∷ []) fresh) tt
unfolding create
receive_all-delivered_example =
    receive_all-delivered (numbered 0 ∷ numbered 1 ∷ []) fresh refl (refl, (refl, tt)) (omega arith)
      (omega arith) (omega arith)

-- Segment 1 arrives before segment 0: neither is ever delivered.
receive_all-ahead_example :
    (k' : Kcp) × (receive_all (numbered 1 ∷ numbered 0 ∷ numbered 0 ∷ []) fresh ≡ done k' tt)
    × ((r : List Segment) × (k'.rcv_buf ≡ numbered 1 ∷ r))
    × (k'.rcv_nxt ≡ fresh.rcv_nxt)
    × (k'.rcv_queue ≡ fresh.rcv_queue)
unfolding create
receive_all-ahead_example =
    receive_all-ahead (numbered 1) (numbered 0 ∷ numbered 0 ∷ []) fresh refl (omega arith)
      (omega arith) (omega arith)

parse_ack-without_example :
    parse_ack 5 flying
    ≡ done
        (record flying {
          snd_buf = without 5 flying.snd_buf;
          nsnd_buf = length (without 5 flying.snd_buf) % 2 ^ 32;
        })
        tt
unfolding create
parse_ack-without_example =
    parse_ack-without 5 4 flying refl (omega arith) (omega arith) (omega arith)

abbrev roomy : Kcp
roomy = record (create 7) { ack_list = 0 ∷ 0 ∷ 0 ∷ 0 ∷ []; ack_count = 1 }

update_ack_bounds_example :
    (fresh.rx_minrto ≤ℤ (update_ack (pos 350) fresh).rx_rto)
    × ((update_ack (pos 350) fresh).rx_rto ≤ℤ pos rto_max)
unfolding create
update_ack_bounds_example = update_ack_bounds (pos 350) fresh (omega arith)

abbrev three_bytes : List ℕ
three_bytes = 1 ∷ 2 ∷ 3 ∷ []

send_splits_example :
    (segs : List Segment) × (send (1 ∷ 2 ∷ 3 ∷ 4 ∷ []) tiny ≡ (queued segs tiny, pos 0))
    × (length segs ≡ split_num (1 ∷ 2 ∷ 3 ∷ 4 ∷ []) tiny.mss)
    × (carried segs
        ≡ take (split_num (1 ∷ 2 ∷ 3 ∷ 4 ∷ []) tiny.mss * tiny.mss) (1 ∷ 2 ∷ 3 ∷ 4 ∷ []))
    × All (IsPiece tiny.mss) segs
    × Fragments segs
unfolding create
send_splits_example =
    send_splits (1 ∷ 2 ∷ 3 ∷ 4 ∷ []) tiny (omega arith) (omega arith) (omega arith) (omega arith)
      (omega arith)

abbrev ping : Segment
ping = record zero_segment { conv = 7; cmd = 84; wnd = 300; una = 4; sn = 70000 }

read_header-layout_example : read_header (layout ping ++ (9 ∷ [])) ≡ travels ping
read_header-layout_example = read_header-layout ping (9 ∷ []) (omega arith)

-- A well-formed window announcement for this connection: Input does not return 0.
input-IsError_example : Ensures (λ l r. IsError r) (input (layout ping) fresh)
input-IsError_example = input-IsError (layout ping) fresh

-- It reads on behind the end of the datagram and panics.
input-Panics : Panics (input (layout ping) fresh)
unfolding create input input_loop input_round read_header on_segment parse_una una_loop shrink_buf
input-Panics = tt

abbrev growing : Kcp
growing = record (create 7) { snd_una = 4; cwnd = 3; ssthresh = 2; incr = 5000 }

move_queue-moved_example :
    move_queue 1 128 waiting.snd_queue waiting
    ≡ moved 128
        (moving waiting.snd_queue (waiting.snd_una + 1 - waiting.snd_nxt))
        waiting.snd_queue
        waiting
unfolding create
move_queue-moved_example = move_queue-moved 1 128 waiting refl (omega arith) (omega arith)

abbrev shut_out : Kcp
shut_out = record (create 7) { rmt_wnd = 0; probe_wait = 9000; current = 50000; ts_probe = 40000 }

abbrev lossy : Plan
lossy = record { resent = pos 0xffff_ffff; rtomin = pos 25; lost = true; change = false }

abbrev answering : Kcp
answering = record (create 7) { updated = 1; ack_list = 3 ∷ 40 ∷ []; ack_count = 1 }

abbrev loaded : Kcp
loaded = record (create 7) { updated = 1; snd_buf = numbered 0 ∷ [] }

flush-Panics_new_example : Panics (flush loaded)
flush-Panics_new_example = flush-Panics_new loaded (λ e. absurd (omega arith)) refl

encode-Panics_example : Panics (encode ping)
encode-Panics_example = encode-Panics ping

-- The acknowledgement of segment 5, and four bytes of another conversation behind it.
abbrev ack_five : List ℕ
ack_five =
    layout (record zero_segment { conv = 7; cmd = 82; wnd = 300; una = 4; sn = 5 })
    ++ (0 ∷ 0 ∷ 0 ∷ 8 ∷ [])

abbrev calls : List Call
calls =
    sends (1 ∷ 2 ∷ 3 ∷ [])
    ∷ tunes (pos 1) (pos 20) (pos 2) (pos 1)
    ∷ receives ack_five
    ∷ flushes
    ∷ []

call_all-AreCounted_example : Ensures (λ l _. AreCounted l) (call_all calls flying)
unfolding create
call_all-AreCounted_example = call_all-AreCounted calls flying (refl, refl, refl, refl)

-- The calls return, and leave one segment queued and two in flight.
call_all_returns : Returns (call_all calls flying) (λ l _. (l.nsnd_que ≡ 1) × (l.nsnd_buf ≡ 2))
unfolding create call call_all send send_loop input input_loop input_round read_header on_segment
    on_ack note_ack parse_una una_loop parse_ack ack_loop shrink_buf update_ack smooth clamp_rto
    delete_at set_nodelay flush
call_all_returns = (refl, refl)
