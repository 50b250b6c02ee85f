-- ===== src/Kcp/Counts/Connection.antt =====
-- Send and Input keep the counters right.
use golang_tools.Base.{
  ℕ, zero, suc, ◌%◌, ◌^◌, sym, ap, ◌∙◌, ◌⊎◌, inl, inr, ltb, leb, ◌==◌, not, if◌then◌else◌, ◌&&◌,
  ◌||◌, List, [], ◌∷◌, length, length-append, drop, if-elim,
}
use golang_tools.Base.Int.{ℤ, pos, ltb_ℤ}
use golang_tools.Base.Run.{done, Ensures}
use golang_tools.Kcp.Define.{Segment, Kcp, overhead, cmd_ack, cmd_push, cmd_wask}
use golang_tools.Kcp.Parse.{parse_una, parse_ack, ack_push, parse_data, shrink_buf, parse_fastack}
use golang_tools.Kcp.Send.{split_len, split_num, piece, send_loop, send, set_nodelay}
use golang_tools.Kcp.Input.{
  is_command, input_finish, Acks, no_acks, on_ack, on_push, on_segment, Turn, returns, breaks,
  goes_on, input_round, input_loop, input, grow_window, avoid_congestion, be32_at, read_header,
}
use golang_tools.Kcp.Input.Outcome.{IsError, input-IsError}
use golang_tools.Kcp.Counts.{
  Keeps, Keeps-after, Keeps-if, AreCounted, Ensures-Keeps, Ensures-Ends, counts_more,
}
use golang_tools.Kcp.Counts.Parsing.{
  parse_una-AreCounted, parse_ack-AreCounted, parse_data-AreCounted, ack_push-AreCounted,
  shrink_buf-AreCounted, update_ack-AreCounted,
}

send_loop-AreCounted :
    (n rounds i : ℕ) (buffer : List ℕ) (k : Kcp)
    → AreCounted k
    → AreCounted (send_loop n rounds i buffer k)
unfolding send_loop
send_loop-AreCounted n zero i buffer k h = h
send_loop-AreCounted n (suc rounds) i buffer k (sq, rq, sb, rb) =
    send_loop-AreCounted n rounds (suc i) (drop (split_len buffer k.mss) buffer) _ (
      counts_more (length k.snd_queue) k.nsnd_que sq
          ∙ ap (λ m. m % 2 ^ 32) (sym (length-append k.snd_queue (piece k.mss n i buffer ∷ []))),
      rq,
      sb,
      rb,
    )

pub send-AreCounted : (buffer : List ℕ) (k : Kcp) → AreCounted k → AreCounted (send buffer k).0
unfolding send
send-AreCounted buffer k h =
    if-elim P (leb (length buffer) 0 || leb k.mss 0) _ _ (λ _. h)
      λ _.
        if-elim P (ltb 255 (split_num buffer k.mss)) _ _ (λ _. h)
          λ _. send_loop-AreCounted (split_num buffer k.mss) (split_num buffer k.mss) 0 buffer k h
  where
    P : Kcp × ℤ → Type 0
    P r = AreCounted r.0

on_ack-AreCounted :
    (seg : Segment) (a : Acks) (k : Kcp) → AreCounted k → Keeps AreCounted (on_ack seg a k)
unfolding on_ack
on_ack-AreCounted seg a k h =
    Keeps-after AreCounted (parse_ack seg.sn _) _
      (parse_ack-AreCounted seg.sn _
        (if-elim AreCounted (leb seg.ts k.current) _ _ (λ _. update_ack-AreCounted _ k h) (λ _. h)))
      (λ l x h'. shrink_buf-AreCounted l h')

on_push-AreCounted :
    (seg : Segment) (rest : List ℕ) (a : Acks) (k : Kcp)
    → AreCounted k
    → Keeps AreCounted (on_push seg rest a k)
unfolding on_push
on_push-AreCounted seg rest a k h =
    Keeps-if AreCounted (ltb seg.sn _) _ _
      (Keeps-after AreCounted (ack_push seg.sn seg.ts k) _ (ack_push-AreCounted seg.sn seg.ts k h)
        λ l x h'.
          Keeps-if AreCounted (leb l.rcv_nxt seg.sn) _ _
            (Keeps-after AreCounted (parse_data _ l) _ (parse_data-AreCounted _ l h')
              (λ l' x' h''. h''))
            h')
      h

on_segment-AreCounted :
    (seg : Segment) (rest : List ℕ) (a : Acks) (k : Kcp)
    → AreCounted k
    → Keeps AreCounted (on_segment seg rest a k)
unfolding on_segment
on_segment-AreCounted seg rest a k h =
    Keeps-after AreCounted (parse_una seg.una _) _ (parse_una-AreCounted seg.una _ h) λ k1 x h1.
      let kept : AreCounted (shrink_buf k1) = shrink_buf-AreCounted k1 h1 in
      Keeps-if AreCounted (seg.cmd == cmd_ack) _ _ (on_ack-AreCounted seg a _ kept) (
        Keeps-if AreCounted (seg.cmd == cmd_push) _ _ (on_push-AreCounted seg rest a _ kept)
          (Keeps-if AreCounted (seg.cmd == cmd_wask) _ _ kept kept))

input_round-AreCounted :
    (size : ℕ) (bytes : List ℕ) (a : Acks) (k : Kcp)
    → AreCounted k
    → Keeps AreCounted (input_round size bytes a k)
unfolding input_round
input_round-AreCounted size bytes a k h = Keeps-if AreCounted (ltb size overhead) _ _ h (
    Keeps-if AreCounted (ltb (length bytes) 4) _ _ tt (
      Keeps-if AreCounted (not (be32_at bytes 0 == k.conv)) _ _ h (
        Keeps-if AreCounted (ltb (length bytes) overhead) _ _ tt (
          Keeps-if AreCounted (ltb (length (drop overhead bytes)) (read_header bytes).len) _ _ h (
            Keeps-if AreCounted (not (is_command (read_header bytes).cmd)) _ _ h (
              Keeps-after AreCounted (on_segment _ _ a k) _ (on_segment-AreCounted _ _ a k h)
                (λ l a' h'. h')))))))

turn-AreCounted :
    (fuel size : ℕ)
    → ((more : List ℕ) (a : Acks) (l : Kcp)
        → AreCounted l
        → Keeps AreCounted (input_loop fuel size more a l))
    → (l : Kcp) (t : Turn) → AreCounted l
    → Keeps AreCounted (elim t [
      | returns code ↦ done l (inl code)
      | breaks a' ↦ done l (inr a')
      | goes_on more a' ↦ input_loop fuel size more a' l
    ])
turn-AreCounted fuel size f l (returns code) h = h
turn-AreCounted fuel size f l (breaks a) h = h
turn-AreCounted fuel size f l (goes_on more a) h = f more a l h

input_loop-AreCounted :
    (fuel size : ℕ) (bytes : List ℕ) (a : Acks) (k : Kcp)
    → AreCounted k
    → Keeps AreCounted (input_loop fuel size bytes a k)
unfolding input_loop
input_loop-AreCounted zero size bytes a k h = tt
input_loop-AreCounted (suc fuel) size bytes a k h =
    Keeps-after AreCounted (input_round size bytes a k) _ (input_round-AreCounted size bytes a k h)
      (turn-AreCounted fuel size (input_loop-AreCounted fuel size))

parse_fastack-AreCounted : (sn ts : ℕ) (k : Kcp) → AreCounted k → AreCounted (parse_fastack sn ts k)
unfolding parse_fastack
parse_fastack-AreCounted sn ts k h =
    if-elim AreCounted (ltb sn k.snd_una || leb k.snd_nxt sn) _ _ (λ _. h) (λ _. h)

avoid_congestion-AreCounted : (k : Kcp) → AreCounted k → Keeps AreCounted (avoid_congestion k)
avoid_congestion-AreCounted k h =
    Keeps-if AreCounted ((if ltb k.incr k.mss then k.mss else k.incr) == 0) _ _ tt h

grow_window-AreCounted :
    (prev_una : ℕ) (k : Kcp) → AreCounted k → Keeps AreCounted (grow_window prev_una k)
unfolding grow_window
grow_window-AreCounted prev_una k h =
    Keeps-if AreCounted (ltb prev_una k.snd_una && ltb k.cwnd k.rmt_wnd) _ _
      (Keeps-after AreCounted (if ltb k.cwnd k.ssthresh then _ else avoid_congestion k) _
        (Keeps-if AreCounted (ltb k.cwnd k.ssthresh) _ _ h (avoid_congestion-AreCounted k h))
        (λ l x h'. if-elim AreCounted (ltb l.rmt_wnd l.cwnd) _ _ (λ _. h') (λ _. h')))
      h

input_finish-AreCounted :
    (prev_una : ℕ) (a : Acks) (k : Kcp)
    → AreCounted k
    → Keeps AreCounted (input_finish prev_una a k)
input_finish-AreCounted prev_una a k h =
    Keeps-after AreCounted (grow_window prev_una _) _
      (grow_window-AreCounted prev_una _ (
        if-elim AreCounted a.flag _ _ (λ _. parse_fastack-AreCounted a.maxack a.latest_ts k h)
          (λ _. h)))
      (λ l x h'. h')

code-AreCounted :
    (k l : Kcp) (r : ℤ ⊎ Acks)
    → AreCounted l
    → Keeps AreCounted (elim r [ inl code ↦ done l code | inr a ↦ input_finish k.snd_una a l ])
code-AreCounted k l (inl code) h = h
code-AreCounted k l (inr a) h = input_finish-AreCounted k.snd_una a l h

input-Keeps_counts : (bytes : List ℕ) (k : Kcp) → AreCounted k → Keeps AreCounted (input bytes k)
unfolding input
input-Keeps_counts bytes k h = Keeps-if AreCounted (ltb (length bytes) overhead) _ _ h (
    Keeps-after AreCounted (input_loop (suc (length bytes)) (length bytes) bytes no_acks k) _
      (input_loop-AreCounted _ (length bytes) bytes no_acks k h)
      (λ l r h'. code-AreCounted k l r h'))

pub input-AreCounted :
    (bytes : List ℕ) (k : Kcp) → AreCounted k → Ensures (λ l _. AreCounted l) (input bytes k)
input-AreCounted bytes k h =
    Ensures-Keeps AreCounted (input bytes k)
      (Ensures-Ends (λ l r. IsError r) (input bytes k) (input-IsError bytes k))
      (input-Keeps_counts bytes k h)

pub set_nodelay-AreCounted :
    (nodelay interval resend nc : ℤ) (k : Kcp)
    → AreCounted k
    → AreCounted (set_nodelay nodelay interval resend nc k).0
unfolding set_nodelay
set_nodelay-AreCounted nodelay interval resend nc k h =
    if-elim (λ (r : Kcp × ℤ). AreCounted r.0)
      (ltb_ℤ nodelay (pos 0) || ltb_ℤ interval (pos 0) || ltb_ℤ resend (pos 0) || ltb_ℤ nc (pos 0))
      _ _ (λ _. h) (λ _. h)
