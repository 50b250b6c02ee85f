-- ===== src/Kcp/Transfer/Answer.antt =====
-- What the answer of the peer does to the sender, when it acknowledges all segments of a buffer.
use golang_tools.Base.{
  zero, ◌-◌, ◌∙◌, ℕ, suc, ◌+◌, ◌%◌, ◌^◌, ◌<◌, ◌≤◌, ◌≡◌, refl, sym, subst, ap, arith, ltb, true,
  List, [], ◌∷◌, ◌++◌, length, last_of, lt→ltb,
}
use golang_tools.Base.Int.{pos}
use golang_tools.Base.Word.{IsU32}
use golang_tools.Base.Run.{Panics, Panics-after}
use golang_tools.Kcp.Define.{Segment, Kcp}
use golang_tools.Kcp.Parse.{parse_una}
use golang_tools.Kcp.Parse.Una.{overruns}
use golang_tools.Kcp.Parse.Una.Outcome.{parse_una-Panics}
use golang_tools.Kcp.Parse.Receive.{Numbered}
use golang_tools.Kcp.Send.{send, split_num}
use golang_tools.Kcp.Send.Pieces.{queued, send_splits}
use golang_tools.Kcp.Flush.{move_queue}
use golang_tools.Kcp.Flush.Queue.{entering, moving, moved, move_queue-moved}
use golang_tools.Kcp.Input.{is_command, no_acks, on_segment, input_round}
use golang_tools.Kcp.Input.Header.{Fits, travels}
use golang_tools.Kcp.Transfer.{datagram, round-on_segment}

-- A sender with nothing queued or in flight, whose Mss cuts the buffer into at most 255 segments, for which the
-- window up to Snd_una + `cwnd` has room; `wnd` is the window that its headers announce.
pub record IsSender (k : Kcp) (buffer : List ℕ) (cwnd wnd : ℕ) : Type 0 where
  pub some_bytes : 0 < length buffer
  pub some_room : 0 < k.mss
  pub few : split_num buffer k.mss ≤ 255
  pub mss_fits : IsU32 k.mss
  pub no_queue : k.snd_queue ≡ []
  pub none_queued : k.nsnd_que ≡ 0
  pub no_buffer : k.snd_buf ≡ []
  pub buffer_fits : IsU32 k.nsnd_buf
  pub conv_fits : IsU32 k.conv
  pub current_fits : IsU32 k.current
  pub rcv_nxt_fits : IsU32 k.rcv_nxt
  pub wnd_fits : wnd < 2 ^ 16
  pub window : k.snd_nxt + split_num buffer k.mss ≤ k.snd_una + cwnd
  pub window_fits : k.snd_una + cwnd < 2 ^ 32

moving_all : (segs : List Segment) (room : ℕ) → length segs ≤ room → moving segs room ≡ length segs
unfolding moving
moving_all [] room h = refl
moving_all (s ∷ segs) zero h = absurd (omega arith)
moving_all (s ∷ segs) (suc room) h = ap suc (moving_all segs room (omega arith))

-- All that Send has queued goes into the buffer.
queued_moves :
    (k : Kcp) (segs : List Segment) (cwnd wnd : ℕ)
    → k.snd_queue ≡ []
    → k.nsnd_que ≡ 0
    → IsU32 k.nsnd_buf
    → k.snd_nxt + length segs ≤ k.snd_una + cwnd
    → k.snd_una + cwnd < 2 ^ 32
    → move_queue cwnd wnd (queued segs k).snd_queue (queued segs k)
      ≡ moved wnd (length segs) segs (queued segs k)
queued_moves k segs cwnd wnd no_queue none_queued fits window small =
    move_queue-moved cwnd wnd (queued segs k) (omega (arith, none_queued, ap length all_queued))
      fits small
    ∙ ap (λ q. moved wnd (moving q room) q (queued segs k)) all_queued
    ∙ ap (λ m. moved wnd m segs (queued segs k)) (moving_all segs room (omega arith))
  where
    room : ℕ
    room = k.snd_una + cwnd - k.snd_nxt

    all_queued : k.snd_queue ++ segs ≡ segs
    all_queued = ap (λ q. q ++ segs) no_queue

length-entering :
    (wnd : ℕ) (k : Kcp) (n : ℕ) (segs : List Segment)
    → length (entering wnd k n (length segs) segs) ≡ length segs
unfolding entering
length-entering wnd k n [] = refl
length-entering wnd k n (s ∷ segs) = ap suc (length-entering wnd k (n + 1) segs)

entering-Numbered :
    (wnd : ℕ) (k : Kcp) (n : ℕ) (segs : List Segment)
    → Numbered n (entering wnd k n (length segs) segs)
unfolding entering
entering-Numbered wnd k n [] = tt
entering-Numbered wnd k n (s ∷ segs) = (
  refl,
  subst (λ m. Numbered m (entering wnd k (n + 1) (length segs) segs)) (omega arith)
      (entering-Numbered wnd k (n + 1) segs),
)

-- A segment of the connection `conv` that Input takes, with its fields in their places.
pub record IsAnswer (conv : ℕ) (s : Segment) : Type 0 where
  pub fits : Fits s
  pub same_conv : s.conv ≡ conv
  pub commands : is_command s.cmd ≡ true
  pub counted : s.len ≡ length s.bytes

-- Numbered segments of which all are acknowledged.
last_below :
    (una n : ℕ) (x : Segment) (xs : List Segment)
    → Numbered n (x ∷ xs)
    → n + suc (length xs) ≤ una
    → ltb (last_of x xs).sn una ≡ true
last_below una n x [] (e, num) h = lt→ltb x.sn una (omega arith)
last_below una n x (y ∷ xs) (e, num) h = last_below una (suc n) y xs num (omega arith)

all_overrun :
    (una n : ℕ) (xs : List Segment)
    → Numbered n xs
    → n + length xs ≤ una
    → 1 < length xs
    → overruns una xs ≡ true
unfolding overruns
all_overrun una n [] num h two = absurd (omega arith)
all_overrun una n (x ∷ []) num h two = absurd (omega arith)
all_overrun una n (x ∷ y ∷ xs) (e, num) h two =
    rw (lt→ltb x.sn una (omega arith), last_below una (suc n) y xs num (omega arith)) refl

-- Parse_Una is the first that the segment meets.
overrun-input_round :
    (s : Segment) (k : Kcp)
    → IsAnswer k.conv s
    → k.nsnd_buf ≡ length k.snd_buf % 2 ^ 32
    → overruns s.una k.snd_buf ≡ true
    → Panics (input_round (length (datagram s)) (datagram s) no_acks k)
unfolding on_segment
overrun-input_round s k ans counted over =
    subst Panics
      (sym (round-on_segment s no_acks k ans.fits ans.same_conv ans.commands ans.counted))
      (Panics-after (on_segment (travels s) s.bytes no_acks k) _ (
        Panics-after (parse_una s.una (record k { rmt_wnd = s.wnd })) _
          (parse_una-Panics s.una (record k { rmt_wnd = s.wnd }) counted over)))

-- A sender with nothing queued or in flight, that is ready for a buffer in the sense of IsSender, sends a buffer
-- of more than one segment: Send, and the loop of Flush that moves what it queued into Snd_buf. If then a
-- datagram with a segment of the connection arrives, whatever its command, whose `una` acknowledges all of them,
-- the first iteration of Input's loop panics: before Input reads on behind the segment.
pub answered-Panics :
    (k : Kcp) (buffer : List ℕ) (cwnd wnd : ℕ) (s : Segment)
    → IsSender k buffer cwnd wnd
    → k.nsnd_buf ≡ 0
    → 1 < split_num buffer k.mss
    → IsAnswer k.conv s
    → k.snd_nxt + split_num buffer k.mss ≤ s.una
    → (k' : Kcp) × (send buffer k ≡ (k', pos 0))
      × Panics (
          input_round
            (length (datagram s))
            (datagram s)
            no_acks
            (move_queue cwnd wnd k'.snd_queue k'))
answered-Panics k buffer cwnd wnd s ready none_sent two ans all =
    let (segs, sent, len, bytes, parts, frags) =
      send_splits buffer k ready.some_bytes ready.some_room ready.few ready.mss_fits
        (omega (arith, ready.none_queued)) in
    let buf = entering wnd (queued segs k) k.snd_nxt (length segs) segs in
    let many : length buf ≡ length segs = length-entering wnd (queued segs k) k.snd_nxt segs in
    let in_flight : k.snd_buf ++ buf ≡ buf = ap (λ b. b ++ buf) ready.no_buffer in
    (
      queued segs k,
      sent,
      rw
          (queued_moves k segs cwnd wnd ready.no_queue ready.none_queued ready.buffer_fits
            (omega (arith, len, ready.window)) ready.window_fits)
          (overrun-input_round s (moved wnd (length segs) segs (queued segs k)) ans
            (omega (arith, none_sent, many, ap length in_flight))
            (subst (λ b. overruns s.una b ≡ true) (sym in_flight)
              (all_overrun s.una k.snd_nxt buf
                (entering-Numbered wnd (queued segs k) k.snd_nxt segs)
                (omega (arith, len, many, all)) (omega (arith, len, many, two))))),
    )
