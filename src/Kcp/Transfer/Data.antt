-- ===== src/Kcp/Transfer/Data.antt =====
-- What a data segment does to a connection whose AckList has no room, as that of every new connection.
use golang_tools.Base.{ℕ, ◌≤◌, ◌≡◌, refl, sym, subst, ap, ltb, true, List, [], ◌∷◌, length, arith}
use golang_tools.Base.Word.{add32, mul32}
use golang_tools.Base.Run.{Run, done, panic, stuck, after, Ends, Panics, Panics-after}
use golang_tools.Kcp.Define.{Segment, Kcp, cmd_push}
use golang_tools.Kcp.Parse.{
  SndBuf, open_snd_buf, on_snd_buf, una_loop, parse_una, shrink_buf, ack_push,
}
use golang_tools.Kcp.Parse.Ack.{ack_push-Panics}
use golang_tools.Kcp.Parse.Ends.{parse_una-Ends}
use golang_tools.Kcp.Input.{Acks, no_acks, on_push, on_segment, input_round}
use golang_tools.Kcp.Input.Header.{travels}
use golang_tools.Kcp.Transfer.{datagram, round-on_segment}
use golang_tools.Kcp.Transfer.Answer.{IsAnswer}

-- AckList has no place for the next acknowledgement, and the number is below the window's end.
abbrev pub IsFull : ℕ → Kcp → Type 0
IsFull sn k =
    (length k.ack_list ≤ mul32 k.ack_count 2) × (ltb sn (add32 k.rcv_nxt k.rcv_wnd) ≡ true)

push-Panics :
    (seg : Segment) (rest : List ℕ) (a : Acks) (k : Kcp)
    → IsFull seg.sn k
    → Panics (on_push seg rest a k)
unfolding on_push
push-Panics seg rest a k (full, below) =
    rw below (Panics-after (ack_push seg.sn seg.ts k) _ (ack_push-Panics seg.sn seg.ts k full))

IsFull-shrink_buf :
    (sn : ℕ) (k : Kcp) (b : List Segment) → k.snd_buf ≡ b → IsFull sn k → IsFull sn (shrink_buf k)
unfolding shrink_buf
IsFull-shrink_buf sn k [] e h = rw e h
IsFull-shrink_buf sn k (seg ∷ b) e h = rw e h

-- Behind a loop over Snd_buf.
past_snd_buf-Panics :
    (seg : Segment) (rest : List ℕ) (a : Acks) (k : Kcp) (run : Run SndBuf (Unit {0}))
    → Ends (on_snd_buf k run)
    → IsFull seg.sn k
    → Panics (after (on_snd_buf k run) (λ l _. on_push seg rest a (shrink_buf l)))
past_snd_buf-Panics seg rest a k (done b x) ends h =
    push-Panics seg rest a _ (IsFull-shrink_buf seg.sn _ _ refl h)
past_snd_buf-Panics seg rest a k (panic f b) ends h = tt
past_snd_buf-Panics seg rest a k stuck ends h = absurd ends

past_una-Panics :
    (seg : Segment) (rest : List ℕ) (a : Acks) (k : Kcp)
    → IsFull seg.sn k
    → Panics (after (parse_una seg.una k) (λ l _. on_push seg rest a (shrink_buf l)))
unfolding parse_una
past_una-Panics seg rest a k h =
    past_snd_buf-Panics seg rest a k (una_loop seg.una (length k.snd_buf) 0 (open_snd_buf k))
      (parse_una-Ends seg.una k) h

data_segment-Panics :
    (seg : Segment) (rest : List ℕ) (a : Acks) (k : Kcp)
    → seg.cmd ≡ cmd_push
    → IsFull seg.sn k
    → Panics (on_segment seg rest a k)
unfolding on_segment
data_segment-Panics seg rest a k push h =
    simp push (past_una-Panics seg rest a (record k { rmt_wnd = seg.wnd }) h)

-- If AckList is empty, as CreateIKCP leaves it, a data segment of the connection whose number is below the
-- window's end makes the first iteration of Input's loop panic, whatever else the state of the connection is and
-- whatever the segment acknowledges.
pub receive_data-Panics :
    (k : Kcp) (s : Segment)
    → k.ack_list ≡ []
    → IsAnswer k.conv s
    → s.cmd ≡ cmd_push
    → ltb s.sn (add32 k.rcv_nxt k.rcv_wnd) ≡ true
    → Panics (input_round (length (datagram s)) (datagram s) no_acks k)
receive_data-Panics k s bare ans push below =
    subst Panics
      (sym (round-on_segment s no_acks k ans.fits ans.same_conv ans.commands ans.counted))
      (Panics-after (on_segment (travels s) s.bytes no_acks k) _ (
        data_segment-Panics (travels s) s.bytes no_acks k push
          (omega (arith, ap length bare), below)))
