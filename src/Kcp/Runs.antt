-- ===== src/Kcp/Runs.antt =====
-- The answer to a buffer at a concrete input.
use golang_tools.Base.{ℕ, ◌≡◌, refl, arith, List, [], ◌∷◌, length}
use golang_tools.Base.Int.{pos}
use golang_tools.Base.Run.{Panics}
use golang_tools.Kcp.Define.{Segment, zero_segment, cmd_ack, cmd_push, Kcp, create}
use golang_tools.Kcp.Send.{send}
use golang_tools.Kcp.Flush.{move_queue}
use golang_tools.Kcp.Input.{no_acks, input_round}
use golang_tools.Kcp.Transfer.{datagram}
use golang_tools.Kcp.Transfer.Data.{receive_data-Panics}
use golang_tools.Kcp.Transfer.Answer.{IsSender, IsAnswer, answered-Panics}

-- Segments of two bytes.
abbrev sender : Kcp
sender = record (create 7) { mss = 2 }

abbrev six_bytes : List ℕ
six_bytes = 1 ∷ 2 ∷ 3 ∷ 4 ∷ 5 ∷ 6 ∷ []

sender-IsSender : IsSender sender six_bytes 32 128
unfolding create
sender-IsSender = record {
  some_bytes = omega arith;
  some_room = omega arith;
  few = omega arith;
  mss_fits = omega arith;
  no_queue = refl;
  none_queued = refl;
  no_buffer = refl;
  buffer_fits = omega arith;
  conv_fits = omega arith;
  current_fits = omega arith;
  rcv_nxt_fits = omega arith;
  wnd_fits = omega arith;
  window = omega arith;
  window_fits = omega arith;
}

-- The acknowledgement of the first segment, after all three have arrived.
abbrev answer : Segment
answer = record zero_segment { conv = 7; cmd = cmd_ack; wnd = 128; una = 3 }

answer-IsAnswer : IsAnswer 7 answer
answer-IsAnswer = record {
  fits = record {
    conv_fits = omega arith;
    cmd_fits = omega arith;
    frg_fits = omega arith;
    wnd_fits = omega arith;
    ts_fits = omega arith;
    sn_fits = omega arith;
    una_fits = omega arith;
    len_fits = omega arith;
  };
  same_conv = refl;
  commands = refl;
  counted = refl;
}

answered-Panics_example :
    (k' : Kcp) × (send six_bytes sender ≡ (k', pos 0))
    × Panics (
        input_round
          (length (datagram answer))
          (datagram answer)
          no_acks
          (move_queue 32 128 k'.snd_queue k'))
unfolding create
answered-Panics_example =
    answered-Panics sender six_bytes 32 128 answer sender-IsSender refl (omega arith)
      answer-IsAnswer (omega arith)

-- The first data segment of the peer.
abbrev first_data : Segment
first_data = record zero_segment {
  conv = 7;
  cmd = cmd_push;
  wnd = 128;
  len = 2;
  bytes = 1 ∷ 2 ∷ [];
}

first_data-IsAnswer : IsAnswer 7 first_data
first_data-IsAnswer = record {
  fits = record {
    conv_fits = omega arith;
    cmd_fits = omega arith;
    frg_fits = omega arith;
    wnd_fits = omega arith;
    ts_fits = omega arith;
    sn_fits = omega arith;
    una_fits = omega arith;
    len_fits = omega arith;
  };
  same_conv = refl;
  commands = refl;
  counted = refl;
}

receive_data-Panics_example :
    Panics (input_round (length (datagram first_data)) (datagram first_data) no_acks (create 7))
unfolding create
receive_data-Panics_example =
    receive_data-Panics (create 7) first_data refl first_data-IsAnswer refl refl
