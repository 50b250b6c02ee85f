-- ===== src/Net/Runs.antt =====
-- Runs of the goroutines of a connection, and the theorems about servers and goroutines at them.
use golang_tools.Base.{
  ℕ, zero, suc, ◌+◌, ◌≤◌, ◌<◌, ◌≡◌, refl, arith, ◌⊎◌, inl, inr, Bool, true, false, List, [], ◌∷◌,
  ◌++◌, map, flatten, length, Option, none, some,
}
use golang_tools.Base.Int.{pos}
use golang_tools.Net.{ClientMsg, uncode}
use golang_tools.Net.Frames.{frame, seen, answers}
use golang_tools.Net.Loops.{
  closed, reading, handing, failing, leaving, ended, waiting, asking, sending, reply, Conn, start,
  Step, read, fail, hang_up, tell, hand, answer, pass, write, lose, own, Reach, begin, later,
}
use golang_tools.Net.Loops.Messages.{messages}
use golang_tools.Net.Loops.Pending.{replies, replies_to, Kept}
use golang_tools.Net.Loops.Order.{Reach-Kept}
use golang_tools.Net.Loops.Ends.{work, Steps-bound, stay, more, Informed, Reach-Informed}
use golang_tools.Net.Tcp.{tcp, tcp_answers}
use golang_tools.Net.Websocket.{
  Json, uncode_http, decode_http, read_recv_msg_http, deliver_recv_msg_http, http,
}
use golang_tools.Net.Websocket.Answers.{http_answers}
use golang_tools.Net.Server.{Protocols, connection, error, accept_loop, crashed, Served, tcp_name}
use golang_tools.Net.Server.Accepts.{IsShared, accept_loop-connections, init_server-IsShared}

abbrev ask : ClientMsg
ask = record { tag = pos 5; msg = 63 ∷ [] }

-- A session that answers every message with itself.
abbrev echo : ℕ → ClientMsg → ℕ × Option ClientMsg
echo n m = (suc n, some m)

-- A frame and one byte.
abbrev stream : List ℕ
stream = flatten (map frame (ask ∷ [])) ++ (0 ∷ [])

abbrev began : Conn (List ℕ) (List ℕ) ℕ
began = start stream 0

abbrev has_read : Conn (List ℕ) (List ℕ) ℕ
has_read = record began { incoming = 0 ∷ []; reader = handing ask }

abbrev handed : Conn (List ℕ) (List ℕ) ℕ
handed = record has_read { reader = reading; deliverer = asking ask }

-- The rest is no frame.
abbrev garbled : Conn (List ℕ) (List ℕ) ℕ
garbled = record handed { reader = failing }

-- The connection is closed before the answer is there.
abbrev cut_off : Conn (List ℕ) (List ℕ) ℕ
cut_off = record handed { reader = leaving; link = closed }

abbrev answered_late : Conn (List ℕ) (List ℕ) ℕ
answered_late = record cut_off { session = 1; deliverer = sending (frame ask) }

abbrev passed : Conn (List ℕ) (List ℕ) ℕ
passed = record answered_late { deliverer = waiting; writer = some (reply (frame ask)) }

abbrev dropped : Conn (List ℕ) (List ℕ) ℕ
dropped = record passed { writer = none }

abbrev lost_it : Conn (List ℕ) (List ℕ) ℕ
lost_it = record dropped { reader = ended; disconnects = 1 }

read_step : Step tcp echo began has_read
unfolding uncode golang_tools.Net.decode golang_tools.Base.Word.to_u32
read_step = read ask (0 ∷ []) refl refl

fail_step : Step tcp echo handed garbled
unfolding uncode
fail_step = fail refl refl

hang_up_step : Step tcp echo garbled cut_off
hang_up_step = hang_up refl

hand_step : Step tcp echo has_read handed
hand_step = hand ask refl refl

answer_step : Step tcp echo cut_off answered_late
answer_step = answer ask ask (frame ask) refl refl refl

pass_step : Step tcp echo answered_late passed
pass_step = pass (frame ask) refl refl

lose_step : Step tcp echo passed dropped
lose_step = lose (reply (frame ask)) refl tt

-- The answer is lost.
lossy_run : Reach tcp echo stream 0 lost_it
lossy_run =
    later
      (later
        (later
          (later
            (later (later (later (later begin (own read_step)) (own hand_step)) (own fail_step))
              (own hang_up_step))
            (own answer_step))
          (own pass_step))
        (own lose_step))
      (own (tell refl))

rest_cut : uncode (0 ∷ []) ≡ none
unfolding uncode
rest_cut = refl

tcp_answers_example :
    (lost : List (List ℕ)) × (replies lost_it.sent ++ lost
      ≡ map frame (answers echo 0 (map seen (ask ∷ []))))
    × (length lost ≤ 2)
tcp_answers_example =
    tcp_answers echo (ask ∷ []) (0 ∷ []) 0 lost_it (omega arith, tt) rest_cut lossy_run
      (refl, (refl, refl)) (λ e. cc)

Reach-Kept_example : Kept tcp echo (replies_to tcp echo 0 (messages tcp stream)) lost_it
Reach-Kept_example = Reach-Kept tcp echo stream 0 lost_it lossy_run

Reach-Informed_example : Informed tcp echo lost_it.reader lost_it.link lost_it.disconnects
Reach-Informed_example = Reach-Informed tcp echo stream 0 lost_it lossy_run

Steps-bound_example : 2 + work tcp echo handed ≤ work tcp echo began
Steps-bound_example = Steps-bound tcp echo 2 began handed (more (more stay read_step) hand_step)

-- A JSON of a kind: every text is a request with the number 1, and the answer's text has one byte more.
abbrev json : Json (List ℕ)
json = record {
  unmarshal = λ t. some (λ key. some t);
  atoi = λ t. some (pos 1);
  unmarshal_object = λ t. some t;
  empty_object = [];
  marshal = λ tag t. some (0 ∷ t);
}

abbrev texts : List (List ℕ)
texts = (7 ∷ []) ∷ []

abbrev request : ClientMsg
request = record { tag = pos 1; msg = 7 ∷ [] }

abbrev ws_began : Conn (List (List ℕ)) (List ℕ) ℕ
ws_began = start texts 0

abbrev ws_read : Conn (List (List ℕ)) (List ℕ) ℕ
ws_read = record ws_began { incoming = []; reader = handing request }

abbrev ws_handed : Conn (List (List ℕ)) (List ℕ) ℕ
ws_handed = record ws_read { reader = reading; deliverer = asking request }

abbrev ws_answered : Conn (List (List ℕ)) (List ℕ) ℕ
ws_answered = record ws_handed { session = 1; deliverer = sending (0 ∷ 7 ∷ []) }

abbrev ws_passed : Conn (List (List ℕ)) (List ℕ) ℕ
ws_passed = record ws_answered { deliverer = waiting; writer = some (reply (0 ∷ 7 ∷ [])) }

abbrev ws_written : Conn (List (List ℕ)) (List ℕ) ℕ
ws_written = record ws_passed { writer = none; sent = reply (0 ∷ 7 ∷ []) ∷ [] }

abbrev ws_failed : Conn (List (List ℕ)) (List ℕ) ℕ
ws_failed = record ws_written { reader = failing }

abbrev ws_closed : Conn (List (List ℕ)) (List ℕ) ℕ
ws_closed = record ws_failed { reader = leaving; link = closed }

abbrev ws_ended : Conn (List (List ℕ)) (List ℕ) ℕ
ws_ended = record ws_closed { reader = ended; disconnects = 1 }

ws_read_step : Step (http json) echo ws_began ws_read
unfolding uncode_http
ws_read_step = read request [] refl refl

ws_hand_step : Step (http json) echo ws_read ws_handed
ws_hand_step = hand request refl refl

ws_answer_step : Step (http json) echo ws_handed ws_answered
unfolding decode_http
ws_answer_step = answer request request (0 ∷ 7 ∷ []) refl refl refl

ws_pass_step : Step (http json) echo ws_answered ws_passed
ws_pass_step = pass (0 ∷ 7 ∷ []) refl refl

ws_write_step : Step (http json) echo ws_passed ws_written
ws_write_step = write (reply (0 ∷ 7 ∷ [])) refl refl

ws_fail_step : Step (http json) echo ws_written ws_failed
ws_fail_step = fail refl refl

ws_run : Reach (http json) echo texts 0 ws_ended
ws_run =
    later
      (later
        (later
          (later
            (later
              (later (later (later begin (own ws_read_step)) (own ws_hand_step))
                (own ws_answer_step))
              (own ws_pass_step))
            (own ws_write_step))
          (own ws_fail_step))
        (own (hang_up refl)))
      (own (tell refl))

http_answers_example :
    (lost : List (List ℕ)) × (replies ws_ended.sent ++ lost
      ≡ (deliver_recv_msg_http json echo 0 (read_recv_msg_http json texts).0).1)
    × (length lost ≤ 2)
http_answers_example = http_answers json echo texts 0 ws_ended ws_run (refl, (refl, refl)) (λ e. cc)

accept_loop-connections_example :
    (accept_loop {F = ℕ} {C = ℕ} (some 7) (connection 1 ∷ error (some 2) ∷ connection 3 ∷ [])
      ≡ Served.waiting (1 ∷ 3 ∷ []))
    × (accept_loop {F = ℕ} {C = ℕ}
          (some 7)
          (connection 1 ∷ error (some 2) ∷ connection 3 ∷ error none ∷ connection 4 ∷ [])
        ≡ crashed (1 ∷ 3 ∷ []))
    × (accept_loop {F = ℕ} {C = ℕ} none (connection 1 ∷ error (some 2) ∷ connection 3 ∷ [])
        ≡ crashed [])
accept_loop-connections_example =
    accept_loop-connections 7 (connection 1 ∷ error (some 2) ∷ connection 3 ∷ [])
      (connection 4 ∷ []) (tt, (tt, (tt, tt)))

abbrev protocols : Protocols ℕ
protocols = record {
  tcp = record { addr = []; protocol = []; listener = none; new_session_func = none };
  http = record { addr = []; protocol = []; routes = none; new_session_func = none };
}

init_server-IsShared_example : IsShared (1 ∷ []) (2 ∷ []) tcp_name (some 1) (some 2) protocols
init_server-IsShared_example =
    init_server-IsShared (1 ∷ []) (2 ∷ []) tcp_name (some 1) (some 2) protocols (inl refl)
