-- ===== src/Kcp/Counts/Calls.antt =====
-- A connection through any calls of its methods.
use golang_tools.Base.{ℕ, Bool, List, [], ◌∷◌}
use golang_tools.Base.Int.{ℤ}
use golang_tools.Base.Run.{Run, done, panic, stuck, after, Ensures, Ensures-after}
use golang_tools.Kcp.Define.{Kcp, set_output}
use golang_tools.Kcp.Send.{send, set_nodelay}
use golang_tools.Kcp.Input.{input}
use golang_tools.Kcp.Flush.{Flushing, flush}
use golang_tools.Kcp.Counts.{AreCounted}
use golang_tools.Kcp.Counts.Connection.{send-AreCounted, input-AreCounted, set_nodelay-AreCounted}
use golang_tools.Kcp.Counts.Flushed.{flush-AreCounted}

-- A call of a method with its arguments. `clocks` is for what the application itself stores: the time
-- in Current, and Updated.
pub data Call : Type 0 where
  sends : List ℕ → Call
  receives : List ℕ → Call
  tunes : ℤ → ℤ → ℤ → ℤ → Call
  outputs : Bool → Call
  clocks : ℕ → ℕ → Call
  flushes : Call

-- The connection that Flush leaves.
abbrev kcp_of : Run Flushing (Unit {0}) → Run Kcp (Unit {0})
kcp_of (done s x) = done s.kcp tt
kcp_of (panic e s) = panic e s.kcp
kcp_of stuck = stuck

-- The results of the methods are not looked at.
unfoldable pub call : Call → Kcp → Run Kcp (Unit {0})
call (sends bytes) k = done (send bytes k).0 tt
call (receives bytes) k = after (input bytes k) (λ l _. done l tt)
call (tunes nodelay interval resend nc) k = done (set_nodelay nodelay interval resend nc k).0 tt
call (outputs given) k = done (set_output given k) tt
call (clocks now updated) k = done (record k { current = now; updated = updated }) tt
call flushes k = kcp_of (flush k)

unfoldable pub call_all : List Call → Kcp → Run Kcp (Unit {0})
call_all [] k = done k tt
call_all (c ∷ cs) k = after (call c k) (λ l _. call_all cs l)

kcp_of-AreCounted :
    (run : Run Flushing (Unit {0}))
    → Ensures (λ s _. AreCounted s.kcp) run
    → Ensures (λ k _. AreCounted k) (kcp_of run)
kcp_of-AreCounted (done s x) h = h
kcp_of-AreCounted (panic e s) h = tt
kcp_of-AreCounted stuck h = h

call-AreCounted : (c : Call) (k : Kcp) → AreCounted k → Ensures (λ l _. AreCounted l) (call c k)
unfolding call set_output
call-AreCounted (sends bytes) k h = send-AreCounted bytes k h
call-AreCounted (receives bytes) k h =
    Ensures-after (λ l _. AreCounted l) (λ l _. AreCounted l) (input bytes k) _
      (input-AreCounted bytes k h) (λ l r h'. h')
call-AreCounted (tunes nodelay interval resend nc) k h =
    set_nodelay-AreCounted nodelay interval resend nc k h
call-AreCounted (outputs given) k h = h
call-AreCounted (clocks now updated) k h = h
call-AreCounted flushes k h = kcp_of-AreCounted (flush k) (flush-AreCounted k h)

-- Any calls of the methods, one after the other, end: they all return, or one of them panics. If the
-- four counters agree, modulo 2 ^ 32, with the lengths of the two queues and the two buffers before,
-- and the calls return, then the counters agree with them afterwards.
pub call_all-AreCounted :
    (calls : List Call) (k : Kcp) → AreCounted k → Ensures (λ l _. AreCounted l) (call_all calls k)
unfolding call_all
call_all-AreCounted [] k h = h
call_all-AreCounted (c ∷ cs) k h =
    Ensures-after (λ l _. AreCounted l) (λ l _. AreCounted l) (call c k) _ (call-AreCounted c k h)
      (λ l x h'. call_all-AreCounted cs l h')
