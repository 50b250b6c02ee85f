-- ===== src/Net/Loops.antt =====
-- The goroutines of one connection, interleaved in any order: ReadRecvMsg, DeliverRecvMsg and WriteMsg
-- of net/clientConn/client_conn.go, and those of client_conn_http.go, which differ in the codec only.
-- The channels recvQueue and sendQueue have no buffer: a message passes when both sides are there.
pub mod Messages
pub mod Pending
pub mod Order
pub mod Ends
use golang_tools.Base.{ℕ, zero, suc, ◌<◌, ◌≡◌, List, [], ◌∷◌, ◌++◌, Option, none, some}
use golang_tools.Net.{ClientMsg}

-- What a kind of connection reads and writes: uncode takes a message from what is still to come, or
-- fails; decode makes the frame of an answer, or fails. Reading uses up what is to come.
pub record Codec (In Frame : Type 0) : Type 0 where
  pub next : In → Option (ClientMsg × In)
  pub encode : ClientMsg → Option Frame
  pub size : In → ℕ
  pub size_next : (i rest : In) (m : ClientMsg) → next i ≡ some (m, rest) → size rest < size i

-- Where ReadRecvMsg stands: at uncode, at the channel with a message, at Close behind an error of uncode, at
-- DisConnectCallBack behind Close, or behind the loop.
pub data Reader : Type 0 where
  reading : Reader
  handing : ClientMsg → Reader
  failing leaving ended : Reader

-- Where DeliverRecvMsg stands: at its channel, at the call of the session, or at the other channel.
pub data Deliverer (Frame : Type 0) : Type 0 where
  waiting : Deliverer Frame
  asking : ClientMsg → Deliverer Frame
  sending : Frame → Deliverer Frame

-- A frame with its origin: an answer of the session, or a message that SendMsg was called with.
pub data Outgoing (Frame : Type 0) : Type 0 where
  reply : Frame → Outgoing Frame
  pushed : Frame → Outgoing Frame

-- The connection: up, closed by ReadRecvMsg, or reset by the other side.
pub data Link : Type 0 where
  up closed reset : Link

abbrev pub closing : Link → Link
closing up = closed
closing closed = closed
closing reset = reset

abbrev pub IsDown : Link → Type 0
IsDown up = ⊥
IsDown closed = Unit {0}
IsDown reset = Unit {0}

-- `writer` is the frame that WriteMsg has taken; `sent` is what the connection took, in its order.
pub record Conn (In Frame S : Type 0) : Type 0 where
  pub incoming : In
  pub reader : Reader
  pub deliverer : Deliverer Frame
  pub writer : Option (Outgoing Frame)
  pub sent : List (Outgoing Frame)
  pub session : S
  pub link : Link
  pub disconnects : ℕ

-- The connection as NewClientConn and the server's goroutines make it.
abbrev pub start : {In Frame S : Type 0} → In → S → Conn In Frame S
start i s = record {
  incoming = i;
  reader = reading;
  deliverer = waiting;
  writer = none;
  sent = [];
  session = s;
  link = up;
  disconnects = 0;
}

-- One step of one goroutine; a goroutine may wait at any place for any time, so also in Read or in Write while
-- the other side does nothing. Write of the connection fails if it is closed or reset, and only then; WriteMsg
-- goes on. Once it is reset reading may fail at any time. RequestCallBack is taken to return a message if it
-- returns no error: with nil for both the process panics.
pub data Step {In Frame S : Type 0} (codec : Codec In Frame)
    (call_back : S → ClientMsg → S × Option ClientMsg) (c : Conn In Frame S)
    : Conn In Frame S → Type 0 where
  read :
      (m : ClientMsg) (rest : In)
      → c.reader ≡ reading
      → codec.next c.incoming ≡ some (m, rest)
      → Step codec call_back c (record c { incoming = rest; reader = handing m })
  fail :
      c.reader ≡ reading
      → codec.next c.incoming ≡ none
      → Step codec call_back c (record c { reader = failing })
  break_off :
      c.reader ≡ reading → c.link ≡ reset → Step codec call_back c (record c { reader = failing })
  hang_up :
      c.reader ≡ failing
      → Step codec call_back c (record c { reader = leaving; link = closing c.link })
  -- The break behind the call does nothing to what is shared.
  tell :
      c.reader ≡ leaving
      → Step codec call_back c (record c { reader = ended; disconnects = suc c.disconnects })
  hand :
      (m : ClientMsg)
      → c.reader ≡ handing m
      → c.deliverer ≡ waiting
      → Step codec call_back c (record c { reader = reading; deliverer = asking m })
  refuse :
      (m : ClientMsg)
      → c.deliverer ≡ asking m
      → (call_back c.session m).1 ≡ none
      → Step codec call_back c
          (record c { session = (call_back c.session m).0; deliverer = waiting })
  garble :
      (m r : ClientMsg)
      → c.deliverer ≡ asking m
      → (call_back c.session m).1 ≡ some r
      → codec.encode r ≡ none
      → Step codec call_back c
          (record c { session = (call_back c.session m).0; deliverer = waiting })
  answer :
      (m r : ClientMsg) (f : Frame)
      → c.deliverer ≡ asking m
      → (call_back c.session m).1 ≡ some r
      → codec.encode r ≡ some f
      → Step codec call_back c
          (record c { session = (call_back c.session m).0; deliverer = sending f })
  pass :
      (f : Frame)
      → c.deliverer ≡ sending f
      → c.writer ≡ none
      → Step codec call_back c (record c { deliverer = waiting; writer = some (reply f) })
  write :
      (o : Outgoing Frame)
      → c.writer ≡ some o
      → c.link ≡ up
      → Step codec call_back c (record c { writer = none; sent = c.sent ++ (o ∷ []) })
  lose :
      (o : Outgoing Frame)
      → c.writer ≡ some o
      → IsDown c.link
      → Step codec call_back c (record c { writer = none })

-- A step, a call of SendMsg from outside, whose frame WriteMsg takes, or a reset by the other side.
pub data Move {In Frame S : Type 0} (codec : Codec In Frame)
    (call_back : S → ClientMsg → S × Option ClientMsg) (c : Conn In Frame S)
    : Conn In Frame S → Type 0 where
  own : {d : Conn In Frame S} → Step codec call_back c d → Move codec call_back c d
  push :
      (m : ClientMsg) (f : Frame)
      → codec.encode m ≡ some f
      → c.writer ≡ none
      → Move codec call_back c (record c { writer = some (pushed f) })
  cut : c.link ≡ up → Move codec call_back c (record c { link = reset })

-- The states of a connection with a session that starts at `s`, if `i` is what comes in.
pub data Reach {In Frame S : Type 0} (codec : Codec In Frame)
    (call_back : S → ClientMsg → S × Option ClientMsg) (i : In) (s : S)
    : Conn In Frame S → Type 0 where
  begin : Reach codec call_back i s (start i s)
  later :
      {c d : Conn In Frame S}
      → Reach codec call_back i s c
      → Move codec call_back c d
      → Reach codec call_back i s d
