-- ===== src/Net.antt =====
-- The connections of net/clientConn/client_conn.go: frames of a number, a length and the message, and
-- the loops that read, answer and write them. The channels have one sender and one receiver, so that a
-- queue is the list of what goes through it.
pub mod Frames
pub mod Loops
pub mod Tcp
pub mod Websocket
pub mod Server
mod Examples
mod Runs
use golang_tools.Base.{
  ℕ, zero, suc, ◌%◌, ◌^◌, ltb, if◌then◌else◌, Bool, List, [], ◌∷◌, ◌++◌, length, take, drop, Option,
  none, some,
}
use golang_tools.Base.Int.{ℤ, pos}
use golang_tools.Base.Word.{to_u32}
use golang_tools.Base.Bytes.{be32, be32_at}

pub record ClientMsg : Type 0 where
  pub tag : ℤ
  pub msg : List ℕ

-- `none` where io.ReadFull fails: the stream ends inside the head or the message.
unfoldable pub uncode : List ℕ → Option (ClientMsg × List ℕ)
uncode stream =
    let body = drop 8 stream in
    let size = be32_at stream 4 in
    if ltb (length stream) 8
    then none
    else if ltb (length body) size
    then none
    else some (record { tag = pos (be32_at stream 0); msg = take size body }, drop size body)

unfoldable pub decode : ℤ → List ℕ → List ℕ
decode tag msg = be32 (to_u32 tag) ++ (be32 (length msg % 2 ^ 32) ++ msg)

-- SendMsg: the frame that goes into the sending queue.
unfoldable pub send_msg : ClientMsg → List (List ℕ) → List (List ℕ)
send_msg res queue = queue ++ (decode res.tag res.msg ∷ [])

abbrev pub received : ClientMsg → Option (List ClientMsg) → Option (List ClientMsg)
received m none = none
received m (some ms) = some (m ∷ ms)

-- ReadRecvMsg: what it puts into the receiving queue until it fails to read and disconnects. `none`
-- only if the fuel does not suffice.
unfoldable pub read_recv_msg : ℕ → List ℕ → Option (List ClientMsg)
read_recv_msg zero stream = none
read_recv_msg (suc fuel) stream = elim (uncode stream) [
  | none ↦ some []
  | some (m, rest) ↦ received m (read_recv_msg fuel rest)
]

-- The frame of a result of RequestCallBack goes before those of later ones.
abbrev pub replied : Option ClientMsg → List (List ℕ) → List (List ℕ)
replied none frames = frames
replied (some r) frames = decode r.tag r.msg ∷ frames

-- DeliverRecvMsg: the frames that it puts into the sending queue. `call_back` is RequestCallBack of the
-- session, `none` for its error, upon which there is no answer; it is taken to return a message otherwise, since
-- at nil for both the code panics.
unfoldable pub deliver_recv_msg {ℓ} :
    {S : Type ℓ} → (S → ClientMsg → S × Option ClientMsg) → S → List ClientMsg → S × List (List ℕ)
deliver_recv_msg call_back s [] = (s, [])
deliver_recv_msg call_back s (m ∷ ms) =
    let (s', res) = call_back s m in
    let (end, frames) = deliver_recv_msg call_back s' ms in (end, replied res frames)

-- WriteMsg: `conn_write` is Write of the connection, with its success, which makes no difference.
unfoldable pub write_msg {ℓ} : {C : Type ℓ} → (C → List ℕ → C × Bool) → C → List (List ℕ) → C
write_msg conn_write conn [] = conn
write_msg conn_write conn (frame ∷ frames) =
    let (conn', ok) = conn_write conn frame in write_msg conn_write conn' frames
