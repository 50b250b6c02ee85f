-- ===== src/Net/Websocket.antt =====
-- net/clientConn/client_conn_http.go: messages as JSON texts on a websocket. JSON, the decimal numbers
-- and the websocket are other packages' work and stand as parameters.
pub mod Answers
use golang_tools.Base.{
  ℕ, zero, suc, ◌<◌, ◌≡◌, arith, ◌==◌, if◌then◌else◌, Bool, true, false, List, [], ◌∷◌, ◌++◌,
  length, Option, none, some,
}
use golang_tools.Base.Int.{ℤ}
use golang_tools.Net.{ClientMsg}
use golang_tools.Net.Loops.{Codec}

-- `msg_id` and `payload`
abbrev pub msg_id_key : List ℕ
msg_id_key = 109 ∷ 115 ∷ 103 ∷ 95 ∷ 105 ∷ 100 ∷ []

abbrev pub payload_key : List ℕ
payload_key = 112 ∷ 97 ∷ 121 ∷ 108 ∷ 111 ∷ 97 ∷ 100 ∷ []

-- What uncode finds wrong.
pub data Defect : Type 0 where
  not_read not_json no_id bad_id no_payload : Defect

pub data Uncoded : Type 0 where
  message : ClientMsg → Uncoded
  defect : Defect → Uncoded

-- The calls that end a connection: Close of the websocket, a close message on it, and
-- DisConnectCallBack of the session.
pub data Call : Type 0 where
  close close_message disconnect : Call

-- `json.Unmarshal` into a map of texts, `strconv.Atoi`, `json.Unmarshal` into a map of any values with the
-- map that is empty, and `json.Marshal` of a number and such a map.
pub record Json (Obj : Type 0) : Type 0 where
  pub unmarshal : List ℕ → Option (List ℕ → Option (List ℕ))
  pub atoi : List ℕ → Option ℤ
  pub unmarshal_object : List ℕ → Option Obj
  pub empty_object : Obj
  pub marshal : ℤ → Obj → Option (List ℕ)

module _ {Obj : Type 0} (json : Json Obj) where
  abbrev pub with_payload : ℤ → Option (List ℕ) → Uncoded
  with_payload tag none = defect no_payload
  with_payload tag (some payload) = message (record { tag = tag; msg = payload })

  abbrev pub with_tag : (List ℕ → Option (List ℕ)) → Option ℤ → Uncoded
  with_tag req none = defect bad_id
  with_tag req (some tag) = with_payload tag (req payload_key)

  abbrev pub with_id : (List ℕ → Option (List ℕ)) → Option (List ℕ) → Uncoded
  with_id req none = defect no_id
  with_id req (some id) = with_tag req (json.atoi id)

  abbrev pub with_request : Option (List ℕ → Option (List ℕ)) → Uncoded
  with_request none = defect not_json
  with_request (some req) = with_id req (req msg_id_key)

  -- The text is what ReadMessage returns, `none` for its error.
  unfoldable pub uncode_http : Option (List ℕ) → Uncoded
  uncode_http none = defect not_read
  uncode_http (some text) = with_request (json.unmarshal text)

  -- What uncode does to the websocket before it returns an error.
  abbrev pub rejects : Defect → List Call
  rejects not_read = close ∷ []
  rejects not_json = close_message ∷ []
  rejects no_id = close_message ∷ []
  rejects bad_id = close_message ∷ []
  rejects no_payload = close_message ∷ []

  abbrev pub marshalled : ℤ → Option Obj → Option (List ℕ)
  marshalled tag none = none
  marshalled tag (some res) = json.marshal tag res

  unfoldable pub decode_http : ℤ → List ℕ → Option (List ℕ)
  decode_http tag msg =
      marshalled tag (if length msg == 0 then some json.empty_object else json.unmarshal_object msg)

  -- SendMsg: the sending queue, and whether there was no error.
  unfoldable pub send_msg_http : ClientMsg → List (List ℕ) → List (List ℕ) × Bool
  send_msg_http res queue = elim (decode_http res.tag res.msg) [
    | none ↦ (queue, false)
    | some buf ↦ (queue ++ (buf ∷ []), true)
  ]

  abbrev pub queued : Uncoded → List ClientMsg × List Call → List ClientMsg × List Call
  queued (message m) (ms, calls) = (m ∷ ms, calls)
  queued (defect e) rest = ([], rejects e ++ (close ∷ disconnect ∷ close ∷ []))

  -- ReadRecvMsg_http on the texts that ReadMessage returns before it fails: what goes into the receiving
  -- queue, and the calls at the end, those of the deferred function last.
  unfoldable pub read_recv_msg_http : List (List ℕ) → List ClientMsg × List Call
  read_recv_msg_http [] = queued (uncode_http none) ([], [])
  read_recv_msg_http (t ∷ ts) = queued (uncode_http (some t)) (read_recv_msg_http ts)

  abbrev pub replied_http : Option (List ℕ) → List (List ℕ) → List (List ℕ)
  replied_http none frames = frames
  replied_http (some buf) frames = buf ∷ frames

  abbrev pub encoded : Option ClientMsg → Option (List ℕ)
  encoded none = none
  encoded (some r) = decode_http r.tag r.msg

  -- DeliverRecvMsg_http: no frame for an error of the session or of decode. The session is taken to return a
  -- message if it returns no error.
  unfoldable pub deliver_recv_msg_http {ℓ} :
      {S : Type ℓ} → (S → ClientMsg → S × Option ClientMsg) → S → List ClientMsg → S × List (List ℕ)
  deliver_recv_msg_http call_back s [] = (s, [])
  deliver_recv_msg_http call_back s (m ∷ ms) =
      let (s', res) = call_back s m in
      let (end, frames) = deliver_recv_msg_http call_back s' ms in
      (end, replied_http (encoded res) frames)

  abbrev pub following : Uncoded → List (List ℕ) → Option (ClientMsg × List (List ℕ))
  following (message m) ts = some (m, ts)
  following (defect e) ts = none

  abbrev pub next_http : List (List ℕ) → Option (ClientMsg × List (List ℕ))
  next_http [] = none
  next_http (t ∷ ts) = following (uncode_http (some t)) ts

  following_rest :
      (u : Uncoded) (ts rest : List (List ℕ)) (m : ClientMsg)
      → following u ts ≡ some (m, rest)
      → ts ≡ rest
  following_rest (message n) ts rest m h = cc
  following_rest (defect e) ts rest m h = absurd (cc)

  pub next_http_less :
      (ts rest : List (List ℕ)) (m : ClientMsg)
      → next_http ts ≡ some (m, rest)
      → length rest < length ts
  next_http_less [] rest m h = absurd (cc)
  next_http_less (t ∷ ts) rest m h =
      let e = following_rest (uncode_http (some t)) ts rest m h in rw (← e) (omega arith)

  -- uncode and decode of ClientConn_http
  abbrev pub http : Codec (List (List ℕ)) (List ℕ)
  http = record {
    next = next_http;
    encode = λ m. decode_http m.tag m.msg;
    size = length;
    size_next = next_http_less;
  }

-- WriteMsg_http: errors of WriteMessage make no difference.
unfoldable pub write_msg_http {ℓ} : {C : Type ℓ} → (C → List ℕ → C × Bool) → C → List (List ℕ) → C
write_msg_http write_message conn [] = conn
write_msg_http write_message conn (m ∷ ms) =
    let (conn', ok) = write_message conn m in write_msg_http write_message conn' ms
