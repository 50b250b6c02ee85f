-- ===== src/Net/Websocket/Answers.antt =====
-- What the goroutines of a websocket connection send, and how they end it.
use golang_tools.Base.{ℕ, ◌≤◌, ◌≡◌, refl, ap, ◌∙◌, List, [], ◌∷◌, ◌++◌, length, Option, none, some}
use golang_tools.Net.{ClientMsg}
use golang_tools.Net.Loops.{Conn, reset, Reach}
use golang_tools.Net.Loops.Messages.{messages, messages-none, messages-some}
use golang_tools.Net.Loops.Pending.{replies, coded, framed, replies_to}
use golang_tools.Net.Loops.Ends.{Reach-lost_few, IsAtRest}
use golang_tools.Net.Websocket.{
  Json, Uncoded, message, defect, Defect, Call, close, disconnect, rejects, uncode_http,
  decode_http, queued, encoded, replied_http, read_recv_msg_http, deliver_recv_msg_http, http,
  following,
}

module _ {Obj : Type 0} (json : Json Obj) where
  messages-queued :
      (t : List ℕ) (ts : List (List ℕ)) (u : Uncoded) (calls : List Call)
      → uncode_http json (some t) ≡ u
      → messages (http json) (t ∷ ts) ≡ (queued json u (messages (http json) ts, calls)).0
  messages-queued t ts (message m) calls e =
      messages-some (http json) (t ∷ ts) ts m (ap (λ u. following json u ts) e)
  messages-queued t ts (defect d) calls e =
      messages-none (http json) (t ∷ ts) (ap (λ u. following json u ts) e)

  queued-messages :
      (u : Uncoded) (ms ns : List ClientMsg) (calls : List Call)
      → ms ≡ ns
      → (queued json u (ms, calls)).0 ≡ (queued json u (ns, calls)).0
  queued-messages (message m) ms ns calls e = ap (◌∷◌ m) e
  queued-messages (defect d) ms ns calls e = refl

  messages-read_recv_msg_http :
      (ts : List (List ℕ)) → messages (http json) ts ≡ (read_recv_msg_http json ts).0
  unfolding read_recv_msg_http uncode_http
  messages-read_recv_msg_http [] = messages-none (http json) [] refl
  messages-read_recv_msg_http (t ∷ ts) =
      let rest = read_recv_msg_http json ts in
      messages-queued t ts (uncode_http json (some t)) rest.1 refl
      ∙ queued-messages (uncode_http json (some t)) (messages (http json) ts) rest.0 rest.1
          (messages-read_recv_msg_http ts)

  module _ {S : Type 0} (call_back : S → ClientMsg → S × Option ClientMsg) where
    framed-replied_http :
        (o : Option ClientMsg) (fs gs : List (List ℕ))
        → fs ≡ gs
        → framed (http json) call_back o fs ≡ replied_http json (encoded json o) gs
    framed-replied_http none fs gs e = e
    framed-replied_http (some r) fs gs e = coded-replied_http (decode_http json r.tag r.msg) fs gs e
      where
        coded-replied_http :
            (o : Option (List ℕ)) (xs ys : List (List ℕ))
            → xs ≡ ys
            → coded o xs ≡ replied_http json o ys
        coded-replied_http none xs ys h = h
        coded-replied_http (some f) xs ys h = ap (◌∷◌ f) h

    replies_to-deliver_recv_msg_http :
        (s : S) (ms : List ClientMsg)
        → replies_to (http json) call_back s ms ≡ (deliver_recv_msg_http json call_back s ms).1
    unfolding replies_to deliver_recv_msg_http
    replies_to-deliver_recv_msg_http s [] = refl
    replies_to-deliver_recv_msg_http s (m ∷ ms) =
        framed-replied_http (call_back s m).1 _ _
          (replies_to-deliver_recv_msg_http (call_back s m).0 ms)

    -- For every sequence of texts that come in and every order of the goroutines that has come to rest,
    -- unless the other side has reset the connection: the frames that were sent are those that
    -- DeliverRecvMsg_http makes, one message after the other, of what ReadRecvMsg_http queues, in their
    -- order, but for at most the last two.
    pub http_answers :
        (ts : List (List ℕ)) (s : S) (c : Conn (List (List ℕ)) (List ℕ) S)
        → Reach (http json) call_back ts s c
        → IsAtRest (http json) call_back c
        → ¬ (c.link ≡ reset)
        → (lost : List (List ℕ)) × (replies c.sent ++ lost
            ≡ (deliver_recv_msg_http json call_back s (read_recv_msg_http json ts).0).1)
          × (length lost ≤ 2)
    http_answers ts s c r at_rest kept =
        let (lost, e, few) = Reach-lost_few (http json) call_back ts s c r at_rest kept in
        (
          lost,
          e
              ∙ ap (replies_to (http json) call_back s) (messages-read_recv_msg_http ts)
              ∙ replies_to-deliver_recv_msg_http s (read_recv_msg_http json ts).0,
          few,
        )

  -- How ReadRecvMsg_http ends.
  abbrev pub IsEnd : List Call → Type 0
  IsEnd calls = (d : Defect) × (calls ≡ rejects json d ++ (close ∷ disconnect ∷ close ∷ []))

  IsEnd-queued :
      (u : Uncoded) (rest : List ClientMsg × List Call)
      → IsEnd rest.1
      → IsEnd (queued json u rest).1
  IsEnd-queued (message m) rest h = h
  IsEnd-queued (defect d) rest h = (d, refl)

  -- ReadRecvMsg_http always ends in the same way, whatever comes in: the calls for the defect that it
  -- met, then Close, and from the deferred function DisConnectCallBack, once, and Close again.
  pub IsEnd-read_recv_msg_http : (ts : List (List ℕ)) → IsEnd (read_recv_msg_http json ts).1
  unfolding read_recv_msg_http uncode_http
  IsEnd-read_recv_msg_http [] = (Defect.not_read, refl)
  IsEnd-read_recv_msg_http (t ∷ ts) =
      IsEnd-queued (uncode_http json (some t)) (read_recv_msg_http json ts)
        (IsEnd-read_recv_msg_http ts)
