-- ===== src/Net/Tcp.antt =====
-- The goroutines of net/clientConn/client_conn.go on a stream of frames.
use golang_tools.Base.{
  ℕ, ◌≤◌, ◌≡◌, refl, ap, ◌∙◌, List, [], ◌∷◌, ◌++◌, map, flatten, append_assoc, length, All, Option,
  none, some,
}
use golang_tools.Net.{ClientMsg, uncode}
use golang_tools.Net.Frames.{IsSendable, seen, frame, answered, answers, uncode-decode, uncode_less}
use golang_tools.Net.Loops.{Codec, Conn, reset, Reach}
use golang_tools.Net.Loops.Messages.{messages, messages-none, messages-some}
use golang_tools.Net.Loops.Pending.{replies, framed, replies_to}
use golang_tools.Net.Loops.Ends.{Reach-lost_few, IsAtRest}

-- uncode and decode of ClientConn_tcp
abbrev pub tcp : Codec (List ℕ) (List ℕ)
tcp = record { next = uncode; encode = λ m. some (frame m); size = length; size_next = uncode_less }

messages_frames :
    (ms : List ClientMsg) (rest : List ℕ)
    → All IsSendable ms
    → uncode rest ≡ none
    → messages tcp (flatten (map frame ms) ++ rest) ≡ map seen ms
messages_frames [] rest sendable cut = messages-none tcp rest cut
messages_frames (m ∷ ms) rest (fits, sendable) cut =
    let more = flatten (map frame ms) ++ rest in
    messages-some tcp ((frame m ++ flatten (map frame ms)) ++ rest) more (seen m)
      (ap uncode (append_assoc (frame m) (flatten (map frame ms)) rest) ∙ uncode-decode m more fits)
    ∙ ap (◌∷◌ (seen m)) (messages_frames ms rest sendable cut)

module _ {S : Type 0} (call_back : S → ClientMsg → S × Option ClientMsg) where
  framed-answered :
      (o : Option ClientMsg) (ms : List ClientMsg)
      → framed tcp call_back o (map frame ms) ≡ map frame (answered o ms)
  framed-answered none ms = refl
  framed-answered (some r) ms = refl

  replies_to-answers :
      (s : S) (ms : List ClientMsg)
      → replies_to tcp call_back s ms ≡ map frame (answers call_back s ms)
  unfolding replies_to answers
  replies_to-answers s [] = refl
  replies_to-answers s (m ∷ ms) =
      ap (framed tcp call_back (call_back s m).1) (replies_to-answers (call_back s m).0 ms)
      ∙ framed-answered (call_back s m).1 (answers call_back (call_back s m).0 ms)

  -- A stream that holds the frames of messages shorter than 2 ^ 32 bytes, and a rest that is no whole
  -- frame: in every order of the goroutines that has come to rest, unless the other side has reset the
  -- connection, the frames that were sent are those of the session's answers to these messages, with
  -- numbers modulo 2 ^ 32, in their order, but for at most the last two.
  pub tcp_answers :
      (ms : List ClientMsg) (rest : List ℕ) (s : S) (c : Conn (List ℕ) (List ℕ) S)
      → All IsSendable ms
      → uncode rest ≡ none
      → Reach tcp call_back (flatten (map frame ms) ++ rest) s c
      → IsAtRest tcp call_back c
      → ¬ (c.link ≡ reset)
      → (lost : List (List ℕ)) × (replies c.sent ++ lost
          ≡ map frame (answers call_back s (map seen ms)))
        × (length lost ≤ 2)
  tcp_answers ms rest s c sendable cut r at_rest kept =
      let (lost, e, few) =
        Reach-lost_few tcp call_back (flatten (map frame ms) ++ rest) s c r at_rest kept in
      (
        lost,
        e
            ∙ ap (replies_to tcp call_back s) (messages_frames ms rest sendable cut)
            ∙ replies_to-answers s (map seen ms),
        few,
      )
