-- ===== src/Net/Loops/Order.antt =====
-- The answers leave the connection in the order of the messages, whatever the goroutines' order is.
use golang_tools.Base.{
  ◌≡◌, refl, ap, ◌∙◌, sym, List, [], ◌∷◌, ◌++◌, append_assoc, Option, none, some,
}
use golang_tools.Net.{ClientMsg}
use golang_tools.Net.Loops.{
  break_off, cut, Codec, reading, handing, asking, sending, Outgoing, Conn, Step, read, fail,
  hang_up, tell, hand, refuse, garble, answer, pass, write, lose, Move, own, push, Reach, begin,
  later,
}
use golang_tools.Net.Loops.Messages.{messages, messages-none, messages-some}
use golang_tools.Net.Loops.Pending.{
  replies, taken, coded, replies-append, unread, framed, replies_to, undelivered, pend, pending,
  Kept, Missing-same, few_pending, Missing-closing, Missing-reset, Missing-open, Missing-now,
  Missing-shut,
}

module _ {In Frame S : Type 0} (codec : Codec In Frame)
    (call_back : S → ClientMsg → S × Option ClientMsg) where
  pending-asking :
      (c : Conn In Frame S) (m : ClientMsg) (res : Option ClientMsg)
      → c.deliverer ≡ asking m
      → (call_back c.session m).1 ≡ res
      → pending codec call_back c
        ≡ taken c.writer
          ++ framed codec call_back res (
              replies_to codec call_back
                (call_back c.session m).0
                (unread c.reader (messages codec c.incoming)))
  unfolding replies_to
  pending-asking c m res at_ask e =
      ap (λ d. pend codec call_back c.writer d c.session c.reader (messages codec c.incoming))
        at_ask
      ∙ ap
          (λ o.
            taken c.writer
            ++ framed codec call_back o (
                replies_to codec call_back (call_back c.session m).0
                  (unread c.reader (messages codec c.incoming))))
          e

  pending-framed :
      (c : Conn In Frame S) (m r : ClientMsg) (o : Option Frame)
      → c.deliverer ≡ asking m
      → (call_back c.session m).1 ≡ some r
      → codec.encode r ≡ o
      → pending codec call_back c
        ≡ taken c.writer
          ++ coded o (
              replies_to codec call_back
                (call_back c.session m).0
                (unread c.reader (messages codec c.incoming)))
  pending-framed c m r o at_ask res e =
      pending-asking c m (some r) at_ask res
      ∙ ap
          (λ f.
            taken c.writer
            ++ coded f (
                replies_to codec call_back (call_back c.session m).0
                  (unread c.reader (messages codec c.incoming))))
          e

  -- A frame that is sent moves from what is missing to what is sent.
  Kept-write :
      (all rest ps : List Frame) (os : List (Outgoing Frame)) (o : Outgoing Frame)
      → replies os ++ rest ≡ all
      → rest ≡ taken (some o) ++ ps
      → replies (os ++ (o ∷ [])) ++ ps ≡ all
  Kept-write all rest ps os o e h =
      ap (λ xs. xs ++ ps) (replies-append os o)
      ∙ append_assoc (replies os) (taken (some o)) ps
      ∙ ap (λ xs. replies os ++ xs) (sym h)
      ∙ e

  Step-Kept :
      (all : List Frame) (c d : Conn In Frame S)
      → Step codec call_back c d
      → Kept codec call_back all c
      → Kept codec call_back all d
  Step-Kept all c d (read m rest at_read got) (left, e, h) = (
    left,
    e,
    Missing-same codec call_back c.link left (pending codec call_back c) _
        (ap (λ r. pend codec call_back c.writer c.deliverer c.session r (messages codec c.incoming))
            at_read
          ∙ ap (pend codec call_back c.writer c.deliverer c.session reading)
              (messages-some codec c.incoming rest m got))
        h,
  )
  Step-Kept all c d (fail at_read over) (left, e, h) = (
    left,
    e,
    Missing-same codec call_back c.link left (pending codec call_back c) _
        (ap (λ r. pend codec call_back c.writer c.deliverer c.session r (messages codec c.incoming))
            at_read
          ∙ ap (pend codec call_back c.writer c.deliverer c.session reading)
              (messages-none codec c.incoming over))
        h,
  )
  Step-Kept all c d (break_off at_read gone) (left, e, h) =
      (left, e, Missing-reset codec call_back c.link left _ gone)
  Step-Kept all c d (hang_up at_fail) (left, e, h) = (
    left,
    e,
    Missing-closing codec call_back c.link left
        (pend codec call_back c.writer c.deliverer c.session reading []) _
        (few_pending codec call_back c.writer c.deliverer c.session)
        (Missing-same codec call_back c.link left (pending codec call_back c) _
          (ap
            (λ r. pend codec call_back c.writer c.deliverer c.session r (messages codec c.incoming))
            at_fail)
          h),
  )
  Step-Kept all c d (tell at_leave) (left, e, h) = (
    left,
    e,
    Missing-same codec call_back c.link left (pending codec call_back c) _
        (ap (λ r. pend codec call_back c.writer c.deliverer c.session r (messages codec c.incoming))
          at_leave)
        h,
  )
  Step-Kept all c d (hand m at_hand idle) (left, e, h) = (
    left,
    e,
    Missing-same codec call_back c.link left (pending codec call_back c) _
        (ap (λ r. pend codec call_back c.writer c.deliverer c.session r (messages codec c.incoming))
            at_hand
          ∙ ap
              (λ x.
                pend codec call_back c.writer x c.session (handing m) (messages codec c.incoming))
              idle)
        h,
  )
  Step-Kept all c d (refuse m at_ask no_answer) (left, e, h) = (
    left,
    e,
    Missing-same codec call_back c.link left (pending codec call_back c) _
        (pending-asking c m none at_ask no_answer) h,
  )
  Step-Kept all c d (garble m r at_ask res bad) (left, e, h) = (
    left,
    e,
    Missing-same codec call_back c.link left (pending codec call_back c) _
        (pending-framed c m r none at_ask res bad) h,
  )
  Step-Kept all c d (answer m r f at_ask res good) (left, e, h) = (
    left,
    e,
    Missing-same codec call_back c.link left (pending codec call_back c) _
        (pending-framed c m r (some f) at_ask res good) h,
  )
  Step-Kept all c d (pass f at_send free) (left, e, h) = (
    left,
    e,
    Missing-same codec call_back c.link left (pending codec call_back c) _
        (ap (λ x. pend codec call_back c.writer x c.session c.reader (messages codec c.incoming))
            at_send
          ∙ ap
              (λ w.
                pend codec call_back w (sending f) c.session c.reader (messages codec c.incoming))
              free)
        h,
  )
  Step-Kept all c d (write o at_write still_open) (left, e, h) =
      let rest =
        undelivered codec call_back c.deliverer c.session
          (unread c.reader (messages codec c.incoming)) in
      let whole : left ≡ taken (some o) ++ rest =
        Missing-open codec call_back c.link left (pending codec call_back c) still_open h
        ∙ ap
            (λ w. pend codec call_back w c.deliverer c.session c.reader (messages codec c.incoming))
            at_write in
      (
        rest,
        Kept-write all left rest c.sent o e whole,
        Missing-now codec call_back c.link rest still_open,
      )
  Step-Kept all c d (lose o at_write shut) (left, e, h) =
      (left, e, Missing-shut codec call_back c.link left (pending codec call_back c) _ shut h)

  Move-Kept :
      (all : List Frame) (c d : Conn In Frame S)
      → Move codec call_back c d
      → Kept codec call_back all c
      → Kept codec call_back all d
  Move-Kept all c d (own st) k = Step-Kept all c d st k
  Move-Kept all c d (push m f good free) (left, e, h) = (
    left,
    e,
    Missing-same codec call_back c.link left (pending codec call_back c) _
        (ap (λ w. pend codec call_back w c.deliverer c.session c.reader (messages codec c.incoming))
          free)
        h,
  )
  Move-Kept all c d (cut was_up) (left, e, h) = (left, e, tt)

  -- In every reachable state of a connection, whatever the order of the goroutines and whatever is sent
  -- from outside: the answers that were sent are a front of the answers to all messages that come in, in
  -- the order of the messages. While the connection is up what is missing is just what the goroutines
  -- hold or have not read; if ReadRecvMsg has closed it at most two answers are missing, unless the other
  -- side has reset it.
  pub Reach-Kept :
      (i : In) (s : S) (c : Conn In Frame S)
      → Reach codec call_back i s c
      → Kept codec call_back (replies_to codec call_back s (messages codec i)) c
  Reach-Kept i s c begin = (replies_to codec call_back s (messages codec i), refl, refl)
  Reach-Kept i s d (later {c} r mv) =
      Move-Kept (replies_to codec call_back s (messages codec i)) c d mv (Reach-Kept i s c r)
