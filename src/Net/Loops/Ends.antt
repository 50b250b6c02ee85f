-- ===== src/Net/Loops/Ends.antt =====
-- How many steps the goroutines of a connection make, and that the session hears of the end once.
use golang_tools.Base.{
  length, List, ◌++◌, ◌≤◌, subst, ℕ, suc, ◌+◌, ◌*◌, ◌<◌, ◌≡◌, refl, ap, subst, arith, Option, none,
  some,
}
use golang_tools.Net.{ClientMsg}
use golang_tools.Net.Loops.Messages.{messages}
use golang_tools.Net.Loops.Pending.{replies, replies_to, Missing, pending}
use golang_tools.Net.Loops.Order.{Reach-Kept}
use golang_tools.Net.Loops.{
  Link, up, closed, reset, closing, IsDown, break_off, cut, Codec, Reader, reading, handing,
  failing, leaving, ended, Deliverer, waiting, asking, sending, Outgoing, Conn, Step, read, fail,
  hang_up, tell, hand, refuse, garble, answer, pass, write, lose, own, push, Reach, begin, later,
}

abbrev pub reader_work : Reader → ℕ
reader_work reading = 3
reader_work (handing m) = 7
reader_work failing = 2
reader_work leaving = 1
reader_work ended = 0

abbrev pub deliverer_work : {Frame : Type 0} → Deliverer Frame → ℕ
deliverer_work waiting = 0
deliverer_work (asking m) = 3
deliverer_work (sending f) = 2

abbrev pub writer_work : {Frame : Type 0} → Option (Outgoing Frame) → ℕ
writer_work none = 0
writer_work (some o) = 1

module _ {In Frame S : Type 0} (codec : Codec In Frame)
    (call_back : S → ClientMsg → S × Option ClientMsg) where
  -- A bound on the steps that are left.
  abbrev pub work : Conn In Frame S → ℕ
  work c =
      6 * codec.size c.incoming
      + (reader_work c.reader + (deliverer_work c.deliverer + writer_work c.writer))

  Step-work : (c d : Conn In Frame S) → Step codec call_back c d → work d < work c
  Step-work c d (read m rest at_read got) =
      omega (arith, codec.size_next c.incoming rest m got, ap reader_work at_read)
  Step-work c d (fail at_read over) = omega (arith, ap reader_work at_read)
  Step-work c d (break_off at_read gone) = omega (arith, ap reader_work at_read)
  Step-work c d (hang_up at_fail) = omega (arith, ap reader_work at_fail)
  Step-work c d (tell at_leave) = omega (arith, ap reader_work at_leave)
  Step-work c d (hand m at_hand idle) =
      omega (arith, ap reader_work at_hand, ap deliverer_work idle)
  Step-work c d (refuse m at_ask no_answer) = omega (arith, ap deliverer_work at_ask)
  Step-work c d (garble m r at_ask res bad) = omega (arith, ap deliverer_work at_ask)
  Step-work c d (answer m r f at_ask res good) = omega (arith, ap deliverer_work at_ask)
  Step-work c d (pass f at_send free) =
      omega (arith, ap deliverer_work at_send, ap writer_work free)
  Step-work c d (write o at_write still_open) = omega (arith, ap writer_work at_write)
  Step-work c d (lose o at_write shut) = omega (arith, ap writer_work at_write)

  -- ReadRecvMsg has ended, and the other two wait at their channels.
  abbrev pub IsAtRest : Conn In Frame S → Type 0
  IsAtRest c = (c.reader ≡ ended) × ((c.deliverer ≡ waiting) × (c.writer ≡ none))

  -- So many steps of the goroutines, one after the other.
  pub data Steps : ℕ → Conn In Frame S → Conn In Frame S → Type 0 where
    stay : {c : Conn In Frame S} → Steps 0 c c
    more :
        {n : ℕ} {c d e : Conn In Frame S}
        → Steps n c d
        → Step codec call_back d e
        → Steps (suc n) c e

  -- There is no endless run: over all that comes in on a connection, and if nothing else is sent, the
  -- goroutines make at most as many steps as the bound says, six for each unit of the size of what comes in
  -- and at most eleven for where they stand. Whether they come so far, or wait for the other side, is left open.
  pub Steps-bound : (n : ℕ) (c d : Conn In Frame S) → Steps n c d → n + work d ≤ work c
  Steps-bound n c d stay = omega arith
  Steps-bound (suc n) c d (more {d = b} st last) =
      omega (arith, Steps-bound n c b st, Step-work b d last)

  abbrev IsNotClosed : Link → Type 0
  IsNotClosed up = Unit {0}
  IsNotClosed closed = ⊥
  IsNotClosed reset = Unit {0}

  -- Before Close the connection is not closed and DisConnectCallBack was not called; between the two the
  -- connection is down and it was not called; after it the connection is down and it was called once.
  abbrev pub Informed : Reader → Link → ℕ → Type 0
  Informed reading l n = IsNotClosed l × (n ≡ 0)
  Informed (handing m) l n = IsNotClosed l × (n ≡ 0)
  Informed failing l n = IsNotClosed l × (n ≡ 0)
  Informed leaving l n = IsDown l × (n ≡ 0)
  Informed ended l n = IsDown l × (n ≡ 1)

  Informed-at : (r r' : Reader) (l : Link) (n : ℕ) → r ≡ r' → Informed r l n → Informed r' l n
  Informed-at r r' l n e h = subst (λ x. Informed x l n) e h

  IsDown-closing : (l : Link) → IsDown (closing l)
  IsDown-closing up = tt
  IsDown-closing closed = tt
  IsDown-closing reset = tt

  Informed-reset : (r : Reader) (l : Link) (n : ℕ) → l ≡ up → Informed r l n → Informed r reset n
  Informed-reset reading l n e (h, none_yet) = (tt, none_yet)
  Informed-reset (handing m) l n e (h, none_yet) = (tt, none_yet)
  Informed-reset failing l n e (h, none_yet) = (tt, none_yet)
  Informed-reset leaving l n e (h, none_yet) = (tt, none_yet)
  Informed-reset ended l n e (h, one) = (tt, one)

  Step-Informed :
      (c d : Conn In Frame S)
      → Step codec call_back c d
      → Informed c.reader c.link c.disconnects
      → Informed d.reader d.link d.disconnects
  Step-Informed c d (read m rest at_read got) h =
      Informed-at c.reader reading c.link c.disconnects at_read h
  Step-Informed c d (fail at_read over) h =
      Informed-at c.reader reading c.link c.disconnects at_read h
  Step-Informed c d (break_off at_read gone) h =
      Informed-at c.reader reading c.link c.disconnects at_read h
  Step-Informed c d (hang_up at_fail) h =
      (IsDown-closing c.link, (Informed-at c.reader failing c.link c.disconnects at_fail h).1)
  Step-Informed c d (tell at_leave) h =
      let (down, none_yet) = Informed-at c.reader leaving c.link c.disconnects at_leave h in
      (down, ap suc none_yet)
  Step-Informed c d (hand m at_hand idle) h =
      Informed-at c.reader (handing m) c.link c.disconnects at_hand h
  Step-Informed c d (refuse m at_ask no_answer) h = h
  Step-Informed c d (garble m r at_ask res bad) h = h
  Step-Informed c d (answer m r f at_ask res good) h = h
  Step-Informed c d (pass f at_send free) h = h
  Step-Informed c d (write o at_write still_open) h = h
  Step-Informed c d (lose o at_write shut) h = h

  -- In every reachable state: ReadRecvMsg closes the connection before it calls DisConnectCallBack, and calls it
  -- once. Up to Close the connection is not closed and the session has heard nothing; between the two the
  -- connection is down; behind the loop the session has heard of the end once.
  pub Reach-Informed :
      (i : In) (s : S) (c : Conn In Frame S)
      → Reach codec call_back i s c
      → Informed c.reader c.link c.disconnects
  Reach-Informed i s c begin = (tt, refl)
  Reach-Informed i s d (later {c} r (own st)) = Step-Informed c d st (Reach-Informed i s c r)
  Reach-Informed i s d (later {c} r (push m f good free)) = Reach-Informed i s c r
  Reach-Informed i s d (later {c} r (cut was_up)) =
      Informed-reset c.reader c.link c.disconnects was_up (Reach-Informed i s c r)

  -- What is missing at rest, unless the connection was reset.
  lost_few :
      (l : Link) (r : Reader) (n : ℕ) (rest ps : List Frame)
      → r ≡ ended
      → Informed r l n
      → ¬ (l ≡ reset)
      → Missing codec call_back l rest ps
      → length rest ≤ 2
  lost_few up r n rest ps e told kept h = absurd (Informed-at r ended up n e told).0
  lost_few closed r n rest ps e told kept h = h
  lost_few reset r n rest ps e told kept h = absurd (kept refl)

  -- In every state at rest that can be reached, unless the other side has reset the connection: all
  -- answers but for at most the last two were sent, in their order.
  pub Reach-lost_few :
      (i : In) (s : S) (c : Conn In Frame S)
      → Reach codec call_back i s c
      → IsAtRest c
      → ¬ (c.link ≡ reset)
      → (lost : List Frame) × (replies c.sent ++ lost
          ≡ replies_to codec call_back s (messages codec i))
        × (length lost ≤ 2)
  Reach-lost_few i s c r (at_end, at_rest) kept =
      let (lost, e, h) = Reach-Kept codec call_back i s c r in
      (
        lost,
        e,
        lost_few c.link c.reader c.disconnects lost (pending codec call_back c) at_end
            (Reach-Informed i s c r) kept h,
      )
