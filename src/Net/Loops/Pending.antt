-- ===== src/Net/Loops/Pending.antt =====
-- What is still to be sent in answer to the messages, by the state of a connection.
use golang_tools.Base.{
  ◌≤◌, ◌≡◌, refl, ap, ◌∙◌, subst, sym, arith, List, [], ◌∷◌, ◌++◌, length, length-append, Option,
  none, some,
}
use golang_tools.Net.{ClientMsg}
use golang_tools.Net.Loops.{
  Link, up, closed, reset, closing, IsDown, Codec, Reader, reading, handing, failing, leaving,
  ended, Deliverer, waiting, asking, sending, Outgoing, reply, pushed, Conn,
}
use golang_tools.Net.Loops.Messages.{messages}

module _ {Frame : Type 0} where
  -- The answers among the frames of a connection.
  abbrev pub replies : List (Outgoing Frame) → List Frame
  replies [] = []
  replies (reply f ∷ os) = f ∷ replies os
  replies (pushed f ∷ os) = replies os

  abbrev pub taken : Option (Outgoing Frame) → List Frame
  taken none = []
  taken (some (reply f)) = f ∷ []
  taken (some (pushed f)) = []

  abbrev pub coded : Option Frame → List Frame → List Frame
  coded none fs = fs
  coded (some f) fs = f ∷ fs

  pub replies-append :
      (os : List (Outgoing Frame)) (o : Outgoing Frame)
      → replies (os ++ (o ∷ [])) ≡ replies os ++ taken (some o)
  replies-append [] (reply f) = refl
  replies-append [] (pushed f) = refl
  replies-append (reply g ∷ os) o = ap (◌∷◌ g) (replies-append os o)
  replies-append (pushed g ∷ os) o = replies-append os o

  length-taken : (o : Option (Outgoing Frame)) → length (taken o) ≤ 1
  length-taken none = omega arith
  length-taken (some (reply f)) = omega arith
  length-taken (some (pushed f)) = omega arith

abbrev pub unread : Reader → List ClientMsg → List ClientMsg
unread reading ms = ms
unread (handing m) ms = m ∷ ms
unread failing ms = []
unread leaving ms = []
unread ended ms = []

module _ {In Frame S : Type 0} (codec : Codec In Frame)
    (call_back : S → ClientMsg → S × Option ClientMsg) where
  abbrev pub framed : Option ClientMsg → List Frame → List Frame
  framed none fs = fs
  framed (some r) fs = coded (codec.encode r) fs

  -- The frames of the session's answers to messages, in their order.
  unfoldable pub replies_to : S → List ClientMsg → List Frame
  replies_to s [] = []
  replies_to s (m ∷ ms) = framed (call_back s m).1 (replies_to (call_back s m).0 ms)

  abbrev pub undelivered : Deliverer Frame → S → List ClientMsg → List Frame
  undelivered waiting s ms = replies_to s ms
  undelivered (asking m) s ms = replies_to s (m ∷ ms)
  undelivered (sending f) s ms = f ∷ replies_to s ms

  abbrev pub pend :
      Option (Outgoing Frame) → Deliverer Frame → S → Reader → List ClientMsg → List Frame
  pend w d s r ms = taken w ++ undelivered d s (unread r ms)

  -- What is still to be sent in answer to what has come in and to what will.
  abbrev pub pending : Conn In Frame S → List Frame
  pending c = pend c.writer c.deliverer c.session c.reader (messages codec c.incoming)

  -- What is missing of the answers: while the connection is up just what is pending, if it was closed two
  -- frames at most, and if it was reset any.
  abbrev pub Missing : Link → List Frame → List Frame → Type 0
  Missing up rest ps = rest ≡ ps
  Missing closed rest ps = length rest ≤ 2
  Missing reset rest ps = Unit {0}

  abbrev pub Kept : List Frame → Conn In Frame S → Type 0
  Kept all c =
      (rest : List Frame) × (replies c.sent ++ rest ≡ all) × Missing c.link rest (pending c)

  pub Missing-same :
      (l : Link) (rest ps qs : List Frame) → ps ≡ qs → Missing l rest ps → Missing l rest qs
  Missing-same up rest ps qs e h = h ∙ e
  Missing-same closed rest ps qs e h = h
  Missing-same reset rest ps qs e h = tt

  length-coded : (o : Option Frame) → length (coded o []) ≤ 1
  length-coded none = omega arith
  length-coded (some f) = omega arith

  length-framed : (o : Option ClientMsg) → length (framed o []) ≤ 1
  length-framed none = omega arith
  length-framed (some r) = length-coded (codec.encode r)

  -- With no message unread at most one answer is undelivered.
  length-undelivered : (d : Deliverer Frame) (s : S) → length (undelivered d s []) ≤ 1
  unfolding replies_to
  length-undelivered waiting s = omega arith
  length-undelivered (asking m) s = length-framed (call_back s m).1
  length-undelivered (sending f) s = omega arith

  pub few_pending :
      (w : Option (Outgoing Frame)) (d : Deliverer Frame) (s : S)
      → length (pend w d s reading []) ≤ 2
  few_pending w d s =
      omega (
        arith,
        length-append (taken w) (undelivered d s []),
        length-taken w,
        length-undelivered d s,
      )

  pub Missing-closing :
      (l : Link) (rest ps qs : List Frame)
      → length ps ≤ 2
      → Missing l rest ps
      → Missing (closing l) rest qs
  Missing-closing up rest ps qs few h = subst (λ xs. length xs ≤ 2) (sym h) few
  Missing-closing closed rest ps qs few h = h
  Missing-closing reset rest ps qs few h = tt

  pub Missing-reset : (l : Link) (rest qs : List Frame) → l ≡ reset → Missing l rest qs
  Missing-reset up rest qs e = absurd (cc)
  Missing-reset closed rest qs e = absurd (cc)
  Missing-reset reset rest qs e = tt

  pub Missing-open : (l : Link) (rest ps : List Frame) → l ≡ up → Missing l rest ps → rest ≡ ps
  Missing-open up rest ps e h = h
  Missing-open closed rest ps e h = absurd (cc)
  Missing-open reset rest ps e h = absurd (cc)

  pub Missing-now : (l : Link) (ps : List Frame) → l ≡ up → Missing l ps ps
  Missing-now up ps e = refl
  Missing-now closed ps e = absurd (cc)
  Missing-now reset ps e = absurd (cc)

  pub Missing-shut :
      (l : Link) (rest ps qs : List Frame) → IsDown l → Missing l rest ps → Missing l rest qs
  Missing-shut up rest ps qs e h = absurd e
  Missing-shut closed rest ps qs e h = h
  Missing-shut reset rest ps qs e h = tt
