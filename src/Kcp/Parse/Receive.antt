-- ===== src/Kcp/Parse/Receive.antt =====
-- Parse_Data: what becomes of arriving segments.
use golang_tools.Base.{
  ℕ, suc, ◌+◌, ◌^◌, ◌≤◌, ◌<◌, ◌≡◌, ◌≢◌, refl, sym, ap, ◌∙◌, inl, inr, arith, ltb, leb, ◌||◌, List,
  [], ◌∷◌, ◌++◌, length, append_assoc, append-nil, Bool-cases, take_all, subst,
}
use golang_tools.Base.Word.{IsU32, add32}
use golang_tools.Base.Run.{Run, done, after}
use golang_tools.Base.Slice.{of_list, delete_at}
use golang_tools.Kcp.Define.{Segment, Kcp}
use golang_tools.Kcp.Parse.{RcvBuf, open_rcv_buf, move_loop, is_repeat, parse_data}

-- The segments arrive one after the other.
unfoldable pub receive_all : List Segment → Kcp → Run Kcp (Unit {0})
receive_all [] k = done k tt
receive_all (seg ∷ segs) k = after (parse_data seg k) (λ k' _. receive_all segs k')

-- The new segment stays behind a head that is not the next one.
abbrev kept_back : Segment → Segment → List Segment → Kcp → Kcp
kept_back seg x r k = record k { rcv_buf = x ∷ (r ++ (seg ∷ [])); nrcv_buf = add32 k.nrcv_buf 1 }

head_blocks :
    (wnd : ℕ) (x : Segment) (r : List Segment) (b : RcvBuf)
    → b.items ≡ of_list (x ∷ r)
    → x.sn ≢ b.rcv_nxt
    → move_loop wnd (length (x ∷ r)) 0 b ≡ done b tt
unfolding move_loop
head_blocks wnd x r b e h = ground arith

-- What a segment leaves of a connection whose first buffered segment is not the next one.
abbrev Held : Kcp → Segment → Run Kcp (Unit {0}) → Type 0
Held k x run =
    (k' : Kcp) × (run ≡ done k' tt)
    × ((r : List Segment) × (k'.rcv_buf ≡ x ∷ r))
    × (k'.rcv_nxt ≡ k.rcv_nxt)
    × (k'.rcv_queue ≡ k.rcv_queue)

parse_data-Held_lem :
    (seg x : Segment) (r : List Segment) (k : Kcp)
    → x.sn ≢ k.rcv_nxt
    → Held k x (parse_data seg (record k { rcv_buf = x ∷ r }))
unfolding parse_data
parse_data-Held_lem seg x r k h =
    elim (Bool-cases (leb (add32 k.rcv_nxt k.rcv_wnd) seg.sn || ltb seg.sn k.rcv_nxt)) [
      | inl out ↦ (record k { rcv_buf = x ∷ r }, rw out, (r, refl), refl, refl)
      | inr within ↦ elim (Bool-cases (is_repeat seg.sn (x ∷ r))) [
        | inl again ↦ (record k { rcv_buf = x ∷ r }, rw (within, again), (r, refl), refl, refl)
        | inr new ↦ (
          kept_back seg x r k,
          rw (within, new, head_blocks k.rcv_wnd x (r ++ (seg ∷ [])) opened refl h)
              (ap (λ xs. done (record (kept_back seg x r k) { rcv_buf = xs }) tt)
                (take_all (length (x ∷ (r ++ (seg ∷ [])))) _ (omega arith))),
          (r ++ (seg ∷ []), refl),
          refl,
          refl,
        )
      ]
    ]
  where
    opened : RcvBuf
    opened = open_rcv_buf seg (record k { rcv_buf = x ∷ r })

parse_data-Held :
    (seg x : Segment) (r : List Segment) (k : Kcp)
    → k.rcv_buf ≡ x ∷ r
    → x.sn ≢ k.rcv_nxt
    → Held k x (parse_data seg k)
parse_data-Held seg x r k e h =
    subst (λ l. Held k x (parse_data seg l)) (λ i. record k { rcv_buf = sym e i })
      (parse_data-Held_lem seg x r k h)

Held-then :
    (x : Segment) (k : Kcp) (run : Run Kcp (Unit {0})) (next : Kcp → Run Kcp (Unit {0}))
    → x.sn ≢ k.rcv_nxt
    → Held k x run
    → ((k' : Kcp) (r : List Segment) → k'.rcv_buf ≡ x ∷ r → x.sn ≢ k'.rcv_nxt → Held k' x (next k'))
    → Held k x (after run (λ l _. next l))
Held-then x k run next h (k', e, (r, buf), n, q) f = join (f k' r buf (λ p. h (p ∙ n)))
  where
    join : Held k' x (next k') → Held k x (after run (λ l _. next l))
    join (k'', e', buf', n', q') = (k'', rw e e', buf', n' ∙ n, q' ∙ q)

pub receive_all-Held :
    (segs : List Segment) (x : Segment) (r : List Segment) (k : Kcp)
    → k.rcv_buf ≡ x ∷ r
    → x.sn ≢ k.rcv_nxt
    → Held k x (receive_all segs k)
unfolding receive_all
receive_all-Held [] x r k e h = (k, refl, (r, e), refl, refl)
receive_all-Held (seg ∷ segs) x r k e h =
    Held-then x k (parse_data seg k) (receive_all segs) h (parse_data-Held seg x r k e h)
      (λ k' r' e' h'. receive_all-Held segs x r' k' e' h')

-- Segments numbered from `n` on.
abbrev pub Numbered : ℕ → List Segment → Type 0
Numbered n [] = Unit {0}
Numbered n (x ∷ xs) = (x.sn ≡ n) × Numbered (suc n) xs

-- The connection after `segs` went through the empty buffer into the queue.
abbrev pub delivered : List Segment → Kcp → Kcp
delivered segs k = record k {
  rcv_queue = k.rcv_queue ++ segs;
  nrcv_que = k.nrcv_que + length segs;
  rcv_nxt = k.rcv_nxt + length segs;
}

pub parse_data-next :
    (seg : Segment) (k : Kcp)
    → seg.sn ≡ k.rcv_nxt
    → k.nrcv_que < k.rcv_wnd
    → k.rcv_nxt + k.rcv_wnd < 2 ^ 32
    → IsU32 k.nrcv_buf
    → parse_data seg (record k { rcv_buf = [] })
      ≡ done (delivered (seg ∷ []) (record k { rcv_buf = [] })) tt
unfolding parse_data move_loop delete_at is_repeat
parse_data-next seg k e room small buf = ground arith

delivered-cons :
    (seg : Segment) (segs : List Segment) (k : Kcp)
    → delivered segs (delivered (seg ∷ []) k) ≡ delivered (seg ∷ segs) k
delivered-cons seg segs k =
    let queued : k.nrcv_que + 1 + length segs ≡ k.nrcv_que + suc (length segs) = omega arith in
    let counted : k.rcv_nxt + 1 + length segs ≡ k.rcv_nxt + suc (length segs) = omega arith in
    λ i. record k {
      rcv_queue = append_assoc k.rcv_queue (seg ∷ []) segs i;
      nrcv_que = queued i;
      rcv_nxt = counted i;
    }

-- With Rcv_buf empty, segments numbered from Rcv_nxt on that arrive one after the other all go to the
-- end of Rcv_queue in order, and Rcv_nxt and Nrcv_que count them: provided that the queue has room
-- for them within Rcv_wnd and that the numbers and Nrcv_buf fit 32 bits.
pub receive_all-delivered :
    (segs : List Segment) (k : Kcp)
    → k.rcv_buf ≡ []
    → Numbered k.rcv_nxt segs
    → k.nrcv_que + length segs ≤ k.rcv_wnd
    → k.rcv_nxt + (length segs + k.rcv_wnd) < 2 ^ 32
    → IsU32 k.nrcv_buf
    → receive_all segs k ≡ done (delivered segs k) tt
unfolding receive_all
receive_all-delivered [] k e num room small buf =
    let queued : k.nrcv_que + 0 ≡ k.nrcv_que = omega arith in
    let counted : k.rcv_nxt + 0 ≡ k.rcv_nxt = omega arith in
    ap (λ l. done l tt)
      (λ i. record k {
        rcv_queue = sym (append-nil k.rcv_queue) i;
        nrcv_que = sym queued i;
        rcv_nxt = sym counted i;
      })
receive_all-delivered (seg ∷ segs) k e (here, num) room small buf = rw first (
    receive_all-delivered segs (delivered (seg ∷ []) k) e (subst (λ n. Numbered n segs) next num)
      (omega arith) (omega arith) buf
    ∙ ap (λ l. done l tt) (delivered-cons seg segs k))
  where
    next : suc k.rcv_nxt ≡ k.rcv_nxt + 1
    next = omega arith

    first : parse_data seg k ≡ done (delivered (seg ∷ []) k) tt
    first =
        subst (λ l. parse_data seg l ≡ done (delivered (seg ∷ []) l) tt)
          (λ i. record k { rcv_buf = sym e i })
          (parse_data-next seg k here (omega arith) (omega arith) buf)

parse_data-ahead :
    (seg : Segment) (k : Kcp)
    → k.rcv_nxt < seg.sn
    → seg.sn < k.rcv_nxt + k.rcv_wnd
    → k.rcv_nxt + k.rcv_wnd < 2 ^ 32
    → parse_data seg (record k { rcv_buf = [] })
      ≡ done (record k { rcv_buf = seg ∷ []; nrcv_buf = add32 k.nrcv_buf 1 }) tt
unfolding parse_data move_loop delete_at is_repeat
parse_data-ahead seg k h within small = ground arith

-- With Rcv_buf empty, a segment that arrives ahead of Rcv_nxt and within the window stays at the head
-- of Rcv_buf whatever segments arrive afterwards, and Rcv_queue and Rcv_nxt stay as they were. The
-- window's end fits 32 bits.
pub receive_all-ahead :
    (seg : Segment) (segs : List Segment) (k : Kcp)
    → k.rcv_buf ≡ []
    → k.rcv_nxt < seg.sn
    → seg.sn < k.rcv_nxt + k.rcv_wnd
    → k.rcv_nxt + k.rcv_wnd < 2 ^ 32
    → (k' : Kcp) × (receive_all (seg ∷ segs) k ≡ done k' tt)
      × ((r : List Segment) × (k'.rcv_buf ≡ seg ∷ r))
      × (k'.rcv_nxt ≡ k.rcv_nxt)
      × (k'.rcv_queue ≡ k.rcv_queue)
unfolding receive_all
receive_all-ahead seg segs k e h within small =
    Held-then seg k (parse_data seg k) (receive_all segs) (omega arith)
      (buffered, first, ([], refl), refl, refl)
      (λ k' r' e' h'. receive_all-Held segs seg r' k' e' h')
  where
    buffered : Kcp
    buffered = record k { rcv_buf = seg ∷ []; nrcv_buf = add32 k.nrcv_buf 1 }

    first : parse_data seg k ≡ done buffered tt
    first =
        subst (λ l. parse_data seg l ≡ done buffered tt) (λ i. record k { rcv_buf = sym e i })
          (parse_data-ahead seg k h within small)
