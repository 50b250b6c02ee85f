-- ===== src/Kcp/Parse/Una/Outcome.antt =====
-- What Parse_Una does to the connection.
use golang_tools.Base.{
  ℕ, zero, suc, ◌+◌, ◌%◌, ◌^◌, ◌≡◌, refl, sym, ap, ◌∙◌, inl, inr, arith, ltb, true, false, List, [],
  ◌∷◌, ◌++◌, length, last_of, take_front, length-append, append_assoc, append-nil, Bool-cases,
}
use golang_tools.Base.Run.{Run, done, panic, stuck, Panics}
use golang_tools.Kcp.Define.{Segment, Kcp}
use golang_tools.Kcp.Parse.{SndBuf, open_snd_buf, close_snd_buf, on_snd_buf, una_loop, parse_una}
use golang_tools.Kcp.Parse.Deletion.{midway, next_index}
use golang_tools.Kcp.Parse.Una.{swept, overruns, pending, pending-swept}
use golang_tools.Kcp.Parse.Una.Steps.{
  step_kept, step_deleted, Settled, Settled-step, Settled-kept, end-Settled,
}
use golang_tools.Kcp.Parse.Una.Overrun.{loop_overruns}

-- The last round, where nothing was deleted before and the last segment is acknowledged.
last_goes :
    (una i m : ℕ) (a ps : List Segment) (x : Segment)
    → a ≡ ps ++ (x ∷ [])
    → i ≡ length ps
    → m ≡ length ps
    → ltb x.sn una ≡ true
    → Settled una (una_loop una (suc zero) i (midway a (suc m))) ps (x ∷ [])
unfolding swept una_loop
last_goes una i m a ps x e hi hm acked = (
  x ∷ [],
  step_deleted una zero i m a ps x [] [] e hi (omega arith) acked
      ∙ (let same : m ≡ length ps + 0 = omega arith in rw (acked, same)),
)

module _ (una : ℕ) where
  -- The loop before any deletion, on a buffer that does not overrun.
  loop_settles :
      (rounds i m : ℕ) (a ps rs : List Segment)
      → a ≡ ps ++ rs
      → i ≡ length ps
      → m ≡ length ps + length rs
      → rounds ≡ length rs
      → overruns una rs ≡ false
      → Settled una (una_loop una rounds i (midway a m)) ps rs
  unfolding overruns
  loop_settles rounds i m a ps [] e hi hm hr h =
      end-Settled una rounds i m a ps [] [] e hi hm (omega arith) tt tt
  loop_settles zero i m a ps (x ∷ rs) e hi hm hr h = absurd (omega arith)
  loop_settles (suc rounds) i zero a ps (x ∷ rs) e hi hm hr h = absurd (omega arith)
  loop_settles (suc (suc rounds)) i (suc m) a ps (x ∷ []) e hi hm hr h = absurd (omega arith)
  loop_settles (suc zero) i (suc m) a ps (x ∷ []) e hi hm hr h = elim (Bool-cases (ltb x.sn una)) [
    | inl acked ↦ last_goes una i m a ps x e hi (omega arith) acked
    | inr stays ↦
        end-Settled una (suc zero) i (suc m) a ps (x ∷ []) [] e hi hm (omega arith) stays tt
  ]
  loop_settles (suc rounds) i (suc m) a ps (x ∷ y ∷ r) e hi hm hr h =
      elim (Bool-cases (ltb (last_of y r).sn una)) [
        | inl acked ↦
            (let stays : ltb x.sn una ≡ false = ground arith in
              Settled-step una _ _ ps (x ∷ y ∷ r)
                (step_kept una rounds i (suc m) a ps (y ∷ r) x e hi stays)
                (Settled-kept una _ ps x y r stays (
                  loop_settles rounds (suc i) (suc m) a (ps ++ (x ∷ [])) (y ∷ r)
                    (e ∙ sym (append_assoc ps (x ∷ []) (y ∷ r))) (next_index i ps x hi)
                    (omega (arith, length-append ps (x ∷ []))) (omega arith) (ground arith))))
        | inr stays ↦
            end-Settled una (suc rounds) i (suc m) a ps (x ∷ y ∷ r) []
              (e ∙ ap (◌++◌ ps) (sym (append-nil _))) hi hm (omega arith) stays tt
      ]

-- The connection with its send buffer swept, and counted anew.
abbrev pub swept_kcp : ℕ → Kcp → Kcp
swept_kcp una k = record k {
  snd_buf = swept una k.snd_buf;
  nsnd_buf = length (swept una k.snd_buf) % 2 ^ 32;
}

on_snd_buf-Panics : (k : Kcp) (run : Run SndBuf (Unit {0})) → Panics run → Panics (on_snd_buf k run)
on_snd_buf-Panics k (done b x) h = h
on_snd_buf-Panics k (panic f b) h = tt
on_snd_buf-Panics k stuck h = h

module _ (una : ℕ) (k : Kcp) (counted : k.nsnd_buf ≡ length k.snd_buf % 2 ^ 32) where
  shown_settled :
      (tail : List Segment)
      → close_snd_buf k (midway (swept una k.snd_buf ++ tail) (0 + length (swept una k.snd_buf)))
        ≡ swept_kcp una k
  shown_settled tail =
      let zero_add : 0 + length (swept una k.snd_buf) ≡ length (swept una k.snd_buf) =
        omega arith in
      rw (zero_add, take_front (length (swept una k.snd_buf)) (swept una k.snd_buf) tail refl)

  opened : open_snd_buf k ≡ midway k.snd_buf (length k.snd_buf)
  opened = rw counted

  -- If Nsnd_buf counts Snd_buf, and `una` does not acknowledge the last segment together with one
  -- before it, Parse_Una returns. It has swept Snd_buf: from the front on each acknowledged segment
  -- is deleted and the one behind it kept unseen. Nsnd_buf counts the result, and nothing else has
  -- changed.
  pub parse_una-swept : overruns una k.snd_buf ≡ false → parse_una una k ≡ done (swept_kcp una k) tt
  unfolding parse_una
  parse_una-swept h =
      settle (loop_settles una n 0 n k.snd_buf [] k.snd_buf refl refl (omega arith) refl h)
    where
      n : ℕ
      n = length k.snd_buf

      settle :
          Settled una
            (una_loop una (length k.snd_buf) 0 (midway k.snd_buf (length k.snd_buf)))
            []
            k.snd_buf
          → on_snd_buf k (una_loop una (length k.snd_buf) 0 (open_snd_buf k))
            ≡ done (swept_kcp una k) tt
      settle (tail, e) = rw (opened, e, on_snd_buf) (ap (λ c. done c tt) (shown_settled tail))

  -- If Nsnd_buf counts Snd_buf, and `una` acknowledges the last segment together with one before it,
  -- Parse_Una panics.
  pub parse_una-Panics : overruns una k.snd_buf ≡ true → Panics (parse_una una k)
  unfolding parse_una
  parse_una-Panics h = on_snd_buf-Panics k _ (
      rw opened (
        loop_overruns una (length k.snd_buf) 0 (length k.snd_buf) k.snd_buf [] k.snd_buf refl refl
          (omega arith) refl h))

  -- If Nsnd_buf counts Snd_buf and the buffer does not overrun, Parse_Una returns, and the segments
  -- that `una` does not acknowledge are those of before, in their order.
  pub pending-parse_una :
      overruns una k.snd_buf ≡ false
      → (k' : Kcp) × (parse_una una k ≡ done k' tt)
        × (pending una k'.snd_buf ≡ pending una k.snd_buf)
  pending-parse_una h = (swept_kcp una k, parse_una-swept h, pending-swept una k.snd_buf)
