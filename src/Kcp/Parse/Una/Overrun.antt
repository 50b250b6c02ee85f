-- ===== src/Kcp/Parse/Una/Overrun.antt =====
-- The loop of Parse_Una on a buffer that overruns.
use golang_tools.Base.{
  ℕ, zero, suc, ◌+◌, ◌≡◌, sym, ap, ◌∙◌, inl, inr, arith, ltb, true, List, [], ◌∷◌, ◌++◌, length,
  last_of, length-append, append_assoc, append-nil, Bool-cases,
}
use golang_tools.Base.Run.{Panics}
use golang_tools.Kcp.Define.{Segment}
use golang_tools.Kcp.Parse.{una_loop}
use golang_tools.Kcp.Parse.Deletion.{midway, next_index}
use golang_tools.Kcp.Parse.Una.{overruns}
use golang_tools.Kcp.Parse.Una.Steps.{step_kept, step_deleted, step_overrun}

abbrev EndAcked : ℕ → List Segment → Type 0
EndAcked una [] = Unit {0}
EndAcked una (x ∷ r) = ltb (last_of x r).sn una ≡ true

EndAcked-tail : (una : ℕ) (x : Segment) (r : List Segment) → EndAcked una (x ∷ r) → EndAcked una r
EndAcked-tail una x [] h = tt
EndAcked-tail una x (y ∷ r) h = h

overruns-EndAcked : (una : ℕ) (rs : List Segment) → overruns una rs ≡ true → EndAcked una rs
unfolding overruns
overruns-EndAcked una [] h = tt
overruns-EndAcked una (x ∷ []) h = cc
overruns-EndAcked una (x ∷ y ∷ r) h = ground (arith, overruns-EndAcked una (y ∷ r))

module _ (una : ℕ) where
  -- A copy of an acknowledged last segment stands behind the end: the loop reaches it and panics.
  end_acked :
      (rounds i m : ℕ) (a ps rs : List Segment) (s : Segment) (stale : List Segment)
      → a ≡ ps ++ (rs ++ (s ∷ stale))
      → i ≡ length ps
      → m ≡ length ps + length rs
      → rounds ≡ length rs + suc (length stale)
      → EndAcked una rs
      → ltb s.sn una ≡ true
      → Panics (una_loop una rounds i (midway a m))
  end_acked zero i m a ps rs s stale e hi hm hr h hs = absurd (omega arith)
  end_acked (suc rounds) i m a ps [] s stale e hi hm hr h hs =
      step_overrun una rounds i m a ps stale s e hi (omega arith) hs
  end_acked (suc zero) i m a ps (x ∷ rs) s stale e hi hm hr h hs = absurd (omega arith)
  end_acked (suc rounds) i zero a ps (x ∷ rs) s stale e hi hm hr h hs = absurd (omega arith)
  end_acked (suc (suc rounds)) i (suc m) a ps (x ∷ []) s stale e hi hm hr h hs =
      rw (step_deleted una (suc rounds) i m a ps x [] (s ∷ stale) e hi (omega arith) h) (
        step_overrun una rounds (suc i) m (ps ++ (x ∷ s ∷ stale)) (ps ++ (x ∷ [])) stale s
          (sym (append_assoc ps (x ∷ []) (s ∷ stale))) (next_index i ps x hi) (omega arith) hs)
  end_acked (suc rounds) i (suc m) a ps (x ∷ y ∷ r) s stale e hi hm hr h hs =
      elim (Bool-cases (ltb x.sn una)) [
        | inl acked ↦
            rw (step_deleted una rounds i m a ps x (y ∷ r) (s ∷ stale) e hi (omega arith) acked) (
              end_acked rounds (suc i) m (ps ++ ((y ∷ r) ++ (last_of y r ∷ s ∷ stale)))
                (ps ++ (y ∷ [])) r (last_of y r) (s ∷ stale)
                (sym (append_assoc ps (y ∷ []) (r ++ (last_of y r ∷ s ∷ stale))))
                (next_index i ps y hi) (omega (arith, length-append ps (y ∷ []))) (omega arith)
                (EndAcked-tail una y r h) h)
        | inr stays ↦
            rw (step_kept una rounds i (suc m) a ps ((y ∷ r) ++ (s ∷ stale)) x e hi stays) (
              end_acked rounds (suc i) (suc m) a (ps ++ (x ∷ [])) (y ∷ r) s stale
                (e ∙ sym (append_assoc ps (x ∷ []) ((y ∷ r) ++ (s ∷ stale)))) (next_index i ps x hi)
                (omega (arith, length-append ps (x ∷ []))) (omega arith) h hs)
      ]

  -- The loop before any deletion, on a buffer that overruns.
  pub loop_overruns :
      (rounds i m : ℕ) (a ps rs : List Segment)
      → a ≡ ps ++ rs
      → i ≡ length ps
      → m ≡ length ps + length rs
      → rounds ≡ length rs
      → overruns una rs ≡ true
      → Panics (una_loop una rounds i (midway a m))
  unfolding overruns
  loop_overruns rounds i m a ps [] e hi hm hr h = cc
  loop_overruns rounds i m a ps (x ∷ []) e hi hm hr h = cc
  loop_overruns zero i m a ps (x ∷ y ∷ r) e hi hm hr h = absurd (omega arith)
  loop_overruns (suc rounds) i zero a ps (x ∷ y ∷ r) e hi hm hr h = absurd (omega arith)
  loop_overruns (suc rounds) i (suc m) a ps (x ∷ y ∷ r) e hi hm hr h =
      let ended = overruns-EndAcked una (x ∷ y ∷ r) h in
      elim (Bool-cases (ltb x.sn una)) [
        | inl acked ↦
            rw
              (step_deleted una rounds i m a ps x (y ∷ r) [] (e ∙ ap (◌++◌ ps) (sym (append-nil _)))
                hi (omega arith) acked)
              (end_acked rounds (suc i) m (ps ++ ((y ∷ r) ++ (last_of y r ∷ []))) (ps ++ (y ∷ [])) r
                (last_of y r) [] (sym (append_assoc ps (y ∷ []) (r ++ (last_of y r ∷ []))))
                (next_index i ps y hi) (omega (arith, length-append ps (y ∷ []))) (omega arith)
                (EndAcked-tail una y r ended) ended)
        | inr stays ↦ rw (step_kept una rounds i (suc m) a ps (y ∷ r) x e hi stays) (
            loop_overruns rounds (suc i) (suc m) a (ps ++ (x ∷ [])) (y ∷ r)
              (e ∙ sym (append_assoc ps (x ∷ []) (y ∷ r))) (next_index i ps x hi)
              (omega (arith, length-append ps (x ∷ []))) (omega arith) (ground arith))
      ]
