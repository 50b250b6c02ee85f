-- ===== src/Kcp/Parse/Una/Steps.antt =====
-- The iterations of Parse_Una, and the loop on a buffer whose last segment stays.
use golang_tools.Base.{
  ℕ, zero, suc, ◌+◌, ◌≤◌, ◌≡◌, refl, sym, ap, ◌∙◌, inl, inr, arith, ltb, true, false, List, [], ◌∷◌,
  ◌++◌, length, get_elem?, last_of, All, get_elem?-middle, length-append, append_assoc, Bool-cases,
  some,
}
use golang_tools.Base.Run.{Run, done, Panics}
use golang_tools.Kcp.Define.{Segment}
use golang_tools.Kcp.Parse.{SndBuf, una_loop}
use golang_tools.Kcp.Parse.Deletion.{midway, delete_snd-middle, delete_snd_beyond, next_index}
use golang_tools.Kcp.Parse.Una.{swept}

module _ (una : ℕ) where
  -- One iteration, at a segment that stays.
  pub step_kept :
      (rounds i m : ℕ) (a ps qs : List Segment) (x : Segment)
      → a ≡ ps ++ (x ∷ qs)
      → i ≡ length ps
      → ltb x.sn una ≡ false
      → una_loop una (suc rounds) i (midway a m) ≡ una_loop una rounds (suc i) (midway a m)
  unfolding una_loop
  step_kept rounds i m a ps qs x e hi h =
      let found : get_elem? a i ≡ some x = rw e (get_elem?-middle i ps qs x hi) in rw (found, h)

  -- One iteration, at a segment that is deleted.
  pub step_deleted :
      (rounds i m : ℕ) (a ps : List Segment) (x : Segment) (rs stale : List Segment)
      → a ≡ ps ++ ((x ∷ rs) ++ stale)
      → i ≡ length ps
      → m ≡ length ps + length rs
      → ltb x.sn una ≡ true
      → una_loop una (suc rounds) i (midway a (suc m))
        ≡ una_loop una rounds (suc i) (midway (ps ++ (rs ++ (last_of x rs ∷ stale))) m)
  unfolding una_loop
  step_deleted rounds i m a ps x rs stale e hi hm h =
      let found : get_elem? a i ≡ some x = rw e (get_elem?-middle i ps (rs ++ stale) x hi) in
      rw (found, h, delete_snd-middle i m a ps x rs stale e hi hm)

  -- One iteration, at an acknowledged segment at the end of the slice or behind it.
  pub step_overrun :
      (rounds i m : ℕ) (a ps qs : List Segment) (x : Segment)
      → a ≡ ps ++ (x ∷ qs)
      → i ≡ length ps
      → m ≤ i
      → ltb x.sn una ≡ true
      → Panics (una_loop una (suc rounds) i (midway a m))
  unfolding una_loop
  step_overrun rounds i m a ps qs x e hi hm h =
      let found : get_elem? a i ≡ some x = rw e (get_elem?-middle i ps qs x hi) in
      rw (found, h, delete_snd_beyond i (midway a m) (omega arith)) tt

-- One element more in front of the loop's position.
shift_front :
    (ps zs : List Segment) (y : Segment) (n : ℕ)
    → midway ((ps ++ (y ∷ [])) ++ zs) (length (ps ++ (y ∷ [])) + n)
      ≡ midway (ps ++ (y ∷ zs)) (length ps + suc n)
shift_front ps zs y n =
    let size : length (ps ++ (y ∷ [])) + n ≡ length ps + suc n =
      omega (arith, length-append ps (y ∷ [])) in
    rw (size, append_assoc ps (y ∷ []) zs)

abbrev pub EndStays : ℕ → List Segment → Type 0
EndStays una [] = Unit {0}
EndStays una (x ∷ r) = ltb (last_of x r).sn una ≡ false

EndStays-tail : (una : ℕ) (x : Segment) (r : List Segment) → EndStays una (x ∷ r) → EndStays una r
EndStays-tail una x [] h = tt
EndStays-tail una x (y ∷ r) h = h

abbrev pub Stays : ℕ → Segment → Type 0
Stays una s = ltb s.sn una ≡ false

module _ (una : ℕ) where
  -- Nothing that is left is acknowledged: the loop runs to its end and changes nothing.
  rest-Stays :
      (rounds i m : ℕ) (a ps qs : List Segment)
      → a ≡ ps ++ qs
      → i ≡ length ps
      → rounds ≡ length qs
      → All (Stays una) qs
      → una_loop una rounds i (midway a m) ≡ done (midway a m) tt
  rest-Stays zero i m a ps qs e hi hr h = unfold una_loop in refl
  rest-Stays (suc rounds) i m a ps [] e hi hr h = absurd (omega arith)
  rest-Stays (suc rounds) i m a ps (x ∷ qs) e hi hr (hx, h) =
      step_kept una rounds i m a ps qs x e hi hx
      ∙ rest-Stays rounds (suc i) m a (ps ++ (x ∷ [])) qs (e ∙ sym (append_assoc ps (x ∷ []) qs))
          (next_index i ps x hi) (omega arith) h

-- A loop that ends with the swept segments behind `ps`, and the rest of the array behind those.
abbrev pub Settled : ℕ → Run SndBuf (Unit {0}) → List Segment → List Segment → Type 0
Settled una run ps rs =
    (tail : List Segment) × (run
      ≡ done (midway (ps ++ (swept una rs ++ tail)) (length ps + length (swept una rs))) tt)

pub Settled-step :
    (una : ℕ) (run next : Run SndBuf (Unit {0})) (ps rs : List Segment)
    → run ≡ next
    → Settled una next ps rs
    → Settled una run ps rs
Settled-step una run next ps rs p (tail, e) = (tail, p ∙ e)

module _ (una : ℕ) (run : Run SndBuf (Unit {0})) (ps : List Segment) (x y : Segment)
    (r : List Segment) where
  Settled-deleted :
      ltb x.sn una ≡ true → Settled una run (ps ++ (y ∷ [])) r → Settled una run ps (x ∷ y ∷ r)
  unfolding swept
  Settled-deleted acked (tail, e) = (
    tail,
    rw acked
        (e ∙ ap (λ b. done b tt) (shift_front ps (swept una r ++ tail) y (length (swept una r)))),
  )

  pub Settled-kept :
      ltb x.sn una ≡ false
      → Settled una run (ps ++ (x ∷ [])) (y ∷ r)
      → Settled una run ps (x ∷ y ∷ r)
  unfolding swept
  Settled-kept stays (tail, e) = (
    tail,
    rw stays (
        e
        ∙ ap (λ b. done b tt)
            (shift_front ps (swept una (y ∷ r) ++ tail) x (length (swept una (y ∷ r))))),
  )

module _ (una : ℕ) where
  -- The last segment stays: every element behind the end is a copy of it, and stays too.
  pub end-Settled :
      (rounds i m : ℕ) (a ps rs stale : List Segment)
      → a ≡ ps ++ (rs ++ stale)
      → i ≡ length ps
      → m ≡ length ps + length rs
      → rounds ≡ length rs + length stale
      → EndStays una rs
      → All (Stays una) stale
      → Settled una (una_loop una rounds i (midway a m)) ps rs
  unfolding swept
  end-Settled rounds i m a ps [] stale e hi hm hr h hs = (
    stale,
    rest-Stays una rounds i m a ps stale e hi (omega arith) hs
        ∙ (let same : m ≡ length ps + 0 = omega arith in rw (e, same)),
  )
  end-Settled zero i m a ps (x ∷ rs) stale e hi hm hr h hs = absurd (omega arith)
  end-Settled (suc rounds) i m a ps (x ∷ []) stale e hi hm hr h hs = (
    stale,
    rest-Stays una (suc rounds) i m a ps (x ∷ stale) e hi (omega arith) (h, hs)
        ∙ (let same : m ≡ length ps + 1 = omega arith in rw (h, e, same)),
  )
  end-Settled (suc rounds) i zero a ps (x ∷ y ∷ r) stale e hi hm hr h hs = absurd (omega arith)
  end-Settled (suc rounds) i (suc m) a ps (x ∷ y ∷ r) stale e hi hm hr h hs =
      elim (Bool-cases (ltb x.sn una)) [
        | inl acked ↦
            Settled-step una _ _ ps (x ∷ y ∷ r)
              (step_deleted una rounds i m a ps x (y ∷ r) stale e hi (omega arith) acked)
              (Settled-deleted una _ ps x y r acked (
                end-Settled rounds (suc i) m (ps ++ ((y ∷ r) ++ (last_of y r ∷ stale)))
                  (ps ++ (y ∷ [])) r (last_of y r ∷ stale)
                  (sym (append_assoc ps (y ∷ []) (r ++ (last_of y r ∷ stale))))
                  (next_index i ps y hi) (omega (arith, length-append ps (y ∷ []))) (omega arith)
                  (EndStays-tail una y r h) (h, hs)))
        | inr stays ↦
            Settled-step una _ _ ps (x ∷ y ∷ r)
              (step_kept una rounds i (suc m) a ps ((y ∷ r) ++ stale) x e hi stays)
              (Settled-kept una _ ps x y r stays (
                end-Settled rounds (suc i) (suc m) a (ps ++ (x ∷ [])) (y ∷ r) stale
                  (e ∙ sym (append_assoc ps (x ∷ []) ((y ∷ r) ++ stale))) (next_index i ps x hi)
                  (omega (arith, length-append ps (x ∷ []))) (omega arith) h hs))
      ]
