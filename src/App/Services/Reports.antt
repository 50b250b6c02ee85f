-- ===== src/App/Services/Reports.antt =====
-- What becomes of the errors of services: which one is reported, and which goroutines never end.
use mathlib.Core.List.{Perm, Mem, perm_middle, mem-cons_self, mem-append_left, mem-append_right}
use mathlib.Core.List.Perm
use golang_tools.Base.{
  ℕ, zero, suc, ◌+◌, ◌-◌, ◌≡◌, refl, sym, subst, ap, ◌∙◌, arith, Bool, List, [], ◌∷◌, ◌++◌, length,
  length-append, append_assoc, append-nil, Option, none, some, inl, inr, Option-cases, ◌⊎◌,
}
use golang_tools.Base.Perms.{length-perm}
use golang_tools.App.Services.{
  Goroutine, serving, failing, over, Main, occupied, selecting, received, left, Running, Internal,
  sends, readies, gives_up, receives, Step, inner, ends, fails, interrupted, all_serving, start,
  Reach, here, later, IsAtRest,
}

module _ {E : Type 0} where
  abbrev put : Goroutine E → List E
  put serving = []
  put (failing e) = []
  put (over none) = []
  put (over (some e)) = e ∷ []

  abbrev pub held : Goroutine E → List E
  held serving = []
  held (failing e) = e ∷ []
  held (over o) = []

  -- The errors that goroutines have put into the channel, and those that they still hold.
  abbrev pub handed : List (Goroutine E) → List E
  handed [] = []
  handed (g ∷ gs) = put g ++ handed gs

  abbrev pub stuck_with : List (Goroutine E) → List E
  stuck_with [] = []
  stuck_with (g ∷ gs) = held g ++ stuck_with gs

  -- All errors of services.
  abbrev pub failures : List (Goroutine E) → List E
  failures gs = handed gs ++ stuck_with gs

  abbrev pub one : Option E → List E
  one none = []
  one (some e) = e ∷ []

  abbrev pub got : Main E → List E
  got (received e) = e ∷ []
  got occupied = []
  got selecting = []
  got left = []

  handed-append : (xs ys : List (Goroutine E)) → handed (xs ++ ys) ≡ handed xs ++ handed ys
  handed-append [] ys = refl
  handed-append (x ∷ xs) ys =
      ap (λ zs. put x ++ zs) (handed-append xs ys)
      ∙ sym (append_assoc (put x) (handed xs) (handed ys))

  -- A goroutine whose state changes without putting an error into the channel.
  handed_same :
      (xs ys ws : List (Goroutine E)) (g h : Goroutine E)
      → ws ≡ xs ++ (g ∷ ys)
      → put g ≡ put h
      → handed ws ≡ handed (xs ++ (h ∷ ys))
  handed_same xs ys ws g h e same =
      ap handed e
      ∙ handed-append xs (g ∷ ys)
      ∙ ap (λ p. handed xs ++ (p ++ handed ys)) same
      ∙ sym (handed-append xs (h ∷ ys))

  -- Every error that was put into the channel is still there or was received.
  abbrev pub IsAccounted : Running E → Type 0
  IsAccounted c = Perm (handed c.workers) (one c.channel ++ got c.main)

  Internal-IsAccounted : (c d : Running E) → Internal c d → IsAccounted c → IsAccounted d
  Internal-IsAccounted c d (sends xs ys e at_send free) h =
      subst (λ zs. Perm zs (e ∷ got c.main)) (sym (handed-append xs (over (some e) ∷ ys)))
        (Perm.trans (perm_middle (handed xs) (handed ys)) (
          Perm.cons e (
            subst (λ zs. Perm zs (got c.main))
              (ap handed at_send ∙ handed-append xs (failing e ∷ ys))
              (subst (λ o. Perm (handed c.workers) (one o ++ got c.main)) free h))))
  Internal-IsAccounted c d (readies at_tasks) h =
      subst (λ m. Perm (handed c.workers) (one c.channel ++ got m)) at_tasks h
  Internal-IsAccounted c d (gives_up at_tasks) h =
      subst (λ m. Perm (handed c.workers) (one c.channel ++ got m)) at_tasks h
  Internal-IsAccounted c d (receives e at_select full) h =
      subst (λ o. Perm (handed c.workers) (one o ++ [])) full
        (subst (λ m. Perm (handed c.workers) (one c.channel ++ got m)) at_select h)

  Step-IsAccounted :
      (signals : Bool) (c d : Running E) → Step signals c d → IsAccounted c → IsAccounted d
  Step-IsAccounted signals c d (inner st) h = Internal-IsAccounted c d st h
  Step-IsAccounted signals c d (ends xs ys e) h =
      subst (λ zs. Perm zs (one c.channel ++ got c.main))
        (handed_same xs ys c.workers serving (over none) e refl) h
  Step-IsAccounted signals c d (fails xs ys err e) h =
      subst (λ zs. Perm zs (one c.channel ++ got c.main))
        (handed_same xs ys c.workers serving (failing err) e refl) h
  Step-IsAccounted signals c d (interrupted sig at_select) h =
      subst (λ m. Perm (handed c.workers) (one c.channel ++ got m)) at_select h

  handed-all_serving : (n : ℕ) → handed (all_serving n) ≡ []
  handed-all_serving zero = refl
  handed-all_serving (suc n) = handed-all_serving n

  -- Whatever the order of the goroutines: the errors that they have put into the channel are, each as
  -- often as it was put there, the one that is in it and the one that was received.
  pub Reach-IsAccounted :
      (signals : Bool) (n : ℕ) (begin : Main E) (c : Running E)
      → got begin ≡ []
      → Reach signals (start n begin) c
      → IsAccounted c
  Reach-IsAccounted signals n begin c none_yet here = rw (handed-all_serving n, none_yet) Perm.rfl
  Reach-IsAccounted signals n begin c none_yet (later {c = b} r st) =
      Step-IsAccounted signals b c st (Reach-IsAccounted signals n begin b none_yet r)

  pub holder :
      (gs : List (Goroutine E))
      → (stuck_with gs ≡ [])
        ⊎ ((xs : List (Goroutine E)) × (ys : List (Goroutine E)) × (e : E) × (gs
              ≡ xs ++ (failing e ∷ ys)))
  holder [] = inl refl
  holder (failing e ∷ gs) = inr ([], gs, e, refl)
  holder (serving ∷ gs) = elim (holder gs) [
    | inl none_held ↦ inl none_held
    | inr (xs, ys, e, at_e) ↦ inr (serving ∷ xs, ys, e, ap (◌∷◌ serving) at_e)
  ]
  holder (over o ∷ gs) = elim (holder gs) [
    | inl none_held ↦ inl none_held
    | inr (xs, ys, e, at_e) ↦ inr (over o ∷ xs, ys, e, ap (◌∷◌ (over o)) at_e)
  ]

  -- At rest a free channel means that no goroutine holds an error.
  rest_free : (c : Running E) → IsAtRest c → c.channel ≡ none → stuck_with c.workers ≡ []
  rest_free c rest free = elim (holder c.workers) [
    | inl none_held ↦ none_held
    | inr (xs, ys, e, at_e) ↦ absurd (rest _ (sends xs ys e at_e free))
  ]

  -- What is reported, of the errors `fs`, of which goroutines still hold `held`. At the select there is none;
  -- the error received is one of them, and the channel takes one more; without a receive it takes one.
  abbrev pub Outcome : Main E → List E → List E → Type 0
  Outcome occupied fs kept = ⊥
  Outcome selecting fs kept = fs ≡ []
  Outcome (received e) fs kept = Mem e fs × (length kept ≡ length fs - 2)
  Outcome left fs kept = length kept ≡ length fs - 1

  length-failures :
      (c : Running E)
      → IsAccounted c
      → length (failures c.workers)
        ≡ length (one c.channel) + length (got c.main) + length (stuck_with c.workers)
  length-failures c h = omega (
    arith,
    length-append (handed c.workers) (stuck_with c.workers),
    length-append (one c.channel) (got c.main),
    length-perm (handed c.workers) (one c.channel ++ got c.main) h,
  )

  -- At rest, behind the select, the channel is full or no goroutine holds an error.
  held_behind :
      (c : Running E) (k : ℕ)
      → IsAtRest c
      → length (failures c.workers) ≡ length (one c.channel) + k + length (stuck_with c.workers)
      → length (stuck_with c.workers) ≡ length (failures c.workers) - (k + 1)
  held_behind c k rest counted = elim (Option-cases c.channel) [
    | inl free ↦
        let empty = ap length (rest_free c rest free) in
        let opened = ap (λ o. length (one o)) free in omega (arith, counted, empty, opened)
    | inr (e, full) ↦ let opened = ap (λ o. length (one o)) full in omega (arith, counted, opened)
  ]

  -- Once only services can still do something: the function is at its select only if no service has failed;
  -- if it has received an error, that is one of a service, and all but two of the goroutines with an error
  -- are stuck; if it has left for another reason, all but one of them are.
  pub Reach-Outcome :
      (signals : Bool) (n : ℕ) (begin : Main E) (c : Running E)
      → got begin ≡ []
      → Reach signals (start n begin) c
      → IsAtRest c
      → Outcome c.main (failures c.workers) (stuck_with c.workers)
  Reach-Outcome signals n begin c none_yet r rest = by_main c.main refl
    where
      h : IsAccounted c
      h = Reach-IsAccounted signals n begin c none_yet r

      counted :
          (m : Main E)
          → c.main ≡ m
          → length (failures c.workers)
            ≡ length (one c.channel) + length (got m) + length (stuck_with c.workers)
      counted m e =
          subst
            (λ m'.
              length (failures c.workers)
              ≡ length (one c.channel) + length (got m') + length (stuck_with c.workers))
            e (length-failures c h)

      by_main : (m : Main E) → c.main ≡ m → Outcome m (failures c.workers) (stuck_with c.workers)
      by_main occupied e = absurd (rest _ (readies e))
      by_main selecting e = elim (Option-cases c.channel) [
        | inr (err, full) ↦ absurd (rest _ (receives err e full))
        | inl free ↦ rw (rest_free c rest free) (
            append-nil (handed c.workers)
            ∙ Perm.eq-nil (
                subst (λ o. Perm (handed c.workers) (one o ++ [])) free
                  (subst (λ m. Perm (handed c.workers) (one c.channel ++ got m)) e h)))
      ]
      by_main (received err) e = (
        mem-append_left (stuck_with c.workers) (
            (Perm.mem_iff (subst (λ m. Perm (handed c.workers) (one c.channel ++ got m)) e h)).1
              (mem-append_right (one c.channel) mem-cons_self)),
        held_behind c 1 rest (counted (received err) e),
      )
      by_main left e = held_behind c 0 rest (counted left e)
