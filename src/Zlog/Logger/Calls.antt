-- ===== src/Zlog/Logger/Calls.antt =====
-- What Write and Rotate do with the open file.
use golang_tools.Base.{
  ℕ, ◌+◌, ◌≡◌, refl, sym, subst, ap, arith, true, false, if◌then◌else◌, List, [], ◌∷◌, length,
  Option, none, some, Bool-cases, Option-cases, inl, inr,
}
use golang_tools.Base.Int.{ℤ, pos, ltb_ℤ}
use golang_tools.Zlog.Names.{Text}
use golang_tools.Zlog.Logger.{
  not_closed, System, Failure, too_long, Logger, max_bytes, mill, open_new, append, write, close,
  reopened, rotate,
}

-- Writes one after the other, each with the answers of the system that it meets.
abbrev pub writes : List (System × List ℕ) → Logger → Logger
writes [] l = l
writes ((sys, p) ∷ ws) l = writes ws (write sys p l).0

-- Bytes that the writes of a list add to the file.
abbrev pub added : ℤ → List (System × List ℕ) → ℕ
added max [] = 0
added max ((sys, p) ∷ ws) = (if ltb_ℤ max (pos (length p)) then 0 else sys.takes p) + added max ws

write_long :
    (sys : System) (p : List ℕ) (l : Logger)
    → ltb_ℤ (max_bytes l) (pos (length p)) ≡ true
    → write sys p l ≡ (l, (0, some too_long))
unfolding write
write_long sys p l h = rw h refl

write_open :
    (sys : System) (p : List ℕ) (name : Text) (l : Logger)
    → ltb_ℤ (max_bytes l) (pos (length p)) ≡ false
    → l.file ≡ some name
    → write sys p l ≡ append sys p l
unfolding write
write_open sys p name l h e = simp (h, e)

-- While a file is open every sequence of writes goes to it: whatever time it is and however large the
-- file has become, its name stays, and its size grows by the bytes that the system took of the writes
-- that are not longer than the maximal size.
pub writes-keep :
    (ws : List (System × List ℕ)) (name : Text) (l : Logger)
    → l.file ≡ some name
    → ((writes ws l).file ≡ some name) × ((writes ws l).size ≡ l.size + added (max_bytes l) ws)
writes-keep [] name l h = (h, omega arith)
writes-keep ((sys, p) ∷ ws) name l h =
    let IsKept : ℕ → Logger × (ℕ × Option Failure) → Type 0 = (λ n r.
      ((writes ws r.0).file ≡ some name)
      × ((writes ws r.0).size ≡ l.size + (n + added (max_bytes l) ws))) in
    elim (Bool-cases (ltb_ℤ (max_bytes l) (pos (length p)))) [
      | inl long ↦
          (let (named, sized) = writes-keep ws name l h in
            rw long
              (subst (IsKept 0) (sym (write_long sys p l long)) (named, omega (arith, sized))))
      | inr fits ↦
          (let (named, sized) = writes-keep ws name (append sys p l).0 h in
            rw fits (
              subst (IsKept (sys.takes p)) (sym (write_open sys p name l fits h))
                (named, omega (arith, sized))))
    ]

-- What a rotation leaves behind, by its answer.
abbrev pub Rotated : System → Logger × Option Failure → Type 0
Rotated sys (l, none) = (l.file ≡ some sys.now_name) × ((l.size ≡ 0) × (l.milling ≡ true))
Rotated sys (l, some e) = l.file ≡ none

Rotated-reopened :
    (sys : System) (l : Logger) → l.file ≡ none → Rotated sys (reopened sys (l, none))
unfolding open_new mill
Rotated-reopened sys l h = elim (Bool-cases sys.mkdir_ok) [
  | inr no_dir ↦ rw no_dir h
  | inl dir ↦ rw dir (elim (Bool-cases sys.create_ok) [
    | inl made ↦ rw made (refl, (refl, refl))
    | inr unmade ↦ rw unmade h
  ])
]

close_shut : (sys : System) (l : Logger) → l.file ≡ none → close sys l ≡ (l, none)
unfolding close
close_shut sys l h =
    ap
      (λ f. elim f [
        | none ↦ (l, none)
        | some name ↦ (record l { file = none }, (if sys.close_ok then none else some not_closed))
      ])
      h

close_open :
    (sys : System) (name : Text) (l : Logger)
    → l.file ≡ some name
    → close sys l ≡ (record l { file = none }, (if sys.close_ok then none else some not_closed))
unfolding close
close_open sys name l h =
    ap
      (λ f. elim f [
        | none ↦ (l, none)
        | some other ↦ (record l { file = none }, (if sys.close_ok then none else some not_closed))
      ])
      h

-- Rotate leaves the logger in one of two states: without an error the file for the current time is open
-- and empty and the removal of old files is signalled; with one no file is open.
pub Rotated-rotate : (sys : System) (l : Logger) → Rotated sys (rotate sys l)
unfolding rotate close
Rotated-rotate sys l = elim (Option-cases l.file) [
  | inl shut ↦
      subst (λ r. Rotated sys (reopened sys r)) (sym (close_shut sys l shut))
        (Rotated-reopened sys l shut)
  | inr (name, e) ↦
      subst (λ r. Rotated sys (reopened sys r)) (sym (close_open sys name l e))
        (elim (Bool-cases sys.close_ok) [
          | inl closed ↦ simp closed (Rotated-reopened sys (record l { file = none }) refl)
          | inr failed ↦ simp failed refl
        ])
]
