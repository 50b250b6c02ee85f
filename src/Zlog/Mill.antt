-- ===== src/Zlog/Mill.antt =====
-- mill and millRun of zlog/lumberjack.go: the goroutine that removes old files, interleaved with calls of
-- Write, Close and Rotate. The mutex makes each call one step, and millCh has room for one signal.
use golang_tools.Base.{
  ℕ, suc, ◌-◌, ◌&&◌, arith, ◌≡◌, refl, sym, ap, ◌∙◌, Bool, true, false, ◌||◌, not, List, [], ◌∷◌,
  length, Option, none, some,
}
use golang_tools.Base.Int.{pos, ltb_ℤ}
use golang_tools.Zlog.Logger.{
  System, Failure, Logger, max_bytes, mill, open_new, open_existing_or_new, opened, write, close,
  reopened, rotate,
}

-- Where millRun stands: at the channel, or in millRunOnce.
pub data Runner : Type 0 where
  idle busy : Runner

pub record Shared : Type 0 where
  pub logger : Logger
  pub runner : Runner

-- What happened: a call of a method, with whether it got as far as `l.mill()`, or millRunOnce began or ended.
pub data Event : Type 0 where
  called : Bool → Event
  begun ended : Event

abbrev pub is_some : {A : Type 0} → Option A → Bool
is_some none = false
is_some (some a) = true

-- Write opens a file, and calls mill before it, if none is open and the bytes are not too many.
abbrev pub write_mills : List ℕ → Logger → Bool
write_mills p l = not (ltb_ℤ (max_bytes l) (pos (length p))) && not (is_some l.file)

-- Rotate calls mill at its end, if it has met no error.
abbrev pub rotate_mills : System → Logger → Bool
rotate_mills sys l = not (is_some (rotate sys l).1)

pub data Step (s : Shared) : Event → Shared → Type 0 where
  writes :
      (sys : System) (p : List ℕ)
      → Step s (called (write_mills p s.logger)) (record s { logger = (write sys p s.logger).0 })
  closes : (sys : System) → Step s (called false) (record s { logger = (close sys s.logger).0 })
  rotates :
      (sys : System)
      → Step s (called (rotate_mills sys s.logger)) (record s { logger = (rotate sys s.logger).0 })
  -- `for range l.millCh`: the goroutine was started by the first call of mill, before its signal.
  takes :
      s.runner ≡ idle
      → s.logger.milling ≡ true
      → Step s begun (record { logger = record (s.logger) { milling = false }; runner = busy })
  finishes : s.runner ≡ busy → Step s ended (record s { runner = idle })

-- The events since the logger was made, the last one first.
pub data Reach (s : Shared) : List Event → Shared → Type 0 where
  here : Reach s [] s
  later :
      {es : List Event} {e : Event} {t u : Shared} → Reach s es t → Step t e u → Reach s (e ∷ es) u

-- A call of mill has come after the last beginning of millRunOnce.
abbrev pub owed : List Event → Bool
owed [] = false
owed (called b ∷ es) = b || owed es
owed (begun ∷ es) = false
owed (ended ∷ es) = owed es

-- The number of runs that have begun and not ended.
abbrev pub under_way : List Event → ℕ
under_way [] = 0
under_way (called b ∷ es) = under_way es
under_way (begun ∷ es) = suc (under_way es)
under_way (ended ∷ es) = under_way es - 1

abbrev pub at_work : Runner → ℕ
at_work idle = 0
at_work busy = 1

open_new_milling : (sys : System) (l : Logger) → (open_new sys l).0.milling ≡ l.milling
unfolding open_new
open_new_milling sys l = ground arith

open_milling : (sys : System) (l : Logger) → (open_existing_or_new sys l).0.milling ≡ true
unfolding open_existing_or_new mill
open_milling sys l = ground (arith, open_new_milling sys (mill l))

opened_milling :
    (sys : System) (p : List ℕ) (r : Logger × Option Failure)
    → (opened sys p r).0.milling ≡ r.0.milling
opened_milling sys p (l, none) = refl
opened_milling sys p (l, some e) = refl

write_milling :
    (sys : System) (p : List ℕ) (l : Logger)
    → (write sys p l).0.milling ≡ (write_mills p l || l.milling)
unfolding write
write_milling sys p l =
    ground (arith, open_milling sys l, opened_milling sys p (open_existing_or_new sys l))

close_milling : (sys : System) (l : Logger) → (close sys l).0.milling ≡ l.milling
unfolding close
close_milling sys l = ground arith

reopened_milling :
    (sys : System) (r : Logger × Option Failure)
    → (reopened sys r).0.milling ≡ (not (is_some (reopened sys r).1) || r.0.milling)
unfolding mill open_new
reopened_milling sys (l, none) = ground arith
reopened_milling sys (l, some e) = refl

rotate_milling :
    (sys : System) (l : Logger) → (rotate sys l).0.milling ≡ (rotate_mills sys l || l.milling)
unfolding rotate
rotate_milling sys l =
    reopened_milling sys (close sys l)
    ∙ ap (λ b. not (is_some (reopened sys (close sys l)).1) || b) (close_milling sys l)

abbrev Accounted : List Event → Shared → Type 0
Accounted es t = (t.logger.milling ≡ owed es) × (under_way es ≡ at_work t.runner)

Step-Accounted :
    (es : List Event) (s : Shared) (e : Event) (t : Shared)
    → Step s e t
    → Accounted es s
    → Accounted (e ∷ es) t
Step-Accounted es s e t (writes sys p) (signal, runs) =
    (write_milling sys p s.logger ∙ ap (λ b. write_mills p s.logger || b) signal, runs)
Step-Accounted es s e t (closes sys) (signal, runs) = (close_milling sys s.logger ∙ signal, runs)
Step-Accounted es s e t (rotates sys) (signal, runs) =
    (rotate_milling sys s.logger ∙ ap (λ b. rotate_mills sys s.logger || b) signal, runs)
Step-Accounted es s e t (takes rests signalled) (signal, runs) =
    (refl, ap suc (runs ∙ ap at_work rests))
Step-Accounted es s e t (finishes works) (signal, runs) =
    (signal, ap (λ n. n - 1) (runs ∙ ap at_work works))

-- However the calls of Write, Close and Rotate and the goroutine of mill are interleaved: a signal is in
-- the channel exactly when mill was called after the last beginning of millRunOnce, so that every call of
-- mill is followed by a run unless the signal for it is still there; and at most one run is under way,
-- which is when the goroutine is busy. The logger begins with no signal and with its goroutine at rest.
pub Reach-Accounted :
    (s t : Shared) (es : List Event)
    → s.logger.milling ≡ false
    → s.runner ≡ idle
    → Reach s es t
    → (t.logger.milling ≡ owed es) × (under_way es ≡ at_work t.runner)
Reach-Accounted s t es quiet rests here = (quiet, ap at_work (sym rests))
Reach-Accounted s t es quiet rests (later {es = before} {e = e} {t = u} r st) =
    Step-Accounted before u e t st (Reach-Accounted s u before quiet rests r)
