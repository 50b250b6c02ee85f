-- ===== src/App/Services.antt =====
-- The goroutines of App.run in app/app.go and of Registry.Run in app/registry.go, in any order. In both each
-- goroutine serves, and if it ends with an error it puts that into errChan, which has room for one; the
-- function that started them takes one error from the channel, if it comes so far.
pub mod Reports
pub mod Progress
use golang_tools.Base.{
  ℕ, zero, suc, ◌≡◌, Bool, true, false, List, [], ◌∷◌, ◌++◌, Option, none, some,
}

-- A goroutine serves, or waits to put its error into the channel, or is over: with an error that it has
-- put there, or with none.
pub data Goroutine (E : Type 0) : Type 0 where
  serving : Goroutine E
  failing : E → Goroutine E
  over : Option E → Goroutine E

-- Where the function stands: before its select, at it, or behind it, with the error that it took from the
-- channel; `left` is a return for another reason.
pub data Main (E : Type 0) : Type 0 where
  occupied : Main E
  selecting : Main E
  received : E → Main E
  left : Main E

pub record Running (E : Type 0) : Type 0 where
  pub workers : List (Goroutine E)
  pub channel : Option E
  pub main : Main E

-- What the channel and the function do by themselves.
pub data Internal {E : Type 0} (c : Running E) : Running E → Type 0 where
  -- `errChan <- err`
  sends :
      (xs ys : List (Goroutine E)) (e : E)
      → c.workers ≡ xs ++ (failing e ∷ ys)
      → c.channel ≡ none
      → Internal c (record c { workers = xs ++ (over (some e) ∷ ys); channel = some e })
  -- The tasks of App.run come to their end; if one fails App.run returns.
  readies : c.main ≡ occupied → Internal c (record c { main = selecting })
  gives_up : c.main ≡ occupied → Internal c (record c { main = left })
  -- `<-errChan`
  receives :
      (e : E)
      → c.main ≡ selecting
      → c.channel ≡ some e
      → Internal c (record c { channel = none; main = received e })

-- A step: also a goroutine's service ends, or a signal comes, which Registry.Run waits for too.
pub data Step {E : Type 0} (signals : Bool) (c : Running E) : Running E → Type 0 where
  inner : {d : Running E} → Internal c d → Step signals c d
  ends :
      (xs ys : List (Goroutine E))
      → c.workers ≡ xs ++ (serving ∷ ys)
      → Step signals c (record c { workers = xs ++ (over none ∷ ys) })
  fails :
      (xs ys : List (Goroutine E)) (e : E)
      → c.workers ≡ xs ++ (serving ∷ ys)
      → Step signals c (record c { workers = xs ++ (failing e ∷ ys) })
  interrupted : signals ≡ true → c.main ≡ selecting → Step signals c (record c { main = left })

abbrev pub all_serving : {E : Type 0} → ℕ → List (Goroutine E)
all_serving zero = []
all_serving (suc n) = serving ∷ all_serving n

-- `n` goroutines were started. App.run is occupied with its tasks then, Registry.Run comes to its select.
abbrev pub start : {E : Type 0} → ℕ → Main E → Running E
start n begin = record { workers = all_serving n; channel = none; main = begin }

pub data Reach {E : Type 0} (signals : Bool) (b : Running E) : Running E → Type 0 where
  here : Reach signals b b
  later : {c d : Running E} → Reach signals b c → Step signals c d → Reach signals b d

-- Only services can still do something.
abbrev pub IsAtRest : {E : Type 0} → Running E → Type 0
IsAtRest {E} c = (d : Running E) → ¬ Internal c d
