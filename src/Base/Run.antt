-- ===== src/Base/Run.antt =====
-- What a Go call does to its state: it returns, or it panics and leaves the state as it was then.

-- The run-time panics of the code.
pub data Fault : Type 0 where
  index_out_of_range slice_out_of_range nil_call divide_by_zero nil_pointer : Fault
  -- A call of `panic` by the code or by the package that it calls.
  raised : Fault

-- `stuck` is no Go behaviour: a loop of the model ran out of fuel.
pub data Run (S A : Type 0) : Type 0 where
  done : S → A → Run S A
  panic : Fault → S → Run S A
  stuck : Run S A

infixl 5 ◌>>=◌ ◌>>◌
abbrev pub after : {S A B : Type 0} → Run S A → (S → A → Run S B) → Run S B
after (done s a) f = f s a
after (panic e s) f = panic e s
after stuck f = stuck

-- A method: it takes the state that it works on last.
abbrev pub M : Type 0 → Type 0 → Type 0
M S A = S → Run S A

abbrev pub ◌>>=◌ : {S A B : Type 0} → M S A → (A → M S B) → M S B
◌>>=◌ m f s = after (m s) (λ s' a. f a s')

abbrev pub ◌>>◌ : {S B : Type 0} → M S (Unit {0}) → M S B → M S B
◌>>◌ m k s = after (m s) (λ s' _. k s')

-- The fields of a result that matter to a statement.
abbrev pub Returns : {S A : Type 0} → Run S A → (S → A → Type 0) → Type 0
Returns (done s a) P = P s a
Returns (panic e s) P = ⊥
Returns stuck P = ⊥

abbrev pub Panics : {S A : Type 0} → Run S A → Type 0
Panics (done s a) = ⊥
Panics (panic e s) = Unit {0}
Panics stuck = ⊥

pub Panics-after :
    {S A B : Type 0} (r : Run S A) (f : S → A → Run S B) → Panics r → Panics (after r f)
Panics-after (done s a) f h = absurd h
Panics-after (panic e s) f h = tt
Panics-after stuck f h = absurd h

-- The call ends, and if it returns, then with what `P` says. A panic is an end.
abbrev pub Ensures : {S A : Type 0} → (S → A → Type 0) → Run S A → Type 0
Ensures P (done s a) = P s a
Ensures P (panic e s) = Unit {0}
Ensures P stuck = ⊥

abbrev pub Ends : {S A : Type 0} → Run S A → Type 0
Ends = Ensures (λ _ _. Unit {0})

pub Ensures-after :
    {S A B : Type 0} (Q : S → A → Type 0) (P : S → B → Type 0) (m : Run S A) (f : S → A → Run S B)
    → Ensures Q m
    → ((s : S) (a : A) → Q s a → Ensures P (f s a))
    → Ensures P (after m f)
Ensures-after Q P (done s a) f h k = k s a h
Ensures-after Q P (panic e s) f h k = tt
Ensures-after Q P stuck f h k = h
