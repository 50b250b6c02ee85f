-- ===== src/Kcp/Counts.antt =====
-- The counters Nsnd_que, Nrcv_que, Nsnd_buf and Nrcv_buf count the queues and buffers, whatever the
-- connection does.
pub mod Parsing
pub mod Connection
pub mod Flushed
pub mod Calls
use golang_tools.Base.{
  ℕ, suc, ◌+◌, ◌-◌, ◌%◌, ◌^◌, ◌≤◌, ◌≡◌, refl, ap, ◌∙◌, sym, subst, arith, leb, leb→le, lt→leb,
  ltb→le, if◌then◌else◌, Bool, true, false, List, [], ◌∷◌, ◌++◌, length, length-append, length-take,
  length-drop, take, drop, Option, none, some, Bool-cases, inl, inr,
}
use golang_tools.Base.Word.{add32, sub32}
use golang_tools.Base.Run.{Run, done, panic, stuck, after, Ends, Ensures}
use golang_tools.Base.Slice.{Slice, shown, overwrite, delete_at}
use golang_tools.Kcp.Define.{Segment, Kcp}
use golang_tools.Kcp.Parse.{SndBuf, RcvBuf}

-- If the call returns, `P` holds of the state. Nothing is said of a panic.
abbrev pub Keeps : {S A : Type 0} → (S → Type 0) → Run S A → Type 0
Keeps P (done s a) = P s
Keeps P (panic e s) = Unit {0}
Keeps P stuck = Unit {0}

pub Keeps-after :
    {S A B : Type 0} (P : S → Type 0) (m : Run S A) (f : S → A → Run S B)
    → Keeps P m
    → ((s : S) (a : A) → P s → Keeps P (f s a))
    → Keeps P (after m f)
Keeps-after P (done s a) f h k = k s a h
Keeps-after P (panic e s) f h k = tt
Keeps-after P stuck f h k = tt

pub Keeps-if :
    {S A : Type 0} (P : S → Type 0) (b : Bool) (x y : Run S A)
    → Keeps P x
    → Keeps P y
    → Keeps P (if b then x else y)
Keeps-if P true x y hx hy = hx
Keeps-if P false x y hx hy = hy

-- A call that ends and keeps `P` returns with it or panics.
pub Ensures-Keeps :
    {S A : Type 0} (P : S → Type 0) (m : Run S A) → Ends m → Keeps P m → Ensures (λ s _. P s) m
Ensures-Keeps P (done s a) e h = h
Ensures-Keeps P (panic e s) h k = tt
Ensures-Keeps P stuck e h = e

pub Ensures-Ends : {S A : Type 0} (Q : S → A → Type 0) (m : Run S A) → Ensures Q m → Ends m
Ensures-Ends Q (done s a) h = tt
Ensures-Ends Q (panic e s) h = tt
Ensures-Ends Q stuck h = h

-- The counters are uint32.
abbrev pub AreCounted : Kcp → Type 0
AreCounted k =
    (k.nsnd_que ≡ length k.snd_queue % 2 ^ 32)
    × (k.nrcv_que ≡ length k.rcv_queue % 2 ^ 32)
    × (k.nsnd_buf ≡ length k.snd_buf % 2 ^ 32)
    × (k.nrcv_buf ≡ length k.rcv_buf % 2 ^ 32)

abbrev pub IsCountedSnd : SndBuf → Type 0
IsCountedSnd b = (b.items.len ≤ length b.items.array) × (b.nsnd_buf ≡ b.items.len % 2 ^ 32)

abbrev pub IsCountedRcv : RcvBuf → Type 0
IsCountedRcv b =
    (b.items.len ≤ length b.items.array)
    × (b.nrcv_buf ≡ b.items.len % 2 ^ 32)
    × (b.nrcv_que ≡ length b.rcv_queue % 2 ^ 32)

-- The elements that a slice shows are as many as it says.
pub length-shown : (s : Slice Segment) → s.len ≤ length s.array → length (shown s) ≡ s.len
length-shown s h = length-take s.len s.array h

-- A deletion takes one from the length, and leaves the array's.
abbrev pub IsShorter : Slice Segment → Option (Slice Segment) → Type 0
IsShorter s none = Unit {0}
IsShorter s (some t) = (s.len ≡ suc t.len) × (length t.array ≡ length s.array)

pub IsShorter-delete_at :
    (i : ℕ) (s : Slice Segment) → s.len ≤ length s.array → IsShorter s (delete_at i s)
unfolding delete_at
IsShorter-delete_at i s h = elim (Bool-cases (leb (i + 1) s.len)) [
  | inr out ↦ rw out tt
  | inl within ↦
      (let inside = leb→le (i + 1) s.len within in
        rw within (
          omega (arith, inside),
          omega (
            arith,
            inside,
            h,
            length-append (take i s.array) (
                drop (i + 1) (take s.len s.array)
                ++ drop (i + length (drop (i + 1) (take s.len s.array))) s.array),
            length-append (drop (i + 1) (take s.len s.array))
                (drop (i + length (drop (i + 1) (take s.len s.array))) s.array),
            length-take i s.array (omega (arith, inside, h)),
            length-drop (i + 1) (take s.len s.array),
            length-take s.len s.array h,
            length-drop (i + length (drop (i + 1) (take s.len s.array))) s.array,
          ),
        ))
]

pub counts_more : (n a : ℕ) → a ≡ n % 2 ^ 32 → add32 a 1 ≡ (n + 1) % 2 ^ 32
counts_more n a h = omega arith

pub counts_less : (n a : ℕ) → a ≡ suc n % 2 ^ 32 → sub32 a 1 ≡ n % 2 ^ 32
counts_less n a h = omega arith
