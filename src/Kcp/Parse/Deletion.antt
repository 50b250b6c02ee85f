-- ===== src/Kcp/Parse/Deletion.antt =====
-- Deleting from Snd_buf inside a loop that ranges over it: the shift, the copy behind the end, the panic.
use golang_tools.Base.{
  ℕ, suc, ◌+◌, ◌-◌, ◌%◌, ◌^◌, ◌<◌, ◌≡◌, arith, List, [], ◌∷◌, ◌++◌, length, last_of, length-append,
}
use golang_tools.Base.Word.{sub32}
use golang_tools.Base.Run.{done, panic, slice_out_of_range}
use golang_tools.Base.Slice.{delete_at-middle, delete_at_beyond}
use golang_tools.Kcp.Define.{Segment}
use golang_tools.Kcp.Parse.{SndBuf, delete_snd}

-- The buffer in the middle of the loop, its counter being its length.
abbrev pub midway : List Segment → ℕ → SndBuf
midway a m = record { items = record { array = a; len = m }; nsnd_buf = m % 2 ^ 32 }

pub count_down : (m : ℕ) → sub32 (suc m % 2 ^ 32) 1 ≡ m % 2 ^ 32
count_down m = omega arith

pub delete_snd-middle :
    (i m : ℕ) (a ps : List Segment) (x : Segment) (rs stale : List Segment)
    → a ≡ ps ++ ((x ∷ rs) ++ stale)
    → i ≡ length ps
    → m ≡ length ps + length rs
    → delete_snd i (midway a (suc m)) ≡ done (midway (ps ++ (rs ++ (last_of x rs ∷ stale))) m) tt
delete_snd-middle i m a ps x rs stale e hi hm =
    let less : suc m - 1 ≡ m = omega arith in
    rw (delete_at-middle i (suc m) a ps x rs stale e hi (omega arith), delete_snd)
      (rw (count_down m, less))

pub delete_snd_beyond :
    (i : ℕ) (b : SndBuf) → b.items.len < suc i → delete_snd i b ≡ panic slice_out_of_range b
delete_snd_beyond i b h = rw (delete_at_beyond i b.items h, delete_snd)

pub next_index :
    (i : ℕ) (ps : List Segment) (y : Segment) → i ≡ length ps → suc i ≡ length (ps ++ (y ∷ []))
next_index i ps y h = omega (arith, length-append ps (y ∷ []))
