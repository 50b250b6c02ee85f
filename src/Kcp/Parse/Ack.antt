-- ===== src/Kcp/Parse/Ack.antt =====
-- Parse_Ack and Ack_Push: what an acknowledgement removes, and where the own ones are noted.
use golang_tools.Base.{
  ℕ, zero, suc, ◌+◌, ◌*◌, ◌%◌, ◌^◌, ◌≤◌, ◌<◌, ◌≡◌, refl, sym, ap, ◌∙◌, inl, inr, arith, ltb, leb,
  ◌==◌, if◌then◌else◌, true, false, ◌||◌, List, [], ◌∷◌, ◌++◌, length, get_elem?, set, last_of,
  take_front, get_elem?-middle, length-append, append_assoc, append-nil, Bool-cases, some, ==→eq,
  lt→ltb, length-set, get_elem?-set_self, get_elem?-set_other,
}
use golang_tools.Base.Word.{mul32, add32}
use golang_tools.Base.Run.{Run, done, Panics}
use golang_tools.Kcp.Define.{Segment, Kcp}
use golang_tools.Kcp.Parse.{SndBuf, open_snd_buf, on_snd_buf, ack_loop, parse_ack, ack_push}
use golang_tools.Kcp.Parse.Deletion.{midway, delete_snd-middle, next_index}

-- The buffer without the segment numbered `sn`.
unfoldable pub without : ℕ → List Segment → List Segment
without sn [] = []
without sn (x ∷ xs) = if sn == x.sn then without sn xs else x ∷ without sn xs

-- Numbers rise along the buffer, all of them from `n` on.
abbrev pub Rising : ℕ → List Segment → Type 0
Rising n [] = Unit {0}
Rising n (x ∷ xs) = (n ≤ x.sn) × Rising (suc x.sn) xs

without_below : (sn n : ℕ) (xs : List Segment) → Rising n xs → sn < n → without sn xs ≡ xs
unfolding without
without_below sn n [] h lt = refl
without_below sn n (x ∷ xs) h lt = ground (arith, without_below sn (suc x.sn) xs h.1)

-- A loop that ends with a buffer which shows `ps` and then `rs`, and counts those.
abbrev Ends : Run SndBuf (Unit {0}) → List Segment → List Segment → Type 0
Ends run ps rs =
    (tail : List Segment) × (run ≡ done (midway (ps ++ (rs ++ tail)) (length ps + length rs)) tt)

Ends-step :
    (run next : Run SndBuf (Unit {0})) (ps rs : List Segment) (x : Segment)
    → run ≡ next
    → Ends next (ps ++ (x ∷ [])) rs
    → Ends run ps (x ∷ rs)
Ends-step run next ps rs x p (tail, e) =
    let size : length (ps ++ (x ∷ [])) + length rs ≡ length ps + suc (length rs) =
      omega (arith, length-append ps (x ∷ [])) in
    (tail, p ∙ e ∙ rw (size, append_assoc ps (x ∷ []) (rs ++ tail)))

unchanged :
    (m : ℕ) (a ps rs : List Segment)
    → a ≡ ps ++ rs
    → m ≡ length ps + length rs
    → Ends (done (midway a m) tt) ps rs
unchanged m a ps rs e hm = ([], rw (e, hm, append-nil rs))

module _ (sn rounds i m : ℕ) (a ps : List Segment) (x : Segment) (rs : List Segment)
    (e : a ≡ ps ++ (x ∷ rs)) (hi : i ≡ length ps) where
  found : get_elem? a i ≡ some x
  found = rw e (get_elem?-middle i ps rs x hi)

  ack_hit :
      m ≡ length ps + length rs
      → Rising (suc x.sn) rs
      → (sn == x.sn) ≡ true
      → Ends (ack_loop sn (suc rounds) i (midway a (suc m))) ps (without sn (x ∷ rs))
  unfolding ack_loop without
  ack_hit hm h hit =
      let at_end : a ≡ ps ++ ((x ∷ rs) ++ []) = e ∙ ap (◌++◌ ps) (sym (append-nil (x ∷ rs))) in
      let others : without sn rs ≡ rs =
        without_below sn (suc x.sn) rs h (omega (arith, ==→eq sn x.sn hit)) in
      (
        last_of x rs ∷ [],
        rw (found, hit, others)
            (delete_snd-middle i m a ps x rs [] at_end hi hm
              ∙ ap (λ l. done (midway (ps ++ (rs ++ (last_of x rs ∷ []))) l) tt) hm),
      )

  ack_past :
      m ≡ length ps + length rs
      → Rising (suc x.sn) rs
      → (sn == x.sn) ≡ false
      → ltb sn x.sn ≡ true
      → Ends (ack_loop sn (suc rounds) i (midway a (suc m))) ps (without sn (x ∷ rs))
  unfolding ack_loop without
  ack_past hm h miss past =
      let others : without sn rs ≡ rs = without_below sn (suc x.sn) rs h (ground arith) in
      rw (found, miss, past, others) (unchanged (suc m) a ps (x ∷ rs) e (omega arith))

  ack_on :
      (sn == x.sn) ≡ false
      → ltb sn x.sn ≡ false
      → Ends (ack_loop sn rounds (suc i) (midway a m)) (ps ++ (x ∷ [])) (without sn rs)
      → Ends (ack_loop sn (suc rounds) i (midway a m)) ps (without sn (x ∷ rs))
  unfolding ack_loop without
  ack_on miss on ih = rw miss (
      Ends-step _ (ack_loop sn rounds (suc i) (midway a m)) ps (without sn rs) x
        (rw (found, miss, on)) ih)

module _ (sn : ℕ) where
  ack_loop-Ends :
      (rounds i m n : ℕ) (a ps rs : List Segment)
      → a ≡ ps ++ rs
      → i ≡ length ps
      → m ≡ length ps + length rs
      → rounds ≡ length rs
      → Rising n rs
      → Ends (ack_loop sn rounds i (midway a m)) ps (without sn rs)
  unfolding ack_loop without
  ack_loop-Ends zero i m n a ps [] e hi hm hr h = unchanged m a ps [] e hm
  ack_loop-Ends (suc rounds) i m n a ps [] e hi hm hr h = absurd (omega arith)
  ack_loop-Ends zero i m n a ps (x ∷ rs) e hi hm hr h = absurd (omega arith)
  ack_loop-Ends (suc rounds) i zero n a ps (x ∷ rs) e hi hm hr h = absurd (omega arith)
  ack_loop-Ends (suc rounds) i (suc m) n a ps (x ∷ rs) e hi hm hr h =
      elim (Bool-cases (sn == x.sn)) [
        | inl hit ↦ ack_hit sn rounds i m a ps x rs e hi (omega arith) h.1 hit
        | inr miss ↦ elim (Bool-cases (ltb sn x.sn)) [
          | inl past ↦ ack_past sn rounds i m a ps x rs e hi (omega arith) h.1 miss past
          | inr on ↦ ack_on sn rounds i (suc m) a ps x rs e hi miss on (
              ack_loop-Ends rounds (suc i) (suc m) (suc x.sn) a (ps ++ (x ∷ [])) rs
                (e ∙ sym (append_assoc ps (x ∷ []) rs)) (next_index i ps x hi)
                (omega (arith, length-append ps (x ∷ []))) (omega arith) h.1)
        ]
      ]

-- On a buffer that Nsnd_buf counts and whose numbers rise, an acknowledged number from Snd_una up to
-- Snd_nxt makes Parse_Ack remove the segments with this number, count the rest and change nothing
-- else.
pub parse_ack-without :
    (sn n : ℕ) (k : Kcp)
    → k.nsnd_buf ≡ length k.snd_buf % 2 ^ 32
    → Rising n k.snd_buf
    → k.snd_una ≤ sn
    → sn < k.snd_nxt
    → parse_ack sn k
      ≡ done
          (record k {
            snd_buf = without sn k.snd_buf;
            nsnd_buf = length (without sn k.snd_buf) % 2 ^ 32;
          })
          tt
unfolding parse_ack
parse_ack-without sn n k counted rising lo hi =
    rw (inside, opened)
      (close
        (ack_loop-Ends sn size 0 size n k.snd_buf [] k.snd_buf refl refl (omega arith) refl rising))
  where
    size : ℕ
    size = length k.snd_buf

    kept : List Segment
    kept = without sn k.snd_buf

    inside : (ltb sn k.snd_una || leb k.snd_nxt sn) ≡ false
    inside = ground arith

    opened : open_snd_buf k ≡ midway k.snd_buf (length k.snd_buf)
    opened = rw counted

    close :
        Ends (ack_loop sn (length k.snd_buf) 0 (midway k.snd_buf (length k.snd_buf))) [] kept
        → on_snd_buf k (ack_loop sn (length k.snd_buf) 0 (midway k.snd_buf (length k.snd_buf)))
          ≡ done (record k { snd_buf = kept; nsnd_buf = length kept % 2 ^ 32 }) tt
    close (tail, e) =
        let zero_add : 0 + length kept ≡ length kept = omega arith in
        rw (e, on_snd_buf) (rw (zero_add, take_front (length kept) kept tail refl))

-- AckList after a write of two numbers at the places that belong to the count.
abbrev pub noted : ℕ → ℕ → ℕ → List ℕ → List ℕ
noted count sn ts acks = set (set acks (2 * count) sn) (2 * count + 1) ts

pub ack_push_lem :
    (sn ts : ℕ) (k : Kcp)
    → 2 * k.ack_count + 1 < length k.ack_list
    → 2 * k.ack_count + 2 ≤ 2 ^ 32
    → ack_push sn ts k
      ≡ done
          (record k { ack_list = noted k.ack_count sn ts k.ack_list; ack_count = k.ack_count + 1 })
          tt
unfolding ack_push
ack_push_lem sn ts k room small =
    let once = set k.ack_list (2 * k.ack_count) sn in
    let even : mul32 k.ack_count 2 ≡ 2 * k.ack_count = omega arith in
    let odd : add32 (2 * k.ack_count) 1 ≡ 2 * k.ack_count + 1 = omega arith in
    let count : add32 k.ack_count 1 ≡ k.ack_count + 1 = omega arith in
    let wide = length-set k.ack_list (2 * k.ack_count) sn in
    rw (
      even,
      odd,
      count,
      lt→ltb (2 * k.ack_count) (length k.ack_list) (omega arith),
      lt→ltb (2 * k.ack_count + 1) (length once) (omega (arith, wide)),
    )

-- If AckList has the two places that belong to AckCount, and their indices fit 32 bits, Ack_Push
-- writes the number and the time there, leaves the places before them alone, counts one up and
-- changes nothing else.
pub ack_push_noted :
    (sn ts : ℕ) (k : Kcp)
    → 2 * k.ack_count + 1 < length k.ack_list
    → 2 * k.ack_count + 2 ≤ 2 ^ 32
    → (acks : List ℕ) × (ack_push sn ts k
        ≡ done (record k { ack_list = acks; ack_count = k.ack_count + 1 }) tt)
      × (get_elem? acks (2 * k.ack_count) ≡ some sn)
      × (get_elem? acks (2 * k.ack_count + 1) ≡ some ts)
      × ((j : ℕ) → j < 2 * k.ack_count → get_elem? acks j ≡ get_elem? k.ack_list j)
ack_push_noted sn ts k room small = (
  noted k.ack_count sn ts k.ack_list,
  ack_push_lem sn ts k room small,
  get_elem?-set_other once (2 * k.ack_count + 1) (2 * k.ack_count) ts (λ e. absurd (omega arith))
      ∙ get_elem?-set_self k.ack_list (2 * k.ack_count) sn (omega arith),
  get_elem?-set_self once (2 * k.ack_count + 1) ts
      (omega (arith, length-set k.ack_list (2 * k.ack_count) sn)),
  λ j h.
      get_elem?-set_other once (2 * k.ack_count + 1) j ts (λ e. absurd (omega arith))
      ∙ get_elem?-set_other k.ack_list (2 * k.ack_count) j sn (λ e. absurd (omega arith)),
)
  where
    once : List ℕ
    once = set k.ack_list (2 * k.ack_count) sn

-- If AckList is no longer than twice AckCount, in 32 bits, Ack_Push panics.
pub ack_push-Panics :
    (sn ts : ℕ) (k : Kcp) → length k.ack_list ≤ mul32 k.ack_count 2 → Panics (ack_push sn ts k)
unfolding ack_push
ack_push-Panics sn ts k h = ground arith
