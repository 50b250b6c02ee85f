-- ===== src/Net/Examples.antt =====
-- The theorems about connections at concrete inputs.
use golang_tools.Base.{
  ℕ, zero, suc, ◌≡◌, refl, arith, Bool, true, List, [], ◌∷◌, ◌++◌, map, flatten, length, Option,
  none, some,
}
use golang_tools.Base.Int.{pos, negsuc}
use golang_tools.Net.{ClientMsg, uncode, decode}
use golang_tools.Net.Frames.{frame, seen, uncode-decode}

abbrev hello : ClientMsg
hello = record { tag = negsuc 0; msg = 104 ∷ 105 ∷ [] }

abbrev empty : ClientMsg
empty = record { tag = pos 7; msg = [] }

hello_frame :
    decode (negsuc 0) (104 ∷ 105 ∷ []) ≡ 255 ∷ 255 ∷ 255 ∷ 255 ∷ 0 ∷ 0 ∷ 0 ∷ 2 ∷ 104 ∷ 105 ∷ []
unfolding decode golang_tools.Base.Word.to_u32
hello_frame = refl

uncode-decode_example : uncode (decode hello.tag hello.msg ++ (1 ∷ [])) ≡ some (seen hello, 1 ∷ [])
uncode-decode_example = uncode-decode hello (1 ∷ []) (omega arith)

-- The rest has only a part of a head.
uncode_cut : uncode (0 ∷ []) ≡ none
unfolding uncode
uncode_cut = refl

two_frames : length (flatten (map frame (hello ∷ empty ∷ [])) ++ (0 ∷ [])) ≡ 19
unfolding decode
two_frames = refl

-- A session that answers every other message with the message itself.
abbrev echo : ℕ → ClientMsg → ℕ × Option ClientMsg
echo zero m = (1, some m)
echo (suc n) m = (0, none)

abbrev appended : List ℕ → List ℕ → List ℕ × Bool
appended sent frame = (sent ++ frame, true)
