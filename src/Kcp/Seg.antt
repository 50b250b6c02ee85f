-- ===== src/Kcp/Seg.antt =====
-- kcp/seg.go: Encode writes a segment's header into a fresh byte slice.
use golang_tools.Base.{
  ℕ, ◌-◌, ◌/◌, ◌%◌, ◌^◌, ltb, leb, if◌then◌else◌, ◌&&◌, List, [], ◌∷◌, length, set, replicate,
}
use golang_tools.Base.Run.{
  Run, done, panic, M, after, ◌>>◌, index_out_of_range, slice_out_of_range, Panics,
}
use golang_tools.Base.Slice.{Slice, shown, overwrite}
use golang_tools.Kcp.Define.{Segment, overhead}

-- A byte slice; `array` is the memory up to its capacity.
abbrev pub Bytes : Type 0
Bytes = Slice ℕ

-- `make([]byte, len, cap)`
abbrev pub make_bytes : ℕ → ℕ → Bytes
make_bytes len cap = record { array = replicate cap 0; len = len }

-- The bytes of a uint16 and of a uint32, the highest first.
abbrev pub be_bytes16 : ℕ → List ℕ
be_bytes16 v = v / 2 ^ 8 % 256 ∷ v % 256 ∷ []

abbrev pub be_bytes32 : ℕ → List ℕ
be_bytes32 v = v / 2 ^ 24 % 256 ∷ v / 2 ^ 16 % 256 ∷ v / 2 ^ 8 % 256 ∷ v % 256 ∷ []

-- `binary.BigEndian.PutUint32(data[from:to], v)` and its like: a slice expression may reach up to
-- the capacity, and the write wants room for its bytes.
abbrev pub put_bytes : ℕ → ℕ → List ℕ → M Bytes (Unit {0})
put_bytes from to bs s =
    if leb from to && leb to (length s.array)
    then (if leb (length bs) (to - from)
        then done (record s { array = overwrite s.array from bs }) tt
        else panic index_out_of_range s)
    else panic slice_out_of_range s

-- `data[i] = byte(v)`: an index may reach up to the length.
abbrev pub put_byte : ℕ → ℕ → M Bytes (Unit {0})
put_byte i v s =
    if ltb i s.len
    then done (record s { array = set s.array i (v % 256) }) tt
    else panic index_out_of_range s

abbrev pub write_header : Segment → M Bytes (Unit {0})
write_header seg = do
  put_bytes 0 4 (be_bytes32 seg.conv)
  put_byte 4 seg.cmd
  put_byte 5 seg.frg
  put_bytes 6 8 (be_bytes16 (seg.wnd % 2 ^ 16))
  put_bytes 8 12 (be_bytes32 seg.ts)
  put_bytes 12 16 (be_bytes32 seg.sn)
  put_bytes 16 20 (be_bytes32 seg.una)
  put_bytes 20 24 (be_bytes32 seg.len)

unfoldable pub encode : Segment → Run Bytes (List ℕ)
encode seg = after (write_header seg (make_bytes 0 overhead)) (λ s _. done s (shown s))

-- Encode panics on every segment.
pub encode-Panics : (seg : Segment) → Panics (encode seg)
unfolding encode
encode-Panics seg = tt
