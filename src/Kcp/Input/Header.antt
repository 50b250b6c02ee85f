-- ===== src/Kcp/Input/Header.antt =====
-- The header that Input reads, against the layout in kcp/README_CN.md.
use golang_tools.Base.{ℕ, ◌+◌, ◌*◌, ◌/◌, ◌%◌, ◌^◌, ◌<◌, ◌≡◌, arith, List, ◌∷◌, ◌++◌}
use golang_tools.Base.Word.{IsU32}
use golang_tools.Kcp.Define.{Segment, zero_segment}
use golang_tools.Kcp.Seg.{be_bytes16, be_bytes32}
use golang_tools.Kcp.Input.{read_header}

-- conv, cmd, frg, wnd, ts, sn, una, len, the highest byte of each first.
abbrev pub layout : Segment → List ℕ
layout s =
    be_bytes32 s.conv
    ++ (s.cmd
        ∷ s.frg
        ∷ (be_bytes16 s.wnd
            ++ (be_bytes32 s.ts ++ (be_bytes32 s.sn ++ (be_bytes32 s.una ++ be_bytes32 s.len)))))

-- The fields fit their places.
pub record Fits (s : Segment) : Type 0 where
  pub conv_fits : IsU32 s.conv
  pub cmd_fits : s.cmd < 256
  pub frg_fits : s.frg < 256
  pub wnd_fits : s.wnd < 2 ^ 16
  pub ts_fits : IsU32 s.ts
  pub sn_fits : IsU32 s.sn
  pub una_fits : IsU32 s.una
  pub len_fits : IsU32 s.len

-- The fields that travel; the others are those of a fresh segment.
abbrev pub travels : Segment → Segment
travels s = record zero_segment {
  conv = s.conv;
  cmd = s.cmd;
  frg = s.frg;
  wnd = s.wnd;
  ts = s.ts;
  sn = s.sn;
  una = s.una;
  len = s.len;
}

word16 : (v : ℕ) → v < 2 ^ 16 → v / 2 ^ 8 % 256 * 256 + v % 256 ≡ v
word16 v h = omega arith

word32 :
    (v : ℕ)
    → IsU32 v
    → (v / 2 ^ 24 % 256 * 256 + v / 2 ^ 16 % 256) * 65536 + (v / 2 ^ 8 % 256 * 256 + v % 256) ≡ v
word32 v h = omega arith

-- From a header with this layout, of a segment whose fields fit their places, Input reads back every
-- field that travels, whatever follows the header.
pub read_header-layout :
    (s : Segment) (rest : List ℕ) → Fits s → read_header (layout s ++ rest) ≡ travels s
unfolding read_header
read_header-layout s rest f = rw (
  word32 s.conv f.conv_fits,
  word16 s.wnd f.wnd_fits,
  word32 s.ts f.ts_fits,
  word32 s.sn f.sn_fits,
  word32 s.una f.una_fits,
  word32 s.len f.len_fits,
)
