-- ===== src/Kcp/Due.antt =====
-- Flush of kcp/kcp.go, the body of its last loop: which buffered segments are due to be sent.
use golang_tools.Base.{ℕ, ◌/◌, ltb, leb, ◌==◌, if◌then◌else◌, Bool, true, false, ◌&&◌, ◌||◌, not}
use golang_tools.Base.Int.{ℤ, pos, negsuc, ltb_ℤ}
use golang_tools.Base.Word.{add32, to_u32, signed32}
use golang_tools.Compare.{max_uint32}
use golang_tools.Kcp.Define.{Segment, Kcp}

-- The variables resent, rtomin, bLost and change.
pub record Plan : Type 0 where
  pub resent : ℤ
  pub rtomin : ℤ
  pub lost : Bool
  pub change : Bool

-- `int(kcp.Rx_rto) >> 3`
abbrev pub eighth : ℤ → ℤ
eighth (pos n) = pos (n / 8)
eighth (negsuc n) = negsuc (n / 8)

abbrev pub new_plan : Kcp → Plan
new_plan k = record {
  resent = (if ltb_ℤ (pos 0) k.fast_resend then k.fast_resend else pos 0xffff_ffff);
  rtomin = (if k.nodelay == 0 then eighth k.rx_rto else pos 0);
  lost = false;
  change = false;
}

-- Rto of a segment whose time has run out.
unfoldable pub backoff : Kcp → ℕ → ℕ
backoff k rto =
    if k.nodelay == 0
    then add32 rto (max_uint32 rto (to_u32 k.rx_rto))
    else add32 rto (to_u32 (if ltb k.nodelay 2 then signed32 rto else k.rx_rto) / 2)

-- What happens to the copy of one buffered segment, and whether it is to be sent.
pub record Verdict : Type 0 where
  pub need_send : Bool
  pub seg : Segment
  pub plan : Plan
  pub timeouts : ℕ

unfoldable pub judge : Kcp → Plan → Segment → Verdict
judge k p seg =
    if seg.xmit == 0
    then record {
      need_send = true;
      seg = record seg {
        xmit = add32 seg.xmit 1;
        rto = to_u32 k.rx_rto;
        resend_ts = add32 (add32 k.current (to_u32 k.rx_rto)) (to_u32 p.rtomin);
      };
      plan = p;
      timeouts = 0;
    }
    else if leb seg.resend_ts k.current
    then record {
      need_send = true;
      seg = record seg {
        xmit = add32 seg.xmit 1;
        rto = backoff k seg.rto;
        resend_ts = add32 k.current (backoff k seg.rto);
      };
      plan = record p { lost = true };
      timeouts = 1;
    }
    else if not (ltb_ℤ (pos seg.fast_ack) p.resent)
        && (leb seg.xmit (to_u32 k.fast_limit) || not (ltb_ℤ (pos 0) k.fast_limit))
    then record {
      need_send = true;
      seg = record seg {
        xmit = add32 seg.xmit 1;
        fast_ack = 0;
        resend_ts = add32 k.current seg.rto;
      };
      plan = record p { change = true };
      timeouts = 0;
    }
    else record { need_send = false; seg = seg; plan = p; timeouts = 0 }
