-- ===== src/Kcp/Transfer.antt =====
-- A segment as a datagram, and an iteration of Input's loop in kcp/kcp.go over it.
pub mod Answer
pub mod Data
use golang_tools.Base.{
  ℕ, zero, suc, ◌+◌, ◌*◌, ◌%◌, ◌^◌, ◌≤◌, ◌<◌, ◌≡◌, refl, sym, subst, ap, ◌∙◌, arith, ltb, leb, ◌==◌,
  if◌then◌else◌, Bool, true, false, not, ◌||◌, List, [], ◌∷◌, ◌++◌, length, drop, drop_all,
  length-append, le→ltb, lt→ltb, le→leb, ltb→lt, ltb→le, Bool-cases, inl, inr, if-elim,
}
use golang_tools.Base.Int.{negsuc}
use golang_tools.Base.Word.{IsU32, add32}
use golang_tools.Base.Run.{Run, done, after}
use golang_tools.Base.Slice.{of_list, shown}
use golang_tools.Kcp.Define.{Segment, zero_segment, Kcp, overhead, cmd_push}
use golang_tools.Kcp.Parse.{parse_una, una_loop, shrink_buf, parse_data, ack_push}
use golang_tools.Kcp.Parse.Ack.{noted, ack_push_lem}
use golang_tools.Kcp.Parse.Receive.{delivered, parse_data-next}
use golang_tools.Kcp.Input.{
  be32_at, read_header, is_command, Acks, on_push, on_segment, Turn, returns, goes_on, input_round,
}
use golang_tools.Kcp.Input.Header.{layout, Fits, travels, read_header-layout}

-- A segment as it travels: its header, and its bytes behind it.
abbrev pub datagram : Segment → List ℕ
datagram s = layout s ++ s.bytes

rest_lem : (s : Segment) → drop overhead (datagram s) ≡ s.bytes
rest_lem s = refl

conv_read : (s : Segment) → Fits s → be32_at (datagram s) 0 ≡ s.conv
conv_read s f = let c = f.conv_fits in omega arith

-- The iteration passes a well-formed segment on, and takes all of it from the datagram.
pub round-on_segment :
    (s : Segment) (a : Acks) (k : Kcp)
    → Fits s
    → s.conv ≡ k.conv
    → is_command s.cmd ≡ true
    → s.len ≡ length s.bytes
    → input_round (length (datagram s)) (datagram s) a k
      ≡ after
          (on_segment (travels s) s.bytes a k)
          (λ l a'. done l (goes_on (drop s.len s.bytes) a'))
unfolding input_round
round-on_segment s a k f conv commands len =
    if-elim P (ltb (length (datagram s)) overhead) _ _
      (λ e. absurd (omega (arith, ltb→lt (length (datagram s)) overhead e)))
      λ _.
        if-elim P (ltb (length (datagram s)) 4) _ _
          (λ e. absurd (omega (arith, ltb→lt (length (datagram s)) 4 e)))
          λ _.
            if-elim P (not (be32_at (datagram s) 0 == k.conv)) _ _ (λ e. absurd (cc (e, same_conv)))
              λ _.
                if-elim P (ltb (length (datagram s)) overhead) _ _
                  (λ e. absurd (omega (arith, ltb→lt (length (datagram s)) overhead e)))
                  λ _.
                    subst
                      (λ seg. P (
                        if ltb (length s.bytes) seg.len
                        then done k (returns (negsuc 1))
                        else if not (is_command seg.cmd)
                        then done k (returns (negsuc 2))
                        else after (on_segment seg s.bytes a k)
                            (λ l a'. done l (goes_on (drop seg.len s.bytes) a'))))
                      (sym (read_header-layout s s.bytes f))
                      (if-elim P (ltb (length s.bytes) s.len) _ _
                        (λ e. absurd (omega (arith, len, ltb→lt (length s.bytes) s.len e)))
                        λ _.
                          if-elim P (not (is_command s.cmd)) _ _ (λ e. absurd (cc (e, commands)))
                            λ _. refl)
  where
    P : Run Kcp Turn → Type 0
    P r =
        r
        ≡ after (on_segment (travels s) s.bytes a k)
            (λ l a'. done l (goes_on (drop s.len s.bytes) a'))

    same_conv : (be32_at (datagram s) 0 == k.conv) ≡ true
    same_conv = ground (arith, conv_read s f)
