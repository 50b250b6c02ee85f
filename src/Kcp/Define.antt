-- ===== src/Kcp/Define.antt =====
-- kcp/define.go, and CreateIKCP of kcp/kcp.go: the constants, the segment and the connection.
use golang_tools.Base.{ℕ, ◌-◌, List, [], Bool, false}
use golang_tools.Base.Int.{ℤ, pos}

-- IKCP_RTO_NDL, IKCP_RTO_MIN, IKCP_RTO_DEF, IKCP_RTO_MAX
abbrev pub rto_ndl : ℕ
rto_ndl = 30

abbrev pub rto_min : ℕ
rto_min = 100

abbrev pub rto_def : ℕ
rto_def = 200

abbrev pub rto_max : ℕ
rto_max = 60000

-- IKCP_CMD_PUSH, IKCP_CMD_ACK, IKCP_CMD_WASK, IKCP_CMD_WINS
abbrev pub cmd_push : ℕ
cmd_push = 81

abbrev pub cmd_ack : ℕ
cmd_ack = 82

abbrev pub cmd_wask : ℕ
cmd_wask = 83

abbrev pub cmd_wins : ℕ
cmd_wins = 84

-- IKCP_ASK_SEND, IKCP_ASK_TELL
abbrev pub ask_send : ℕ
ask_send = 1

abbrev pub ask_tell : ℕ
ask_tell = 2

-- IKCP_WND_SND, IKCP_WND_RCV, IKCP_MTU_DEF, IKCP_INTERVAL, IKCP_OVERHEAD, IKCP_DEADLINK
abbrev pub wnd_snd : ℕ
wnd_snd = 32

abbrev pub wnd_rcv : ℕ
wnd_rcv = 128

abbrev pub mtu_def : ℕ
mtu_def = 1400

abbrev pub interval_def : ℕ
interval_def = 100

abbrev pub overhead : ℕ
overhead = 24

abbrev pub dead_link_def : ℕ
dead_link_def = 20

-- IKCP_THRESH_INIT, IKCP_THRESH_MIN, IKCP_PROBE_INIT, IKCP_PROBE_LIMIT, IKCP_FASTACK_LIMIT
abbrev pub thresh_init : ℕ
thresh_init = 2

abbrev pub thresh_min : ℕ
thresh_min = 2

abbrev pub probe_init : ℕ
probe_init = 7000

abbrev pub probe_limit : ℕ
probe_limit = 120000

abbrev pub fastack_limit : ℕ
fastack_limit = 5

-- IKCPSEG. Every field but the data is a uint32.
pub record Segment : Type 0 where
  pub conv : ℕ
  pub cmd : ℕ
  pub frg : ℕ
  pub wnd : ℕ
  pub ts : ℕ
  pub sn : ℕ
  pub una : ℕ
  pub len : ℕ
  pub resend_ts : ℕ
  pub rto : ℕ
  pub fast_ack : ℕ
  pub xmit : ℕ
  pub bytes : List ℕ

-- `IKCPSEG{}`
abbrev pub zero_segment : Segment
zero_segment = record {
  conv = 0;
  cmd = 0;
  frg = 0;
  wnd = 0;
  ts = 0;
  sn = 0;
  una = 0;
  len = 0;
  resend_ts = 0;
  rto = 0;
  fast_ack = 0;
  xmit = 0;
  bytes = [];
}

-- IKCPCB. A ℕ is a uint32, a ℤ an int32 or an int. `output_set` says whether the callback Output
-- is not nil; what Flush hands to it is recorded by the model of Flush. The opaque pointer User,
-- the scratch space Buffer and the log mask play no part in the code and are left out.
pub record Kcp : Type 0 where
  pub conv : ℕ
  pub mtu : ℕ
  pub mss : ℕ
  pub state : ℤ
  pub snd_una : ℕ
  pub snd_nxt : ℕ
  pub rcv_nxt : ℕ
  pub ts_recent : ℕ
  pub ts_lastack : ℕ
  pub ssthresh : ℕ
  pub rx_rttval : ℤ
  pub rx_srtt : ℤ
  pub rx_rto : ℤ
  pub rx_minrto : ℤ
  pub snd_wnd : ℕ
  pub rcv_wnd : ℕ
  pub rmt_wnd : ℕ
  pub cwnd : ℕ
  pub probe : ℕ
  pub current : ℕ
  pub interval : ℕ
  pub ts_flush : ℕ
  pub xmit : ℕ
  pub nrcv_buf : ℕ
  pub nsnd_buf : ℕ
  pub nrcv_que : ℕ
  pub nsnd_que : ℕ
  pub nodelay : ℕ
  pub updated : ℕ
  pub ts_probe : ℕ
  pub probe_wait : ℕ
  pub dead_link : ℕ
  pub incr : ℕ
  pub snd_queue : List Segment
  pub rcv_queue : List Segment
  pub snd_buf : List Segment
  pub rcv_buf : List Segment
  pub ack_list : List ℕ
  pub ack_count : ℕ
  pub ack_block : ℕ
  pub fast_resend : ℤ
  pub fast_limit : ℤ
  pub nocwnd : ℤ
  pub stream : ℤ
  pub output_set : Bool

-- CreateIKCP: the fields that the literal does not name are zero.
unfoldable pub create : ℕ → Kcp
create conv = record {
  conv = conv;
  mtu = mtu_def;
  mss = mtu_def - overhead;
  state = pos 0;
  snd_una = 0;
  snd_nxt = 0;
  rcv_nxt = 0;
  ts_recent = 0;
  ts_lastack = 0;
  ssthresh = thresh_init;
  rx_rttval = pos 0;
  rx_srtt = pos 0;
  rx_rto = pos rto_def;
  rx_minrto = pos rto_min;
  snd_wnd = wnd_snd;
  rcv_wnd = wnd_rcv;
  rmt_wnd = wnd_rcv;
  cwnd = 0;
  probe = 0;
  current = 0;
  interval = interval_def;
  ts_flush = interval_def;
  xmit = 0;
  nrcv_buf = 0;
  nsnd_buf = 0;
  nrcv_que = 0;
  nsnd_que = 0;
  nodelay = 0;
  updated = 0;
  ts_probe = 0;
  probe_wait = 0;
  dead_link = dead_link_def;
  incr = 0;
  snd_queue = [];
  rcv_queue = [];
  snd_buf = [];
  rcv_buf = [];
  ack_list = [];
  ack_count = 0;
  ack_block = 0;
  fast_resend = pos 0;
  fast_limit = pos fastack_limit;
  nocwnd = pos 0;
  stream = pos 0;
  output_set = false;
}

-- SetOutput, with a callback that is not nil or with nil.
unfoldable pub set_output : Bool → Kcp → Kcp
set_output given k = record k { output_set = given }
