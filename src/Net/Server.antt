-- ===== src/Net/Server.antt =====
-- The servers: net/net.go, net/tcp/tcp.go, net/http/http.go and net/register/register.go. `F` is what
-- makes the session of a connection.
pub mod Accepts
use golang_tools.Base.{
  ℕ, if◌then◌else◌, ◌==◌, Bool, true, false, List, [], ◌∷◌, ◌++◌, Option, none, some,
}
use golang_tools.Base.Int.{ℤ, pos, negsuc}
use golang_tools.Base.Run.{Run, done, panic, after, nil_pointer, nil_call}
use golang_tools.Base.Texts.{Text, text_eq}

-- Tcp. `listener` is none before Run.
pub record Tcp (F : Type 0) : Type 0 where
  pub addr : Text
  pub protocol : Text
  pub listener : Option Bool
  pub new_session_func : Option F

-- Http. `routes` are those of the gin engine, none before SetAddr.
pub record Http (F : Type 0) : Type 0 where
  pub addr : Text
  pub protocol : Text
  pub routes : Option (List Text)
  pub new_session_func : Option F

-- What Accept of the listener returns: a connection, or an error, with a connection that may be nil.
pub data Accepted (C : Type 0) : Type 0 where
  connection : C → Accepted C
  error : Option C → Accepted C

-- How Run of Tcp goes: it returns an error, panics, or waits in Accept; with the connections for which it
-- has made a session and started the goroutines.
pub data Served (C : Type 0) : Type 0 where
  not_listening : Served C
  crashed waiting : List C → Served C

abbrev pub with_served : {C : Type 0} → C → Served C → Served C
with_served c not_listening = not_listening
with_served c (crashed cs) = crashed (c ∷ cs)
with_served c (waiting cs) = waiting (c ∷ cs)

-- The loop of Run on what Accept returns; a nil NewSessionFunc is `none`. For an error the message asks the
-- connection for its address.
unfoldable pub accept_loop : {F C : Type 0} → Option F → List (Accepted C) → Served C
accept_loop f [] = waiting []
accept_loop none (connection c ∷ more) = crashed []
accept_loop (some f) (connection c ∷ more) = with_served c (accept_loop (some f) more)
accept_loop f (error none ∷ more) = crashed []
accept_loop f (error (some c) ∷ more) = accept_loop f more

unfoldable pub run_tcp : {F C : Type 0} → Bool → List (Accepted C) → Tcp F → Tcp F × Served C
run_tcp listens accepts t =
    if listens
    then (record t { listener = some true }, accept_loop t.new_session_func accepts)
    else (record t { listener = none }, not_listening)

-- Stop of Tcp; Stop of Http does nothing.
unfoldable pub stop_tcp : {F : Type 0} → Tcp F → Run (Tcp F) (Unit {0})
stop_tcp t = elim t.listener [
  | none ↦ panic nil_pointer t
  | some still ↦ done (record t { listener = some false }) tt
]

unfoldable pub set_addr_tcp : {F : Type 0} → Text → Text → Option F → Tcp F → Tcp F
set_addr_tcp addr protocol f t = record t { addr = addr; protocol = protocol; new_session_func = f }

unfoldable pub set_addr_http : {F : Type 0} → Text → Text → Option F → Http F → Http F
set_addr_http addr protocol f h = record h {
  addr = addr;
  protocol = protocol;
  new_session_func = f;
  routes = some [];
}

-- `/ws`
abbrev pub ws_route : Text
ws_route = 47 ∷ 119 ∷ 115 ∷ []

-- wsHandler: `upgrade` is what Upgrade returns, none for its error, upon which the answer is NotFound. A
-- connection gets a session and the three goroutines, unless NewSessionFunc is nil.
unfoldable pub ws_handler : {F C : Type 0} → Http F → Option C → List C → Run (List C) Bool
ws_handler h none served = done served false
ws_handler h (some c) served = elim h.new_session_func [
  | none ↦ panic nil_call served
  | some f ↦ done (served ++ (c ∷ [])) true
]

-- Run of Http, up to Run of the engine.
unfoldable pub run_http : {F : Type 0} → Http F → Run (Http F) (Unit {0})
run_http h = elim h.routes [
  | none ↦ panic nil_pointer h
  | some rs ↦ done (record h { routes = some (rs ++ (ws_route ∷ [])) }) tt
]

-- `tcp` and `http`
abbrev pub tcp_name : Text
tcp_name = 116 ∷ 99 ∷ 112 ∷ []

abbrev pub http_name : Text
http_name = 104 ∷ 116 ∷ 116 ∷ 112 ∷ []

-- mapProtol has one Tcp and one Http for the whole process.
pub record Protocols (F : Type 0) : Type 0 where
  pub tcp : Tcp F
  pub http : Http F

-- The pointer that InitServer returns.
pub data Server : Type 0 where
  tcp_server http_server : Server

unfoldable pub init_server :
    {F : Type 0} → Text → Text → Option F → Protocols F → Run (Protocols F) Server
init_server addr protocol f ps =
    if text_eq protocol tcp_name
    then done (record ps { tcp = set_addr_tcp addr protocol f ps.tcp }) tcp_server
    else if text_eq protocol http_name
    then done (record ps { http = set_addr_http addr protocol f ps.http }) http_server
    else panic nil_pointer ps

abbrev pub eq_ℤ : ℤ → ℤ → Bool
eq_ℤ (pos a) (pos b) = a == b
eq_ℤ (pos a) (negsuc b) = false
eq_ℤ (negsuc a) (pos b) = false
eq_ℤ (negsuc a) (negsuc b) = a == b

-- MapIDFunc: the functions act upon `W`.
unfoldable pub register_event :
    {W : Type 0}
    → ℤ
    → (List ℕ → W → W)
    → (ℤ → Option (List ℕ → W → W))
    → ℤ
    → Option (List ℕ → W → W)
register_event event_id call_back m i = if eq_ℤ i event_id then some call_back else m i

unfoldable pub call_event :
    {W : Type 0} → ℤ → List ℕ → (ℤ → Option (List ℕ → W → W)) → W → Run W (Unit {0})
call_event event_id args m w = elim (m event_id) [
  | none ↦ panic nil_call w
  | some call_back ↦ done (call_back args w) tt
]
