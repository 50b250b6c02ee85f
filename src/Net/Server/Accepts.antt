-- ===== src/Net/Server/Accepts.antt =====
-- Which connections are served, and at which address.
use golang_tools.Base.{
  Option, ◌≡◌, refl, ap, sym, subst, ◌⊎◌, inl, inr, List, [], ◌∷◌, ◌++◌, All, none, some,
}
use golang_tools.Base.Run.{done}
use golang_tools.Base.Texts.{Text}
use golang_tools.Net.Server.{
  Served, Accepted, connection, error, crashed, waiting, with_served, accept_loop, Protocols,
  Server, tcp_server, http_server, tcp_name, http_name, set_addr_tcp, set_addr_http, init_server,
}

module _ {C : Type 0} where
  -- The connections among what Accept returns.
  abbrev pub connections : List (Accepted C) → List C
  connections [] = []
  connections (connection c ∷ more) = c ∷ connections more
  connections (error o ∷ more) = connections more

  -- A panic at the first connection.
  abbrev pub unless_any : List C → Served C
  unless_any [] = waiting []
  unless_any (c ∷ cs) = crashed []

  -- No nil connection.
  abbrev pub IsThere : Accepted C → Type 0
  IsThere (connection c) = Unit
  IsThere (error none) = ⊥
  IsThere (error (some c)) = Unit

  -- With a NewSessionFunc: as long as Accept returns no nil connection, Run of Tcp serves every connection
  -- once, in the order in which they come, and waits for the next; with the first nil connection it panics,
  -- and what comes later is not served. Without one it panics at the first connection, or waits if there is
  -- none.
  pub accept_loop-connections :
      {F : Type 0} (f : F) (accepts later : List (Accepted C))
      → All IsThere accepts
      → (accept_loop (some f) accepts ≡ waiting (connections accepts))
        × (accept_loop (some f) (accepts ++ (error none ∷ later)) ≡ crashed (connections accepts))
        × (accept_loop {F = F} none accepts ≡ unless_any (connections accepts))
  unfolding accept_loop
  accept_loop-connections f [] later h = (refl, refl, refl)
  accept_loop-connections f (connection c ∷ more) later (there, h) =
      let (on, off, without) = accept_loop-connections f more later h in
      (ap (with_served c) on, ap (with_served c) off, refl)
  accept_loop-connections f (error none ∷ more) later (there, h) = absurd there
  accept_loop-connections f (error (some c) ∷ more) later (there, h) =
      accept_loop-connections f more later h

-- The server that InitServer returned, as it is after a call with these arguments.
abbrev pub IsSetUp : {F : Type 0} → Server → Text → Text → Option F → Protocols F → Type 0
IsSetUp tcp_server addr protocol f ps =
    (ps.tcp.addr ≡ addr) × (ps.tcp.protocol ≡ protocol) × (ps.tcp.new_session_func ≡ f)
IsSetUp http_server addr protocol f ps =
    (ps.http.addr ≡ addr)
    × (ps.http.protocol ≡ protocol)
    × (ps.http.new_session_func ≡ f)
    × (ps.http.routes ≡ some [])

module _ {F : Type 0} where
  -- What two calls of InitServer with one protocol leave.
  abbrev pub IsShared : Text → Text → Text → Option F → Option F → Protocols F → Type 0
  IsShared addr addr' protocol f g ps =
      (qs : Protocols F) × (rs : Protocols F) × (s : Server) × (init_server addr protocol f ps
        ≡ done qs s)
      × IsSetUp s addr protocol f qs
      × (init_server addr' protocol g qs ≡ done rs s)
      × IsSetUp s addr' protocol g rs

  -- Two servers of one protocol are one: a second call of InitServer with the same protocol returns the server
  -- that the first call returned, and that one has the address, the protocol and the function for sessions of
  -- the second call then, and for http an engine without routes.
  pub init_server-IsShared :
      (addr addr' protocol : Text) (f g : Option F) (ps : Protocols F)
      → ((protocol ≡ tcp_name) ⊎ (protocol ≡ http_name))
      → IsShared addr addr' protocol f g ps
  unfolding init_server set_addr_tcp set_addr_http
  init_server-IsShared addr addr' protocol f g ps (inl e) =
      subst (λ p. IsShared addr addr' p f g ps) (sym e)
        (_, _, tcp_server, refl, (refl, refl, refl), refl, (refl, refl, refl))
  init_server-IsShared addr addr' protocol f g ps (inr e) =
      subst (λ p. IsShared addr addr' p f g ps) (sym e)
        (_, _, http_server, refl, (refl, refl, refl, refl), refl, (refl, refl, refl, refl))
