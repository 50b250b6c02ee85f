-- ===== src/Rpcx.antt =====
-- The packages rpcx/client and rpcx/service, over the packages rpcx and rpcx-etcd. Each of the two
-- packages has a variable basePath of its own.
pub mod BasePath
use golang_tools.Base.{
  ℕ, ◌+◌, ◌*◌, ltb, if◌then◌else◌, Bool, true, false, List, [], ◌∷◌, ◌++◌, Option, none, some,
}
use golang_tools.Base.Texts.{Text}

-- `/zhangbin/rpcx`
abbrev pub default_path : Text
default_path = 47 ∷ 122 ∷ 104 ∷ 97 ∷ 110 ∷ 103 ∷ 98 ∷ 105 ∷ 110 ∷ 47 ∷ 114 ∷ 112 ∷ 99 ∷ 120 ∷ []

-- `if etcdBasePath != "" { basePath = etcdBasePath }`
abbrev pub changed_path : Text → Text → Text
changed_path [] base = base
changed_path (c ∷ cs) base = c ∷ cs

-- ClientManager: the client of the package rpcx is made of the path of the discovery and the name.
pub record ClientManager : Type 0 where
  pub call_timeout : ℕ
  pub discovery_path : Text
  pub service : Text

-- New of the client. The state is basePath.
unfoldable pub new_client : Text → ℕ → Text → Text → Text × ClientManager
new_client service_name call_timeout etcd_base_path base =
    let base' = changed_path etcd_base_path base in
    (base', record { call_timeout = call_timeout; discovery_path = base'; service = service_name })

abbrev earlier : ℕ → ℕ → ℕ
earlier a b = if ltb b a then b else a

-- Call: the deadline is the earlier one of the context's and the timeout's; `call` is that of the package.
unfoldable pub call_client :
    {W : Type 0}
    → (ClientManager → Option ℕ → Text → W → W × Option ℕ)
    → ClientManager
    → ℕ
    → Option ℕ
    → Text
    → W
    → W × Option ℕ
call_client call c now deadline method w =
    call c
      (some
        (elim deadline [ none ↦ now + c.call_timeout | some d ↦ earlier d (now + c.call_timeout) ]))
      method w

-- `tcp@`
abbrev pub service_address : Text → Text
service_address addr = 116 ∷ 99 ∷ 112 ∷ 64 ∷ addr

-- EtcdV3RegisterPlugin, as far as it is set; the interval is in nanoseconds.
pub record Plugin : Type 0 where
  pub service_address : Text
  pub etcd_servers : List Text
  pub base_path : Text
  pub update_interval : ℕ

-- The server of the package rpcx: its plugins, and the names of its services.
pub record Server : Type 0 where
  pub plugins : List Plugin
  pub names : List Text

pub record ServerManage : Type 0 where
  pub addr : Text
  pub listen_addr : Text
  pub service_handler : Server

-- RegisterPlugin, with the value of basePath: `start` is Start of the plugin, `none` is no error.
unfoldable pub register_plugin :
    (Plugin → Option ℕ) → Text → Server → Text → List Text → Server × Option ℕ
register_plugin start base s addr etcd_addr =
    let r : Plugin = record {
      service_address = service_address addr;
      etcd_servers = etcd_addr;
      base_path = base;
      update_interval = 60 * 1_000_000_000;
    } in
    elim (start r) [
      | some e ↦ (s, some e)
      | none ↦ (record s { plugins = s.plugins ++ (r ∷ []) }, none)
    ]

-- New of the service. The state is basePath.
unfoldable pub new_server :
    (Plugin → Option ℕ)
    → Text
    → List Text
    → Text
    → Text
    → Text
    → Text × (Option ServerManage × Option ℕ)
new_server start addr etcd_addr etcd_base_path listen_addr base =
    let base' = changed_path etcd_base_path base in
    let (s, err) =
      register_plugin start base' (record { plugins = []; names = [] }) addr etcd_addr in
    elim err [
      | some e ↦ (base', (none, some e))
      | none ↦ (
        base',
        (some (record { addr = addr; listen_addr = listen_addr; service_handler = s }), none),
      )
    ]

-- RegisterOneService: a nil ServerManage is let pass.
unfoldable pub register_one_service :
    (Text → Option ℕ) → Text → Option ServerManage → Option ServerManage × Option ℕ
register_one_service register name none = (none, none)
register_one_service register name (some s) = elim (register name) [
  | none ↦ (
    some (record s {
      service_handler = record (s.service_handler) {
        names = s.service_handler.names ++ (name ∷ []);
      };
    }),
    none,
  )
  | some e ↦ (some s, some e)
]

-- Run and Stop: `serve` and `shutdown` are Serve and Shutdown of the package. Shutdown has five seconds, and
-- its error is dropped.
unfoldable pub run_server :
    {W : Type 0} → (Server → Text → W → W × Option ℕ) → ServerManage → W → W × Option ℕ
run_server serve s w = serve s.service_handler s.listen_addr w

unfoldable pub stop_server :
    {W : Type 0} → (Server → ℕ → W → W × Option ℕ) → ℕ → ServerManage → W → W
stop_server shutdown now s w = (shutdown s.service_handler (now + 5 * 1_000_000_000) w).0
