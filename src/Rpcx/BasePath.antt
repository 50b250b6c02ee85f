-- ===== src/Rpcx/BasePath.antt =====
-- Under which path clients look for services.
use golang_tools.Base.{ℕ, ◌≡◌, refl, ap, List, [], ◌∷◌, ◌++◌}
use golang_tools.Base.Texts.{Text}
use golang_tools.Rpcx.{changed_path, ClientManager, new_client}

-- The arguments of New, one call after the other, and the clients that they make.
abbrev pub Request : Type 0
Request = Text × (ℕ × Text)

abbrev pub new_clients : List Request → Text → List ClientManager
new_clients [] base = []
new_clients ((name, (timeout, path)) ∷ calls) base =
    let (base', c) = new_client name timeout path base in c ∷ new_clients calls base'

-- The last path of a list of calls that is not empty, or else the given one.
abbrev pub last_path : List Request → Text → Text
last_path [] base = base
last_path ((name, (timeout, path)) ∷ calls) base = last_path calls (changed_path path base)

new_clients-append :
    (calls more : List Request) (base : Text)
    → new_clients (calls ++ more) base
      ≡ new_clients calls base ++ new_clients more (last_path calls base)
unfolding new_client
new_clients-append [] more base = refl
new_clients-append ((name, (timeout, path)) ∷ calls) more base =
    ap
      (◌∷◌ (record {
        call_timeout = timeout;
        discovery_path = changed_path path base;
        service = name;
      }))
      (new_clients-append calls more (changed_path path base))

-- A client that is made with no path looks for its service under the path of the last call of New that
-- gave one, for whatever service that was, and under the default path only if there was none.
pub new_clients-last_path :
    (calls : List Request) (name : Text) (timeout : ℕ) (base : Text)
    → new_clients (calls ++ ((name, (timeout, [])) ∷ [])) base
      ≡ new_clients calls base
        ++ (record { call_timeout = timeout; discovery_path = last_path calls base; service = name }
            ∷ [])
unfolding new_client
new_clients-last_path calls name timeout base =
    new_clients-append calls ((name, (timeout, [])) ∷ []) base
