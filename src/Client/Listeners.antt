-- ===== src/Client/Listeners.antt =====
-- The local services of the client: the table that NewClient makes (internal/client/client.go), and the
-- listeners that startLocalServices and startLocalService start (forward.go). The table is gone through
-- in one of the orders that Go may take.
use f2p.Prelude.{
  ◌≡◌, refl, Bool, true, false, ◌||◌, List, [], ◌∷◌, ◌++◌, String, str_eq, All, All-append,
  if◌then◌else◌,
}
use f2p.Prelude.Maps.{insert, delete}
use f2p.Config.{Config, LocalServiceConfig}
use f2p.Client.{Client, verified}
use f2p.Client.Connecting.{verify_service_configuration}
use f2p.Client.Services.{server_answers, IsServed, IsGranted, verify_service_configuration-Served}

-- What a listener hands to handleLocalConnForProtocol with each connection.
pub record Listener : Type 0 where
  pub service : LocalServiceConfig
  pub protocol : String

abbrev pub LocalServices : Type 0
LocalServices = List (String × LocalServiceConfig)

unfoldable pub local_services : List LocalServiceConfig → LocalServices → LocalServices
unfolding delete
local_services [] table = table
local_services (s ∷ ss) table = local_services ss (insert str_eq s.name s table)

unfoldable pub start_local_service : LocalServiceConfig → List String → List Listener
start_local_service s [] = []
start_local_service s (p ∷ ps) =
    let rest = start_local_service s ps in
    if str_eq p "tcp" || str_eq p "udp" then record { service = s; protocol = p } ∷ rest else rest

unfoldable pub start_local_services : LocalServices → List Listener
unfolding start_local_service
start_local_services [] = []
start_local_services ((name, s) ∷ table) =
    let rest = start_local_services table in
    if s.enabled then start_local_service s s.protocol ++ rest else rest

module _ (P : LocalServiceConfig → Type 0) where
  abbrev Holds : LocalServices → Type 0
  Holds table = All (λ e. P e.1) table

  if-Holds : (b : Bool) (x y : LocalServices) → Holds x → Holds y → Holds (if b then x else y)
  if-Holds true x y hx hy = hx
  if-Holds false x y hx hy = hy

  delete-Holds :
      (name : String) (table : LocalServices) → Holds table → Holds (delete str_eq name table)
  unfolding delete
  delete-Holds name [] h = tt
  delete-Holds name ((n, s) ∷ table) h =
      if-Holds (str_eq name n) _ _ (delete-Holds name table h.1) (h.0, delete-Holds name table h.1)

  local_services-Holds :
      (ss : List LocalServiceConfig) (table : LocalServices)
      → All P ss
      → Holds table
      → Holds (local_services ss table)
  unfolding local_services
  local_services-Holds [] table h t = t
  local_services-Holds (s ∷ ss) table h t =
      local_services-Holds ss (insert str_eq s.name s table) h.1 (h.0, delete-Holds s.name table t)

module _ (c : Config) (cl : Client) where
  -- The server has granted what the listener's connections will ask for.
  abbrev pub Listens : Listener → Type 0
  Listens l = IsGranted c cl l.service.name l.service.password l.protocol

  if-Listens :
      (b : Bool) (x y : List Listener)
      → (b ≡ true → All Listens x)
      → All Listens y
      → All Listens (if b then x else y)
  if-Listens true x y hx hy = hx refl
  if-Listens false x y hx hy = hy

  service-Listens :
      (s : LocalServiceConfig) (ps : List String)
      → All (IsGranted c cl s.name s.password) ps
      → All Listens (start_local_service s ps)
  unfolding start_local_service
  service-Listens s [] h = tt
  service-Listens s (p ∷ ps) h =
      if-Listens (str_eq p "tcp" || str_eq p "udp") _ _ (λ e. (h.0, service-Listens s ps h.1))
        (service-Listens s ps h.1)

  services-Listens :
      (table : LocalServices)
      → All (λ e. IsServed c cl e.1) table
      → All Listens (start_local_services table)
  unfolding start_local_services
  services-Listens [] h = tt
  services-Listens ((name, s) ∷ table) h =
      let rest = services-Listens table h.1 in
      if-Listens s.enabled _ _
        (λ e.
          All-append Listens (start_local_service s s.protocol) (start_local_services table)
            (service-Listens s s.protocol (h.0 e)) rest)
        rest

-- After a verification that has succeeded, every listener that the client starts forwards to a service
-- that the server has granted for the listener's protocol, and the client has kept the compression that
-- the server uses for it.
pub start_local_services-Listens :
    (c : Config) (ss : List LocalServiceConfig) (cl after : Client)
    → verify_service_configuration (server_answers c) ss cl ≡ verified after
    → All (Listens c after) (start_local_services (local_services ss []))
start_local_services-Listens c ss cl after h = services-Listens c after (local_services ss []) (
    local_services-Holds (IsServed c after) ss []
      (verify_service_configuration-Served c ss cl after h) tt)
