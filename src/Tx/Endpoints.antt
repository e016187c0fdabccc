-- ===== src/Tx/Endpoints.antt =====
-- The endpoints of a client with their health, internal/tx/endpoint.go.
use pour.Prelude.{Bool, true, List, [], ◌∷◌, Option, none, some, str_eq, if◌then◌else◌, String}

pub record EndpointEntry : Type 0 where
  pub url : String
  pub healthy : Bool

abbrev pub EndpointPool : Type 0
EndpointPool = List EndpointEntry

unfoldable pub new_endpoint_pool : List String → EndpointPool
new_endpoint_pool [] = []
new_endpoint_pool (u ∷ urls) = record { url = u; healthy = true } ∷ new_endpoint_pool urls

-- `Next`
unfoldable pub next : EndpointPool → Option String
next [] = none
next (e ∷ p) = if e.healthy then some e.url else next p

-- `MarkUnhealthy` and `MarkHealthy`: the first endpoint with that URL.
unfoldable pub set_health : Bool → String → EndpointPool → EndpointPool
set_health h url [] = []
set_health h url (e ∷ p) =
    if str_eq e.url url then record e { healthy = h } ∷ p else e ∷ set_health h url p

-- `Unhealthy`
unfoldable pub unhealthy : EndpointPool → List String
unhealthy [] = []
unhealthy (e ∷ p) = if e.healthy then unhealthy p else e.url ∷ unhealthy p
