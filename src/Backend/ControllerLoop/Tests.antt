-- ===== src/Backend/ControllerLoop/Tests.antt =====
-- A witness of the controller event loop.
use managed_gitops.Base.{◌≡◌, List, [], ◌∷◌, String}
use managed_gitops.Backend.Event.{EventLoopEvent, deployment_modified, deployment_type}
use managed_gitops.Backend.ControllerLoop.{initial, message_of, route_events, event_received}
use managed_gitops.Backend.ControllerLoop.Deliveries.{delivered, routers_for}
use managed_gitops.Backend.ControllerLoop.Sharding.{route_events-shards}

abbrev event_of : String → String → EventLoopEvent
event_of name id = event_received "team" name deployment_type deployment_modified id

route_events-shards_example :
    let evs = event_of "shop" "u1" ∷ event_of "bank" "u2" ∷ event_of "cart" "u1" ∷ [] in
    (delivered "u1" (route_events evs initial)
      ≡ message_of (event_of "shop" "u1") ∷ message_of (event_of "cart" "u1") ∷ [])
    × (routers_for "u1" (route_events evs initial).1 ≡ "team" ∷ [])
unfolding event_received managed_gitops.Base.◌==◌
route_events-shards_example =
    route_events-shards "u1"
      (event_of "shop" "u1" ∷ event_of "bank" "u2" ∷ event_of "cart" "u1" ∷ [])
