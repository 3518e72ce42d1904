-- ===== src/Backend/ControllerLoop.antt =====
-- backend/eventloop/preprocess_event_loop/preprocess_event_loop.go and
-- backend/eventloop/controller_event_loop.go: how an event gets to the loop of its workspace.
mod Deliveries
mod Rounds
pub mod Sharding
mod Tests
use managed_gitops.Base.{ℕ, suc, Bool, Option, none, some, List, [], ◌∷◌, ◌++◌, String}
use managed_gitops.Base.Map.{Map, lookup, insert}
use managed_gitops.Backend.Event.{
  EventLoopEvent, EventLoopEventType, GitOpsResourceType, event_message,
}
use managed_gitops.Backend.WorkspaceLoop.{LoopMessage}

-- The event that EventReceived of the preprocess loop sends to its channel.
unfoldable pub event_received :
    String → String → GitOpsResourceType → EventLoopEventType → String → EventLoopEvent
event_received namespace name resource type namespace_id = record {
  event_type = type;
  namespace = namespace;
  name = name;
  req_resource = resource;
  workspace_id = namespace_id;
}

-- emitEvent: what it sends to the controller event loop, unless the pointer to it is nil.
unfoldable pub emit_event :
    EventLoopEvent → Option (List EventLoopEvent) → Option (List EventLoopEvent)
emit_event ev none = none
emit_event ev (some channel) = some (channel ++ (ev ∷ []))

-- controllerEventLoop_workspaceEntry: the channel of the router stands for it.
pub record WorkspaceEntry : Type 0 where
  pub workspace_id : String
  pub workspace_event_loop : ℕ

-- The local variables of controllerEventLoopRouter, and the next new channel.
pub record State : Type 0 where
  pub workspace_entries : Map WorkspaceEntry
  pub next : ℕ

unfoldable pub initial : State
initial = record { workspace_entries = []; next = 0 }

pub data Effect : Type 0 where
  -- startWorkspaceEventLoopRouter(namespaceName, namespaceID), and its channel
  start_router : String → String → ℕ → Effect
  send_message : ℕ → LoopMessage → Effect

abbrev pub message_of : EventLoopEvent → LoopMessage
message_of ev = record { message_type = event_message; event = some ev }

abbrev pub new_entry : EventLoopEvent → State → WorkspaceEntry
new_entry ev s = record { workspace_id = ev.workspace_id; workspace_event_loop = s.next }

-- One round of controllerEventLoopRouter.
unfoldable pub route_event : EventLoopEvent → State → State × List Effect
route_event ev s = elim (lookup ev.workspace_id s.workspace_entries) [
  | some entry ↦ (s, send_message entry.workspace_event_loop (message_of ev) ∷ [])
  | none ↦ (
    record {
      workspace_entries = insert ev.workspace_id (new_entry ev s) s.workspace_entries;
      next = suc s.next;
    },
    start_router ev.namespace ev.workspace_id s.next ∷ send_message s.next (message_of ev) ∷ [],
  )
]

-- The rounds for a list of events.
unfoldable pub route_events : List EventLoopEvent → State → State × List Effect
unfolding route_event
route_events [] s = (s, [])
route_events (ev ∷ evs) s =
    let (t, e) = route_event ev s in let (u, f) = route_events evs t in (u, e ++ f)
