-- ===== src/Backend/ControllerLoop/Deliveries.antt =====
-- What the routers of the workspaces are sent, and what they should be: controller_event_loop.go.
use managed_gitops.Base.{
  ℕ, ◌≡◌, refl, none, some, List, [], ◌∷◌, ◌++◌, String, ◌==◌, eqb, if◌then◌else◌, inl, inr,
  Bool-cases,
}
use managed_gitops.Base.Map.{lookup}
use managed_gitops.Backend.Event.{EventLoopEvent}
use managed_gitops.Backend.WorkspaceLoop.{LoopMessage}
use managed_gitops.Backend.ControllerLoop.{State, Effect, start_router, send_message, message_of}

-- The specification: a workspace gets the messages of its own events, in their order.
abbrev pub messages_for : String → List EventLoopEvent → List LoopMessage
messages_for id [] = []
messages_for id (ev ∷ evs) =
    if ev.workspace_id == id then message_of ev ∷ messages_for id evs else messages_for id evs

-- What is sent to a channel.
abbrev pub sent_to : ℕ → List Effect → List LoopMessage
sent_to c [] = []
sent_to c (start_router namespace id d ∷ es) = sent_to c es
sent_to c (send_message d m ∷ es) = if eqb d c then m ∷ sent_to c es else sent_to c es

-- What the router of a workspace is sent; nothing, if there is none.
abbrev pub delivered : String → State × List Effect → List LoopMessage
delivered id (s, es) = elim (lookup id s.workspace_entries) [
  | none ↦ []
  | some entry ↦ sent_to entry.workspace_event_loop es
]

-- The routers that were started for a workspace, by the name of its namespace.
abbrev pub routers_for : String → List Effect → List String
routers_for id [] = []
routers_for id (start_router namespace i c ∷ es) =
    if i == id then namespace ∷ routers_for id es else routers_for id es
routers_for id (send_message c m ∷ es) = routers_for id es

-- The namespace of the first event of a workspace.
abbrev pub first_namespace : String → List EventLoopEvent → List String
first_namespace id [] = []
first_namespace id (ev ∷ evs) =
    if ev.workspace_id == id then ev.namespace ∷ [] else first_namespace id evs

pub sent_to_append :
    (c : ℕ) (es fs : List Effect) → sent_to c (es ++ fs) ≡ sent_to c es ++ sent_to c fs
sent_to_append c [] fs = refl
sent_to_append c (start_router n i d ∷ es) fs = sent_to_append c es fs
sent_to_append c (send_message d m ∷ es) fs = elim (Bool-cases (eqb d c)) [
  | inl e ↦ rw (e, sent_to_append c es fs) refl
  | inr e ↦ rw (e, sent_to_append c es fs) refl
]

pub routers_for_append :
    (id : String) (es fs : List Effect)
    → routers_for id (es ++ fs) ≡ routers_for id es ++ routers_for id fs
routers_for_append id [] fs = refl
routers_for_append id (start_router n i d ∷ es) fs = elim (Bool-cases (i == id)) [
  | inl e ↦ rw (e, routers_for_append id es fs) refl
  | inr e ↦ rw (e, routers_for_append id es fs) refl
]
routers_for_append id (send_message d m ∷ es) fs = routers_for_append id es fs
