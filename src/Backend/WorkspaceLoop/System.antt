-- ===== src/Backend/WorkspaceLoop/System.antt =====
-- The workspace event loop among the application event loops that it has started:
-- workspace_event_loop.go and application_event_loop.go.
use managed_gitops.Base.{ℕ, ◌≡◌, Bool, false, none, some, List, [], String}
use managed_gitops.Backend.AppLoop
use managed_gitops.Backend.AppLoop.{RequestMessage, Effect, panics, returns, process}
use managed_gitops.Backend.AppLoop.Ending.{Stays, process-Stays}
use managed_gitops.Backend.AppLoop.Sound
use managed_gitops.Backend.AppLoop.Sound.{IsSound, Good, process-IsSound}
use managed_gitops.Base.Map.{lookup}
use managed_gitops.Backend.WorkspaceLoop.{
  WorkspaceMessage, Answers, World, Sent, done, set_loop, ended,
}
use managed_gitops.Backend.WorkspaceLoop.Handler.{process_message}
use managed_gitops.Backend.WorkspaceLoop.Live.{IsLive, kept-IsLive}
use managed_gitops.Backend.WorkspaceLoop.Live.Proceeds.{
  Proceeds, HasPayload, process_message-Proceeds,
}

-- The workspace event loop handles a message from its channel, or an application event loop handles
-- one that nobody waits for: of its timer, of one of its runners, about a managed environment.
pub data Step (w : World) : World → Type 0 where
  handles :
      (a : Answers) (msg : WorkspaceMessage) (sent : List Sent) {v : World}
      → HasPayload msg
      → process_message a msg w ≡ done v sent
      → Step w v
  works :
      (c : ℕ) (m : RequestMessage) (s t : AppLoop.State) (stop : Bool) (effects : List Effect)
      → w.loops c ≡ some s
      → m.response_chan ≡ none
      → Sound.Answers m.message_type m.event s
      → process m s ≡ returns stop t effects
      → Step w (record w { loops = set_loop c (ended stop t) w.loops })

abbrev pub start : String → World
start id = record {
  orphaned_resources = [];
  application_map = [];
  loops = λ c. none;
  next = 0;
  namespace_id = id;
}

pub data Reach (id : String) : World → Type 0 where
  begin : Reach id (start id)
  next : {v w : World} → Reach id v → Step v w → Reach id w

worked :
    (o : AppLoop.Outcome) {stop : Bool} {t : AppLoop.State} {effects : List Effect}
    → o ≡ returns stop t effects
    → Good o
    → Stays o
    → (stop ≡ false) × IsSound t
worked o e g h = let g' = rw e at g in let h' = rw e at h in (h', g')

Step-IsLive : {v w : World} → Step v w → IsLive v → IsLive w
Step-IsLive (handles a msg sent p e) i = rw e at (process_message-Proceeds a msg _ i p)
Step-IsLive {v} (works c m s t stop effects f n a e) i =
    let (k, g) =
      worked (process m s) e (process-IsSound m s (i.sound c s f) a) (process-Stays m s n) in
    rw k (kept-IsLive v c s t i f g)

pub Reach-IsLive : {id : String} {w : World} → Reach id w → IsLive w
unfolding lookup
Reach-IsLive begin = record {
  live = λ k c h. absurd (cc h);
  sound = λ c s h. absurd (cc h);
  own = λ j k c h. absurd (cc h);
  started = λ k c h. absurd (cc h);
  keys = tt;
}
Reach-IsLive (next r st) = Step-IsLive st (Reach-IsLive r)

-- In every state that the workspace event loop can reach, whatever its application event loops have
-- done in the meantime, it gets past the next message: it neither crashes nor waits for ever for an
-- answer, whatever the API and the database answer. (A message about a managed environment
-- carries its event.)
pub Reach-Proceeds :
    {id : String} {w : World} (a : Answers) (msg : WorkspaceMessage)
    → Reach id w
    → HasPayload msg
    → Proceeds (process_message a msg w)
Reach-Proceeds {id} {w} a msg r p = process_message-Proceeds a msg w (Reach-IsLive r) p
