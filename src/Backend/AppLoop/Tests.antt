-- ===== src/Backend/AppLoop/Tests.antt =====
-- Witnesses and runs of the application event loop.
use managed_gitops.Base.{ℕ, ◌≡◌, refl, true, false, Option, none, some, [], ◌∷◌, arith}
use managed_gitops.Backend.Event.{
  EventLoopEvent, work_complete, event_message, deployment_modified, deployment_type,
}
use managed_gitops.Backend.AppLoop.{
  RequestMessage, State, returns, process, on_complete, complete, pump_deployment, pump_sync,
  close_sync,
}
use managed_gitops.Backend.AppLoop.Sound.{IsSound, Good, process-IsSound}
use managed_gitops.Backend.AppLoop.Exclusive.{KeepsBusy, process_one_at_a_time}
use managed_gitops.Backend.AppLoop.Queues.{KeepsOrder, process-order}

abbrev deployment : EventLoopEvent
deployment = record {
  event_type = deployment_modified;
  namespace = "team";
  name = "shop";
  req_resource = deployment_type;
  workspace_id = "u1";
}

abbrev arrives : Option ℕ → RequestMessage
arrives c = record {
  message_type = event_message;
  event = some deployment;
  shutdown_signalled = false;
  response_chan = c;
}

abbrev completes : RequestMessage
completes = record {
  message_type = work_complete;
  event = some deployment;
  shutdown_signalled = true;
  response_chan = none;
}

-- The deployment runner works on one event and another one waits; no sync operation.
abbrev working : State
working = record {
  active_deployment_event = some (arrives none);
  waiting_deployment_events = arrives none ∷ [];
  active_sync_operation_event = none;
  waiting_sync_operation_events = [];
  deployment_event_runner_shutdown = false;
  sync_operation_event_runner_shutdown = false;
}

abbrev shut : State
shut = record {
  active_deployment_event = none;
  waiting_deployment_events = arrives none ∷ [];
  active_sync_operation_event = none;
  waiting_sync_operation_events = [];
  deployment_event_runner_shutdown = true;
  sync_operation_event_runner_shutdown = true;
}

working-IsSound : IsSound working
working-IsSound = ground arith

process-IsSound_example : Good (process completes working)
process-IsSound_example = process-IsSound completes working working-IsSound (refl, refl)

process-order_example :
    KeepsOrder (some deployment ∷ some deployment ∷ []) [] (process (arrives (some 4)) working)
process-order_example = process-order (arrives (some 4)) working

process_one_at_a_time_example : KeepsBusy working (process (arrives (some 4)) working)
process_one_at_a_time_example =
    process_one_at_a_time (arrives (some 4)) working working-IsSound (tt, tt) (λ e. cc e)

-- The shutdown of the deployment runner shuts the idle sync runner down too.
shutdown_spreads : process completes working ≡ returns false shut []
unfolding process on_complete complete pump_deployment pump_sync close_sync
shutdown_spreads = refl
