-- ===== src/Util/Operations/Tests.antt =====
-- Operations at concrete answers.
use mathlib.Core.List.{Memᴰ}
use managed_gitops.Base.{◌≡◌, refl, false, [], ◌∷◌, ◌==◌, ne_of_test}
use managed_gitops.Base.Client.{ok, not_found}
use managed_gitops.Util.Operations.{
  waiting, completed, application_resource, Operation, OperationCr, GitopsEngineInstance, Answers,
  find_waiting, create_operation_internal,
}
use managed_gitops.Util.Operations.Creation.{Ends, create_operation_once}

abbrev param : Operation
param = record {
  operation_id = "";
  instance_id = "argo";
  resource_id = "app-1";
  operation_owner_user_id = "";
  resource_type = application_resource;
  last_state_update = 0;
  state = waiting;
  human_readable_state = "";
}

abbrev stored : Operation
stored = record param { operation_id = "op-1"; operation_owner_user_id = "user" }

abbrev stored_cr : OperationCr
stored_cr = record {
  name = "operation-op-1";
  namespace = "argocd";
  operation_id = "op-1";
  periodic_cleanup = false;
}

abbrev argo : GitopsEngineInstance
argo = record {
  gitopsengineinstance_id = "argo";
  namespace_name = "argocd";
  namespace_uid = "uid";
  enginecluster_id = "cluster";
}

abbrev empty : Answers
empty = record {
  get_instance = λ id. ok argo;
  list_operations = [];
  get_cr = λ name namespace. not_found;
  create_row = λ row. ok (record row { operation_id = "op-1" });
  create_cr = λ cr. ok cr;
  now = 7;
}

abbrev later : Answers
later = record empty {
  list_operations = record stored { state = completed } ∷ stored ∷ [];
  get_cr = λ name namespace. ok stored_cr;
}

named :
    (create_operation_internal empty param "user" "argocd").result
    ≡ ok (stored_cr, record stored { last_state_update = 7 })
unfolding create_operation_internal find_waiting ◌==◌
named = refl

in_a_namespace : ("argocd" == "") ≡ false
unfolding ◌==◌
in_a_namespace = refl

create_operation_once_example :
    Ends empty param "user" "argocd" (create_operation_internal empty param "user" "argocd")
    × ((create_operation_internal later param "user" "argocd").writes ≡ [])
create_operation_once_example =
    create_operation_once empty later param "user" "argocd" stored_cr stored
      (record {
        home = argo;
        fetched = refl;
        same = refl;
        named = ne_of_test "argocd" "" in_a_namespace;
      })
      (record { listed = Memᴰ.tail (Memᴰ.head refl); waits = refl; on_cluster = refl })
