-- ===== src/ClusterAgent/InfoCache/Tests.antt =====
-- Witnesses for the cache, over a database that is a map.
use managed_gitops.Base.{
  ◌≡◌, ◌≢◌, refl, true, Option, none, some, [], ◌∷◌, String, ◌==◌, eq_iff, if◌then◌else◌, arith,
}
use managed_gitops.Base.Int.{pos}
use managed_gitops.Base.Map.{
  Map, lookup, insert, delete, lookup-insert, lookup-delete, lookup-insert_self,
}
use managed_gitops.Base.Text.{is_empty}
use managed_gitops.ClusterAgent.InfoCache.{
  Application, ApplicationState, Fetched, fetched, failed, Queries, State, update_state, round,
  process_update_app_state, process_get_app_state,
}
use managed_gitops.ClusterAgent.InfoCache.Coherence.{Lawful, IsCoherent, round-IsCoherent}
use managed_gitops.ClusterAgent.InfoCache.Requests.{update_application_state_for}
use managed_gitops.ClusterAgent.InfoCache.Answers.{get_state_current}

abbrev found : String → Option ApplicationState → Fetched ApplicationState
found id none = failed "no such row"
found id (some st) =
    if st.applicationstate_application_id == id then fetched st else failed "no such row"

abbrev table : Queries (Map ApplicationState)
table = record {
  create_application_state = λ db st. (insert st.applicationstate_application_id st db, none);
  update_application_state = λ db st. (insert st.applicationstate_application_id st db, none);
  delete_application_state_by_id = λ db id. (delete id db, 1, none);
  get_application_state_by_id = λ db id. found id (lookup id db);
  get_application_by_id = λ db id. failed "no such row";
}

abbrev rows : Map ApplicationState → String → Option ApplicationState
rows db id = lookup id db

abbrev no_rows : Map ApplicationState → String → Option Application
no_rows db id = none

found-row :
    (id : String) (o : Option ApplicationState) (st : ApplicationState)
    → found id o ≡ fetched st
    → (o ≡ some st) × (st.applicationstate_application_id ≡ id)
found-row id none st h = ground arith
found-row id (some x) st h = ground (arith, eq_iff x.applicationstate_application_id id)

insert_frame :
    (db : Map ApplicationState) (st : ApplicationState) (k : String)
    → st.applicationstate_application_id ≢ k
    → lookup k (insert st.applicationstate_application_id st db) ≡ lookup k db
insert_frame db st k h = ground (
  arith,
  eq_iff st.applicationstate_application_id k,
  lookup-insert st.applicationstate_application_id k st db,
)

delete_frame :
    (db : Map ApplicationState) (id k : String) → id ≢ k → lookup k (delete id db) ≡ lookup k db
delete_frame db id k h = ground (arith, eq_iff id k, lookup-delete id k db)

table-Lawful : Lawful table rows no_rows
table-Lawful = record {
  state_fetched = λ db id st h. found-row id (lookup id db) st h;
  app_fetched = λ db id app h. absurd (cc h);
  created = λ db st h. lookup-insert_self st.applicationstate_application_id st db;
  updated = λ db st h. lookup-insert_self st.applicationstate_application_id st db;
  create_frame = insert_frame;
  update_frame = insert_frame;
  delete_frame = delete_frame;
  create_apps = λ db st k. refl;
  update_apps = λ db st k. refl;
  delete_apps = λ db id k. refl;
}

abbrev healthy : ApplicationState
healthy = record { applicationstate_application_id = "app-1"; argocd_application_status = 1 ∷ [] }

abbrev fresh : State (Map ApplicationState)
fresh = record { cache_app_state = []; cache_app = []; db = ("app-1", healthy) ∷ [] }

fresh-IsCoherent : IsCoherent rows no_rows fresh
unfolding lookup
fresh-IsCoherent = record {
  states = λ k e h. absurd (cc h);
  apps = λ k e h. absurd (cc h);
  state_keys = tt;
  app_keys = tt;
}

round-IsCoherent_example :
    IsCoherent rows no_rows (round table (pos 5) (update_state healthy) fresh).1
round-IsCoherent_example =
    round-IsCoherent table rows no_rows table-Lawful (pos 5) (update_state healthy) fresh
      fresh-IsCoherent

get_state_current_example :
    rows fresh.db "app-1"
    ≡ some (process_get_app_state table (pos 5) "app-1" fresh).1.application_state
unfolding process_get_app_state is_empty lookup ◌==◌
get_state_current_example =
    get_state_current table rows no_rows (pos 5) "app-1" fresh table-Lawful fresh-IsCoherent refl

-- A database that refuses every write.
abbrev down : Queries (Map ApplicationState)
down = record table {
  create_application_state = λ db st. (db, some "down");
  update_application_state = λ db st. (db, some "down");
}

abbrev after_update : State (Map ApplicationState)
after_update = (process_update_app_state table (pos 5) healthy fresh).0

updated_healthy :
    update_application_state_for table true (pos 5) healthy fresh ≡ (some after_update, none)
unfolding update_application_state_for round process_update_app_state
updated_healthy = refl
