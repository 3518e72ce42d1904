-- ===== src/ClusterAgent/InfoCache.antt =====
-- cluster-agent/controllers/argoproj.io/application_info_cache: the cache of applications and of
-- their states. The database (go-pg behind db.DatabaseQueries) is the parameter `Queries`; what
-- the code relies on of it is `Lawful` (ClusterAgent/InfoCache/Coherence).
pub mod Coherence
pub mod Expiry
pub mod Answers
pub mod Requests
mod Tests
use managed_gitops.Base.{
  ℕ, Bool, true, false, Option, none, some, List, [], ◌∷◌, String, ◌==◌, if◌then◌else◌,
}
use managed_gitops.Base.Int.{ℤ, pos, ◌+ℤ◌, lt_ℤ}
use managed_gitops.Base.Map.{Map, lookup, insert, delete}
use managed_gitops.Base.Text.{is_empty}

-- db.Application and db.ApplicationState.
pub record Application : Type 0 where
  pub application_id : String
  pub name : String
  pub spec_field : String
  pub engine_instance_inst_id : String
  pub managed_environment_id : String
  pub seq_id : ℤ
  pub created_on : ℤ

pub record ApplicationState : Type 0 where
  pub applicationstate_application_id : String
  pub argocd_application_status : List ℕ

abbrev pub no_application : Application
no_application = record {
  application_id = "";
  name = "";
  spec_field = "";
  engine_instance_inst_id = "";
  managed_environment_id = "";
  seq_id = pos 0;
  created_on = pos 0;
}

abbrev pub no_application_state : ApplicationState
no_application_state = record {
  applicationstate_application_id = "";
  argocd_application_status = [];
}

-- A row, or an error.
pub data Fetched (A : Type 0) : Type 0 where
  fetched : A → Fetched A
  failed : String → Fetched A

-- The calls of db.DatabaseQueries that the cache makes; a call that writes gives the database
-- after it, also where it reports an error.
pub record Queries (Db : Type 0) : Type 0 where
  pub create_application_state : Db → ApplicationState → Db × Option String
  pub update_application_state : Db → ApplicationState → Db × Option String
  pub delete_application_state_by_id : Db → String → Db × ℕ × Option String
  pub get_application_state_by_id : Db → String → Fetched ApplicationState
  pub get_application_by_id : Db → String → Fetched Application

-- applicationStateCacheEntry and applicationCacheEntry
pub record Entry (A : Type 0) : Type 0 where
  pub value : A
  pub cache_expire_time : ℤ

-- The local variables of applicationInfoCacheLoop, and the database.
pub record State (Db : Type 0) : Type 0 where
  pub cache_app_state : Map (Entry ApplicationState)
  pub cache_app : Map (Entry Application)
  pub db : Db

pub record Response : Type 0 where
  pub application : Application
  pub application_state : ApplicationState
  pub err : Option String
  pub value_from_cache : Bool
  pub rows_affected_for_delete : ℕ

abbrev pub empty_response : Response
empty_response = record {
  application = no_application;
  application_state = no_application_state;
  err = none;
  value_from_cache = false;
  rows_affected_for_delete = 0;
}

-- time.Now().Add(1 * time.Minute)
abbrev pub in_a_minute : ℤ → ℤ
in_a_minute now = now +ℤ pos 60000000000

-- `delete(cacheApp, id); delete(cacheAppState, id)`
unfoldable pub forget : {Db : Type 0} → String → State Db → State Db
forget id s = record s {
  cache_app_state = delete id s.cache_app_state;
  cache_app = delete id s.cache_app;
}

unfoldable pub remember_state : {Db : Type 0} → ℤ → ApplicationState → State Db → State Db
remember_state now st s = record s {
  cache_app_state =
      insert st.applicationstate_application_id
        (record { value = st; cache_expire_time = in_a_minute now }) s.cache_app_state;
}

unfoldable pub remember_app : {Db : Type 0} → ℤ → Application → State Db → State Db
remember_app now app s = record s {
  cache_app =
      insert app.application_id (record { value = app; cache_expire_time = in_a_minute now })
        s.cache_app;
}

-- What follows a create or an update, by its error.
unfoldable pub written : {Db : Type 0} → ℤ → ApplicationState → Option String → State Db → State Db
unfolding forget remember_state
written now st none s = remember_state now st s
written now st (some e) s = forget st.applicationstate_application_id s

module _ {Db : Type 0} (q : Queries Db) where
  unfoldable pub process_create_app_state : ℤ → ApplicationState → State Db → State Db × Response
  unfolding written
  process_create_app_state now st s =
      let (db', err) = q.create_application_state s.db st in
      (written now st err (record s { db = db' }), record empty_response { err = err })

  unfoldable pub process_update_app_state : ℤ → ApplicationState → State Db → State Db × Response
  unfolding written
  process_update_app_state now st s =
      let (db', err) = q.update_application_state s.db st in
      (written now st err (record s { db = db' }), record empty_response { err = err })

  abbrev pub no_key : Option String
  no_key = some "SEVERE: PrimaryKey should not be nil"

  unfoldable pub process_delete_app_state : String → State Db → State Db × Response
  unfolding forget
  process_delete_app_state id s =
      if is_empty id
      then (s, record empty_response { err = no_key })
      else let (db', rows, err) = q.delete_application_state_by_id s.db id in
        (
          record (forget id s) { db = db' },
          record empty_response { rows_affected_for_delete = rows; err = err },
        )

  fetched_state : ℤ → String → Fetched ApplicationState → State Db → State Db × Response
  unfolding forget remember_state
  fetched_state now id (failed e) s = (forget id s, record empty_response { err = some e })
  fetched_state now id (fetched st) s = (
    if st.applicationstate_application_id == "" then s else remember_state now st s,
    record empty_response { application_state = st },
  )

  unfoldable pub process_get_app_state : ℤ → String → State Db → State Db × Response
  unfolding fetched_state
  process_get_app_state now id s =
      if is_empty id
      then (s, record empty_response { err = no_key })
      else elim (lookup id s.cache_app_state) [
        | none ↦ fetched_state now id (q.get_application_state_by_id s.db id) s
        | some e ↦
            (s, record empty_response { application_state = e.value; value_from_cache = true })
      ]

  fetched_app : ℤ → String → Fetched Application → State Db → State Db × Response
  unfolding forget remember_app
  fetched_app now id (failed e) s = (forget id s, record empty_response { err = some e })
  fetched_app now id (fetched app) s = (
    if app.application_id == "" then s else remember_app now app s,
    record empty_response { application = app },
  )

  unfoldable pub process_get_app : ℤ → String → State Db → State Db × Response
  unfolding fetched_app
  process_get_app now id s =
      if is_empty id
      then (s, record empty_response { err = no_key })
      else elim (lookup id s.cache_app) [
        | none ↦ fetched_app now id (q.get_application_by_id s.db id) s
        | some e ↦ (s, record empty_response { application = e.value; value_from_cache = true })
      ]

-- The loop that deletes each entry whose time has passed; `clock k` is time.Now() when the loop
-- is at the key k.
unfoldable pub expire : {A : Type 0} → (String → ℤ) → Map (Entry A) → Map (Entry A)
expire clock [] = []
expire clock ((k, e) ∷ m) =
    if lt_ℤ e.cache_expire_time (clock k) then expire clock m else (k, e) ∷ expire clock m

unfoldable pub process_expire_cache_entries :
    {Db : Type 0} → (String → ℤ) → (String → ℤ) → State Db → State Db
unfolding expire
process_expire_cache_entries clock clock' s = record s {
  cache_app = expire clock s.cache_app;
  cache_app_state = expire clock' s.cache_app_state;
}

pub data Request : Type 0 where
  get_state get_app delete_state : String → Request
  create_state update_state : ApplicationState → Request
  -- the readings of the two loops
  expire_entries : (String → ℤ) → (String → ℤ) → Request
  shutdown unimplemented : Request

-- One round of applicationInfoCacheLoop: whether the loop ends, the state, the response sent.
unfoldable pub round :
    {Db : Type 0} → Queries Db → ℤ → Request → State Db → Bool × State Db × Option Response
unfolding process_create_app_state process_update_app_state process_delete_app_state
    process_get_app_state process_get_app process_expire_cache_entries
round q now (get_state id) s = let (t, r) = process_get_app_state q now id s in (false, t, some r)
round q now (get_app id) s = let (t, r) = process_get_app q now id s in (false, t, some r)
round q now (delete_state id) s = let (t, r) = process_delete_app_state q id s in (false, t, some r)
round q now (create_state st) s =
    let (t, r) = process_create_app_state q now st s in (false, t, some r)
round q now (update_state st) s =
    let (t, r) = process_update_app_state q now st s in (false, t, some r)
round q now (expire_entries clock clock') s =
    (false, process_expire_cache_entries clock clock' s, none)
round q now shutdown s = (true, s, some empty_response)
round q now unimplemented s = (false, s, none)
