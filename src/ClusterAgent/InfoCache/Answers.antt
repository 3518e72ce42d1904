-- ===== src/ClusterAgent/InfoCache/Answers.antt =====
-- What the requests to the cache of application_info_cache.go answer.
use managed_gitops.Base.{
  ◌≡◌, refl, true, false, Option, none, some, String, ◌==◌, if◌then◌else◌, arith, inl, inr,
  Bool-cases, Option-cases,
}
use managed_gitops.Base.Int.{ℤ}
use managed_gitops.Base.Map.{lookup, has, lookup-delete, lookup-insert_self, lookup-delete_self}
use managed_gitops.Base.Text.{is_empty}
use managed_gitops.ClusterAgent.InfoCache.{
  Application, ApplicationState, Fetched, fetched, failed, Queries, State, process_create_app_state,
  process_update_app_state, process_delete_app_state, process_get_app_state, fetched_state,
  in_a_minute,
}
use managed_gitops.ClusterAgent.InfoCache.Coherence.{Lawful, IsCoherent}

fetched_state-row :
    {Db : Type 0} (q : Queries Db) (now : ℤ) (id : String) (s : State Db)
    (row : Db → String → Option ApplicationState) (r : Fetched ApplicationState)
    → ((st : ApplicationState) → r ≡ fetched st → row s.db id ≡ some st)
    → (fetched_state q now id r s).1.err ≡ none
    → row s.db id ≡ some (fetched_state q now id r s).1.application_state
unfolding fetched_state
fetched_state-row q now id s row (fetched st) law h = law st refl
fetched_state-row q now id s row (failed x) law h = cc

-- Over a lawful database and a coherent cache, a request for a state that reports no error answers
-- with the row that the database holds now, whether it comes from the cache or not.
pub get_state_current :
    {Db : Type 0} (q : Queries Db) (state_row : Db → String → Option ApplicationState)
    (app_row : Db → String → Option Application) (now : ℤ) (id : String) (s : State Db)
    → Lawful q state_row app_row
    → IsCoherent state_row app_row s
    → (process_get_app_state q now id s).1.err ≡ none
    → state_row s.db id ≡ some (process_get_app_state q now id s).1.application_state
unfolding process_get_app_state
get_state_current q state_row app_row now id s law c = elim (Bool-cases (is_empty id)) [
  | inl b ↦ rw b (λ h. cc)
  | inr b ↦ elim (Option-cases (lookup id s.cache_app_state)) [
    | inl n ↦ rw b (
        rw n (
          fetched_state-row q now id s state_row (q.get_application_state_by_id s.db id)
            (λ st p. (law.state_fetched s.db id st p).0)))
    | inr (e, n) ↦ rw b (rw n (λ h. c.states id e n))
  ]
]

-- A state that was written without an error is what a request for it answers afterwards, from the
-- cache and without the database, at any time: the request does not look at the expiry time.
pub get_state-update :
    {Db : Type 0} (q : Queries Db) (now later : ℤ) (st : ApplicationState) (s : State Db)
    → is_empty st.applicationstate_application_id ≡ false
    → (process_update_app_state q now st s).1.err ≡ none
    → let t = (process_update_app_state q now st s).0 in
      let (u, r) = process_get_app_state q later st.applicationstate_application_id t in
      (u ≡ t) × (r.application_state ≡ st) × (r.value_from_cache ≡ true) × (r.err ≡ none)
unfolding process_update_app_state process_get_app_state
get_state-update q now later st s b h = ground (
  arith,
  lookup-insert_self st.applicationstate_application_id
      (record { value = st; cache_expire_time = in_a_minute now }) s.cache_app_state,
)

-- A write that reports an error, a create as well as an update, leaves neither cache with an
-- entry of that key, and every other key with the entries it had.
pub failed_write_forgets :
    {Db : Type 0} (q : Queries Db) (now : ℤ) (st : ApplicationState) (e : String) (k : String)
    (s : State Db)
    → (q.update_application_state s.db st).1 ≡ some e
    → (q.create_application_state s.db st).1 ≡ some e
    → let id = st.applicationstate_application_id in
      let (t, r) = process_update_app_state q now st s in
      let (u, r') = process_create_app_state q now st s in
      (lookup k t.cache_app_state ≡ (if id == k then none else lookup k s.cache_app_state))
      × (lookup k t.cache_app ≡ (if id == k then none else lookup k s.cache_app))
      × (lookup k u.cache_app_state ≡ (if id == k then none else lookup k s.cache_app_state))
      × (lookup k u.cache_app ≡ (if id == k then none else lookup k s.cache_app))
      × (r.err ≡ some e)
      × (r'.err ≡ some e)
unfolding process_update_app_state process_create_app_state
failed_write_forgets q now st e k s h h' = ground (
  arith,
  lookup-delete st.applicationstate_application_id k s.cache_app_state,
  lookup-delete st.applicationstate_application_id k s.cache_app,
)

fetched-not_cached :
    {Db : Type 0} (q : Queries Db) (now : ℤ) (id : String) (r : Fetched ApplicationState)
    (s : State Db)
    → (fetched_state q now id r s).1.value_from_cache ≡ false
unfolding fetched_state
fetched-not_cached q now id (fetched st) s = refl
fetched-not_cached q now id (failed x) s = refl

deleted_fetch :
    {Db : Type 0} (q : Queries Db) (now : ℤ) (id : String) (s : State Db)
    → lookup id s.cache_app_state ≡ none
    → (process_get_app_state q now id s).1.value_from_cache ≡ false
unfolding process_get_app_state
deleted_fetch q now id s n = elim (Bool-cases (is_empty id)) [
  | inl b ↦ rw b refl
  | inr b ↦ rw b (rw n (fetched-not_cached q now id (q.get_application_state_by_id s.db id) s))
]

-- After a state with a nonempty key was deleted, a request for it does not answer from the cache,
-- and neither does one for its application: both caches have lost the key.
pub get_state-delete :
    {Db : Type 0} (q : Queries Db) (now : ℤ) (id : String) (s : State Db)
    → is_empty id ≡ false
    → let t = (process_delete_app_state q id s).0 in
      ((process_get_app_state q now id t).1.value_from_cache ≡ false) × (has id t.cache_app ≡ false)
unfolding process_delete_app_state
get_state-delete q now id s b = rw b (
  deleted_fetch q now id _ (lookup-delete_self id s.cache_app_state),
  rw (lookup-delete_self id s.cache_app) refl,
)
