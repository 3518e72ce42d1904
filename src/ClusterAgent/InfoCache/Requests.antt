-- ===== src/ClusterAgent/InfoCache/Requests.antt =====
-- application_info_cache.go: the methods that send a request to the loop and wait for its answer.
-- The response channel has no buffer: the loop's send of the response waits for a receiver.
use managed_gitops.Base.{
  ◌≡◌, refl, ap, Bool, true, false, Option, none, some, not, String, is_some, if◌then◌else◌, ℕ,
  arith,
}
use mathlib.Core.Path.{subst}
use managed_gitops.Base.Int.{ℤ}
use managed_gitops.Base.Text.{is_empty}
use managed_gitops.ClusterAgent.InfoCache.{
  Application, ApplicationState, no_application, no_application_state, Queries, State, Response,
  empty_response, get_state, get_app, delete_state, create_state, update_state, round,
  process_update_app_state, process_get_app_state,
}
use managed_gitops.ClusterAgent.InfoCache.Answers.{get_state-update}

-- The variable `response` of a caller.
abbrev received : Option Response → Response
received none = empty_response
received (some r) = r

-- The loop after it has handled a request: `none` if it blocks on the send of its response, which
-- happens when the caller's context was done first (`waits` is false).
abbrev delivered : {Db : Type 0} → Bool → Bool × State Db × Option Response → Option (State Db)
delivered waits (stop, s, none) = some s
delivered true (stop, s, some r) = some s
delivered false (stop, s, some r) = none

module _ {Db : Type 0} (q : Queries Db) where
  unfoldable pub get_application_by_id :
      Bool → ℤ → String → State Db → Option (State Db) × Application × Bool × Option String
  unfolding round
  get_application_by_id waits now id s =
      let o = round q now (get_app id) s in
      let r = received o.2 in
      if not waits
      then (
        delivered waits o,
        no_application,
        false,
        some "context cancelled in GetApplicationById",
      )
      else if is_some r.err
      then (delivered waits o, no_application, r.value_from_cache, r.err)
      else (delivered waits o, r.application, r.value_from_cache, none)

  unfoldable pub get_application_state_by_id :
      Bool → ℤ → String → State Db → Option (State Db) × ApplicationState × Bool × Option String
  unfolding round
  get_application_state_by_id waits now id s =
      let o = round q now (get_state id) s in
      let r = received o.2 in
      if not waits
      then (
        delivered waits o,
        no_application_state,
        false,
        some "context cancelled in GetApplicationStateById",
      )
      else if is_some r.err
      then (delivered waits o, no_application_state, r.value_from_cache, r.err)
      else (delivered waits o, r.application_state, r.value_from_cache, none)

  unfoldable pub create_application_state_for :
      Bool → ℤ → ApplicationState → State Db → Option (State Db) × Option String
  unfolding round
  create_application_state_for waits now st s =
      let o = round q now (create_state st) s in
      if not waits
      then (delivered waits o, some "context cancelled in CreateApplicationState")
      else (delivered waits o, (received o.2).err)

  unfoldable pub update_application_state_for :
      Bool → ℤ → ApplicationState → State Db → Option (State Db) × Option String
  unfolding round
  update_application_state_for waits now st s =
      let o = round q now (update_state st) s in
      if not waits
      then (delivered waits o, some "context cancelled in UpdateApplicationState")
      else (delivered waits o, (received o.2).err)

  unfoldable pub delete_application_state_by_id_for :
      Bool → ℤ → String → State Db → Option (State Db) × ℕ × Option String
  unfolding round
  delete_application_state_by_id_for waits now id s =
      let o = round q now (delete_state id) s in
      if not waits
      then (delivered waits o, 0, some "context cancelled in DeleteApplicationStateById")
      else (delivered waits o, (received o.2).rows_affected_for_delete, (received o.2).err)

abbrev HitAt : {Db : Type 0} → State Db → ApplicationState → State Db × Response → Type 0
HitAt t st (u, r) =
    (u ≡ t) × (r.application_state ≡ st) × (r.value_from_cache ≡ true) × (r.err ≡ none)

abbrev or_else : {A : Type 0} → A → Option A → A
or_else a none = a
or_else a (some b) = b

hit :
    {Db : Type 0} (t : State Db) (st : ApplicationState) (o : State Db × Response)
    → HitAt t st o
    → ◌≡◌ {A = Option (State Db) × ApplicationState × Bool × Option String}
        (if is_some o.1.err
          then (some o.0, no_application_state, o.1.value_from_cache, o.1.err)
          else (some o.0, o.1.application_state, o.1.value_from_cache, none))
        (some t, st, true, none)
hit t st (u, r) (e, f, g, h) = ground arith

-- A caller that updated a state and waited for the answer, which reported no error, then gets this
-- state from the cache, without an error, and the loop goes on with the same caches.
pub get_application_state_by_id-update :
    {Db : Type 0} (q : Queries Db) (now later : ℤ) (st : ApplicationState) (s t : State Db)
    → is_empty st.applicationstate_application_id ≡ false
    → update_application_state_for q true now st s ≡ (some t, none)
    → get_application_state_by_id q true later st.applicationstate_application_id t
      ≡ (some t, st, true, none)
unfolding update_application_state_for get_application_state_by_id round
get_application_state_by_id-update {Db} q now later st s t b h =
    let id = st.applicationstate_application_id in
    let e : (process_update_app_state q now st s).1.err ≡ none = ap (λ x. x.1) h in
    let f : (process_update_app_state q now st s).0 ≡ t = ap (λ x. or_else t x.0) h in
    let IsHit = λ (x : State Db). HitAt x st (process_get_app_state q later id x) in
    hit t st (process_get_app_state q later id t)
      (subst IsHit f (get_state-update q now later st s b e))

-- If the context of a caller is done before the loop has answered, then the loop blocks on the send
-- of its response, whichever of the five methods was called.
pub cancelled_blocks :
    {Db : Type 0} (q : Queries Db) (now : ℤ) (id : String) (st : ApplicationState) (s : State Db)
    → ((get_application_by_id q false now id s).0 ≡ none)
      × ((get_application_state_by_id q false now id s).0 ≡ none)
      × ((create_application_state_for q false now st s).0 ≡ none)
      × ((update_application_state_for q false now st s).0 ≡ none)
      × ((delete_application_state_by_id_for q false now id s).0 ≡ none)
unfolding get_application_by_id get_application_state_by_id create_application_state_for
    update_application_state_for delete_application_state_by_id_for round
cancelled_blocks q now id st s = (refl, refl, refl, refl, refl)
