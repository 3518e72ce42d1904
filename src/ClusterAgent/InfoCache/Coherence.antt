-- ===== src/ClusterAgent/InfoCache/Coherence.antt =====
-- The caches of application_info_cache.go against the database.
use managed_gitops.Base.{
  ◌≡◌, ◌≢◌, refl, ap, ◌∙◌, true, false, Option, none, some, String, ◌==◌, eq_iff, arith, inl, inr,
  Bool-cases, Option-cases,
}
use managed_gitops.Base.Int.{ℤ}
use managed_gitops.Base.Map.{
  Map, lookup, insert, delete, lookup-insert, lookup-delete, HasKeys, insert-HasKeys,
  delete-HasKeys,
}
use managed_gitops.Base.Text.{is_empty}
use managed_gitops.ClusterAgent.InfoCache.Expiry.{lookup-expire, expire-HasKeys}
use managed_gitops.ClusterAgent.InfoCache.{
  Application, ApplicationState, Fetched, fetched, failed, Queries, Entry, State, forget, written,
  process_delete_app_state, process_get_app_state, process_get_app, fetched_state, fetched_app,
  expire, Request, get_state, get_app, delete_state, create_state, update_state, expire_entries,
  shutdown, unimplemented, round, in_a_minute,
}

-- What the cache relies on of the database, for a reading of its two tables as functions of the
-- primary key: a row that is fetched is the row of its key; a write that reports no error leaves
-- the row written; and a write changes at most the row of its key, also if it reports an error.
-- That nobody else writes is part of it.
pub record Lawful {Db : Type 0} (q : Queries Db) (state_row : Db → String → Option ApplicationState)
    (app_row : Db → String → Option Application) : Type 0 where
  pub state_fetched :
      (db : Db) (id : String) (st : ApplicationState)
      → q.get_application_state_by_id db id ≡ fetched st
      → (state_row db id ≡ some st) × (st.applicationstate_application_id ≡ id)
  pub app_fetched :
      (db : Db) (id : String) (app : Application)
      → q.get_application_by_id db id ≡ fetched app
      → (app_row db id ≡ some app) × (app.application_id ≡ id)
  pub created :
      (db : Db) (st : ApplicationState)
      → (q.create_application_state db st).1 ≡ none
      → state_row (q.create_application_state db st).0 st.applicationstate_application_id ≡ some st
  pub updated :
      (db : Db) (st : ApplicationState)
      → (q.update_application_state db st).1 ≡ none
      → state_row (q.update_application_state db st).0 st.applicationstate_application_id ≡ some st
  pub create_frame :
      (db : Db) (st : ApplicationState) (k : String)
      → st.applicationstate_application_id ≢ k
      → state_row (q.create_application_state db st).0 k ≡ state_row db k
  pub update_frame :
      (db : Db) (st : ApplicationState) (k : String)
      → st.applicationstate_application_id ≢ k
      → state_row (q.update_application_state db st).0 k ≡ state_row db k
  pub delete_frame :
      (db : Db) (id k : String)
      → id ≢ k
      → state_row (q.delete_application_state_by_id db id).0 k ≡ state_row db k
  pub create_apps :
      (db : Db) (st : ApplicationState) (k : String)
      → app_row (q.create_application_state db st).0 k ≡ app_row db k
  pub update_apps :
      (db : Db) (st : ApplicationState) (k : String)
      → app_row (q.update_application_state db st).0 k ≡ app_row db k
  pub delete_apps :
      (db : Db) (id k : String)
      → app_row (q.delete_application_state_by_id db id).0 k ≡ app_row db k

-- Every entry of a cache is the row of its key.
abbrev pub Agrees : {A : Type 0} → Map (Entry A) → (String → Option A) → Type 0
Agrees {A} m row = (k : String) (e : Entry A) → lookup k m ≡ some e → row k ≡ some e.value

module _ {A : Type 0} (m : Map (Entry A)) (row row' : String → Option A) (h : Agrees m row) where
  Agrees-delete :
      (id : String) → ((k : String) → id ≢ k → row' k ≡ row k) → Agrees (delete id m) row'
  Agrees-delete id frame k e p = elim (Bool-cases (id == k)) [
    | inl b ↦ absurd (gone b)
    | inr b ↦ frame k (λ c. absurd (other b c)) ∙ h k e (ground (arith, lookup-delete id k m))
  ]
    where
      gone : (id == k) ≡ true → ⊥
      gone b = ground (arith, lookup-delete id k m)

      other : (id == k) ≡ false → id ≡ k → ⊥
      other b c = ground (arith, eq_iff id k)

  Agrees-insert :
      (id : String) (v : A) (t : ℤ)
      → ((k : String) → id ≢ k → row' k ≡ row k)
      → row' id ≡ some v
      → Agrees (insert id (record { value = v; cache_expire_time = t }) m) row'
  Agrees-insert id v t frame stored k e p = elim (Bool-cases (id == k)) [
    | inl b ↦ here b
    | inr b ↦
        frame k (λ c. absurd (other b c))
        ∙ h k e (ground (arith, lookup-insert id k (record { value = v; cache_expire_time = t }) m))
  ]
    where
      here : (id == k) ≡ true → row' k ≡ some e.value
      here b = ground (
        arith,
        stored,
        eq_iff id k,
        lookup-insert id k (record { value = v; cache_expire_time = t }) m,
      )

      other : (id == k) ≡ false → id ≡ k → ⊥
      other b c = ground (arith, eq_iff id k)

Agrees-expire :
    {A : Type 0} (clock : String → ℤ) (m : Map (Entry A)) (row : String → Option A)
    → HasKeys m
    → Agrees m row
    → Agrees (expire clock m) row
Agrees-expire clock m row keys h k e p = h k e (ground (arith, lookup-expire clock k m keys))

-- Both caches agree with the tables, and hold no key twice.
pub record IsCoherent {Db : Type 0} (state_row : Db → String → Option ApplicationState)
    (app_row : Db → String → Option Application) (s : State Db) : Type 0 where
  pub states : Agrees s.cache_app_state (state_row s.db)
  pub apps : Agrees s.cache_app (app_row s.db)
  pub state_keys : HasKeys s.cache_app_state
  pub app_keys : HasKeys s.cache_app

module _ {Db : Type 0} (q : Queries Db) (state_row : Db → String → Option ApplicationState)
    (app_row : Db → String → Option Application) (law : Lawful q state_row app_row) where
  forget-IsCoherent :
      (id : String) (s : State Db) (db' : Db)
      → IsCoherent state_row app_row s
      → ((k : String) → id ≢ k → state_row db' k ≡ state_row s.db k)
      → ((k : String) → app_row db' k ≡ app_row s.db k)
      → IsCoherent state_row app_row (record (forget id s) { db = db' })
  unfolding forget
  forget-IsCoherent id s db' c f g = record {
    states = Agrees-delete s.cache_app_state (state_row s.db) (state_row db') c.states id f;
    apps = Agrees-delete s.cache_app (app_row s.db) (app_row db') c.apps id (λ k _. g k);
    state_keys = delete-HasKeys id s.cache_app_state c.state_keys;
    app_keys = delete-HasKeys id s.cache_app c.app_keys;
  }

  written-IsCoherent :
      (now : ℤ) (st : ApplicationState) (err : Option String) (s : State Db) (db' : Db)
      → IsCoherent state_row app_row s
      → (err ≡ none → state_row db' st.applicationstate_application_id ≡ some st)
      → ((k : String) → st.applicationstate_application_id ≢ k → state_row db' k ≡ state_row s.db k)
      → ((k : String) → app_row db' k ≡ app_row s.db k)
      → IsCoherent state_row app_row (written now st err (record s { db = db' }))
  unfolding written
  written-IsCoherent now st none s db' c w f g = record {
    states =
        Agrees-insert s.cache_app_state (state_row s.db) (state_row db') c.states
          st.applicationstate_application_id st (in_a_minute now) f (w refl);
    apps = λ k e p. g k ∙ c.apps k e p;
    state_keys = insert-HasKeys st.applicationstate_application_id _ s.cache_app_state c.state_keys;
    app_keys = c.app_keys;
  }
  written-IsCoherent now st (some e) s db' c w f g =
      forget-IsCoherent st.applicationstate_application_id s db' c f g

  fetched_state-IsCoherent :
      (now : ℤ) (id : String) (r : Fetched ApplicationState) (s : State Db)
      → IsCoherent state_row app_row s
      → q.get_application_state_by_id s.db id ≡ r
      → IsCoherent state_row app_row (fetched_state q now id r s).0
  unfolding fetched_state written
  fetched_state-IsCoherent now id (failed x) s c p =
      forget-IsCoherent id s s.db c (λ k _. refl) (λ k. refl)
  fetched_state-IsCoherent now id (fetched st) s c p =
      elim (Bool-cases (st.applicationstate_application_id == "")) [
        | inl b ↦ rw b c
        | inr b ↦ rw b (
            written-IsCoherent now st none s s.db c
              (λ _. let (a, i) = law.state_fetched s.db id st p in ap (state_row s.db) i ∙ a)
              (λ k _. refl) (λ k. refl))
      ]

  fetched_app-IsCoherent :
      (now : ℤ) (id : String) (r : Fetched Application) (s : State Db)
      → IsCoherent state_row app_row s
      → q.get_application_by_id s.db id ≡ r
      → IsCoherent state_row app_row (fetched_app q now id r s).0
  unfolding fetched_app
  fetched_app-IsCoherent now id (failed x) s c p =
      forget-IsCoherent id s s.db c (λ k _. refl) (λ k. refl)
  fetched_app-IsCoherent now id (fetched app) s c p = elim (Bool-cases (app.application_id == "")) [
    | inl b ↦ rw b c
    | inr b ↦ rw b (record {
      states = c.states;
      apps =
          Agrees-insert s.cache_app (app_row s.db) (app_row s.db) c.apps app.application_id app
            (in_a_minute now) (λ k _. refl)
            (let (a, i) = law.app_fetched s.db id app p in ap (app_row s.db) i ∙ a);
      state_keys = c.state_keys;
      app_keys = insert-HasKeys app.application_id _ s.cache_app c.app_keys;
    })
  ]

  get_state-IsCoherent :
      (now : ℤ) (id : String) (s : State Db)
      → IsCoherent state_row app_row s
      → IsCoherent state_row app_row (process_get_app_state q now id s).0
  unfolding process_get_app_state
  get_state-IsCoherent now id s c = elim (Bool-cases (is_empty id)) [
    | inl b ↦ rw b c
    | inr b ↦ elim (Option-cases (lookup id s.cache_app_state)) [
      | inl n ↦ rw b (rw n (fetched_state-IsCoherent now id _ s c refl))
      | inr (e, n) ↦ rw b (rw n c)
    ]
  ]

  get_app-IsCoherent :
      (now : ℤ) (id : String) (s : State Db)
      → IsCoherent state_row app_row s
      → IsCoherent state_row app_row (process_get_app q now id s).0
  unfolding process_get_app
  get_app-IsCoherent now id s c = elim (Bool-cases (is_empty id)) [
    | inl b ↦ rw b c
    | inr b ↦ elim (Option-cases (lookup id s.cache_app)) [
      | inl n ↦ rw b (rw n (fetched_app-IsCoherent now id _ s c refl))
      | inr (e, n) ↦ rw b (rw n c)
    ]
  ]

  delete_state-IsCoherent :
      (id : String) (s : State Db)
      → IsCoherent state_row app_row s
      → IsCoherent state_row app_row (process_delete_app_state q id s).0
  unfolding process_delete_app_state
  delete_state-IsCoherent id s c = elim (Bool-cases (is_empty id)) [
    | inl b ↦ rw b c
    | inr b ↦ rw b (
        forget-IsCoherent id s (q.delete_application_state_by_id s.db id).0 c
          (law.delete_frame s.db id) (law.delete_apps s.db id))
  ]

  -- Over a lawful database that nobody else writes, every request keeps both caches coherent:
  -- each cached state and each cached application is the row that the database holds now.
  pub round-IsCoherent :
      (now : ℤ) (r : Request) (s : State Db)
      → IsCoherent state_row app_row s
      → IsCoherent state_row app_row (round q now r s).1
  unfolding round
  round-IsCoherent now (get_state id) s c = get_state-IsCoherent now id s c
  round-IsCoherent now (get_app id) s c = get_app-IsCoherent now id s c
  round-IsCoherent now (delete_state id) s c = delete_state-IsCoherent id s c
  round-IsCoherent now (create_state st) s c =
      written-IsCoherent now st _ s (q.create_application_state s.db st).0 c (law.created s.db st)
        (law.create_frame s.db st) (law.create_apps s.db st)
  round-IsCoherent now (update_state st) s c =
      written-IsCoherent now st _ s (q.update_application_state s.db st).0 c (law.updated s.db st)
        (law.update_frame s.db st) (law.update_apps s.db st)
  round-IsCoherent now (expire_entries clock clock') s c = record {
    states = Agrees-expire clock' s.cache_app_state (state_row s.db) c.state_keys c.states;
    apps = Agrees-expire clock s.cache_app (app_row s.db) c.app_keys c.apps;
    state_keys = expire-HasKeys clock' s.cache_app_state c.state_keys;
    app_keys = expire-HasKeys clock s.cache_app c.app_keys;
  }
  round-IsCoherent now shutdown s c = c
  round-IsCoherent now unimplemented s c = c
