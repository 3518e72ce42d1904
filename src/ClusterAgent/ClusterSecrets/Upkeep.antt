-- ===== src/ClusterAgent/ClusterSecrets/Upkeep.antt =====
-- The secret of an environment follows its rows.
use Prim.Native.String.{◌++◌ as concat}
use managed_gitops.Base.{
  ◌≡◌, refl, sym, ap, ◌∙◌, false, Option, none, some, List, [], ◌∷◌, String, ◌==◌, eq_iff,
  Bool-cases, inl, inr, arith, All,
}
use Prim.Native.String.append.{cons}
use managed_gitops.Base.Text.{first_code}
use managed_gitops.Base.Client.{Result, ok, not_found, err}
use managed_gitops.Util.ArgoNames.{cluster_secret_name}
use managed_gitops.ClusterAgent.Resources.{
  Secret, Effect, create_secret, update_secret, delete_secret,
}
use managed_gitops.ClusterAgent.ClusterSecrets.Placement.{IsAt, Faithful, ensure-IsAt}
use managed_gitops.ClusterAgent.ClusterSecrets.Described.{
  Describes, values_of-Describes, same_data-Describes,
}
use managed_gitops.ClusterAgent.ClusterSecrets.{
  ManagedEnvironment, ClusterCredentials, Answers, is_unsupported, secret_of, expected, failed,
  with_config, with_credentials, with_env, generate_expected_cluster_secret, Ensured, same_data,
  with_existing, with_expected, ensure_managed_environment_exists,
}

-- What becomes of the secret of an environment when the writes are carried out.
abbrev pub write : Effect → Option Secret → Option Secret
write (create_secret s) stored = some s
write (update_secret s) stored = some s
write (delete_secret s) stored = none
write _ stored = stored

abbrev pub writes : List Effect → Option Secret → Option Secret
writes [] stored = stored
writes (e ∷ es) stored = writes es (write e stored)

-- The secret before and after a call.
pub data Reconciled (a : Answers) (id : String) (before : Option Secret)
    : Option Secret → Type 0 where
  no_environment : id ≡ "" → Reconciled a id before before
  row_deleted : a.get_managed_env id ≡ not_found → Reconciled a id before none
  credentials_deleted :
      (env : ManagedEnvironment)
      → a.get_managed_env id ≡ ok env
      → a.get_cluster_credentials env.clustercredentials_id ≡ not_found
      → Reconciled a id before none
  described :
      (env : ManagedEnvironment) (c : ClusterCredentials) (config : String) (s : Secret)
      → a.get_managed_env id ≡ ok env
      → a.get_cluster_credentials env.clustercredentials_id ≡ ok c
      → a.marshal c.serviceaccount_bearer_token c.allow_insecure_skip_tls_verify ≡ some config
      → is_unsupported c.host ≡ false
      → Describes id c config s.values
      → Reconciled a id before (some s)

named : (id : String) → (cluster_secret_name id == "") ≡ false
unfolding cluster_secret_name
named id = elim (Bool-cases (concat "managed-env-" id == "")) [
  | inl b ↦
      let q : 109 ≡ 0 =
        ap first_code
          (sym (cons "m" "anaged-env-" id) ∙ (eq_iff (concat "managed-env-" id) "").0 b) in
      absurd (omega (arith, q))
  | inr b ↦ b
]

module _ (a : Answers) (ns id : String) (before : Option Secret) (f : Faithful a ns id before) where
  -- A call that has no error leaves a reconciled secret.
  abbrev Ends : Ensured → Type 0
  Ends (es, error) = error ≡ none → Reconciled a id before (writes es before)

  module _ (env : ManagedEnvironment) (c : ClusterCredentials) (config : String)
      (row : a.get_managed_env id ≡ ok env)
      (credentials : a.get_cluster_credentials env.clustercredentials_id ≡ ok c)
      (encoded : a.marshal c.serviceaccount_bearer_token c.allow_insecure_skip_tls_verify
        ≡ some config)
      (supported : is_unsupported c.host ≡ false) where
    abbrev new_secret : Secret
    new_secret = secret_of ns env c config

    is_described :
        (o : Option Secret) (s : Secret)
        → Describes id c config s.values
        → Reconciled a id o (some s)
    is_described o s d = described env c config s row credentials encoded supported d

    new_Describes : Describes id c config new_secret.values
    new_Describes = values_of-Describes id env c config (f.row_has_id env row)

    existing-Ends :
        (r : Result Secret)
        → a.get_secret (cluster_secret_name id) ns ≡ r
        → Ends (with_existing a new_secret r)
    unfolding with_existing
    existing-Ends (err e) q = λ h. cc h
    existing-Ends not_found q = λ h. is_described before new_secret new_Describes
    existing-Ends (ok s) q = elim (Bool-cases (same_data s.values new_secret.values)) [
      | inl b ↦ rw b (λ h. rw (f.secret_is_stored s q) (
          is_described (some s) s (same_data-Describes s.values new_secret.values b new_Describes)))
      | inr b ↦
          rw b (λ h. is_described before (record s { values = new_secret.values }) new_Describes)
    ]

    expected-Ends : Ends (with_expected a ns id (expected new_secret))
    unfolding with_expected
    expected-Ends = rw (named env.managedenvironment_id) (
        existing-Ends (a.get_secret new_secret.name ns)
          (ap (λ i. a.get_secret (cluster_secret_name i) ns) (sym (f.row_has_id env row))))

  failed-Ends : (e : String) → Ends (with_expected a ns id (failed e))
  unfolding with_expected
  failed-Ends e h = cc h

  config-Ends :
      (env : ManagedEnvironment) (c : ClusterCredentials) (r : Option String)
      → a.get_managed_env id ≡ ok env
      → a.get_cluster_credentials env.clustercredentials_id ≡ ok c
      → a.marshal c.serviceaccount_bearer_token c.allow_insecure_skip_tls_verify ≡ r
      → is_unsupported c.host ≡ false
      → Ends (with_expected a ns id (with_config ns env c r))
  unfolding with_config
  config-Ends env c none row credentials q supported = failed-Ends _
  config-Ends env c (some config) row credentials q supported =
      elim (Bool-cases (env.managedenvironment_id == "")) [
        | inl b ↦ rw b (failed-Ends _)
        | inr b ↦ rw b (expected-Ends env c config row credentials q supported)
      ]

  credentials-Ends :
      (env : ManagedEnvironment) (r : Result ClusterCredentials)
      → a.get_managed_env id ≡ ok env
      → a.get_cluster_credentials env.clustercredentials_id ≡ r
      → Ends (with_expected a ns id (with_credentials a ns env r))
  unfolding with_credentials with_expected
  credentials-Ends env (ok c) row q = elim (Bool-cases (is_unsupported c.host)) [
    | inl b ↦ rw b (failed-Ends _)
    | inr b ↦ rw b (
        config-Ends env c (a.marshal c.serviceaccount_bearer_token c.allow_insecure_skip_tls_verify)
          row q refl b)
  ]
  credentials-Ends env not_found row q = λ h. credentials_deleted env row q
  credentials-Ends env (err e) row q = failed-Ends _

  row-Ends :
      (r : Result ManagedEnvironment)
      → a.get_managed_env id ≡ r
      → Ends (with_expected a ns id (with_env a ns id r))
  unfolding with_env with_expected
  row-Ends (ok env) q =
      credentials-Ends env (a.get_cluster_credentials env.clustercredentials_id) q refl
  row-Ends not_found q = λ h. row_deleted q
  row-Ends (err e) q = failed-Ends _

ensure-Ends :
    (a : Answers) (ns id : String) (before : Option Secret) (f : Faithful a ns id before)
    → Ends a ns id before f (ensure_managed_environment_exists a ns id)
unfolding ensure_managed_environment_exists generate_expected_cluster_secret
ensure-Ends a ns id before f = elim (Bool-cases (id == "")) [
  | inl b ↦ rw b (λ h. no_environment ((eq_iff id "").0 b))
  | inr b ↦ rw b (row-Ends a ns id before f (a.get_managed_env id) refl)
]

-- With the secret that the server has before the call under the name of the environment, and rows
-- that have the ids they are asked for by: every write is of the secret with this name in this
-- namespace. After a call without an error and its writes, either the row of the environment or its
-- credentials are gone and so is the secret, or both are there, the host has neither `?` nor `&`,
-- and the secret has the name, the URL, the encoded configuration, the scope and the namespaces of
-- the rows; for an Application without an environment the secret is as before.
pub ensure_managed_environment_exists-Reconciled :
    (a : Answers) (ns id : String) (before : Option Secret)
    → Faithful a ns id before
    → (ensure_managed_environment_exists a ns id).1 ≡ none
    → All (IsAt (cluster_secret_name id) ns) (ensure_managed_environment_exists a ns id).0
      × Reconciled a id before (writes (ensure_managed_environment_exists a ns id).0 before)
ensure_managed_environment_exists-Reconciled a ns id before f h =
    (ensure-IsAt a ns id before f, ensure-Ends a ns id before f h)
