-- ===== src/ClusterAgent/RepoCreds/Handling.antt =====
-- processOperation_RepositoryCredentials of repocred.go for a row that is there: what becomes of the
-- secret of the row.
use mathlib.Core.List.{append-nil}
use mathlib.Core.Path.{subst}
use managed_gitops.Base.{
  ◌≡◌, ◌≢◌, ◌⊎◌, refl, sym, ap, Bool, true, false, Option, none, some, List, [], ◌∷◌, ◌++◌, String,
  ◌==◌, eq_iff, inl, inr, arith,
}
use managed_gitops.Base.Client.{Result, ok, not_found, err}
use managed_gitops.Util.Operations.{Operation, OperationCr}
use managed_gitops.ClusterAgent.Resources.{
  Secret, Effect, create_secret, update_secret, Handled, after_effect, after_effects,
}
use managed_gitops.ClusterAgent.RepoCreds.{
  Constants, database_id_label, RepositoryCredentials, Answers, repo_cred_secret_name,
  secret_to_repo_cred, convert_repo_cred_to_secret, compare_cluster_resource, updated,
  with_comparison, compare_with, created_secret, empty_secret, with_secret, with_repo_cred,
  process_repository_credentials,
}
use managed_gitops.ClusterAgent.RepoCreds.Syncing.{
  IsLabelled, Follows, compare_cluster_resource_syncs,
}

module _ (c : Constants) (a : Answers) (row : RepositoryCredentials) (ns : String) where
  -- The secret that is compared with the row, and the effects before that.
  pub data Begun : Secret → List Effect → Type 0 where
    was_there :
        (s : Secret)
        → a.get_secret (repo_cred_secret_name row.repository_credentials_id) ns ≡ ok s
        → Begun s []
    was_created :
        (new s : Secret)
        → a.get_secret (repo_cred_secret_name row.repository_credentials_id) ns ≡ not_found
        → new
          ≡ convert_repo_cred_to_secret c row
              (empty_secret (repo_cred_secret_name row.repository_credentials_id) ns)
        → a.create_secret new ≡ ok s
        → Begun s (create_secret new ∷ [])

  -- The secret after the handler: it is updated in the cluster, or it was like that.
  pub record Synced (h : Handled) : Type 0 where
    pub compared : Secret
    pub synced : Secret
    pub first : List Effect
    pub begun : Begun compared first
    pub labelled : IsLabelled c row synced
    pub follows : Follows row compared.values synced.values
    pub ends :
        ((h.effects ≡ first ++ (update_secret synced ∷ [])) × (a.update_secret synced ≡ none))
        ⊎ ((h.effects ≡ first) × (synced ≡ compared))

  -- A handler that ends without an error or a panic leaves the secret synced.
  abbrev Ends : Handled → Type 0
  Ends h = h.error ≡ none → h.panicked ≡ false → Synced h

  module _ (apart : c.label_key_secret_type ≢ database_id_label) where
    updated_quietly :
        (s : Secret) (o : Option String)
        → (after_effect (update_secret s) (updated o)).error ≡ none
        → (o ≡ none) × ((after_effect (update_secret s) (updated o)).effects ≡ update_secret s ∷ [])
    updated_quietly s none calm = (refl, refl)
    updated_quietly s (some e) calm = cc calm

    comparison-Ends :
        (s : Secret) (first : List Effect) (r : Option (Secret × Bool))
        → Begun s first
        → compare_cluster_resource c row s (secret_to_repo_cred s) ≡ r
        → Ends (after_effects first (with_comparison a r))
    unfolding with_comparison
    comparison-Ends s first none b q calm p = cc p
    comparison-Ends s first (some (s', true)) b q calm p =
        let (labelled, follows, how) = compare_cluster_resource_syncs c row s s' true apart q in
        let (accepted, written) = updated_quietly s' (a.update_secret s') calm in
        record {
          compared = s;
          synced = s';
          first = first;
          begun = b;
          labelled = labelled;
          follows = follows;
          ends = inl (ap (λ es. first ++ es) written, accepted);
        }
    comparison-Ends s first (some (s', false)) b q calm p =
        let (labelled, follows, how) = compare_cluster_resource_syncs c row s s' false apart q in
        record {
          compared = s;
          synced = s';
          first = first;
          begun = b;
          labelled = labelled;
          follows = follows;
          ends = inr (append-nil first, elim how [ inl e ↦ cc e | inr same ↦ same ]);
        }

    created-Ends :
        (new : Secret) (r : Result Secret)
        → a.get_secret (repo_cred_secret_name row.repository_credentials_id) ns ≡ not_found
        → new
          ≡ convert_repo_cred_to_secret c row
              (empty_secret (repo_cred_secret_name row.repository_credentials_id) ns)
        → a.create_secret new ≡ r
        → Ends (after_effect (create_secret new) (created_secret c a row r))
    unfolding created_secret compare_with
    created-Ends new (ok s) missing n q =
        comparison-Ends s (create_secret new ∷ []) _ (was_created new s missing n q) refl
    created-Ends new not_found missing n q = λ calm p. cc calm
    created-Ends new (err e) missing n q = λ calm p. cc calm

    secret-Ends :
        (r : Result Secret)
        → a.get_secret (repo_cred_secret_name row.repository_credentials_id) ns ≡ r
        → Ends (with_secret c a row ns r)
    unfolding with_secret compare_with
    secret-Ends (ok s) q = comparison-Ends s [] _ (was_there s q) refl
    secret-Ends not_found q = created-Ends _ _ q refl refl
    secret-Ends (err e) q = λ calm p. cc calm

-- The Operation names a row of repository credentials that is there, and Argo CD's label for the
-- type of a secret is not databaseID. If the handler ends without an error or a panic, then it has
-- compared the row with its secret, found or just created from the row; the secret now has the
-- labels and the annotation of a repository of this row and the row's URL, user and password, and
-- the SSH key it had; and the handler's last effect is an update of the cluster with this secret,
-- which was accepted, or the compared secret was like this and is not updated.
pub process_repository_credentials-Synced :
    (c : Constants) (a : Answers) (op : Operation) (cr : OperationCr) (ns : String)
    (row : RepositoryCredentials)
    → c.label_key_secret_type ≢ database_id_label
    → op.resource_id ≢ ""
    → a.get_row op.resource_id ≡ ok row
    → (process_repository_credentials c a op cr ns).error ≡ none
    → (process_repository_credentials c a op cr ns).panicked ≡ false
    → Synced c a row ns (process_repository_credentials c a op cr ns)
unfolding process_repository_credentials with_repo_cred
process_repository_credentials-Synced c a op cr ns row apart named there =
    let n : (op.resource_id == "") ≡ false = ground (arith, named, eq_iff op.resource_id "") in
    rw n (
      subst (λ r. Ends c a row ns (with_repo_cred c a op ns r)) (sym there)
        (secret-Ends c a row ns apart
          (a.get_secret (repo_cred_secret_name row.repository_credentials_id) ns) refl))
