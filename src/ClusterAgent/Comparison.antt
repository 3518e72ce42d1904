-- ===== src/ClusterAgent/Comparison.antt =====
-- CompareApplication of cluster-agent/controllers/util.go: an Argo CD Application against the spec
-- of its row. The YAML decoder is a parameter: it takes the text and the object that it decodes
-- into.
mod Tests
use managed_gitops.Base.{
  ◌≡◌, ◌≢◌, refl, ap, ◌↔◌, Bool, true, false, Option, none, some, List, [], String, ◌==◌, ◌&&◌, not,
  eq_iff, arith, if◌then◌else◌, ne_of_test, Bool-cases, inl, inr,
}
use managed_gitops.Base.Equality.{same_texts, same_texts_iff}
use managed_gitops.ClusterAgent.Resources.{SyncPolicy, ApplicationSpec, ArgoApplication}

abbrev pub Unmarshal : Type 0
Unmarshal = String → ArgoApplication → Option ArgoApplication

abbrev pub empty_application : ArgoApplication
empty_application = record {
  name = "";
  namespace = "";
  finalizers = [];
  deletion_timestamp = none;
  database_id = none;
  spec = record {
    destination_name = "";
    destination = "";
    source = "";
    project = "";
    sync_policy = none;
  };
}

-- sanitizeApp: options that are nil or empty become an empty slice.
abbrev pub filled : Option (List String) → Option (List String)
filled none = some []
filled (some options) = some options

abbrev pub sanitized : Option SyncPolicy → Option SyncPolicy
sanitized none = none
sanitized (some p) = some (record p { sync_options = filled p.sync_options })

-- reflect.DeepEqual of the two policies
abbrev pub same_options : Option (List String) → Option (List String) → Bool
same_options none none = true
same_options (some xs) (some ys) = same_texts xs ys
same_options _ _ = false

abbrev pub same_policy : Option SyncPolicy → Option SyncPolicy → Bool
same_policy none none = true
same_policy (some p) (some q) =
    same_options p.sync_options q.sync_options && p.automated == q.automated
same_policy _ _ = false

-- The differences that are reported.
abbrev pub source_differs : String
source_differs = "spec.source fields differ"

abbrev pub destination_differs : String
destination_differs = "spec.destination fields differ"

abbrev pub project_differs : String
project_differs = "spec project fields differ"

abbrev pub policy_differs : String
policy_differs = "sync policy fields differ"

-- The ladder of comparisons, of the row's spec and that of the Application.
unfoldable pub spec_diff : ApplicationSpec → ApplicationSpec → String
unfolding same_texts
spec_diff row app =
    if not (row.source == app.source)
    then source_differs
    else if not (row.destination_name == app.destination_name && row.destination == app.destination)
    then destination_differs
    else if not (row.project == app.project)
    then project_differs
    else if not (same_policy (sanitized row.sync_policy) (sanitized app.sync_policy))
    then policy_differs
    else ""

-- By the decoded row.
abbrev pub compared : ArgoApplication → Option ArgoApplication → String
compared app none = ""
compared app (some row) = spec_diff row.spec app.spec

-- CompareApplication, whose error is always nil
unfoldable pub compare_application : Unmarshal → ArgoApplication → String → String
unfolding spec_diff
compare_application unmarshal app spec_field = compared app (unmarshal spec_field empty_application)

-- The same Application, up to a nil slice of options.
pub record SameSpec (row app : ApplicationSpec) : Type 0 where
  pub source : row.source ≡ app.source
  pub destination_name : row.destination_name ≡ app.destination_name
  pub destination : row.destination ≡ app.destination
  pub project : row.project ≡ app.project
  pub policy : sanitized row.sync_policy ≡ sanitized app.sync_policy

same_options_iff : (o p : Option (List String)) → (same_options o p ≡ true) ↔ (o ≡ p)
same_options_iff none none = (λ h. refl, λ e. refl)
same_options_iff none (some ys) = (λ h. cc h, λ e. cc e)
same_options_iff (some xs) none = (λ h. cc h, λ e. cc e)
same_options_iff (some xs) (some ys) =
    (λ h. ap some ((same_texts_iff xs ys).0 h), λ e. (same_texts_iff xs ys).1 (cc e))

same_policy_iff : (o p : Option SyncPolicy) → (same_policy o p ≡ true) ↔ (o ≡ p)
same_policy_iff none none = (λ h. refl, λ e. refl)
same_policy_iff none (some q) = (λ h. cc h, λ e. cc e)
same_policy_iff (some p) none = (λ h. cc h, λ e. cc e)
same_policy_iff (some p) (some q) = (
  λ h.
      ground
        (arith, same_options_iff p.sync_options q.sync_options, eq_iff p.automated q.automated),
  λ e.
      ground
        (arith, same_options_iff p.sync_options q.sync_options, eq_iff p.automated q.automated),
)

-- A difference has a text.
differs :
    (source_differs ≢ "")
    × (destination_differs ≢ "")
    × (project_differs ≢ "")
    × (policy_differs ≢ "")
unfolding ◌==◌
differs = (ne_of_test _ _ refl, ne_of_test _ _ refl, ne_of_test _ _ refl, ne_of_test _ _ refl)

pub spec_diff_iff : (row app : ApplicationSpec) → (spec_diff row app ≡ "") ↔ SameSpec row app
unfolding spec_diff
spec_diff_iff row app =
    let (n1, n2, n3, n4) = differs in
    let policies = same_policy_iff (sanitized row.sync_policy) (sanitized app.sync_policy) in
    (
      λ h. ground (
        arith,
        eq_iff row.source app.source,
        eq_iff row.destination_name app.destination_name,
        eq_iff row.destination app.destination,
        eq_iff row.project app.project,
        policies,
      ),
      λ e. ground (
        arith,
        eq_iff row.source app.source,
        eq_iff row.destination_name app.destination_name,
        eq_iff row.destination app.destination,
        eq_iff row.project app.project,
        policies,
      ),
    )
