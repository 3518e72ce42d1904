-- ===== src/ClusterAgent/Comparison/Tests.antt =====
-- Comparisons at concrete Applications.
use managed_gitops.Base.{◌≡◌, refl, Option, none, some, List, [], ◌∷◌, String, ◌==◌}
use managed_gitops.ClusterAgent.Resources.{ApplicationSpec}
use managed_gitops.ClusterAgent.Comparison.{spec_diff, policy_differs}

abbrev spec_with : Option (List String) → ApplicationSpec
spec_with options = record {
  destination_name = "in-cluster";
  destination = "jane";
  source = "https://github.com/redhat-appstudio/managed-gitops";
  project = "app-project-user";
  sync_policy = some (record { sync_options = options; automated = "prune" });
}

nil_is_empty : spec_diff (spec_with none) (spec_with (some [])) ≡ ""
unfolding spec_diff ◌==◌
nil_is_empty = refl

other_options :
    spec_diff (spec_with none) (spec_with (some ("PrunePropagationPolicy=background" ∷ [])))
    ≡ policy_differs
unfolding spec_diff ◌==◌
other_options = refl
