-- ===== src/Util/ArgoNames/Tests.antt =====
-- A witness and a run for the names in Argo CD.
use Prim.Native.String.{len}
use managed_gitops.Base.{◌≡◌, refl, false, none, [], String, eqb, if◌then◌else◌}
use managed_gitops.Base.Map.{insert}
use managed_gitops.Util.ArgoNames.{
  convert_cluster_secret_name, cluster_secret_name, get_application_name, application_name,
  extract_uid,
}
use managed_gitops.Util.ArgoNames.Parsing.{names_parsed}

abbrev uuid : String
uuid = "123e4567-e89b-12d3-a456-426614174000"

extracts_uuid : extract_uid "gitopsdepl-123e4567-e89b-12d3-a456-426614174000" ≡ uuid
unfolding extract_uid
extracts_uuid = refl

names_parsed_example :
    (convert_cluster_secret_name (cluster_secret_name "7") ≡ ("7", false, none))
    × (get_application_name (insert "app.kubernetes.io/instance" (application_name uuid) [])
        ≡ application_name uuid)
    × (extract_uid (application_name uuid) ≡ (if eqb (len uuid) 36 then uuid else ""))
names_parsed_example = names_parsed "7" uuid []
