-- ===== src/Util/ArgoNames/Parsing.antt =====
-- Names that are made and read again: backend-shared/util/argocd/util.go.
use Prim.Native.String.{◌∷◌, ◌++◌ as concat, len, slice}
use Prim.Native.String.append.{cons}
use text.Mathlib.TextPositions.{len-append, slice-append_right, starts_with-append}
use managed_gitops.Base.{
  ◌≡◌, ◌≢◌, refl, sym, ap, ◌∙◌, false, none, String, ◌==◌, eq_iff, eqb, if◌then◌else◌, Bool-cases,
  inl, inr, arith,
}
use managed_gitops.Base.Text.{first_code}
use managed_gitops.Base.Map.{Map, insert, lookup-insert_self}
use managed_gitops.Util.ArgoNames.{
  managed_env_prefix, gitops_depl_prefix, in_cluster, drop_bytes, cluster_secret_name,
  application_name, convert_cluster_secret_name, get_application_name, extract_uid, name_of_label,
}

pub drop_bytes-concat : (s t : String) → drop_bytes (len s) (concat s t) ≡ t
drop_bytes-concat s t =
    ap (λ n. slice (concat s t) (len s) n) (len-append s t) ∙ slice-append_right s t

apart : (s : String) → "m" ∷ s ≢ in_cluster
apart s p = let q : 109 ≡ 105 = ap first_code p in omega (arith, q)

not_local : (id : String) → (concat managed_env_prefix id == in_cluster) ≡ false
not_local id = elim (Bool-cases (concat managed_env_prefix id == in_cluster)) [
  | inl b ↦ absurd (
      apart _
        (sym (cons "m" "anaged-env-" id) ∙ (eq_iff (concat managed_env_prefix id) in_cluster).0 b))
  | inr b ↦ b
]

converted : (id : String) → convert_cluster_secret_name (cluster_secret_name id) ≡ (id, false, none)
unfolding convert_cluster_secret_name cluster_secret_name
converted id =
    rw
      (
        not_local id,
        starts_with-append managed_env_prefix id,
        drop_bytes-concat managed_env_prefix id,
      )
      refl

extracted :
    (uid : String) → extract_uid (application_name uid) ≡ (if eqb (len uid) 36 then uid else "")
unfolding extract_uid application_name
extracted uid = elim (Bool-cases (eqb (len uid) 36)) [
  | inl b ↦
      rw (starts_with-append gitops_depl_prefix uid, drop_bytes-concat gitops_depl_prefix uid)
        (rw b refl)
  | inr b ↦
      rw (starts_with-append gitops_depl_prefix uid, drop_bytes-concat gitops_depl_prefix uid)
        (rw b refl)
]

labelled :
    (uid : String) (labels : Map String)
    → get_application_name (insert "app.kubernetes.io/instance" (application_name uid) labels)
      ≡ application_name uid
unfolding get_application_name application_name
labelled uid labels =
    ap name_of_label
      (lookup-insert_self "app.kubernetes.io/instance" (concat gitops_depl_prefix uid) labels)
    ∙ rw (starts_with-append gitops_depl_prefix uid) refl

-- The id of a managed environment comes back from the name of its cluster secret, without an error
-- and never taken for the local cluster; the name of an application comes back from the label that
-- is set to it; and its UID from that name, exactly if it is 36 bytes long, and otherwise nothing.
pub names_parsed :
    (id uid : String) (labels : Map String)
    → (convert_cluster_secret_name (cluster_secret_name id) ≡ (id, false, none))
      × (get_application_name (insert "app.kubernetes.io/instance" (application_name uid) labels)
          ≡ application_name uid)
      × (extract_uid (application_name uid) ≡ (if eqb (len uid) 36 then uid else ""))
names_parsed id uid labels = (converted id, labelled uid labels, extracted uid)
