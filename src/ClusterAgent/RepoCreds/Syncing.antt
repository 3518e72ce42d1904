-- ===== src/ClusterAgent/RepoCreds/Syncing.antt =====
-- compareClusterResourceWithDatabaseRow of repocred.go: the secret follows its row, but for its SSH
-- key.
use mathlib.Core.Path.{subst}
use managed_gitops.Base.{
  ◌≡◌, ◌≢◌, ◌⊎◌, refl, sym, ap, ◌∙◌, Bool, true, false, Option, none, some, String, ◌==◌, eq_iff,
  ne_of_test, Bool-cases, inl, inr, arith,
}
use managed_gitops.Base.Map.{Map, lookup, insert, lookup-insert_self, lookup-insert_other}
use managed_gitops.ClusterAgent.Resources.{Secret}
use managed_gitops.ClusterAgent.RepoCreds.{
  Constants, database_id_label, RepositoryCredentials, text_of, value_in, secret_to_repo_cred,
  set_in, sync_value, ◌>>=◌, sync_ssh_key, sync_username, sync_password, sync_url, sync_values,
  is_value, add_secret_argocd_annotation, add_secret_argocd_metadata, add_secret_repo_cred_metadata,
  sync_metadata, is_update_needed, compare_cluster_resource,
}

bind_some :
    {A B : Type 0} (m : Option A) (f : A → Option B) (b : B)
    → (m >>= f) ≡ some b
    → (a : A) × (m ≡ some a) × (f a ≡ some b)
unfolding ◌>>=◌
bind_some none f b h = cc h
bind_some (some a) f b h = (a, refl, h)

-- One value: its key is set, and the others stay.
set_in_self :
    (key new : String) (v out : Option (Map String))
    → set_in key new v ≡ some out
    → value_in key out ≡ new
set_in_self key new none out h = cc h
set_in_self key new (some m) out h =
    let q : some (insert key new m) ≡ out = cc h in
    ap (value_in key) (sym q) ∙ ap text_of (lookup-insert_self key new m)

set_in_other :
    (key new k : String) (v out : Option (Map String))
    → key ≢ k
    → set_in key new v ≡ some out
    → value_in k out ≡ value_in k v
set_in_other key new k none out n h = cc h
set_in_other key new k (some m) out n h =
    let q : some (insert key new m) ≡ out = cc h in
    ap (value_in k) (sym q) ∙ ap text_of (lookup-insert_other key k new m n)

sync_value_self :
    (key old new : String) (v out : Option (Map String))
    → old ≡ value_in key v
    → sync_value key old new v ≡ some out
    → value_in key out ≡ new
unfolding sync_value
sync_value_self key old new v out e h = elim (Bool-cases (old == new)) [
  | inl b ↦
      let q : some v ≡ some out = rw b at h in
      ap (value_in key) (sym (cc q)) ∙ sym e ∙ (eq_iff old new).0 b
  | inr b ↦ set_in_self key new v out (rw b at h)
]

sync_value_other :
    (key old new k : String) (v out : Option (Map String))
    → (key == k) ≡ false
    → sync_value key old new v ≡ some out
    → value_in k out ≡ value_in k v
unfolding sync_value
sync_value_other key old new k v out n h = elim (Bool-cases (old == new)) [
  | inl b ↦ let q : some v ≡ some out = rw b at h in ap (value_in k) (sym (cc q))
  | inr b ↦ set_in_other key new k v out (ne_of_test key k n) (rw b at h)
]

-- The values after the comparison.
pub record Follows (row : RepositoryCredentials) (before values : Option (Map String))
    : Type 0 where
  pub url : value_in "url" values ≡ row.private_url
  pub username : value_in "username" values ≡ row.auth_username
  pub password : value_in "password" values ≡ row.auth_password
  pub ssh_kept : value_in "sshPrivateKey" values ≡ value_in "sshPrivateKey" before

sync_values-Follows :
    (row : RepositoryCredentials) (s : Secret) (out : Option (Map String))
    → sync_values row (secret_to_repo_cred s) s.values ≡ some out
    → Follows row s.values out
unfolding sync_values sync_url sync_password sync_username sync_ssh_key secret_to_repo_cred ◌==◌
sync_values-Follows row s out h =
    let d = secret_to_repo_cred s in
    let (v1, h1, r1) =
      bind_some (sync_value "name" d.secret_obj row.secret_obj s.values) (sync_url row d) out h in
    let (v2, h2, r2) =
      bind_some (sync_value "url" d.private_url row.private_url v1) (sync_password row d) out r1 in
    let (v3, h3, r3) =
      bind_some (sync_value "password" d.auth_password row.auth_password v2) (sync_username row d)
        out r2 in
    let (v4, h4, r4) =
      bind_some (sync_value "username" d.auth_username row.auth_username v3) (sync_ssh_key row d)
        out r3 in
    let ssh = λ (k : String) (n : ("ssh" == k) ≡ false).
      sync_value_other "ssh" d.auth_ssh_key row.auth_ssh_key k v4 out n r4 in
    let user = λ (k : String) (n : ("username" == k) ≡ false).
      sync_value_other "username" d.auth_username row.auth_username k v3 v4 n h4 in
    let pass = λ (k : String) (n : ("password" == k) ≡ false).
      sync_value_other "password" d.auth_password row.auth_password k v2 v3 n h3 in
    let place = λ (k : String) (n : ("url" == k) ≡ false).
      sync_value_other "url" d.private_url row.private_url k v1 v2 n h2 in
    let name = λ (k : String) (n : ("name" == k) ≡ false).
      sync_value_other "name" d.secret_obj row.secret_obj k s.values v1 n h1 in
    record {
      url =
          ssh "url" refl
          ∙ user "url" refl
          ∙ pass "url" refl
          ∙ sync_value_self "url" d.private_url row.private_url v1 v2 (sym (name "url" refl)) h2;
      username =
          ssh "username" refl
          ∙ sync_value_self "username" d.auth_username row.auth_username v3 v4
              (sym (pass "username" refl ∙ place "username" refl ∙ name "username" refl)) h4;
      password =
          ssh "password" refl
          ∙ user "password" refl
          ∙ sync_value_self "password" d.auth_password row.auth_password v2 v3
              (sym (place "password" refl ∙ name "password" refl)) h3;
      ssh_kept =
          ssh "sshPrivateKey" refl
          ∙ user "sshPrivateKey" refl
          ∙ pass "sshPrivateKey" refl
          ∙ place "sshPrivateKey" refl
          ∙ name "sshPrivateKey" refl;
    }

pub record IsLabelled (c : Constants) (row : RepositoryCredentials) (s : Secret) : Type 0 where
  pub typed : lookup c.label_key_secret_type s.labels ≡ some c.label_value_repository
  pub identified : lookup database_id_label s.labels ≡ some row.repository_credentials_id
  pub managed : lookup c.annotation_key_managed_by s.annotations ≡ some c.annotation_value_argocd

is_value_lem : (value : String) (o : Option String) → is_value value o ≡ true → o ≡ some value
is_value_lem value none h = cc h
is_value_lem value (some v) h = ap some ((eq_iff v value).0 h)

module _ (c : Constants) (row : RepositoryCredentials) (s : Secret)
    (apart : c.label_key_secret_type ≢ database_id_label) where
  sync_metadata-IsLabelled : IsLabelled c row (sync_metadata c row s)
  unfolding sync_metadata add_secret_argocd_metadata add_secret_argocd_annotation
      add_secret_repo_cred_metadata
  sync_metadata-IsLabelled =
      let type = c.label_key_secret_type in
      let id = row.repository_credentials_id in
      let key = c.annotation_key_managed_by in
      ground (
        arith,
        is_value_lem c.label_value_repository (lookup type s.labels),
        is_value_lem id (lookup database_id_label s.labels),
        is_value_lem c.annotation_value_argocd (lookup key s.annotations),
        lookup-insert_self type c.label_value_repository s.labels,
        lookup-insert_self key c.annotation_value_argocd s.annotations,
        lookup-insert_self key c.annotation_value_argocd
            (insert key c.annotation_value_argocd s.annotations),
        lookup-insert_other type database_id_label c.label_value_repository s.labels apart,
        lookup-insert_self database_id_label id s.labels,
        lookup-insert_self database_id_label id (insert type c.label_value_repository s.labels),
        lookup-insert_other database_id_label type id s.labels (λ e. apart (sym e)),
        lookup-insert_other database_id_label type id
            (insert type c.label_value_repository s.labels) (λ e. apart (sym e)),
      )

module _ (c : Constants) (row decoded : RepositoryCredentials) (s : Secret)
    (same : is_update_needed c row decoded s ≡ false) where
  same_metadata : sync_metadata c row s ≡ s
  unfolding sync_metadata is_update_needed
  same_metadata = ground arith

  same_values : sync_values row decoded s.values ≡ some s.values
  unfolding sync_values sync_url sync_password sync_username sync_ssh_key sync_value
      is_update_needed ◌>>=◌
  same_values = ground arith

needed_for_key :
    (c : Constants) (row decoded : RepositoryCredentials) (s : Secret)
    → decoded.auth_ssh_key ≢ row.auth_ssh_key
    → is_update_needed c row decoded s ≡ true
unfolding is_update_needed
needed_for_key c row decoded s n = ground (arith, eq_iff decoded.auth_ssh_key row.auth_ssh_key)

-- A comparison that comes to an end gives the labels and the values.
module _ (c : Constants) (row : RepositoryCredentials) (s s' : Secret) (changed : Bool)
    (compared : compare_cluster_resource c row s (secret_to_repo_cred s) ≡ some (s', changed)) where
  parts :
      (values : Option (Map String)) × (sync_values row (secret_to_repo_cred s) s.values
        ≡ some values)
      × (record (sync_metadata c row s) { values = values } ≡ s')
      × (is_update_needed c row (secret_to_repo_cred s) s ≡ changed)
  unfolding compare_cluster_resource
  parts =
      let (values, h, r) =
        bind_some (sync_values row (secret_to_repo_cred s) s.values)
          (λ values. some (
            record (sync_metadata c row s) { values = values },
            is_update_needed c row (secret_to_repo_cred s) s,
          ))
          (s', changed) compared in
      (values, h, cc r, cc r)

  compared-Follows : Follows row s.values s'.values
  compared-Follows =
      let (values, h, e, n) = parts in
      subst (λ t. Follows row s.values t.values) e (sync_values-Follows row s values h)

  compared-IsLabelled : c.label_key_secret_type ≢ database_id_label → IsLabelled c row s'
  compared-IsLabelled apart =
      let (values, h, e, n) = parts in
      let l = sync_metadata-IsLabelled c row s apart in
      subst (IsLabelled c row) e
        (record { typed = l.typed; identified = l.identified; managed = l.managed })

  -- Nothing differs, and nothing is changed.
  unchanged : changed ≡ false → s' ≡ s
  unchanged k =
      let (values, h, e, n) = parts in
      let d = secret_to_repo_cred s in
      let q : s.values ≡ values = cc (h, same_values c row d s (n ∙ k)) in
      sym e
      ∙ ap {B = Secret} (λ (t : Secret). record t { values = values })
          (same_metadata c row d s (n ∙ k))
      ∙ ap {B = Secret} (λ v. record s { values = v }) (sym q)

  -- What is kept of the key, and that the secret is updated for it.
  key_differs :
      value_in "sshPrivateKey" s.values ≢ row.auth_ssh_key
      → (changed ≡ true) × (value_in "sshPrivateKey" s'.values ≡ value_in "sshPrivateKey" s.values)
  unfolding secret_to_repo_cred
  key_differs n =
      let (values, h, e, m) = parts in
      (sym m ∙ needed_for_key c row (secret_to_repo_cred s) s n, compared-Follows.ssh_kept)

-- After a comparison, with Argo CD's label for the type of a secret apart from databaseID: the
-- secret has the labels and the annotation of a repository of this row, and the URL, the user and
-- the password of the row; and it is the secret from before, or the update of the cluster is made.
pub compare_cluster_resource_syncs :
    (c : Constants) (row : RepositoryCredentials) (s s' : Secret) (changed : Bool)
    → c.label_key_secret_type ≢ database_id_label
    → compare_cluster_resource c row s (secret_to_repo_cred s) ≡ some (s', changed)
    → IsLabelled c row s' × Follows row s.values s'.values × ((changed ≡ true) ⊎ (s' ≡ s))
compare_cluster_resource_syncs c row s s' changed apart compared = (
  compared-IsLabelled c row s s' changed compared apart,
  compared-Follows c row s s' changed compared,
  elim (Bool-cases changed) [
    | inl t ↦ inl t
    | inr f ↦ inr (unchanged c row s s' changed compared f)
  ],
)

-- One Operation after the other for one row, with its secret before and after them.
pub data Rounds (c : Constants) (row : RepositoryCredentials) (s : Secret) : Secret → Type 0 where
  here : Rounds c row s s
  next :
      {t u : Secret} (changed : Bool)
      → Rounds c row s t
      → compare_cluster_resource c row t (secret_to_repo_cred t) ≡ some (u, changed)
      → Rounds c row s u

key_kept :
    (c : Constants) (row : RepositoryCredentials) (s t : Secret)
    → Rounds c row s t
    → value_in "sshPrivateKey" t.values ≡ value_in "sshPrivateKey" s.values
key_kept c row s _ here = refl
key_kept c row s u (next {t} changed r compared) =
    (compared-Follows c row t u changed compared).ssh_kept ∙ key_kept c row s t r

-- If the secret has another SSH key than the row, then however many Operations compare the two,
-- each one that comes to an end orders the update of the secret, and leaves the old key in it.
pub ssh_key_never_synced :
    (c : Constants) (row : RepositoryCredentials) (s t u : Secret) (changed : Bool)
    → value_in "sshPrivateKey" s.values ≢ row.auth_ssh_key
    → Rounds c row s t
    → compare_cluster_resource c row t (secret_to_repo_cred t) ≡ some (u, changed)
    → (changed ≡ true) × (value_in "sshPrivateKey" u.values ≡ value_in "sshPrivateKey" s.values)
ssh_key_never_synced c row s t u changed n r compared =
    let k = key_kept c row s t r in
    let d = key_differs c row t u changed compared (λ e. n (sym k ∙ e)) in (d.0, d.1 ∙ k)
