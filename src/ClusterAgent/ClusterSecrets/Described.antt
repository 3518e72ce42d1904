-- ===== src/ClusterAgent/ClusterSecrets/Described.antt =====
-- The data of a secret, as the rows of an environment describe it.
use managed_gitops.Base.{
  ◌≡◌, refl, ap, ◌∙◌, Bool, true, false, Option, none, some, [], ◌∷◌, String, ◌==◌, if◌then◌else◌,
}
use managed_gitops.Base.Map.{Map, lookup, insert}
use managed_gitops.Base.MapEquality.{same_map-lookup}
use managed_gitops.Util.ArgoNames.{cluster_secret_name}
use managed_gitops.ClusterAgent.ClusterSecrets.{
  ManagedEnvironment, ClusterCredentials, server_of, add_cluster_resources, add_namespaces,
  values_of, same_data,
}

abbrev pub value_at : String → Option (Map String) → Option String
value_at k none = none
value_at k (some m) = lookup k m

-- The data of a secret, by the rows.
pub record Describes (id : String) (c : ClusterCredentials) (config : String)
    (values : Option (Map String)) : Type 0 where
  pub name : value_at "name" values ≡ some (cluster_secret_name id)
  pub server : value_at "server" values ≡ some (server_of c.host id)
  pub config_kept : value_at "config" values ≡ some config
  pub all_resources :
      value_at "clusterResources" values ≡ (if c.cluster_resources then some "true" else none)
  pub some_namespaces :
      value_at "namespaces" values ≡ (if c.namespaces == "" then none else some c.namespaces)

-- The look-ups in the data of a secret, by whether it has namespaces and cluster resources.
abbrev table : Bool → Bool → String → String → String → String → Map String
table none_given all name server config namespaces =
    add_namespaces none_given namespaces
      (add_cluster_resources all (("name", name) ∷ ("server", server) ∷ ("config", config) ∷ []))

look_up :
    (none_given all : Bool) (name server config namespaces : String)
    → let m = table none_given all name server config namespaces in
      (lookup "name" m ≡ some name)
      × (lookup "server" m ≡ some server)
      × (lookup "config" m ≡ some config)
      × (lookup "clusterResources" m ≡ (if all then some "true" else none))
      × (lookup "namespaces" m ≡ (if none_given then none else some namespaces))
unfolding insert lookup ◌==◌
look_up true true name server config namespaces = (refl, refl, refl, refl, refl)
look_up true false name server config namespaces = (refl, refl, refl, refl, refl)
look_up false true name server config namespaces = (refl, refl, refl, refl, refl)
look_up false false name server config namespaces = (refl, refl, refl, refl, refl)

pub values_of-Describes :
    (id : String) (env : ManagedEnvironment) (c : ClusterCredentials) (config : String)
    → env.managedenvironment_id ≡ id
    → Describes id c config (some (values_of env c config))
unfolding values_of
values_of-Describes id env c config q =
    let row_id = env.managedenvironment_id in
    let (name, server, kept, all, namespaces) =
      look_up (c.namespaces == "") c.cluster_resources (cluster_secret_name row_id)
        (server_of c.host row_id) config c.namespaces in
    record {
      name = name ∙ ap (λ i. some (cluster_secret_name i)) q;
      server = server ∙ ap (λ i. some (server_of c.host i)) q;
      config_kept = kept;
      all_resources = all;
      some_namespaces = namespaces;
    }

module _ {id : String} {c : ClusterCredentials} {config : String} where
  pub same_data-Describes :
      (old new : Option (Map String))
      → same_data old new ≡ true
      → Describes id c config new
      → Describes id c config old
  same_data-Describes none none h d = d
  same_data-Describes none (some n) h d = cc h
  same_data-Describes (some m) none h d = cc h
  same_data-Describes (some m) (some n) h d = record {
    name = same_map-lookup m n "name" h ∙ d.name;
    server = same_map-lookup m n "server" h ∙ d.server;
    config_kept = same_map-lookup m n "config" h ∙ d.config_kept;
    all_resources = same_map-lookup m n "clusterResources" h ∙ d.all_resources;
    some_namespaces = same_map-lookup m n "namespaces" h ∙ d.some_namespaces;
  }
