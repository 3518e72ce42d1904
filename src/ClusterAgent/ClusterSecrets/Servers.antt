-- ===== src/ClusterAgent/ClusterSecrets/Servers.antt =====
-- The URLs of the servers tell the environments apart.
use Prim.Native.String.{◌∷◌, ◌++◌ as concat, len}
use Prim.Native.String.append.{nil, cons}
use Prim.Native.Char.{code}
use managed_gitops.Base.{◌≡◌, sym, ap, ◌∙◌, false, String, eqb, arith, if◌then◌else◌}
use managed_gitops.Base.Text.{has_code}
use managed_gitops.Util.ArgoNames.{drop_bytes}
use managed_gitops.Util.ArgoNames.Parsing.{drop_bytes-concat}
use managed_gitops.ClusterAgent.ClusterSecrets.{server_of}

-- The parts of a URL before and after its first `?`.
unfoldable host_part : String → String
host_part String.[] = ""
host_part (String.◌∷◌ c s) = if eqb (code c) 63 then "" else c ∷ host_part s

unfoldable query_part : String → String
query_part String.[] = ""
query_part (String.◌∷◌ c s) = if eqb (code c) 63 then s else query_part s

host_part-concat :
    (host query : String) → has_code 63 host ≡ false → host_part (concat host ("?" ∷ query)) ≡ host
unfolding host_part has_code
host_part-concat String.[] query h = ap host_part (nil ("?" ∷ query))
host_part-concat (String.◌∷◌ c s) query h =
    ap host_part (cons c s ("?" ∷ query)) ∙ ground (arith, host_part-concat s query)

query_part-concat :
    (host query : String)
    → has_code 63 host ≡ false
    → query_part (concat host ("?" ∷ query)) ≡ query
unfolding query_part has_code
query_part-concat String.[] query h = ap query_part (nil ("?" ∷ query))
query_part-concat (String.◌∷◌ c s) query h =
    ap query_part (cons c s ("?" ∷ query)) ∙ ground (arith, query_part-concat s query)

server_parts :
    (host id : String) → server_of host id ≡ concat host ("?" ∷ concat "managedEnvironment=" id)
unfolding server_of
server_parts host id = ap (concat host) (cons "?" "managedEnvironment=" id)

-- Hosts without a `?`, which the code asks for: two environments have the same URL for their server
-- only if they have the same host and the same id.
pub server_of-injective :
    (host host' id id' : String)
    → has_code 63 host ≡ false
    → has_code 63 host' ≡ false
    → server_of host id ≡ server_of host' id'
    → (host ≡ host') × (id ≡ id')
server_of-injective host host' id id' plain plain' same =
    let e : concat host ("?" ∷ concat "managedEnvironment=" id)
        ≡ concat host' ("?" ∷ concat "managedEnvironment=" id') =
      sym (server_parts host id) ∙ same ∙ server_parts host' id' in
    let q : concat "managedEnvironment=" id ≡ concat "managedEnvironment=" id' =
      sym (query_part-concat host (concat "managedEnvironment=" id) plain)
      ∙ ap query_part e
      ∙ query_part-concat host' (concat "managedEnvironment=" id') plain' in
    (
      sym (host_part-concat host (concat "managedEnvironment=" id) plain)
          ∙ ap host_part e
          ∙ host_part-concat host' (concat "managedEnvironment=" id') plain',
      sym (drop_bytes-concat "managedEnvironment=" id)
          ∙ ap (drop_bytes (len "managedEnvironment=")) q
          ∙ drop_bytes-concat "managedEnvironment=" id',
    )
