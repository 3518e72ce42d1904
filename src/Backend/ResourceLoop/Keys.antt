-- ===== src/Backend/ResourceLoop/Keys.antt =====
-- The keys under which resources are reconciled: workspace_resource_event_loop.go.
use Prim.Native.String.{String, ◌∷◌, ◌++◌ as concat}
use Prim.Native.String.append.{cons}
use text.Mathlib.TextLemmas.{append_cancel_left}
use managed_gitops.Base.{arith, ◌≡◌, ◌≢◌, ◌↔◌, ◌∙◌, sym, ap}
use managed_gitops.Base.Text.{first_code}
use managed_gitops.Backend.ResourceLoop.{credential_key, environment_key}

apart : (s t : String) → "r" ∷ s ≢ "m" ∷ t
apart s t p = let q : 114 ≡ 109 = ap first_code p in omega (arith, q)

prefixes_differ : (s t : String) → concat "repo-cred-" s ≢ concat "managed-env-" t
prefixes_differ s t p = apart _ _ (sym (cons "r" "epo-cred-" s) ∙ (p ∙ cons "m" "anaged-env-" t))

same_suffix :
    (p namespace s t : String)
    → concat p (concat namespace (concat "-" s)) ≡ concat p (concat namespace (concat "-" t))
    → s ≡ t
same_suffix p namespace s t e =
    append_cancel_left "-" s t (append_cancel_left namespace _ _ (append_cancel_left p _ _ e))

-- The retry loop of a namespace drops a task whose key is that of a waiting one. Within a
-- namespace the keys of two credentials are the same only for credentials of the same name, so are
-- those of two managed environments, and that of a credential is never that of a managed
-- environment.
pub keys_distinguish :
    (namespace name other : String)
    → ((credential_key namespace name ≡ credential_key namespace other) ↔ (name ≡ other))
      × ((environment_key namespace name ≡ environment_key namespace other) ↔ (name ≡ other))
      × (credential_key namespace name ≢ environment_key namespace other)
unfolding credential_key environment_key
keys_distinguish namespace name other = (
  (
    same_suffix "repo-cred-" namespace name other,
    λ p. ap (λ n. concat "repo-cred-" (concat namespace (concat "-" n))) p,
  ),
  (
    same_suffix "managed-env-" namespace name other,
    λ p. ap (λ n. concat "managed-env-" (concat namespace (concat "-" n))) p,
  ),
  prefixes_differ _ _,
)
