-- ===== src/ClusterAgent/RepoCreds/Leftovers.antt =====
-- deleteArgoCDSecretLeftovers of repocred.go: the secrets that are left without a row.
use mathlib.Core.List.{Memᴰ}
use mathlib.Core.Path.{subst}
use managed_gitops.Base.{
  ◌≡◌, ◌≢◌, refl, ap, sym, false, Option, none, some, List, [], ◌∷◌, map, String, ◌==◌, All,
  is_some, eq_iff, arith,
}
use managed_gitops.Base.Client.{Result, ok, not_found, err}
use managed_gitops.Util.Operations.{Operation, OperationCr}
use managed_gitops.ClusterAgent.Resources.{Secret, Effect, delete_secret}
use managed_gitops.ClusterAgent.RepoCreds.{
  Constants, Answers, deletion_error, first_error, delete_each, leftovers, delete_leftovers,
  with_repo_cred, process_repository_credentials,
}

abbrev pub Deletes : Answers → Secret → Type 0
Deletes a s = deletion_error (a.delete_secret s) ≡ none

-- How the deletions of some secrets end: with none left, or with an error that one of them met.
pub data Ended (a : Answers) (ss : List Secret) : Option String → Type 0 where
  all_gone : All (Deletes a) ss → Ended a ss none
  kept : (s : Secret) (e : String) → Memᴰ s ss → a.delete_secret s ≡ err e → Ended a ss (some e)

module _ (a : Answers) where
  delete_each-effects :
      (ss : List Secret) (first : Option String) → (delete_each a ss first).0 ≡ map delete_secret ss
  unfolding delete_each
  delete_each-effects [] first = refl
  delete_each-effects (s ∷ ss) first =
      ap (λ es. delete_secret s ∷ es)
        (delete_each-effects ss (first_error first (deletion_error (a.delete_secret s))))

  delete_each-some : (ss : List Secret) (e : String) → (delete_each a ss (some e)).1 ≡ some e
  unfolding delete_each
  delete_each-some [] e = refl
  delete_each-some (s ∷ ss) e = delete_each-some ss e

  later :
      (s : Secret) (ss : List Secret) (o : Option String)
      → Deletes a s
      → Ended a ss o
      → Ended a (s ∷ ss) o
  later s ss _ d (all_gone h) = all_gone (d, h)
  later s ss _ d (kept x e m q) = kept x e (Memᴰ.tail m) q

  delete_each-Ended : (ss : List Secret) → Ended a ss (delete_each a ss none).1
  unfolding delete_each
  delete_each-Ended [] = all_gone tt
  delete_each-Ended (s ∷ ss) = by_answer (a.delete_secret s) refl (delete_each-Ended ss)
    where
      by_answer :
          (r : Result (Unit {0}))
          → a.delete_secret s ≡ r
          → Ended a ss (delete_each a ss none).1
          → Ended a (s ∷ ss) (delete_each a ss (deletion_error r)).1
      by_answer (ok u) q h = later s ss _ (ap deletion_error q) h
      by_answer not_found q h = later s ss _ (ap deletion_error q) h
      by_answer (err e) q h =
          subst (Ended a (s ∷ ss)) (sym (delete_each-some ss e)) (kept s e (Memᴰ.head refl) q)

-- When the row of an Operation for repository credentials is gone, each secret that the client
-- lists for its id is deleted, in their order, also after a deletion that fails. The Operation is
-- retried exactly with the error of a deletion; without one, all of them are gone.
pub leftovers_deleted :
    (c : Constants) (a : Answers) (op : Operation) (cr : OperationCr) (ns : String)
    (ss : List Secret)
    → op.resource_id ≢ ""
    → a.get_row op.resource_id ≡ not_found
    → a.list_secrets ns op.resource_id ≡ ok ss
    → let h = process_repository_credentials c a op cr ns in
      (h.effects ≡ map delete_secret ss) × (h.retry ≡ is_some h.error) × Ended a ss h.error
unfolding process_repository_credentials with_repo_cred delete_leftovers
leftovers_deleted c a op cr ns ss n gone listed =
    let b : (op.resource_id == "") ≡ false = ground (arith, n, eq_iff op.resource_id "") in
    rw (b, gone, listed)
      (told (delete_each a ss none).0 (delete_each a ss none).1 (delete_each-effects a ss none)
        (delete_each-Ended a ss))
  where
    told :
        (es : List Effect) (o : Option String)
        → es ≡ map delete_secret ss
        → Ended a ss o
        → ((leftovers (es, o)).effects ≡ map delete_secret ss)
          × ((leftovers (es, o)).retry ≡ is_some (leftovers (es, o)).error)
          × Ended a ss (leftovers (es, o)).error
    told es none e t = (e, refl, t)
    told es (some x) e t = (e, refl, t)
