-- ===== src/ClusterAgent/Syncs/Decision.antt =====
-- What decides the result of a sync.
use mathlib.Core.Path.{subst}
use managed_gitops.Base.{
  ◌≡◌, ◌≢◌, refl, sym, ap, ◌∙◌, Bool, false, Option, none, some, Option-cases, List, [], ◌∷◌, ◌++◌,
  String, ◌==◌, eq_iff, is_some, Bool-cases, inl, inr, All, ne_of_test,
}
use managed_gitops.Base.Client.{Result, ok, not_found, err, Result-cases}
use managed_gitops.ClusterAgent.Syncs.{
  SyncOperation, running, Round, by_state, round_ends, await_sync,
}

-- The sync is still wanted, and has not ended.
pub record IsQuiet (r : Round) : Type 0 where
  pub row : SyncOperation
  pub read : r.row ≡ ok row
  pub wanted : row.desired_state ≡ running
  pub going : r.ended ≡ none

-- What a round decides: whether to retry, and the error.
pub data Decides (r : Round) : Bool × Option String → Type 0 where
  sync_ended :
      (s : SyncOperation) (e : Option String)
      → r.row ≡ ok s
      → s.desired_state ≡ running
      → r.ended ≡ some e
      → Decides r (is_some e, e)
  withdrawn :
      (s : SyncOperation) → r.row ≡ ok s → s.desired_state ≢ running → Decides r (false, none)
  row_gone : r.row ≡ not_found → Decides r (false, none)
  row_unread : (e : String) → r.row ≡ err e → Decides r (false, none)

-- The first round that decides.
pub record Decided (rs : List Round) (result : Bool × Option String) : Type 0 where
  pub before : List Round
  pub decisive : Round
  pub later : List Round
  pub split : rs ≡ before ++ (decisive ∷ later)
  pub quiet : All IsQuiet before
  pub decides : Decides decisive result

pub not_running : ("" == running) ≡ false
unfolding ◌==◌
not_running = refl

pub round_of :
    (r : Round) (x : Result SyncOperation)
    → r.row ≡ x
    → round_ends r ≡ elim x [
      | ok s ↦ by_state s.desired_state r.ended
      | not_found ↦ some (false, none)
      | err e ↦ by_state "" r.ended
    ]
unfolding round_ends
round_of r (ok s) q = rw q refl
round_of r not_found q = rw q refl
round_of r (err e) q = rw q refl

-- A round that ends the loop decides its result.
round_ends-Decides :
    (r : Round) (result : Bool × Option String) → round_ends r ≡ some result → Decides r result
round_ends-Decides r result h = elim (Result-cases r.row) [
  | inr (inl q) ↦ decides (sym (round_of r not_found q)) (row_gone q)
  | inr (inr (e, q)) ↦ decides (sym (round_of r (err e) q ∙ rw not_running refl)) (row_unread e q)
  | inl (s, q) ↦ elim (Bool-cases (s.desired_state == running)) [
    | inr b ↦
        decides (sym (round_of r (ok s) q ∙ rw b refl))
          (withdrawn s q (ne_of_test s.desired_state running b))
    | inl b ↦ elim (Option-cases r.ended) [
      | inl n ↦ let e : none ≡ some result = sym (round_of r (ok s) q ∙ rw (b, n) refl) ∙ h in cc e
      | inr (e, n) ↦
          decides (sym (round_of r (ok s) q ∙ rw (b, n) refl))
            (sync_ended s e q ((eq_iff s.desired_state running).0 b) n)
    ]
  ]
]
  where
    decides : {x : Bool × Option String} → some x ≡ round_ends r → Decides r x → Decides r result
    decides {x} e d =
        let p : some x ≡ some result = e ∙ h in let q : x ≡ result = cc p in subst (Decides r) q d

round_ends-IsQuiet : (r : Round) → round_ends r ≡ none → IsQuiet r
round_ends-IsQuiet r h = elim (Result-cases r.row) [
  | inr (inl q) ↦ cc (round_of r not_found q, h)
  | inr (inr (e, q)) ↦
      let p : round_ends r ≡ some (false, none) = round_of r (err e) q ∙ rw not_running refl in
      cc (p, h)
  | inl (s, q) ↦ elim (Bool-cases (s.desired_state == running)) [
    | inr b ↦
        let p : round_ends r ≡ some (false, none) = round_of r (ok s) q ∙ rw b refl in cc (p, h)
    | inl b ↦ elim (Option-cases r.ended) [
      | inl n ↦ record {
        row = s;
        read = q;
        wanted = (eq_iff s.desired_state running).0 b;
        going = n;
      }
      | inr (e, n) ↦
          let p : round_ends r ≡ some (is_some e, e) = round_of r (ok s) q ∙ rw (b, n) refl in
          cc (p, h)
    ]
  ]
]

pub quiet_none : (r : Round) → IsQuiet r → round_ends r ≡ none
unfolding round_ends
quiet_none r q = rw (q.read, q.wanted, q.going, (eq_iff running running).1 refl) refl

pub await_sync-Decided :
    (rs : List Round) (result : Bool × Option String)
    → await_sync rs ≡ some result
    → Decided rs result
unfolding await_sync
await_sync-Decided [] result h = cc h
await_sync-Decided (r ∷ rs) result h = elim (Option-cases (round_ends r)) [
  | inl n ↦
      let d = await_sync-Decided rs result (rw (n, await_sync) at h) in
      record {
        before = r ∷ d.before;
        decisive = d.decisive;
        later = d.later;
        split = ap (λ xs. r ∷ xs) d.split;
        quiet = (round_ends-IsQuiet r n, d.quiet);
        decides = d.decides;
      }
  | inr (x, e) ↦
      let same : some x ≡ some result = rw (e, await_sync) at h in
      record {
        before = [];
        decisive = r;
        later = rs;
        split = refl;
        quiet = tt;
        decides = round_ends-Decides r result (e ∙ same);
      }
]
