-- ===== src/AppStudio/Claims/Matching.antt =====
-- Which target a claim is matched with: deploymenttargetclaim_controller.go.
use mathlib.Core.List.{Memᴰ}
use managed_gitops.Base.{
  ◌≡◌, ◌≢◌, refl, sym, ◌↔◌, Bool, true, false, Option, none, some, List, [], ◌∷◌, ◌||◌, ◌==◌,
  eq_iff, is_some, if◌then◌else◌, arith, inl, inr, ◌⊎◌, Bool-cases,
}
use managed_gitops.AppStudio.Claims.{
  DeploymentTargetClaim, DeploymentTarget, available, no_target_phase, check_for_binding_conflict,
  does_dt_match_dtc, matcher, first_match, Result, ok, find_matching_dt_for_dtc,
  is_marked_for_dynamic_provisioning, only_claiming, get_dt_bound_by_dtc, multiple_found,
}

-- The claim names this target, or none; the target names this claim, or none.
abbrev pub allows_target : DeploymentTargetClaim → DeploymentTarget → Bool
allows_target dtc dt = dtc.target_name == "" || dtc.target_name == dt.name

abbrev pub allows_claim : DeploymentTarget → DeploymentTargetClaim → Bool
allows_claim dt dtc = dt.claim_ref == "" || dt.claim_ref == dtc.name

-- checkForBindingConflict finds no conflict exactly when both objects allow each other, or neither
-- does.
pub check_for_binding_conflict_iff :
    (dtc : DeploymentTargetClaim) (dt : DeploymentTarget)
    → (check_for_binding_conflict dtc dt ≡ none) ↔ (allows_target dtc dt ≡ allows_claim dt dtc)
unfolding check_for_binding_conflict
check_for_binding_conflict_iff dtc dt = (λ h. ground arith, λ h. ground arith)

-- The conditions of a match.
pub record IsMatch (dt : DeploymentTarget) (dtc : DeploymentTargetClaim) : Type 0 where
  pub claim : allows_claim dt dtc ≡ true
  pub target : allows_target dtc dt ≡ true
  pub class : dt.deployment_target_class_name ≡ dtc.deployment_target_class_name
  pub phase : (dt.phase ≡ available) ⊎ (dt.phase ≡ no_target_phase)
  pub credentials : dt.has_cluster_credentials ≡ true

-- doesDTMatchDTC reports no error exactly when the target names this claim or none, the claim
-- names this target or none, the classes are equal, the target is available or has no phase yet,
-- and it has cluster credentials.
pub does_dt_match_dtc_iff :
    (dt : DeploymentTarget) (dtc : DeploymentTargetClaim)
    → (does_dt_match_dtc dt dtc ≡ none) ↔ IsMatch dt dtc
unfolding does_dt_match_dtc
does_dt_match_dtc_iff dt dtc = (
  λ h. ground (arith, eq_iff dt.deployment_target_class_name dtc.deployment_target_class_name),
  λ h. ground (arith, eq_iff dt.deployment_target_class_name dtc.deployment_target_class_name),
)

matcher-IsMatch :
    (dt : DeploymentTarget) (dtc : DeploymentTargetClaim)
    → matcher dtc dt ≡ true
    → IsMatch dt dtc
      × ((is_marked_for_dynamic_provisioning dtc ≡ false) ⊎ (dt.claim_ref ≡ dtc.name))
unfolding matcher
matcher-IsMatch dt dtc h =
    let e : does_dt_match_dtc dt dtc ≡ none = ground arith in
    ((does_dt_match_dtc_iff dt dtc).0 e, ground (arith, eq_iff dt.claim_ref dtc.name))

first_match_sound :
    (dtc : DeploymentTargetClaim) (dts : List DeploymentTarget) (dt : DeploymentTarget)
    → first_match dtc dts ≡ some dt
    → Memᴰ dt dts × (matcher dtc dt ≡ true)
unfolding first_match
first_match_sound dtc [] dt h = cc
first_match_sound dtc (d ∷ dts) dt h = elim (Bool-cases (matcher dtc d)) [
  | inl b ↦ let e : d ≡ dt = ground arith in (Memᴰ.head (sym e), rw (← e) b)
  | inr b ↦ let (m, c) = first_match_sound dtc dts dt (ground arith) in (Memᴰ.tail m, c)
]

-- The target that findMatchingDTForDTC finds is one of the list and matches the claim; if the
-- claim is marked for dynamic provisioning, it names the claim.
pub find_matching_dt_for_dtc_sound :
    (dtc : DeploymentTargetClaim) (dts : List DeploymentTarget) (dt : DeploymentTarget)
    → find_matching_dt_for_dtc (ok dts) dtc ≡ ok (some dt)
    → Memᴰ dt dts
      × IsMatch dt dtc
      × ((is_marked_for_dynamic_provisioning dtc ≡ false) ⊎ (dt.claim_ref ≡ dtc.name))
unfolding find_matching_dt_for_dtc
find_matching_dt_for_dtc_sound dtc dts dt h =
    let (m, b) = first_match_sound dtc dts dt (cc h) in
    let (i, c) = matcher-IsMatch dt dtc b in (m, i, c)

first_match_complete :
    (dtc : DeploymentTargetClaim) (dts : List DeploymentTarget) (dt : DeploymentTarget)
    → first_match dtc dts ≡ none
    → Memᴰ dt dts
    → matcher dtc dt ≡ false
unfolding first_match
first_match_complete dtc [] dt h m = elim m [ ]
first_match_complete dtc (d ∷ dts) dt h (Memᴰ.head e) = rw e (ground arith)
first_match_complete dtc (d ∷ dts) dt h (Memᴰ.tail m) =
    first_match_complete dtc dts dt (ground arith) m

unmet :
    (dt : DeploymentTarget) (dtc : DeploymentTargetClaim)
    → IsMatch dt dtc
    → is_some (does_dt_match_dtc dt dtc) ≡ true
    → ⊥
unmet dt dtc i h = let e = (does_dt_match_dtc_iff dt dtc).1 i in ground arith

unmatched :
    (marked : Bool) (dt : DeploymentTarget) (dtc : DeploymentTargetClaim)
    → is_marked_for_dynamic_provisioning dtc ≡ marked
    → matcher dtc dt ≡ false
    → (¬ IsMatch dt dtc) ⊎ ((marked ≡ true) × (dt.claim_ref ≢ dtc.name))
unfolding matcher
unmatched false dt dtc h f = inl (λ i. unmet dt dtc i (ground arith))
unmatched true dt dtc h f = elim (Bool-cases (dt.claim_ref == dtc.name)) [
  | inl b ↦ inl (λ i. unmet dt dtc i (ground arith))
  | inr b ↦ inr (refl, λ e. cc ((eq_iff dt.claim_ref dtc.name).1 e))
]

-- If findMatchingDTForDTC finds no target in the list, then none of the list matches the claim,
-- or the claim is marked for dynamic provisioning and the target that matches does not name it.
pub find_matching_dt_for_dtc_complete :
    (dtc : DeploymentTargetClaim) (dts : List DeploymentTarget) (dt : DeploymentTarget)
    → find_matching_dt_for_dtc (ok dts) dtc ≡ ok none
    → Memᴰ dt dts
    → (¬ IsMatch dt dtc)
      ⊎ ((is_marked_for_dynamic_provisioning dtc ≡ true) × (dt.claim_ref ≢ dtc.name))
unfolding find_matching_dt_for_dtc matcher
find_matching_dt_for_dtc_complete dtc dts dt h m =
    unmatched (is_marked_for_dynamic_provisioning dtc) dt dtc refl
      (first_match_complete dtc dts dt (cc h) m)

-- The targets of the list that name the claim.
abbrev pub claiming : DeploymentTargetClaim → List DeploymentTarget → List DeploymentTarget
claiming dtc [] = []
claiming dtc (dt ∷ dts) =
    if dt.claim_ref == dtc.name then dt ∷ claiming dtc dts else claiming dtc dts

-- None of them, the only one, or the error that there are several.
abbrev pub the_only : List DeploymentTarget → Result (Option DeploymentTarget)
the_only [] = ok none
the_only (dt ∷ []) = ok (some dt)
the_only (dt ∷ dt' ∷ dts) = multiple_found

abbrev joined : Option (Option DeploymentTarget) → Result (Option DeploymentTarget)
joined none = multiple_found
joined (some found) = ok found

only_claiming-found :
    (dtc : DeploymentTargetClaim) (dt : DeploymentTarget) (dts : List DeploymentTarget)
    → joined (only_claiming dtc (some dt) dts) ≡ the_only (dt ∷ claiming dtc dts)
unfolding only_claiming
only_claiming-found dtc dt [] = refl
only_claiming-found dtc dt (d ∷ dts) = ground (arith, only_claiming-found dtc dt dts)

only_claiming-the_only :
    (dtc : DeploymentTargetClaim) (dts : List DeploymentTarget)
    → joined (only_claiming dtc none dts) ≡ the_only (claiming dtc dts)
unfolding only_claiming
only_claiming-the_only dtc [] = refl
only_claiming-the_only dtc (d ∷ dts) =
    ground (arith, only_claiming-found dtc d dts, only_claiming-the_only dtc dts)

-- For a claim that names no target, getDTBoundByDTC answers with the one target of the namespace
-- that names the claim, with none if none does, and with an error if several do.
pub get_dt_bound_by_dtc_listed :
    (got : Result DeploymentTarget) (dtc : DeploymentTargetClaim) (dts : List DeploymentTarget)
    → dtc.target_name ≡ ""
    → get_dt_bound_by_dtc got (ok dts) dtc ≡ the_only (claiming dtc dts)
unfolding get_dt_bound_by_dtc
get_dt_bound_by_dtc_listed got dtc dts h =
    ground (arith, eq_iff dtc.target_name "", only_claiming-the_only dtc dts)
