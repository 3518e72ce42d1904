-- ===== src/AppStudio/Claims/Finalizers.antt =====
-- The finalizers of deploymenttargetclaim_controller.go.
use managed_gitops.Base.{
  ◌+◌, ◌≡◌, refl, true, List, [], ◌∷◌, ◌++◌, ◌&&◌, not, String, ◌==◌, eq_iff, eq_refl, arith, bit,
  occurs, occurs-append, ltb,
}
use managed_gitops.AppStudio.Claims.{has_finalizer, add_finalizer, remove_finalizer}

has_finalizer-occurs : (f : String) (fs : List String) → has_finalizer f fs ≡ ltb 0 (occurs f fs)
unfolding has_finalizer occurs
has_finalizer-occurs f [] = refl
has_finalizer-occurs f (x ∷ xs) = ground (arith, has_finalizer-occurs f xs)

-- addFinalizer makes the finalizer occur if it did not, keeps every other finalizer as often as
-- it was, and reports a change exactly when the finalizer was absent.
pub add_finalizer-occurs :
    (f g : String) (fs : List String)
    → let (changed, gs) = add_finalizer f fs in
      (changed ≡ not (ltb 0 (occurs f fs)))
      × (occurs g gs ≡ occurs g fs + bit (changed && (f == g)))
unfolding add_finalizer occurs
add_finalizer-occurs f g fs = ground (arith, has_finalizer-occurs f fs, occurs-append g fs (f ∷ []))

-- removeFinalizer takes one occurrence of the finalizer away, if there is one, keeps every other
-- finalizer as often as it was, and reports exactly whether it removed one.
pub remove_finalizer-occurs :
    (f g : String) (fs : List String)
    → let (changed, gs) = remove_finalizer f fs in
      (changed ≡ ltb 0 (occurs f fs)) × (occurs g fs ≡ occurs g gs + bit (changed && (f == g)))
unfolding remove_finalizer occurs
remove_finalizer-occurs f g [] = ground arith
remove_finalizer-occurs f g (x ∷ xs) =
    ground (arith, remove_finalizer-occurs f g xs, eq_iff x f, eq_iff f g, eq_iff x g)

remove_append :
    (f : String) (fs : List String)
    → occurs f fs ≡ 0
    → remove_finalizer f (fs ++ (f ∷ [])) ≡ (true, fs)
unfolding remove_finalizer occurs
remove_append f [] h = ground (arith, eq_refl f)
remove_append f (x ∷ xs) h = ground (arith, remove_append f xs)

-- Removing a finalizer that addFinalizer has just added restores the list.
pub remove_finalizer-add_finalizer :
    (f : String) (fs : List String)
    → (add_finalizer f fs).0 ≡ true
    → remove_finalizer f (add_finalizer f fs).1 ≡ (true, fs)
unfolding add_finalizer
remove_finalizer-add_finalizer f fs h =
    ground (arith, has_finalizer-occurs f fs, remove_append f fs)
