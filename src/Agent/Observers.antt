-- ===== src/Agent/Observers.antt =====
-- apps/agent/src/MultiUserSessionManager.h: who watches a session.
use remote_access_platform.Prelude.{
  ℕ, ◌+◌, ◌≡◌, ◌≢◌, inl, inr, refl, ap₂, ◌∙◌, List, [], ◌∷◌, ◌++◌, Bool, All, length, length-append,
  if◌then◌else◌, same, same_iff, arith, Bool-cases,
}
use mathlib.Core.List.{append-nil}

pub record SessionObserver : Type 0 where
  pub observer_id : List ℕ
  pub ip_address : List ℕ
  pub is_controller : Bool

unfoldable pub add_observer : List ℕ → List ℕ → Bool → List SessionObserver → List SessionObserver
add_observer observer_id ip_address is_controller observers =
    observers
    ++ (record { observer_id = observer_id; ip_address = ip_address; is_controller = is_controller }
        ∷ [])

unfoldable pub remove_observer : List ℕ → List SessionObserver → List SessionObserver
remove_observer observer_id [] = []
remove_observer observer_id (obs ∷ observers) =
    let rest = remove_observer observer_id observers in
    if same obs.observer_id observer_id then rest else obs ∷ rest

unfoldable pub observer_count : List SessionObserver → ℕ
observer_count observers = length observers

-- A list of observers without an id.
abbrev pub Without : List ℕ → List SessionObserver → Type 0
Without id = All (λ obs. obs.observer_id ≢ id)

remove_observer-Without :
    (id : List ℕ) (os : List SessionObserver) → Without id (remove_observer id os)
unfolding remove_observer
remove_observer-Without id [] = tt
remove_observer-Without id (o ∷ os) = elim (Bool-cases (same o.observer_id id)) [
  | inl e ↦ rw e (remove_observer-Without id os)
  | inr e ↦ rw e ((λ h. cc (e, (same_iff o.observer_id id).1 h)), remove_observer-Without id os)
]

remove_observer_absent :
    (id : List ℕ) (os : List SessionObserver) → Without id os → remove_observer id os ≡ os
unfolding remove_observer
remove_observer_absent id [] h = refl
remove_observer_absent id (o ∷ os) h =
    ground (arith, same_iff o.observer_id id, h.0, remove_observer_absent id os h.1)

remove_observer-append :
    (id : List ℕ) (os ps : List SessionObserver)
    → remove_observer id (os ++ ps) ≡ remove_observer id os ++ remove_observer id ps
unfolding remove_observer
remove_observer-append id [] ps = refl
remove_observer-append id (o ∷ os) ps = ground (arith, remove_observer-append id os ps)

-- If nobody with an id is on the list, adding somebody with it counts one more, and removing the id
-- again leaves the list as it was; whatever the list, nobody with the id is left after a removal.
remove_observer-add_observer :
    (id ip : List ℕ) (is_controller : Bool) (os : List SessionObserver)
    → Without id os
    → (observer_count (add_observer id ip is_controller os) ≡ observer_count os + 1)
      × (remove_observer id (add_observer id ip is_controller os) ≡ os)
      × Without id (remove_observer id (add_observer id ip is_controller os))
unfolding add_observer observer_count
remove_observer-add_observer id ip is_controller os h =
    let new : SessionObserver = record {
      observer_id = id;
      ip_address = ip;
      is_controller = is_controller;
    } in
    let gone : remove_observer id (new ∷ []) ≡ [] =
      unfold remove_observer in ground (arith, same_iff id id) in
    (
      omega (arith, length-append os (new ∷ [])),
      remove_observer-append id os (new ∷ [])
          ∙ ap₂ ◌++◌ (remove_observer_absent id os h) gone
          ∙ append-nil os,
      remove_observer-Without id (os ++ (new ∷ [])),
    )
