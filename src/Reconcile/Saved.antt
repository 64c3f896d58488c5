-- ===== src/Reconcile/Saved.antt =====
-- What a successful reconciliation of internal/biz/reconcile/reconcile.go has done.
use ani_inference_service.Prelude.{◌≡◌, ok, true}
use ani_inference_service.Reconcile.{Ports, Desired, Observation, is_same}
use ani_inference_service.Runner.State.{Item}

module _ {S : Type 0} (ports : Ports S) where
  -- The runtime was ensured for the desired state that the lease protects, what it returned is of
  -- the item's generation, and saving it for the item is the last thing that happened.
  abbrev pub Observed : Item → S → S → Type 0
  Observed item s end =
      (desired : Desired) × (observation : Observation) × ((ports.current_for_work item s).0
        ≡ ok desired)
      × (is_same item desired ≡ true)
      × ((ports.ensure desired (ports.current_for_work item s).1).0 ≡ ok observation)
      × (observation.generation ≡ item.generation)
      × (ports.save_observation_for_work item observation
            (ports.ensure desired (ports.current_for_work item s).1).1
          ≡ (ok tt, end))
