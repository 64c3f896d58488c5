-- ===== src/Resources/Entries.antt =====
-- The entries of a specification that `Normalize` returns.
use ani_inference_service.Names.{contains, sort}
use ani_inference_service.Prelude.{if◌then◌else◌, [], none, String, List, ◌≡◌}
use ani_inference_service.Resources.{Spec}
use ani_inference_service.Resources.Normalize.{Quantities, lookup, add_keys}
use ani_inference_service.Resources.Settled.{Entry, printed}

abbrev Entries : Type 0
Entries = List (String × String)

module _ (q : Quantities) (s : Spec) where
  -- What stands under a name once the loop is over the names.
  Stands : String → Entry q → List String → Entries × Entries → Type 0
  Stands m e names es =
      (lookup m es.0 ≡ (if contains m names then printed q e.0 else none))
      × (lookup m es.1 ≡ (if contains m names then printed q e.1 else none))

  -- The names that the loop goes over.
  keys : List String
  keys = sort (add_keys s.limits (add_keys s.requests []))
