-- ===== src/Resources.antt =====
-- internal/biz/resources: the resource specification that the API exposes.
pub mod Normalize
pub mod Settled
pub mod Entries
pub mod Aggregate
pub mod Scaled
pub mod Demanded
pub mod Counted
use ani_inference_service.Prelude.{String, ℕ, Option, List}
use ani_inference_service.Gpu.{GpuRequest}

-- `Spec`. A Go map is the list of its entries, each key once.
pub record Spec : Type 0 where
  pub requests : List (String × String)
  pub limits : List (String × String)
  pub gpu : Option GpuRequest

-- `Demand`.
pub record Demand : Type 0 where
  pub resources : Spec
  pub units : ℕ
