-- ===== src/Resources/Scaled.antt =====
-- What a demand is made of.
use ani_inference_service.Prelude.{◌*◌, ℤ, subst, ◌+◌, ok, ℕ, ◌≡◌, negsuc, ◌≤◌, pos, arith}
use ani_inference_service.Gpu.Pods.{Single, by_default, by_deployment}
use ani_inference_service.Gpu.{RuntimeMode, unset_mode, deployment, leader_worker_set, other_mode}
use ani_inference_service.Resources.Aggregate.{units_of}

-- How many containers are meant, without a bound.
pub data Units : ℤ → RuntimeMode → ℤ → ℕ → Type 0 where
  alone :
      {replicas workers : ℕ} {mode : RuntimeMode}
      → Single mode
      → 1 ≤ replicas
      → workers ≤ 1
      → Units (pos replicas) mode (pos workers) replicas
  led :
      {replicas workers : ℕ}
      → 1 ≤ replicas
      → 1 ≤ workers
      → Units (pos replicas) leader_worker_set (pos workers) (replicas * (workers + 1))

units_of-alone :
    (replicas workers n : ℕ) {mode : RuntimeMode}
    → Single mode
    → units_of (pos replicas) mode (pos workers) ≡ ok n
    → Units (pos replicas) mode (pos workers) n
unfolding units_of
units_of-alone replicas workers n by_default e =
    subst (Units (pos replicas) _ (pos workers)) (ground arith)
      (alone by_default (ground arith) (ground arith))
units_of-alone replicas workers n by_deployment e =
    subst (Units (pos replicas) _ (pos workers)) (ground arith)
      (alone by_deployment (ground arith) (ground arith))

pub units_of-Units :
    (replicas workers : ℤ) (mode : RuntimeMode) (n : ℕ)
    → units_of replicas mode workers ≡ ok n
    → Units replicas mode workers n
unfolding units_of
units_of-Units (pos r) (pos w) unset_mode n e = units_of-alone r w n by_default e
units_of-Units (pos r) (pos w) deployment n e = units_of-alone r w n by_deployment e
units_of-Units (pos r) (pos w) leader_worker_set n e =
    subst (Units (pos r) leader_worker_set (pos w)) (ground arith)
      (led (ground arith) (ground arith))
units_of-Units (pos r) workers (other_mode s) n e = ground arith
units_of-Units (pos r) (negsuc w) unset_mode n e = ground arith
units_of-Units (pos r) (negsuc w) deployment n e = ground arith
units_of-Units (pos r) (negsuc w) leader_worker_set n e = ground arith
units_of-Units (negsuc r) workers mode n e = ground arith
