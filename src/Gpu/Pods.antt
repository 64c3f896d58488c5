-- ===== src/Gpu/Pods.antt =====
-- `TotalPods` (internal/biz/gpu/gpu.go) and what it stands for.
use ani_inference_service.Prelude.{ℕ, ok, ◌+◌, ◌*◌, ◌≤◌, pos, ◌≡◌, arith, ℤ, negsuc, ◌↔◌, subst}
use ani_inference_service.Gpu.{
  total_pods, pods_by_mode, no_workers, leader_worker_pods, max_int32, RuntimeMode, unset_mode,
  deployment, leader_worker_set,
}
use ani_inference_service.Gpu.{other_mode}

-- Modes without workers of their own.
pub data Single : RuntimeMode → Type 0 where
  by_default : Single unset_mode
  by_deployment : Single deployment

-- The Pods of `replicas` replicas in a mode: one each, where no worker or one is named, or a leader
-- with at least one worker, as long as int32 holds their number.
pub data Pods : ℤ → RuntimeMode → ℤ → ℕ → Type 0 where
  single :
      {replicas workers : ℕ} {mode : RuntimeMode}
      → Single mode
      → 1 ≤ replicas
      → workers ≤ 1
      → Pods (pos replicas) mode (pos workers) replicas
  groups :
      {replicas workers : ℕ}
      → 1 ≤ replicas
      → 1 ≤ workers
      → replicas * (workers + 1) ≤ max_int32
      → Pods (pos replicas) leader_worker_set (pos workers) (replicas * (workers + 1))

-- The code counts the Pods that are meant, and fails otherwise.
pub Pods-total_pods :
    {replicas workers : ℤ} {mode : RuntimeMode} {n : ℕ}
    → Pods replicas mode workers n
    → total_pods replicas mode workers ≡ ok n
unfolding total_pods pods_by_mode no_workers leader_worker_pods
Pods-total_pods (single by_default r w) = ground arith
Pods-total_pods (single by_deployment r w) = ground arith
Pods-total_pods (groups r w m) = ground arith

single-parts :
    (replicas workers n : ℕ)
    → total_pods (pos replicas) deployment (pos workers) ≡ ok n
    → (1 ≤ replicas) × (workers ≤ 1) × (replicas ≡ n)
unfolding total_pods pods_by_mode no_workers
single-parts replicas workers n e = (ground arith, ground arith, ground arith)

groups-parts :
    (replicas workers n : ℕ)
    → total_pods (pos replicas) leader_worker_set (pos workers) ≡ ok n
    → (1 ≤ replicas)
      × (1 ≤ workers)
      × (replicas * (workers + 1) ≤ max_int32)
      × (replicas * (workers + 1) ≡ n)
unfolding total_pods pods_by_mode leader_worker_pods
groups-parts replicas workers n e = (ground arith, ground arith, ground arith, ground arith)

total_pods-Single :
    (replicas workers n : ℕ) {mode : RuntimeMode}
    → Single mode
    → total_pods (pos replicas) deployment (pos workers) ≡ ok n
    → Pods (pos replicas) mode (pos workers) n
total_pods-Single replicas workers n m e =
    let (r, w, same) = single-parts replicas workers n e in
    subst (Pods (pos replicas) _ (pos workers)) same (single m r w)

total_pods-Pods :
    (replicas workers : ℤ) (mode : RuntimeMode) (n : ℕ)
    → total_pods replicas mode workers ≡ ok n
    → Pods replicas mode workers n
unfolding total_pods pods_by_mode no_workers leader_worker_pods
total_pods-Pods (pos r) (pos w) unset_mode n e = total_pods-Single r w n by_default e
total_pods-Pods (pos r) (pos w) deployment n e = total_pods-Single r w n by_deployment e
total_pods-Pods (pos r) (pos w) leader_worker_set n e =
    let (a, b, c, same) = groups-parts r w n e in
    subst (Pods (pos r) leader_worker_set (pos w)) same (groups a b c)
total_pods-Pods (pos r) workers (other_mode s) n e = ground arith
total_pods-Pods (pos r) (negsuc w) unset_mode n e = ground arith
total_pods-Pods (pos r) (negsuc w) deployment n e = ground arith
total_pods-Pods (pos r) (negsuc w) leader_worker_set n e = ground arith
total_pods-Pods (negsuc r) workers mode n e = ground arith

-- The code counts a number of Pods exactly where the replicas are positive and either the mode
-- takes no workers, at most one is named, and the number is that of the replicas; or the mode is
-- leader and workers, at least one is named, and int32 holds the replicas times one more than the
-- workers, which is the number.
pub total_pods_iff :
    (replicas workers : ℤ) (mode : RuntimeMode) (n : ℕ)
    → (total_pods replicas mode workers ≡ ok n) ↔ Pods replicas mode workers n
total_pods_iff replicas workers mode n =
    (total_pods-Pods replicas workers mode n, λ p. Pods-total_pods p)
