-- ===== src/Gpu/Proof.antt =====
-- `NewReleaseProof` (internal/biz/gpu/release.go). The hashes and the JSON encoding are parameters.
use ani_inference_service.Prelude.{
  if◌then◌else◌, or_fail, less, List, [], ok, ◌>>=◌, Result, ◌∷◌, String, Option, Bool, ◌>>◌,
}
use Prim.Native.String.{◌++◌ as ◌&◌}
use ani_inference_service.Gpu.Release.{
  ReleaseProofInput, validate_release_proof_input, ReleaseError, marshal_failed,
}
use ani_inference_service.Runner.State.{PodRef}

pub record ReleaseProof : Type 0 where
  pub evidence_id : String
  pub evidence_digest : String

-- `json.Marshal` of the input, `sha256.Sum256` with `hex.EncodeToString`, and `uuid.NewSHA1` of the URL
-- name space.
pub record Hashes : Type 0 where
  pub marshal : ReleaseProofInput → Option String
  pub sha256_hex : String → String
  pub sha1_uuid : String → String

-- `sort.Slice` by UID.
unfoldable pub insert_pod : PodRef → List PodRef → List PodRef
unfolding less
insert_pod p [] = p ∷ []
insert_pod p (q ∷ qs) =
    let rest = insert_pod p qs in if less p.uid q.uid then p ∷ q ∷ qs else q ∷ rest

unfoldable pub sort_pods : List PodRef → List PodRef
unfolding insert_pod
sort_pods [] = []
sort_pods (p ∷ ps) = insert_pod p (sort_pods ps)

module _ (hashes : Hashes) (is_rfc3339 : String → Bool) where
  abbrev pub proof_of : ReleaseProofInput → String → ReleaseProof
  proof_of i payload = record {
    evidence_id =
        hashes.sha1_uuid ("ani-inference/managed-gpu-release-proof/" & i.delete_operation_id);
    evidence_digest = "sha256:" & hashes.sha256_hex payload;
  }

  unfoldable pub new_release_proof : ReleaseProofInput → Result ReleaseError ReleaseProof
  unfolding validate_release_proof_input sort_pods
  new_release_proof i = do
    validate_release_proof_input is_rfc3339 i
    payload ← or_fail (hashes.marshal (record i { pods = sort_pods i.pods })) marshal_failed
    ok (proof_of i payload)
