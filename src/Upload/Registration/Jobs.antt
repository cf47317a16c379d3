-- ===== src/Upload/Registration/Jobs.antt =====
-- The replica jobs of an upload are the plan's replicas.
use mathlib.Core.List.{append_assoc}
use c_stateless_relay_tran.Base.{
  ℕ, suc, ◌+◌, ◌≡◌, refl, String, some, List, [], ◌∷◌, ◌++◌, map, length, length-append, get_elem?,
  arith, ◌∙◌, All, All-append,
}
use c_stateless_relay_tran.Base.StringMap
use c_stateless_relay_tran.Registry.Endpoints.{ReplicaUploadTarget}
use c_stateless_relay_tran.Upload.Blocks.{UploadMap}
use c_stateless_relay_tran.Upload.Registration.{
  UploadRoutePlan, ReplicaReplicationJob, replica_job, targets_of, collect_replica_jobs,
}

-- A job that copies the block of an entry, by its token, to the relay and the endpoint of a replica that
-- the plan has for this token.
abbrev pub IsPlanned : UploadMap → UploadRoutePlan → ReplicaReplicationJob → Type 0
IsPlanned uploads plan job =
    (i j : ℕ) × (target : ReplicaUploadTarget) × (get_elem? uploads i ≡ some (job.token, job.blob))
    × (get_elem? (targets_of (StringMap.get job.token plan.replicas)) j ≡ some target)
    × (job.relay_id ≡ target.relay_id)
    × (job.endpoint ≡ target.endpoint)

-- The replicas that the plan has for the entries.
abbrev pub replica_count : UploadMap → UploadRoutePlan → ℕ
replica_count [] plan = 0
replica_count ((token, blob) ∷ uploads) plan =
    length (targets_of (StringMap.get token plan.replicas)) + replica_count uploads plan

All-weaken {ℓ} :
    {A : Type ℓ} (P Q : A → Type 0) (xs : List A) → ((x : A) → P x → Q x) → All P xs → All Q xs
All-weaken P Q [] f h = tt
All-weaken P Q (x ∷ xs) f h = (f x h.0, All-weaken P Q xs f h.1)

length-map {ℓ κ} :
    {A : Type ℓ} {B : Type κ} (f : A → B) (xs : List A) → length (map f xs) ≡ length xs
length-map f [] = refl
length-map f (x ∷ xs) = omega (arith, length-map f xs)

get-append {ℓ} :
    {A : Type ℓ} (before : List A) (x : A) (after : List A)
    → get_elem? (before ++ x ∷ after) (length before) ≡ some x
get-append [] x after = refl
get-append (y ∷ before) x after = get-append before x after

module _ (uploads : UploadMap) (plan : UploadRoutePlan) (token : String) (blob : List ℕ) where
  first_jobs :
      (before targets : List ReplicaUploadTarget)
      → targets_of (StringMap.get token plan.replicas) ≡ before ++ targets
      → All (IsPlanned ((token, blob) ∷ uploads) plan) (map (replica_job token blob) targets)
  first_jobs before [] e = tt
  first_jobs before (target ∷ targets) e = (
    (0, length before, target, refl, rw e (get-append before target targets), refl, refl),
    first_jobs (before ++ target ∷ []) targets (rw append_assoc e),
  )

jobs-IsPlanned :
    (uploads : UploadMap) (plan : UploadRoutePlan)
    → All (IsPlanned uploads plan) (collect_replica_jobs uploads plan)
      × (length (collect_replica_jobs uploads plan) ≡ replica_count uploads plan)
unfolding collect_replica_jobs
jobs-IsPlanned [] plan = (tt, refl)
jobs-IsPlanned ((token, blob) ∷ uploads) plan =
    let (each, counted) = jobs-IsPlanned uploads plan in
    let targets = targets_of (StringMap.get token plan.replicas) in
    (
      All-append (IsPlanned ((token, blob) ∷ uploads) plan) (map (replica_job token blob) targets) _
          (first_jobs uploads plan token blob [] targets refl)
          (All-weaken (IsPlanned uploads plan) (IsPlanned ((token, blob) ∷ uploads) plan) _
            (λ job (i, j, target, a, b, c, d). (suc i, j, target, a, b, c, d)) each),
      omega (
        arith,
        counted,
        length-map (replica_job token blob) targets,
        length-append (map (replica_job token blob) targets) (collect_replica_jobs uploads plan),
      ),
    )

-- One of the jobs copies this block, under this token, to this replica.
abbrev pub IsCopied : List ReplicaReplicationJob → String → List ℕ → ReplicaUploadTarget → Type 0
IsCopied jobs token blob target =
    (k : ℕ) × (job : ReplicaReplicationJob) × (get_elem? jobs k ≡ some job)
    × (job.token ≡ token)
    × (job.blob ≡ blob)
    × (job.relay_id ≡ target.relay_id)
    × (job.endpoint ≡ target.endpoint)

-- Every replica that the plan has for an entry gets its block.
abbrev pub AllCopied : UploadRoutePlan → List ReplicaReplicationJob → UploadMap → Type 0
AllCopied plan jobs [] = Unit
AllCopied plan jobs ((token, blob) ∷ uploads) =
    All (IsCopied jobs token blob) (targets_of (StringMap.get token plan.replicas))
    × AllCopied plan jobs uploads

get-behind {ℓ} :
    {A : Type ℓ} (before after : List A) (k : ℕ)
    → get_elem? (before ++ after) (length before + k) ≡ get_elem? after k
get-behind [] after k = let same : 0 + k ≡ k = omega arith in rw same refl
get-behind (x ∷ before) after k =
    let up : suc (length before) + k ≡ suc (length before + k) = omega arith in
    rw up (get-behind before after k)

behind-AllCopied :
    (plan : UploadRoutePlan) (before after : List ReplicaReplicationJob) (uploads : UploadMap)
    → AllCopied plan after uploads
    → AllCopied plan (before ++ after) uploads
behind-AllCopied plan before after [] copied = tt
behind-AllCopied plan before after ((token, blob) ∷ uploads) (first, rest) = (
  All-weaken (IsCopied after token blob) (IsCopied (before ++ after) token blob) _
      (λ target (k, job, e, a, b, c, d).
        (length before + k, job, get-behind before after k ∙ e, a, b, c, d))
      first,
  behind-AllCopied plan before after uploads rest,
)

first-IsCopied :
    (token : String) (blob : List ℕ) (before after : List ReplicaReplicationJob)
    (targets : List ReplicaUploadTarget)
    → All (IsCopied (before ++ (map (replica_job token blob) targets ++ after)) token blob) targets
first-IsCopied token blob before after [] = tt
first-IsCopied token blob before after (target ∷ targets) =
    let job = replica_job token blob target in
    let rest = map (replica_job token blob) targets ++ after in
    let next = first-IsCopied token blob (before ++ job ∷ []) after targets in
    let same = append_assoc before (job ∷ []) rest in
    ((length before, job, get-append before job rest, refl, refl, refl, refl), rw same at next)

jobs-AllCopied :
    (uploads : UploadMap) (plan : UploadRoutePlan)
    → AllCopied plan (collect_replica_jobs uploads plan) uploads
unfolding collect_replica_jobs
jobs-AllCopied [] plan = tt
jobs-AllCopied ((token, blob) ∷ uploads) plan =
    let targets = targets_of (StringMap.get token plan.replicas) in
    (
      first-IsCopied token blob [] (collect_replica_jobs uploads plan) targets,
      behind-AllCopied plan (map (replica_job token blob) targets)
          (collect_replica_jobs uploads plan) uploads (jobs-AllCopied uploads plan),
    )

-- Every replica that the plan has for the token of a block gets a job that copies the block, under its
-- token, to the relay and the endpoint of the replica; each job is such a one; and there are exactly as
-- many jobs as replicas for the blocks.
pub collect-AllCopied :
    (uploads : UploadMap) (plan : UploadRoutePlan)
    → AllCopied plan (collect_replica_jobs uploads plan) uploads
      × All (IsPlanned uploads plan) (collect_replica_jobs uploads plan)
      × (length (collect_replica_jobs uploads plan) ≡ replica_count uploads plan)
collect-AllCopied uploads plan =
    let (each, counted) = jobs-IsPlanned uploads plan in
    (jobs-AllCopied uploads plan, each, counted)
