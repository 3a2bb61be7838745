-- ===== src/Controllers/Completion/Tallies.antt =====
-- The loops of controllers/completion.go that count the elements of a list.
use cnsbench.Prelude.{
  ◌+◌, ◌≡◌, refl, Bool, false, none, some, List, [], ◌∷◌, all, All, length, count_if, nat_beq,
  nat_eq, string_eq, ◌==◌, ◌&&◌, ltb, lt→ltb, leb, not, ap, arith, ◌≢◌, ◌∙◌,
}
use cnsbench.Exec.{ok}
use cnsbench.Kube.{ContainerStatus, PodInfo, JobInfo}
use cnsbench.Controllers.Completion.{Tally, tick, tally_by, restarted, tally_jobs}

-- `tally_by` adds the elements that pass to one count and the others to the other.
pub tally_by-count :
    {A : Type 0} (done : A → Bool) (xs : List A) (t : Tally)
    → tally_by done xs t ≡ record {
      complete = t.complete + count_if done xs;
      notcomplete = t.notcomplete + count_if (λ x. not (done x)) xs;
    }
unfolding tally_by
tally_by-count done [] t = ground arith
tally_by-count done (x ∷ xs) t = ground (arith, tally_by-count done xs (tick (done x) t))

-- The test of a job that is complete; a job without `completions` is not reached.
abbrev pub job_done : JobInfo → Bool
job_done job = elim job.completions [ none ↦ false | some n ↦ leb n job.succeeded ]

abbrev pub HasCompletions : JobInfo → Type 0
HasCompletions job = job.completions ≢ none

-- A pod whose containers, of which there is one at least, have all restarted.
abbrev pub is_restarted : PodInfo → Bool
is_restarted pod = elim pod.container_statuses [
  | [] ↦ false
  | c ∷ cs ↦ all (λ (c : ContainerStatus). ltb 0 c.restart_count) (c ∷ cs)
]

restarts-all :
    (cs : List ContainerStatus)
    → all (λ c. not (c.restart_count == 0)) cs ≡ all (λ c. ltb 0 c.restart_count) cs
restarts-all [] = refl
restarts-all (c ∷ cs) = ground (arith, restarts-all cs)

restarted-is_restarted : (pod : PodInfo) → restarted pod ≡ is_restarted pod
unfolding restarted
restarted-is_restarted pod = go pod.container_statuses
  where
    go :
        (cs : List ContainerStatus)
        → (ltb 0 (length cs) && all (λ c. not (c.restart_count == 0)) cs) ≡ elim cs [
          | [] ↦ false
          | c ∷ cs' ↦ all (λ (c : ContainerStatus). ltb 0 c.restart_count) (c ∷ cs')
        ]
    go [] = refl
    go (c ∷ cs) =
        ap (λ b. b && all (λ c'. not (c'.restart_count == 0)) (c ∷ cs))
          (lt→ltb 0 (length (c ∷ cs)) (omega arith))
        ∙ restarts-all (c ∷ cs)

pub all-restarted : (pods : List PodInfo) → all restarted pods ≡ all is_restarted pods
all-restarted [] = refl
all-restarted (pod ∷ pods) = rw (restarted-is_restarted pod, all-restarted pods) refl

pub tally_jobs-count :
    (jobs : List JobInfo) (t : Tally)
    → All HasCompletions jobs
    → tally_jobs jobs t ≡ ok (tally_by job_done jobs t)
unfolding tally_jobs tally_by
tally_jobs-count [] t h = refl
tally_jobs-count (job ∷ jobs) t h =
    ground (arith, h.0, tally_jobs-count jobs (tick (job_done job) t) h.1)

pub length-ne-zero {ℓ} : {A : Type ℓ} (xs : List A) → xs ≢ [] → nat_beq (length xs) 0 ≡ false
length-ne-zero [] h = absurd (h refl)
length-ne-zero (x ∷ xs) h = ground arith
