-- ===== src/Splunk/Jobs.antt =====
-- The loop of pend_job in heimdall2-master/apps/frontend/src/utilities/splunk_util.ts.
use security_scan.Prelude.{ℕ, zero, suc, ◌+◌, ◌<◌, ◌≡◌, ◌≢◌, refl, ap, ◌∙◌, some, arith, subst}
use security_scan.Splunk.Client.{
  Settled, resolved, rejected, JobStatus, succeeded, failed, pending, pend_job,
}

module _ (check : ℕ → Settled JobStatus) where
  pend_job-pending :
      (fuel k : ℕ)
      → check k ≡ resolved pending
      → pend_job check (suc fuel) k ≡ pend_job check fuel (suc k)
  unfolding pend_job
  pend_job-pending fuel k h = rw (h, pend_job) refl

  settled_now :
      (fuel k : ℕ) (c : Settled JobStatus)
      → check k ≡ c
      → c ≢ resolved pending
      → pend_job check (suc fuel) k ≡ some c
  unfolding pend_job
  settled_now fuel k (rejected e) h n = rw (h, pend_job) refl
  settled_now fuel k (resolved succeeded) h n = rw (h, pend_job) refl
  settled_now fuel k (resolved failed) h n = rw (h, pend_job) refl
  settled_now fuel k (resolved pending) h n = absurd (n refl)

  waits_from :
      (n fuel k : ℕ)
      → ((i : ℕ) → i < n → check (k + i) ≡ resolved pending)
      → check (k + n) ≢ resolved pending
      → n < fuel
      → pend_job check fuel k ≡ some (check (k + n))
  waits_from n zero k before here f = absurd (omega (arith, f))
  waits_from zero (suc fuel) k before here f =
      settled_now fuel k (check (k + 0)) (ap check (omega arith)) here
  waits_from (suc n) (suc fuel) k before here f =
      pend_job-pending fuel k
        (subst (λ i. check i ≡ resolved pending) (omega arith) (before 0 (omega arith)))
      ∙ waits_from n fuel (suc k)
          (λ i h.
            subst (λ j. check j ≡ resolved pending) (omega arith)
              (before (suc i) (omega (arith, h))))
          (subst (λ j. check j ≢ resolved pending) (omega arith) here) (omega (arith, f))
      ∙ ap (λ j. some (check j)) (omega arith)

-- The wait for a job ends with the first check that does not find it pending, be it a result or an
-- error, if there is one: one round more than the checks before it is enough.
pub pend_job_settles :
    (check : ℕ → Settled JobStatus) (n fuel : ℕ)
    → ((i : ℕ) → i < n → check i ≡ resolved pending)
    → check n ≢ resolved pending
    → n < fuel
    → pend_job check fuel 0 ≡ some (check n)
pend_job_settles check n fuel before here f =
    waits_from check n fuel 0
      (λ i h. subst (λ j. check j ≡ resolved pending) (omega arith) (before i h))
      (subst (λ j. check j ≢ resolved pending) (omega arith) here) f
    ∙ ap (λ j. some (check j)) (omega arith)
