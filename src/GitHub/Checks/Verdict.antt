-- ===== src/GitHub/Checks/Verdict.antt =====
-- The verdict on a pull request, read off the checks themselves.
use one_dev_army.Common.{
  ◌+◌, ◌≡◌, refl, true, ◌&&◌, ◌||◌, List, [], ◌∷◌, ◌++◌, String, if◌then◌else◌, arith, length,
  length-append, any, all,
}
use one_dev_army.GitHub.Checks.{
  PrCheck, Status, pass, fail, pending, Tally, is_completed, is_failure, tally, start, has_failures,
  get_pr_checks, count_check,
}

has_failures-append : (xs : List String) (x : String) → has_failures (xs ++ x ∷ []) ≡ true
has_failures-append [] x = refl
has_failures-append (y ∷ xs) x = refl

-- What the loop adds to a tally.
tally-all_complete :
    (cs : List PrCheck) (t : Tally)
    → (tally cs t).all_complete ≡ (t.all_complete && all is_completed cs)
unfolding tally
tally-all_complete [] t = ground arith
tally-all_complete (c ∷ cs) t = ground (arith, tally-all_complete cs (count_check c t))

tally-failed :
    (cs : List PrCheck) (t : Tally)
    → has_failures (tally cs t).failed_names ≡ (has_failures t.failed_names || any is_failure cs)
unfolding tally
tally-failed [] t = ground arith
tally-failed (c ∷ cs) t =
    ground (arith, tally-failed cs (count_check c t), has_failures-append t.failed_names c.name)

tally-count :
    (cs : List PrCheck) (t : Tally)
    → (tally cs t).completed_count + length (tally cs t).pending_names
      ≡ t.completed_count + length t.pending_names + length cs
unfolding tally
tally-count [] t = omega arith
tally-count (c ∷ cs) t =
    ground (arith, tally-count cs (count_check c t), length-append t.pending_names (c.name ∷ []))

-- The verdict as the checks say it: nothing is decided while there is no check or one still runs;
-- then one conclusion FAILURE fails the whole, and every other conclusion passes.
abbrev pub verdict : List PrCheck → Status
verdict [] = pending
verdict (c ∷ cs) =
    if all is_completed (c ∷ cs) then (if any is_failure (c ∷ cs) then fail else pass) else pending

-- `GetPRChecks` gives that verdict, and the counts of a pending result with checks add up to the
-- number of checks.
pub get_pr_checks-verdict :
    (failure_logs : List String → List String → String) (cs : List PrCheck)
    → let r = get_pr_checks failure_logs cs in
      (r.status ≡ verdict cs) × (r.completed_count + length r.pending_checks ≡ r.total_count)
unfolding get_pr_checks
get_pr_checks-verdict failure_logs [] = (refl, refl)
get_pr_checks-verdict failure_logs (c ∷ cs) = ground (
  arith,
  tally-all_complete (c ∷ cs) start,
  tally-failed (c ∷ cs) start,
  tally-count (c ∷ cs) start,
)
