-- ===== src/Mvp/Orchestrator/Selection/Choice.antt =====
-- What a round of the orchestrator picks up.
use one_dev_army.Common.{
  ℕ, ◌<◌, ◌≡◌, refl, ap, ◌==◌, Bool, true, false, not, ◌&&◌, Option, none, some, List, [], ◌∷◌,
  ◌++◌, if◌then◌else◌, arith, first, select, sym, is_empty, ◌∙◌, All, Option-cases, inl, inr,
}
use mathlib.Core.List.{append-nil, append_assoc}
use one_dev_army.Common.Text.{equal_fold}
use one_dev_army.GitHub.Issue.{Issue}
use one_dev_army.Mvp.Orchestrator.{Orchestrator, get_stage_label, is_worker_stage}
use one_dev_army.Mvp.Orchestrator.Selection.{
  is_backlog_stage, Sorted, is_none, sort_issue, classify, answered, pick_next_ticket, auto_pick,
  manual_pick, or_else, empty, choose, pick_issue,
}

-- An open issue that waits in the backlog, and one that a worker has begun.
abbrev pub waits : Issue → Bool
waits i = equal_fold i.state "open" && is_backlog_stage (get_stage_label i)

abbrev pub is_begun : Issue → Bool
is_begun i =
    equal_fold i.state "open"
    && not (is_backlog_stage (get_stage_label i))
    && is_worker_stage (get_stage_label i)

-- The loop is two searches: the candidates are the issues that wait, in order, and the issue to
-- resume is the first that is begun.
classify-candidates :
    (is : List Issue) (s : Sorted) → (classify is s).candidates ≡ s.candidates ++ select waits is
unfolding classify
classify-candidates [] s = sym (append-nil s.candidates)
classify-candidates (i ∷ is) s = ground (
  arith,
  classify-candidates is (sort_issue i s),
  append_assoc s.candidates (i ∷ []) (select waits is),
)

classify-resume :
    (is : List Issue) (s : Sorted)
    → (classify is s).resume_issue ≡ or_else s.resume_issue (first is_begun is)
unfolding classify
classify-resume [] s = ground arith
classify-resume (i ∷ is) s = ground (arith, classify-resume is (sort_issue i s))

module _ {A : Type 0} (p : A → Bool) (P : A → Type 0) where
  first-All : (xs : List A) {x : A} → All P xs → first p xs ≡ some x → P x × (p x ≡ true)
  first-All [] h e = cc
  first-All (y ∷ xs) {x} (h, hs) e = ground (arith, first-All xs {x = x} hs)

  All-select : (xs : List A) → All P xs → All (λ x. P x × (p x ≡ true)) (select p xs)
  All-select [] h = tt
  All-select (x ∷ xs) (h, hs) = ground (arith, All-select xs hs)

module _ (llm : List Issue → Option ℕ) (P : Issue → Type 0) where
  auto_pick-All : (is : List Issue) {i : Issue} → All P is → auto_pick llm is ≡ some i → P i
  unfolding auto_pick pick_next_ticket
  auto_pick-All [] h e = cc
  auto_pick-All (j ∷ []) h e = ground arith
  auto_pick-All (j ∷ k ∷ is) {i} h e = by_answer (llm (j ∷ k ∷ is)) e
    where
      by_answer :
          (a : Option ℕ)
          → elim (answered a (j ∷ k ∷ is)) [ some x ↦ some x | none ↦ some j ] ≡ some i
          → P i
      by_answer none e = ground arith
      by_answer (some n) e = ground (arith, first-All (λ x. x.number == n) P (j ∷ k ∷ is) {x = i} h)

  manual_pick-All :
      (n : ℕ) (is : List Issue) {i : Issue} → All P is → manual_pick n is ≡ some i → P i
  unfolding manual_pick
  manual_pick-All n is {i} h e = ground (arith, first-All (λ x. x.number == n) P is {x = i} h)

  choice-All :
      (n : ℕ) (is : List Issue) {i : Issue}
      → All P is
      → or_else (manual_pick n is) (auto_pick llm is) ≡ some i
      → P i
  choice-All n is {i} h e = elim (Option-cases (manual_pick n is)) [
    | inl m ↦ auto_pick-All is h (sym (ap (λ o. or_else o (auto_pick llm is)) m) ∙ e)
    | inr (j, m) ↦ manual_pick-All n is h (ground arith)
  ]

auto_pick-total :
    (llm : List Issue → Option ℕ) (is : List Issue) → is_none (auto_pick llm is) ≡ is_empty is
unfolding auto_pick pick_next_ticket
auto_pick-total llm [] = refl
auto_pick-total llm (i ∷ is) = ground arith

classify-empty :
    (is : List Issue)
    → classify is empty ≡ record { candidates = select waits is; resume_issue = first is_begun is }
classify-empty is = ground (arith, classify-candidates is empty, classify-resume is empty)

select-first :
    {A : Type 0} (p : A → Bool) (xs : List A)
    → is_empty (select p xs) ≡ elim (first p xs) [ none ↦ true | some _ ↦ false ]
select-first p [] = refl
select-first p (x ∷ xs) = ground (arith, select-first p xs)

module _ {W : Type 0} (llm : List Issue → Option ℕ) (issues : List Issue) (o : Orchestrator W) where
  -- The issue that a round picks is one of the issues of the milestone. It is open, and either it
  -- has begun and is resumed, or it waits in the backlog. This is so whatever the model answers.
  pub pick_issue-found :
      (P : Issue → Type 0) {i : Issue}
      → All P issues
      → (pick_issue llm issues o).0.next_issue ≡ some i
      → P i × ((if (pick_issue llm issues o).0.is_resume then is_begun i else waits i) ≡ true)
  unfolding pick_issue
  pick_issue-found P {i} h = rw (classify-empty issues) (by_resume (first is_begun issues) refl)
    where
      by_resume :
          (r : Option Issue)
          → first is_begun issues ≡ r
          → let c = choose llm (record { candidates = select waits issues; resume_issue = r }) o in
            c.0.next_issue ≡ some i → P i × ((if c.0.is_resume then is_begun i else waits i) ≡ true)
      by_resume (some j) f e = first-All is_begun P issues h (f ∙ e)
      by_resume none f e =
          choice-All llm (λ x. P x × (waits x ≡ true)) o.manual_next (select waits issues)
            (All-select waits P issues h) e

  -- A round picks no issue exactly when no open issue waits in the backlog and none has begun.
  pub pick_issue-none :
      is_none (pick_issue llm issues o).0.next_issue
      ≡ (is_empty (select waits issues) && is_empty (select is_begun issues))
  unfolding pick_issue
  pick_issue-none = ground (
    arith,
    classify-empty issues,
    select-first is_begun issues,
    auto_pick-total llm (select waits issues),
  )

  -- A manual request for an issue that waits in the backlog is served by the next round that has
  -- nothing to resume, and is used up by it.
  pub pick_issue-manual :
      {i : Issue}
      → first is_begun issues ≡ none
      → 0 < o.manual_next
      → first (λ j. j.number == o.manual_next) (select waits issues) ≡ some i
      → ((pick_issue llm issues o).0.next_issue ≡ some i)
        × ((pick_issue llm issues o).1 ≡ record o { manual_next = 0 })
  unfolding pick_issue manual_pick
  pick_issue-manual {i} r p f = ground (arith, classify-empty issues)

  -- A round that has an issue to resume resumes the first that has begun, and keeps the manual
  -- request for a later round.
  pub pick_issue-resume :
      {i : Issue}
      → first is_begun issues ≡ some i
      → ((pick_issue llm issues o).0.next_issue ≡ some i)
        × ((pick_issue llm issues o).0.is_resume ≡ true)
        × ((pick_issue llm issues o).1 ≡ o)
  unfolding pick_issue
  pick_issue-resume {i} r = ground (arith, classify-empty issues)
