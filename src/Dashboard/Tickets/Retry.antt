-- ===== src/Dashboard/Tickets/Retry.antt =====
-- What a retry leaves behind.
use one_dev_army.Common.{
  ℕ, ◌≡◌, ◌≢◌, refl, sym, subst, ap, ◌∙◌, ◌==◌, Bool, true, false, ◌&&◌, some, List, [], ◌∷◌,
  String, arith, select,
}
use one_dev_army.Common.Effect.{Result, ok, err}
use one_dev_army.GitHub.Stage.{backlog, unset}
use one_dev_army.GitHub.Reason.{StageChangeReason}
use one_dev_army.Store.Steps.{Steps, TaskStep, get_steps, delete_steps, delete_where}
use one_dev_army.Store.Steps.Rows.{get_steps-delete}
use one_dev_army.Mvp.Orchestrator.{Orchestrator}
use one_dev_army.Mvp.Orchestrator.Stages.{change_stage}
use one_dev_army.Mvp.Orchestrator.Stages.Changes.{IsMoved, AnswersNumber, change_stage-IsMoved}
use one_dev_army.Dashboard.Tickets.{
  Desk, Reply, success, bad_request, parse_issue_id, prepare_retry, retry_with,
}
use one_dev_army.Dashboard.Tickets

select-delete_where_self :
    (p : TaskStep → Bool) (rs : List TaskStep) → select p (delete_where p rs) ≡ []
select-delete_where_self p [] = refl
select-delete_where_self p (r ∷ rs) = ground (arith, select-delete_where_self p rs)

pub get_steps-delete_self : (n : ℕ) (t : Steps) → get_steps n (delete_steps n t) ≡ []
unfolding get_steps delete_steps
get_steps-delete_self n t = select-delete_where_self (λ r. r.issue_number == n) t.rows

backlog-≢-unset : backlog ≢ unset
backlog-≢-unset e = cc

-- The ticket is in the backlog again and has no steps; the steps of all others are as they were.
pub record IsRetried {W : Type 0} (n : ℕ) (reason : StageChangeReason) (o o1 o' : Orchestrator W)
    : Type 0 where
  pub moved : IsMoved n backlog reason o1 o'
  pub cleared : get_steps n o'.steps ≡ []
  pub others_kept : (j : ℕ) → n ≢ j → get_steps j o'.steps ≡ get_steps j o.steps
  pub same_cache : o1.cache ≡ o.cache
  pub same_ledger : o1.ledger ≡ o.ledger

module _ {W : Type 0} (d : Desk W) (answers : AnswersNumber d.gh) (text : String)
    (reason : StageChangeReason) (o : Orchestrator W) (stored : o.has_store ≡ true)
    (opened : d.has_store ≡ true) (n : ℕ) where
  success-changed :
      (r : Result (Unit {0}) × Orchestrator W)
      → (Tickets.changed d text r).0 ≡ success
      → r.0 ≡ ok tt
  success-changed (ok u, o') h = refl
  success-changed (err e, o') h = cc

  state-changed : (r : Result (Unit {0}) × Orchestrator W) → (Tickets.changed d text r).1 ≡ r.1
  state-changed (ok u, o') = refl
  state-changed (err e, o') = refl

  prepared_steps : (prepare_retry d n o).steps ≡ delete_steps n o.steps
  unfolding prepare_retry
  prepared_steps = rw opened

  prepared_rest :
      ((prepare_retry d n o).has_store ≡ o.has_store)
      × ((prepare_retry d n o).cache ≡ o.cache)
      × ((prepare_retry d n o).ledger ≡ o.ledger)
  unfolding prepare_retry
  prepared_rest = rw opened (refl, refl, refl)

  moved-IsRetried :
      (o' : Orchestrator W)
      → IsMoved n backlog reason (prepare_retry d n o) o'
      → IsRetried n reason o (prepare_retry d n o) o'
  moved-IsRetried o' m =
      let steps = m.steps_kept ∙ prepared_steps in
      let (a, b, c) = prepared_rest in
      record {
        moved = m;
        cleared = ap (get_steps n) steps ∙ get_steps-delete_self n o.steps;
        others_kept = λ j ne. ap (get_steps j) steps ∙ (get_steps-delete n j "" o.steps ne).0;
        same_cache = b;
        same_ledger = c;
      }

  abbrev attempt : Orchestrator W → Reply × Orchestrator W
  attempt x = Tickets.changed d text (change_stage d.gh n backlog reason (prepare_retry d n x))

  abbrev Guarded : Bool → Reply × Orchestrator W
  Guarded b = Tickets.needs d b "orchestrator or GitHub client not configured" attempt o

  -- What a successful answer promises.
  abbrev Promises : Reply × Orchestrator W → Type 0
  Promises r = r.0 ≡ success → IsRetried n reason o (prepare_retry d n o) r.1

  Promises-guarded : (b : Bool) → Promises (Guarded b)
  Promises-guarded false h = cc
  Promises-guarded true h =
      let r = change_stage d.gh n backlog reason (prepare_retry d n o) in
      subst (IsRetried n reason o (prepare_retry d n o)) (sym (state-changed r)) (
        moved-IsRetried r.1 (
          change_stage-IsMoved d.gh answers n backlog reason (prepare_retry d n o) backlog-≢-unset
            (prepared_rest.0 ∙ stored) (success-changed r h)))

  retry_with-guarded :
      (id : List ℕ)
      → parse_issue_id id ≡ some n
      → retry_with d text reason id o ≡ Guarded (d.has_orchestrator && d.has_gh)
  unfolding retry_with
  retry_with-guarded id p = rw p

  -- A retry of the API, of either kind, that answers success, with a store and a GitHub that answers
  -- with the issue it was asked for: the ticket was moved to the backlog, it has no steps any more,
  -- and the steps of all other tickets are as they were.
  pub retry_with-IsRetried :
      (id : List ℕ)
      → parse_issue_id id ≡ some n
      → (retry_with d text reason id o).0 ≡ success
      → IsRetried n reason o (prepare_retry d n o) (retry_with d text reason id o).1
  retry_with-IsRetried id p =
      subst Promises (sym (retry_with-guarded id p))
        (Promises-guarded (d.has_orchestrator && d.has_gh))
