-- ===== src/Dashboard/Tickets/Decisions.antt =====
-- The user's two decisions on a ticket that awaits approval.
use one_dev_army.Common.{
  ℕ, ◌≡◌, refl, sym, subst, ap, ◌∙◌, true, false, none, some, List, [], String, ◌⊎◌, inl, inr,
  if-split, if-intro, Option-cases,
}
use one_dev_army.Common.Effect.{Result, ok, err}
use one_dev_army.Store.Steps.{get_steps, get_last_completed_step, insert_step, finish_step}
use one_dev_army.Store.Steps.Rows.{IsTable}
use one_dev_army.Store.Steps.Resume.{get_last_completed_step-finish}
use one_dev_army.Mvp.Orchestrator.{Orchestrator, UserDecision, Action, is_processing, send_decision}
use one_dev_army.Mvp.Orchestrator.Stages.{change_stage}
use one_dev_army.Mvp.Orchestrator.Stages.Remote.{IsLabelFree, change_stage-remote}
use one_dev_army.GitHub.Stage.{merge, done}
use one_dev_army.GitHub.Reason.{manual_merge}
use one_dev_army.Dashboard.Tickets.{
  Desk, Reply, success, parse_issue_id, record_step, handle_decline_v2, handle_approve_merge_v2,
  handle_direct_merge_v2, send_back,
}
use one_dev_army.Dashboard.Tickets
use one_dev_army.Dashboard.Tickets.Retry.{get_steps-delete_self}

-- The worker holds the ticket, and no decision waits for it.
abbrev pub Awaits : {W : Type 0} → ℕ → Orchestrator W → Type 0
Awaits n o = (is_processing n o ≡ true) × (o.decision_ch ≡ none)

send_decision-delivered :
    {W : Type 0} (n : ℕ) (x : UserDecision) (o : Orchestrator W)
    → Awaits n o
    → send_decision n x o ≡ (ok tt, record o { decision_ch = some x })
unfolding send_decision
send_decision-delivered n x o (busy, free) = rw (busy, free)

module _ {W : Type 0} (d : Desk W) (n : ℕ) (o : Orchestrator W) where
  record_step-stored :
      (name response : String)
      → d.has_store ≡ true
      → record_step d n name response o ≡ record o {
        steps =
            let added = insert_step n name name "" "" o.steps in
            finish_step added.0 response added.1;
      }
  unfolding record_step
  record_step-stored name response e = rw e

  -- Whatever the store does, a recorded step leaves the worker as it was.
  record_step-Awaits :
      (name response : String) → Awaits n o → Awaits n (record_step d n name response o)
  unfolding record_step
  record_step-Awaits name response h = if-intro (Awaits n) d.has_store h h

  record_step-idle :
      (name response : String)
      → is_processing n o ≡ false
      → is_processing n (record_step d n name response o) ≡ false
  unfolding record_step
  record_step-idle name response h =
      if-intro (λ (x : Orchestrator W). is_processing n x ≡ false) d.has_store h h

  send_back-cleared :
      (reason : String) → d.has_store ≡ true → get_steps n (send_back d n reason o).steps ≡ []
  unfolding send_back
  send_back-cleared reason e = rw e (get_steps-delete_self n _)

-- A merge that succeeds merges its branch, and neither a change of labels nor a checkout undoes it.
pub record IsForge {W : Type 0} (d : Desk W) (Merged : String → W → Type 0) : Type 0 where
  pub merges : (b : String) (w : W) → (d.merge_pr b w).0 ≡ ok tt → Merged b (d.merge_pr b w).1
  pub labels : (b : String) → IsLabelFree d.gh (Merged b)
  pub checked_out : (b : String) (w : W) → Merged b w → Merged b (d.checkout_default w)

module _ {W : Type 0} (d : Desk W) (n : ℕ) (id : List ℕ) (o : Orchestrator W)
    (named : parse_issue_id id ≡ some n) (set_up : d.has_orchestrator ≡ true) where
  decline_of : String → UserDecision
  decline_of reason = record { action = Action.decline; reason = reason }

  declined_at :
      (reason : String)
      → handle_decline_v2 d id (some reason) o
        ≡ Tickets.or_send_back d n reason
            (send_decision n (decline_of reason) (record_step d n "declined" reason o))
  unfolding handle_decline_v2 decline_of
  declined_at reason = rw (named, set_up)

  abbrev after_note : Orchestrator W
  after_note = record_step d n "approved" "Manual approval granted" o

  abbrev approval : UserDecision
  approval = record { action = Action.approve; reason = "" }

  approved_at :
      handle_approve_merge_v2 d id o ≡ Tickets.or_merge d n (send_decision n approval after_note)
  unfolding handle_approve_merge_v2
  approved_at = rw (named, set_up)

  -- A decline while the worker awaits the decision, with a table whose ids were all handed out: the
  -- answer is success, the worker is sent the decision with its reason, no stage is changed and
  -- nothing is done on the remote world, and the last completed step of the ticket is `declined`.
  pub handle_decline_v2-delivered :
      (reason : String)
      → Awaits n o
      → IsTable o.steps
      → d.has_store ≡ true
      → let r = handle_decline_v2 d id (some reason) o in
        (r.0 ≡ success)
        × (r.1.decision_ch ≡ some (record { action = Action.decline; reason = reason }))
        × (r.1.remote ≡ o.remote)
        × (r.1.cache ≡ o.cache)
        × (r.1.ledger ≡ o.ledger)
        × (get_last_completed_step n r.1.steps ≡ "declined")
  unfolding decline_of
  handle_decline_v2-delivered reason awaits table stored =
      let sent =
        send_decision-delivered n (decline_of reason) (record_step d n "declined" reason o)
          (record_step-Awaits d n o "declined" reason awaits) in
      let last =
        (get_last_completed_step-finish n "declined" "declined" "" "" reason o.steps table).0 in
      rw (declined_at reason, sent, record_step-stored d n o "declined" reason stored)
        (refl, refl, refl, refl, refl, last)

  -- A decline that the worker does not await: the answer is success, and the ticket has no steps any
  -- more, so that its next run starts over.
  pub handle_decline_v2-sent_back :
      (reason : String)
      → is_processing n o ≡ false
      → d.has_store ≡ true
      → let r = handle_decline_v2 d id (some reason) o in
        (r.0 ≡ success) × (get_steps n r.1.steps ≡ [])
  unfolding send_decision
  handle_decline_v2-sent_back reason idle stored =
      rw (declined_at reason, record_step-idle d n o "declined" reason idle)
        (refl, send_back-cleared d n (record_step d n "declined" reason o) reason stored)

  module _ (Merged : String → W → Type 0) (v : IsForge d Merged) where
    -- The pull request of the ticket was looked for and merged.
    abbrev pub MergesFound : Reply × Orchestrator W → Type 0
    MergesFound r =
        (branch : String) × (w : W) × (d.find_pr_branch n o.remote ≡ (ok branch, w))
        × Merged branch r.1.remote

    -- What the merge button's success means.
    abbrev IsHonest : Reply × Orchestrator W → Type 0
    IsHonest r = r.0 ≡ success → (Awaits n o × (r.1.decision_ch ≡ some approval)) ⊎ MergesFound r

    merged-IsHonest :
        (branch : String) (w w1 : W) (x : Orchestrator W)
        → d.find_pr_branch n o.remote ≡ (ok branch, w)
        → IsHonest (Tickets.merged d n branch (d.merge_pr branch w1) x)
    merged-IsHonest branch w w1 x found = go (d.merge_pr branch w1) (v.merges branch w1)
      where
        go :
            (r : Result (Unit {0}) × W)
            → (r.0 ≡ ok tt → Merged branch r.1)
            → IsHonest (Tickets.merged d n branch r x)
        go (ok u, w2) made h = inr (
          branch,
          w,
          found,
          v.checked_out branch _ (
              change_stage-remote d.gh (Merged branch) (v.labels branch) n done manual_merge
                (record x { remote = w2 }) (made refl)),
        )
        go (err e, w2) made h = cc

    direct-IsHonest :
        (x : Orchestrator W) → x.remote ≡ o.remote → IsHonest (handle_direct_merge_v2 d n x)
    unfolding handle_direct_merge_v2
    direct-IsHonest x same =
        if-intro IsHonest d.has_gh
          (found_at (d.find_pr_branch n x.remote) (ap (λ w. d.find_pr_branch n w) (sym same)))
          (λ h. cc)
      where
        found_at :
            (r : Result String × W)
            → d.find_pr_branch n o.remote ≡ r
            → IsHonest (Tickets.merge_found d n r x)
        found_at (err e, w) f h = cc
        found_at (ok branch, w) f h =
            let moved = (change_stage d.gh n merge manual_merge (record x { remote = w })).1 in
            merged-IsHonest branch w moved.remote moved f h

    note_same :
        (after_note.remote ≡ o.remote)
        × (is_processing n after_note ≡ is_processing n o)
        × (after_note.decision_ch ≡ o.decision_ch)
    unfolding record_step
    note_same =
        if-intro
          (λ (x : Orchestrator W).
            (x.remote ≡ o.remote)
            × (is_processing n x ≡ is_processing n o)
            × (x.decision_ch ≡ o.decision_ch))
          d.has_store (refl, refl, refl) (refl, refl, refl)

    sent-IsHonest : IsHonest (Tickets.or_merge d n (send_decision n approval after_note))
    unfolding send_decision
    sent-IsHonest =
        let (same, busy_same, free_same) = note_same in
        if-split (λ (r : Result (Unit {0}) × Orchestrator W). IsHonest (Tickets.or_merge d n r))
          (is_processing n after_note)
          (λ busy. elim (Option-cases after_note.decision_ch) [
            | inl free ↦ rw free (λ _. inl ((sym busy_same ∙ busy, sym free_same ∙ free), refl))
            | inr (_, full) ↦ rw full (direct-IsHonest after_note same)
          ])
          (λ _. direct-IsHonest after_note same)

    -- Let `MergePR` merge the branch that it is given where it succeeds, and no other call undo a
    -- merge. When the merge button answers success, either the worker had the ticket with no decision
    -- waiting, and was sent the approval, or the pull request that was found for the ticket is merged
    -- in the end.
    pub handle_approve_merge_v2-merged :
        let r = handle_approve_merge_v2 d id o in
        r.0 ≡ success
        → (Awaits n o × (r.1.decision_ch ≡ some (record { action = Action.approve; reason = "" })))
          ⊎ ((branch : String) × (w : W) × (d.find_pr_branch n o.remote ≡ (ok branch, w))
              × Merged branch r.1.remote)
    handle_approve_merge_v2-merged = subst IsHonest (sym approved_at) sent-IsHonest
