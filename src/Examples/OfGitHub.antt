-- ===== src/Examples/OfGitHub.antt =====
-- Calls of internal/github and of the router on concrete inputs.
use one_dev_army.Common.{◌≡◌, ◌≢◌, ◌↔◌, refl, Bool, true, false, ◌+◌, length, List, [], ◌∷◌, String}
use one_dev_army.Common.Effect.{ok, Ensures}
use one_dev_army.GitHub.Stage.{
  Stage, code, done, unset, stage_from_label, is_stage_label, stage_label_prefixes,
  has_stage_prefix,
}
use one_dev_army.GitHub.Stage
use one_dev_army.GitHub.Issue.{Issue}
use one_dev_army.GitHub.Checks.{PrCheck, get_pr_checks}
use one_dev_army.GitHub.Checks.Verdict.{verdict, get_pr_checks-verdict}
use one_dev_army.GitHub.Client.{
  get_stage_labels_to_remove, rebuild_labels, updated_issue, attach, set_stage_label,
}
use one_dev_army.GitHub.Relabel.{IsRelabelled, set_stage_label-IsRelabelled}
use one_dev_army.Llm.{LlmConfig, Router}
use one_dev_army.Examples.{issue_of, kind_gh}

abbrev checks : List PrCheck
checks =
    record { name = "build"; status = "COMPLETED"; conclusion = "SUCCESS"; details_url = "" }
    ∷ record { name = "test"; status = "IN_PROGRESS"; conclusion = ""; details_url = "" }
    ∷ []

abbrev no_logs : List String → List String → String
no_logs names links = ""

get_pr_checks-verdict_example :
    ((get_pr_checks no_logs checks).status ≡ verdict checks)
    × ((get_pr_checks no_logs checks).completed_count
          + length (get_pr_checks no_logs checks).pending_checks
        ≡ (get_pr_checks no_logs checks).total_count)
get_pr_checks-verdict_example = get_pr_checks-verdict no_logs checks

abbrev relabelled : Issue
relabelled = record (issue_of 4 ("bug" ∷ "stage:done" ∷ [])) { state = "closed" }

closes : set_stage_label kind_gh 4 done false ≡ (ok relabelled, false)
unfolding set_stage_label attach updated_issue rebuild_labels get_stage_labels_to_remove
    is_stage_label Stage.label one_dev_army.Common.Effect.try one_dev_army.Common.Effect.ignore
closes = refl

done-≢-unset : done ≢ unset
done-≢-unset e = cc

set_stage_label-IsRelabelled_example :
    (i : Issue) × ((kind_gh.view_issue 4 false).0 ≡ ok i) × IsRelabelled done i relabelled
set_stage_label-IsRelabelled_example =
    set_stage_label-IsRelabelled kind_gh 4 done false done-≢-unset false relabelled closes

abbrev llm : LlmConfig
llm = record {
  setup = "";
  planning = "p/a";
  orchestration = "p/b";
  code = "p/c";
  code_heavy = "p/a";
}

abbrev offered : List String
offered = "p/a" ∷ "p/b" ∷ []

abbrev router : Router
router = record { cfg = llm; available_models = offered }
