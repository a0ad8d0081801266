-- ===== src/Dashboard/Controls/Crash.antt =====
-- When the page's request for a sync crashes.
use one_dev_army.Common.{◌≡◌, ◌↔◌, Bool, true, false, Option, none, some, String, arith}
use one_dev_army.Common.Effect.{Result, ok, err}
use one_dev_army.Dashboard.Controls.{Server, handle_sync}

abbrev pub is_there : {A : Type 0} → Option A → Bool
is_there none = false
is_there (some a) = true

abbrev pub finds_none : Result (Option String) → Bool
finds_none (ok none) = true
finds_none (ok (some title)) = false
finds_none (err e) = false

module _ {W : Type 0} where
  -- The request of the page for a sync panics exactly when there are a client and a sync service, and
  -- the client finds no open milestone.
  pub handle_sync-panics :
      (oldest : Result (Option String)) (s : Server W)
      → (handle_sync oldest s ≡ none)
        ↔ ((s.has_gh ≡ true) × (is_there s.sync ≡ true) × (finds_none oldest ≡ true))
  unfolding handle_sync
  handle_sync-panics oldest s = ground arith
