-- ===== src/Dashboard/Sync/Caching.antt =====
-- What a sync leaves in the cache.
use one_dev_army.Common.{
  ℕ, ◌≡◌, refl, ap, ◌∙◌, ◌==◌, Bool, true, false, not, ◌||◌, ◌⊎◌, Option, some, List, [], ◌∷◌, ◌++◌,
  String, str_eq, if◌then◌else◌, arith, any, All, length, if-split,
}
use one_dev_army.Common.Effect.{Result, ok}
use one_dev_army.GitHub.Stage.{is_stage_label}
use one_dev_army.GitHub.Issue.{Issue}
use one_dev_army.GitHub.Client.{add_label}
use one_dev_army.Store.Cache.{Cache, to_row, get_issue_cache, is_stale, save_issue_cache}
use one_dev_army.Store.Cache.Lookup.{find_row-replace_row, stored}
use one_dev_army.Mvp.Orchestrator.{Orchestrator, is_processing}
use one_dev_army.Mvp.Orchestrator.Stages.Sync.{IsSettled, IsOngoing, handle_sync_event_quiet}
use one_dev_army.Dashboard.Sync.{
  SyncService, SyncClient, assign_backlog, cache_issue, sync_issue, sync_issues, fetch, do_sync,
  push_count, unless_panic, store_issues, at_remote, follow,
}

-- The client refuses every stage label in `AddLabel`, so that the backlog's label is never given: the
-- call fails, and neither the issue nor anything else changes.
pub assign_backlog_lem :
    {W : Type 0} (c : SyncClient W) (i : Issue) (o : Orchestrator W) → assign_backlog c i o ≡ (i, o)
unfolding assign_backlog add_label is_stage_label
assign_backlog_lem c i o = ground arith

-- What the cache holds of an issue behind a write that is not forced.
abbrev pub written : Option Issue → Issue → Option Issue
written old i = if is_stale old i then old else some (stored i)

get_issue_cache-update :
    (n : ℕ) (i : Issue) (m : String) (t : Cache)
    → get_issue_cache n (save_issue_cache i m false t)
      ≡ (if i.number == n then written (get_issue_cache n t) i else get_issue_cache n t)
unfolding save_issue_cache
get_issue_cache-update n i m t = ground (arith, find_row-replace_row n (to_row i m) t)

-- The sync has nothing to change on GitHub: the issue is settled or ongoing, or the worker holds it.
abbrev pub IsQuiet : {W : Type 0} → Orchestrator W → Issue → Type 0
IsQuiet o i = (is_processing i.number o ≡ true) ⊎ (IsSettled i ⊎ IsOngoing i)

abbrev pub number_in : ℕ → List Issue → Bool
number_in n = any (λ i. i.number == n)

-- No number stands in the list twice.
abbrev pub DistinctNumbers : List Issue → Type 0
DistinctNumbers [] = Unit {0}
DistinctNumbers (i ∷ is) = (number_in i.number is ≡ false) × DistinctNumbers is

-- The cache behind the loop, for the issues that it wrote, and for all others.
abbrev pub IsCached : List Issue → Cache → Cache → Type 0
IsCached is old new =
    All (λ i. get_issue_cache i.number new ≡ written (get_issue_cache i.number old) i) is
    × ((n : ℕ) → number_in n is ≡ false → get_issue_cache n new ≡ get_issue_cache n old)

All-earlier :
    (i : Issue) (m : String) (is : List Issue) (old new : Cache)
    → number_in i.number is ≡ false
    → All
        (λ j.
          get_issue_cache j.number new
          ≡ written (get_issue_cache j.number (save_issue_cache i m false old)) j)
        is
    → All (λ j. get_issue_cache j.number new ≡ written (get_issue_cache j.number old) j) is
All-earlier i m [] old new h k = tt
All-earlier i m (j ∷ is) old new h k = (
  ground (arith, get_issue_cache-update j.number i m old, k),
  All-earlier i m is old new (ground arith) k.1,
)

IsCached-cons :
    (m : String) (i : Issue) (is : List Issue) (old new : Cache)
    → number_in i.number is ≡ false
    → IsCached is (save_issue_cache i m false old) new
    → IsCached (i ∷ is) old new
IsCached-cons m i is old new d (all_in, others) = (
  (
    ground (arith, others i.number d, get_issue_cache-update i.number i m old),
    All-earlier i m is old new d all_in,
  ),
  λ n h. ground (arith, others n, get_issue_cache-update n i m old),
)

module _ {W : Type 0} (c : SyncClient W) (notify : Bool) (m : String) where
  sync_issue-quiet :
      (i : Issue) (o : Orchestrator W)
      → IsQuiet o i
      → sync_issue c notify m i o ≡ some (cache_issue c m i o)
  unfolding sync_issue cache_issue
  sync_issue-quiet i o q =
      let saved = cache_issue c m i o in
      rw (assign_backlog_lem c i o) (
        if-split (λ (r : Option (Orchestrator W)). r ≡ some saved) notify
          (λ e. handle_sync_event_quiet c.gh i saved q) (λ e. refl))

  -- The loop ends without a panic.
  sync_issues-IsCached :
      (is : List Issue) (o : Orchestrator W)
      → All (IsQuiet o) is
      → DistinctNumbers is
      → (o' : Orchestrator W) × (sync_issues c notify m is o ≡ some o')
        × IsCached is o.cache o'.cache
  unfolding sync_issues cache_issue
  sync_issues-IsCached [] o q d = (o, refl, (tt, λ n h. refl))
  sync_issues-IsCached (i ∷ is) o q d =
      let (o', ran, k) = sync_issues-IsCached is (cache_issue c m i o) q.1 d.1 in
      (o', rw (sync_issue-quiet i o q.0) ran, IsCached-cons m i is o.cache o'.cache d.0 k)

module _ {W : Type 0} (c : SyncClient W) (s : SyncService W) (m : String) (is : List Issue)
    (w1 w2 : W) where
  abbrev synced : Orchestrator W → SyncService W
  synced o = record s { active_milestone = m; orchestrator = o }

  -- The milestone was followed, the count announced, and the issues cached.
  abbrev pub IsSynced : SyncService W → Type 0
  IsSynced s' =
      (s'.active_milestone ≡ m)
      × (s'.pushed ≡ (if s.has_hub then s.pushed ++ length is ∷ [] else s.pushed))
      × IsCached is s.orchestrator.cache s'.orchestrator.cache

  -- The service behind the switch on the milestone.
  abbrev followed : SyncService W
  followed = record s { active_milestone = m; orchestrator = record s.orchestrator { remote = w1 } }

  fetch-synced :
      s.orchestrator.has_store ≡ true
      → str_eq m "" ≡ false
      → c.listing m w1 ≡ (ok is, w2)
      → {o : Orchestrator W}
      → sync_issues c s.has_orchestrator m is (record s.orchestrator { remote = w2 }) ≡ some o
      → fetch c followed ≡ some (push_count c (length is) (synced o))
  unfolding fetch
  fetch-synced k e q ran =
      let test : (str_eq m "" || not s.orchestrator.has_store) ≡ false = rw (k, e) refl in
      ap
        (λ b.
          if b
          then some followed
          else store_issues c (at_remote (c.listing m) followed.orchestrator) followed)
        test
      ∙ (ap (λ r. store_issues c (r.0, record s.orchestrator { remote = r.1 }) followed) q
          ∙ ap (λ r. unless_panic r (λ o. some (push_count c (length is) (synced o)))) ran)

  do_sync-fetch :
      s.has_client ≡ true
      → c.oldest_milestone s.orchestrator.remote ≡ (ok (some m), w1)
      → do_sync c s ≡ fetch c followed
  unfolding do_sync
  do_sync-fetch h p =
      ap (λ b. if b then do_rest (c.oldest_milestone s.orchestrator.remote) else some s) h
      ∙ ap do_rest p
    where
      do_rest : Result (Option String) × W → Option (SyncService W)
      do_rest (r, w) =
          let x = follow c r (record s { orchestrator = record s.orchestrator { remote = w } }) in
          if x.1 then fetch c x.0 else some x.0

  -- With a client, a store and an open milestone, where the two queries succeed and give issues of
  -- distinct numbers, each of which is settled, ongoing or in the worker's hands: the sync does not
  -- panic, it follows the milestone, announces the number of the issues if there is a hub, and leaves
  -- in the cache every fetched issue, unless the cache knew a newer version of it, and all others as
  -- they were.
  pub do_sync-IsCached :
      s.has_client ≡ true
      → s.orchestrator.has_store ≡ true
      → str_eq m "" ≡ false
      → c.oldest_milestone s.orchestrator.remote ≡ (ok (some m), w1)
      → c.listing m w1 ≡ (ok is, w2)
      → All (IsQuiet s.orchestrator) is
      → DistinctNumbers is
      → (s' : SyncService W) × (do_sync c s ≡ some s') × IsSynced s'
  do_sync-IsCached h k e p q quiet d =
      let (o, ran, done) =
        sync_issues-IsCached c s.has_orchestrator m is (record s.orchestrator { remote = w2 }) quiet
          d in
      (
        push_count c (length is) (synced o),
        do_sync-fetch h p ∙ fetch-synced k e q ran,
        if-split IsSynced s.has_hub (λ e. (refl, rw e, done)) (λ e. (refl, rw e, done)),
      )
