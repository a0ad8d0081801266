-- ===== src/Scheduler/Planner/Assignment.antt =====
-- What is true of a planned sprint.
use Prim.Native.String.{◌++◌ as join}
use one_dev_army.Common.{
  ℕ, ◌≡◌, refl, ap, subst, false, Option, none, some, List, [], ◌∷◌, String, if-intro, All,
  is_empty,
}
use one_dev_army.Common.Int.{ℤ}
use one_dev_army.Common.Effect.{Result, ok, err, Effect, try, pure}
use one_dev_army.GitHub.Issue.{Issue}
use one_dev_army.Scheduler.Planner.{
  Tools, Sprint, Part, assign_all, open_sprint, plan_sprint, sprint_name, parse_sprint_plan,
  extract_text_content,
}
use one_dev_army.Scheduler.Planner

-- A call of `SetMilestone` that succeeds puts the issue into the milestone, and a later call for the same
-- milestone leaves it there.
pub record IsRegister {W : Type 0} (t : Tools W) (In : ℤ → List ℕ → W → Type 0) : Type 0 where
  pub put :
      (i : ℤ) (name : List ℕ) (w : W)
      → (t.set_milestone i name w).0 ≡ ok tt
      → In i name (t.set_milestone i name w).1
  pub kept :
      (i j : ℤ) (name : List ℕ) (w : W) → In i name w → In i name (t.set_milestone j name w).1

module _ {W : Type 0} (t : Tools W) (In : ℤ → List ℕ → W → Type 0) (v : IsRegister t In) where
  -- Where a call succeeds, `P` holds of its value and of the world behind it.
  abbrev Ends : {A : Type 0} → (A → W → Type 0) → Result A × W → Type 0
  Ends P (ok a, w) = P a w
  Ends P (err e, w) = Unit {0}

  try-Ends :
      {A B : Type 0} (P : B → W → Type 0) (wrap : String → String) (m : Effect W A)
      (f : A → Effect W B) (w : W)
      → ((a : A) → (m w).0 ≡ ok a → Ends P (f a (m w).1))
      → Ends P (try wrap m f w)
  unfolding try
  try-Ends {A} {B} P wrap m f w h = go (m w) h
    where
      go :
          (q : Result A × W)
          → ((a : A) → q.0 ≡ ok a → Ends P (f a q.1))
          → Ends P (try wrap (λ _. q) f w)
      go (ok a, w') k = k a refl
      go (err e, w') k = tt

  abbrev AllIn : List ℤ → List ℕ → Unit {0} → W → Type 0
  AllIn ids name u w = All (λ i. In i name w) ids

  assign_all-keeps :
      (i : ℤ) (ids : List ℤ) (name : List ℕ) (w : W)
      → In i name w
      → Ends (λ _. In i name) (assign_all t ids name w)
  unfolding assign_all
  assign_all-keeps i [] name w h = h
  assign_all-keeps i (j ∷ ids) name w h =
      try-Ends (λ (_ : Unit {0}). In i name) _ (t.set_milestone j name) (λ _. assign_all t ids name)
        w (λ u e. assign_all-keeps i ids name (t.set_milestone j name w).1 (v.kept i j name w h))

  Ends-both :
      {A : Type 0} (P Q : A → W → Type 0) (r : Result A × W)
      → Ends P r
      → Ends Q r
      → Ends (λ a w. P a w × Q a w) r
  Ends-both P Q (ok a, w) h k = (h, k)
  Ends-both P Q (err e, w) h k = tt

  assign_all-AllIn :
      (ids : List ℤ) (name : List ℕ) (w : W) → Ends (AllIn ids name) (assign_all t ids name w)
  unfolding assign_all
  assign_all-AllIn [] name w = tt
  assign_all-AllIn (i ∷ ids) name w =
      try-Ends (AllIn (i ∷ ids) name) _ (t.set_milestone i name) (λ _. assign_all t ids name) w
        (λ u e.
          let w1 = (t.set_milestone i name w).1 in
          Ends-both (λ _. In i name) (AllIn ids name) (assign_all t ids name w1)
            (assign_all-keeps i ids name w1 (v.put i name w e)) (assign_all-AllIn ids name w1))

  -- The sprint has tasks, all of them in its milestone, which bears the sprint's name.
  pub record IsPlanned (s : Sprint) (w : W) : Type 0 where
    pub named : s.name ≡ sprint_name s.id
    pub same_milestone : s.milestone ≡ s.name
    pub some_tasks : is_empty s.task_ids ≡ false
    pub assigned : All (λ i. In i s.milestone w) s.task_ids

  assigned-IsPlanned :
      (s : Sprint) (m : Effect W (Unit {0})) (w : W)
      → Ends (AllIn s.task_ids s.milestone) (m w)
      → s.name ≡ sprint_name s.id
      → s.milestone ≡ s.name
      → is_empty s.task_ids ≡ false
      → Ends IsPlanned (try (λ e. e) m (λ _. pure s) w)
  unfolding try
  assigned-IsPlanned s m w = go (m w)
    where
      go :
          (q : Result (Unit {0}) × W)
          → Ends (AllIn s.task_ids s.milestone) q
          → s.name ≡ sprint_name s.id
          → s.milestone ≡ s.name
          → is_empty s.task_ids ≡ false
          → Ends IsPlanned (try (λ e. e) (λ _. q) (λ _. pure s) w)
      go (ok u, w') h a b c = record { named = a; same_milestone = b; some_tasks = c; assigned = h }
      go (err e, w') h a b c = tt

  open_sprint-IsPlanned :
      (ids : List ℤ) (w : W) → is_empty ids ≡ false → Ends IsPlanned (open_sprint t ids w)
  unfolding open_sprint
  open_sprint-IsPlanned ids w some_ids =
      let id = (Planner.next_sprint_id t w).0 in
      let w1 = (Planner.next_sprint_id t w).1 in
      let name = sprint_name id in
      let sprint : Sprint = record { id = id; name = name; milestone = name; task_ids = ids } in
      let w2 = (t.create_milestone name w1).1 in
      let assigned =
        assigned-IsPlanned sprint (assign_all t ids name) w2 (assign_all-AllIn ids name w2) refl
          refl some_ids in
      try-Ends IsPlanned (λ e. join "creating milestone: " e) (t.create_milestone name)
        (λ _. try (λ e. e) (assign_all t ids name) (λ _. pure sprint)) w1 (λ _ _. assigned)

  abbrev HasIds : Result (List ℤ) → Type 0
  HasIds (ok ids) = is_empty ids ≡ false
  HasIds (err e) = Unit {0}

  checked_plan-HasIds : (o : Option (List ℤ)) → HasIds (Planner.checked_plan o)
  checked_plan-HasIds none = tt
  checked_plan-HasIds (some []) = tt
  checked_plan-HasIds (some (i ∷ is)) = refl

  with_plan-IsPlanned :
      (r : Result (List ℤ)) (w : W) → HasIds r → Ends IsPlanned (Planner.with_plan t r w)
  with_plan-IsPlanned (ok ids) w h = open_sprint-IsPlanned ids w h
  with_plan-IsPlanned (err e) w h = tt

  ask_for_plan-IsPlanned :
      (issues : List Issue) (w : W) → Ends IsPlanned (Planner.ask_for_plan t issues w)
  unfolding parse_sprint_plan
  ask_for_plan-IsPlanned issues w =
      try-Ends IsPlanned _ (t.create_session "sprint-planning") _ w λ session _.
        try-Ends IsPlanned _ _ _ (t.create_session "sprint-planning" w).1 λ msg _.
          with_plan-IsPlanned (parse_sprint_plan t.decode_plan (extract_text_content msg)) _
            (checked_plan-HasIds _)

  plan_sprint-Ends : (w : W) → Ends IsPlanned (plan_sprint t w)
  unfolding plan_sprint
  plan_sprint-Ends w = try-Ends IsPlanned _ t.list_open_issues _ w λ issues _.
      if-intro (Ends IsPlanned) (is_empty issues) tt
        (ask_for_plan-IsPlanned issues (t.list_open_issues w).1)

  abbrev value_or : Sprint → Result Sprint → Sprint
  value_or s (ok s') = s'
  value_or s (err e) = s

  of_ok : (r : Result Sprint × W) (s : Sprint) → Ends IsPlanned r → r.0 ≡ ok s → IsPlanned s r.1
  of_ok (ok s', w) s h e = subst (λ x. IsPlanned x w) (ap (value_or s) e) h
  of_ok (err x, w) s h e = cc

  -- Let a task that was put into a milestone stay in it when others are put into it. When a sprint is
  -- answered, it has tasks, each of them is in its milestone, and sprint and milestone bear the name of
  -- its number.
  pub plan_sprint-IsPlanned :
      (w : W) (s : Sprint) → (plan_sprint t w).0 ≡ ok s → IsPlanned s (plan_sprint t w).1
  plan_sprint-IsPlanned w s e = of_ok (plan_sprint t w) s (plan_sprint-Ends w) e
