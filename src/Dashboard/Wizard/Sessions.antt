-- ===== src/Dashboard/Wizard/Sessions.antt =====
-- What the store of sessions holds and answers.
use one_dev_army.Common.{
  ℕ, ◌+◌, ◌≤◌, ◌≡◌, ◌≢◌, refl, ap, sym, ◌∙◌, Bool, false, ◌||◌, Option, none, some, List, [], ◌∷◌,
  String, str_eq, if◌then◌else◌, length, any, arith, leb, eq_iff, if-split,
}
use mathlib.Core.Option
use one_dev_army.Common.Effect.{Result, ok, err}
use one_dev_army.Dashboard.Wizard.{
  WizardSession, WizardType, WizardStep, breakdown, refine, Sessions, type_of, new_session, put,
  find_session, update, create_of, create_session, get_session, delete_session, is_old,
  cleanup_old_sessions, max_sessions, migrate_old_session, migrate_step, migrate_planning,
}

abbrev pub has_key : String → Sessions → Bool
has_key id = any (λ e. str_eq e.0 id)

-- No key stands in the map twice.
abbrev pub DistinctKeys : Sessions → Type 0
DistinctKeys [] = Unit {0}
DistinctKeys ((k, v) ∷ m) = (has_key k m ≡ false) × DistinctKeys m

pub record IsStore (m : Sessions) : Type 0 where
  pub few : length m ≤ max_sessions
  pub distinct : DistinctKeys m

has_key-put :
    (j id : String) (s : WizardSession) (m : Sessions)
    → has_key j (put id s m) ≡ (str_eq id j || has_key j m)
unfolding put
has_key-put j id s [] = refl
has_key-put j id s ((k, v) ∷ m) =
    ground (arith, has_key-put j id s m, eq_iff k id, eq_iff id j, eq_iff k j)

length-put : (id : String) (s : WizardSession) (m : Sessions) → length (put id s m) ≤ length m + 1
unfolding put
length-put id s [] = omega arith
length-put id s ((k, v) ∷ m) = ground (arith, length-put id s m)

DistinctKeys-put :
    (id : String) (s : WizardSession) (m : Sessions) → DistinctKeys m → DistinctKeys (put id s m)
unfolding put
DistinctKeys-put id s [] d = (refl, tt)
DistinctKeys-put id s ((k, v) ∷ m) d =
    ground (arith, DistinctKeys-put id s m, has_key-put k id s m, eq_iff k id, eq_iff id k)

has_key-update :
    (j id : String) (f : WizardSession → WizardSession) (m : Sessions)
    → has_key j (update id f m) ≡ has_key j m
unfolding update
has_key-update j id f [] = refl
has_key-update j id f ((k, v) ∷ m) = ground (arith, has_key-update j id f m)

IsStore-update :
    (id : String) (f : WizardSession → WizardSession) (m : Sessions)
    → DistinctKeys m
    → DistinctKeys (update id f m) × (length (update id f m) ≡ length m)
unfolding update
IsStore-update id f [] d = (tt, refl)
IsStore-update id f ((k, v) ∷ m) d = ground (arith, IsStore-update id f m, has_key-update k id f m)

-- A map that lost some of its keys.
has_key-delete :
    (j id : String) (m : Sessions) → has_key j m ≡ false → has_key j (delete_session id m) ≡ false
unfolding delete_session
has_key-delete j id [] h = refl
has_key-delete j id ((k, v) ∷ m) h = ground (arith, has_key-delete j id m)

IsStore-delete :
    (id : String) (m : Sessions)
    → DistinctKeys m
    → DistinctKeys (delete_session id m) × (length (delete_session id m) ≤ length m)
unfolding delete_session
IsStore-delete id [] d = (tt, omega arith)
IsStore-delete id ((k, v) ∷ m) d = ground (arith, IsStore-delete id m, has_key-delete k id m)

has_key-cleanup :
    (j : String) (age now : ℕ) (m : Sessions)
    → has_key j m ≡ false
    → has_key j (cleanup_old_sessions age now m) ≡ false
unfolding cleanup_old_sessions
has_key-cleanup j age now [] h = refl
has_key-cleanup j age now ((k, v) ∷ m) h = ground (arith, has_key-cleanup j age now m)

IsStore-cleanup :
    (age now : ℕ) (m : Sessions)
    → DistinctKeys m
    → DistinctKeys (cleanup_old_sessions age now m)
      × (length (cleanup_old_sessions age now m) ≤ length m)
unfolding cleanup_old_sessions
IsStore-cleanup age now [] d = (tt, omega arith)
IsStore-cleanup age now ((k, v) ∷ m) d =
    ground (arith, IsStore-cleanup age now m, has_key-cleanup k age now m)

-- What the handlers and the ticker do with the store.
pub data Op : Type 0 where
  creating : String → String → ℕ → Op
  getting deleting : String → Op
  setting : String → (WizardSession → WizardSession) → Op
  cleaning : ℕ → ℕ → Op

abbrev pub perform : Op → Sessions → Sessions
perform (creating type id now) m = (create_session type id now m).1
perform (getting id) m = (get_session id m).1
perform (deleting id) m = delete_session id m
perform (setting id f) m = update id f m
perform (cleaning age now) m = cleanup_old_sessions age now m

abbrev pub perform_all : List Op → Sessions → Sessions
perform_all [] m = m
perform_all (op ∷ ops) m = perform_all ops (perform op m)

create-IsStore :
    (type id : String) (now : ℕ) (m : Sessions)
    → IsStore m
    → IsStore (create_session type id now m).1
unfolding create_session
create-IsStore type id now m v = go (type_of type)
  where
    go : (t : Option WizardType) → IsStore (create_of t type id now m).1
    go none = v
    go (some t) =
        if-split (λ (r : Result WizardSession × Sessions). IsStore r.1)
          (leb max_sessions (length m)) (λ e. v)
          (λ e. record {
            few = ground (arith, length-put id (new_session t id now) m, e);
            distinct = DistinctKeys-put id (new_session t id now) m v.distinct;
          })

perform-IsStore : (op : Op) (m : Sessions) → IsStore m → IsStore (perform op m)
unfolding get_session
perform-IsStore (creating type id now) m v = create-IsStore type id now m v
perform-IsStore (getting id) m v =
    let (d, l) = IsStore-update id migrate_old_session m v.distinct in
    record { few = omega (arith, v.few, l); distinct = d }
perform-IsStore (deleting id) m v =
    let (d, l) = IsStore-delete id m v.distinct in
    record { few = omega (arith, v.few, l); distinct = d }
perform-IsStore (setting id f) m v =
    let (d, l) = IsStore-update id f m v.distinct in
    record { few = omega (arith, v.few, l); distinct = d }
perform-IsStore (cleaning age now) m v =
    let (d, l) = IsStore-cleanup age now m v.distinct in
    record { few = omega (arith, v.few, l); distinct = d }

-- Whatever the handlers and the ticker do, in any order, from a store within the limit on: it never
-- holds more than 1000 sessions, and no key twice.
pub perform_all-IsStore : (ops : List Op) (m : Sessions) → IsStore m → IsStore (perform_all ops m)
perform_all-IsStore [] m v = v
perform_all-IsStore (op ∷ ops) m v = perform_all-IsStore ops (perform op m) (perform-IsStore op m v)

find_session-put :
    (j id : String) (s : WizardSession) (m : Sessions)
    → find_session j (put id s m) ≡ (if str_eq id j then some s else find_session j m)
unfolding find_session put
find_session-put j id s [] = refl
find_session-put j id s ((k, v) ∷ m) =
    ground (arith, find_session-put j id s m, eq_iff k id, eq_iff id j, eq_iff k j)

-- The answers of `create_session`: a session of the type, new and under its own key, and no other
-- one changed; or an error, and the store unchanged.
abbrev pub IsCreated : String → Sessions → Result WizardSession × Sessions → Type 0
IsCreated id m (ok s, m') =
    (s.id ≡ id)
    × ((j : String) → find_session j m' ≡ (if str_eq id j then some s else find_session j m))
IsCreated id m (err e, m') = m' ≡ m

-- Of every call: when it answers a session, the session has the given id, is found under it, and no
-- other session has changed; when it answers an error, the store has not changed.
pub create_session-IsCreated :
    (type id : String) (now : ℕ) (m : Sessions) → IsCreated id m (create_session type id now m)
unfolding create_session
create_session-IsCreated type id now m = go (type_of type)
  where
    go : (t : Option WizardType) → IsCreated id m (create_of t type id now m)
    go none = refl
    go (some t) =
        if-split (IsCreated id m) (leb max_sessions (length m)) (λ e. refl)
          (λ e. (refl, λ j. find_session-put j id (new_session t id now) m))

no_session : (id : String) (m : Sessions) → has_key id m ≡ false → find_session id m ≡ none
unfolding find_session
no_session id [] h = refl
no_session id ((k, v) ∷ m) h = ground (arith, no_session id m)

abbrev pub unless_old : ℕ → ℕ → Option WizardSession → Option WizardSession
unless_old age now none = none
unless_old age now (some s) = if is_old age now s then none else some s

-- In a map with distinct keys: behind a cleanup exactly those sessions are found that were there and
-- are not older than the given age, as they were.
pub find_session-cleanup :
    (age now : ℕ) (id : String) (m : Sessions)
    → DistinctKeys m
    → find_session id (cleanup_old_sessions age now m) ≡ unless_old age now (find_session id m)
unfolding find_session cleanup_old_sessions
find_session-cleanup age now id [] d = refl
find_session-cleanup age now id ((k, v) ∷ m) d = ground (
  arith,
  find_session-cleanup age now id m,
  eq_iff k id,
  no_session k (cleanup_old_sessions age now m),
  has_key-cleanup k age now m,
)

find_session-update :
    (id : String) (f : WizardSession → WizardSession) (m : Sessions)
    → find_session id (update id f m) ≡ Option.map f (find_session id m)
unfolding find_session update
find_session-update id f [] = refl
find_session-update id f ((k, v) ∷ m) = ground (arith, find_session-update id f m)

migrate_step-twice : (x : WizardStep) → migrate_step (migrate_step x) ≡ migrate_step x
migrate_step-twice breakdown = refl
migrate_step-twice x = refl

migrate_planning-twice :
    (d p : String) → migrate_planning d (migrate_planning d p) ≡ migrate_planning d p
migrate_planning-twice d p = ground arith

migrate_step-new : (x : WizardStep) → migrate_step x ≢ breakdown
migrate_step-new breakdown e = cc
migrate_step-new x e = cc

migrate-twice :
    (s : WizardSession) → migrate_old_session (migrate_old_session s) ≡ migrate_old_session s
unfolding migrate_old_session
migrate-twice s = λ i. record s {
  current_step = migrate_step-twice s.current_step i;
  technical_planning = migrate_planning-twice s.refined_description s.technical_planning i;
}

update-twice :
    (id : String) (f : WizardSession → WizardSession) (m : Sessions)
    → ((s : WizardSession) → f (f s) ≡ f s)
    → update id f (update id f m) ≡ update id f m
unfolding update
update-twice id f [] h = refl
update-twice id f ((k, v) ∷ m) h = ground (arith, update-twice id f m h, h v)

abbrev step_of : Option WizardSession → WizardStep
step_of none = refine
step_of (some s) = s.current_step

-- What is read is never in the old breakdown step, and a second read answers the same and changes
-- nothing more.
pub get_session-migrated :
    (id : String) (m : Sessions)
    → (get_session id (get_session id m).1 ≡ get_session id m)
      × ((s : WizardSession) → (get_session id m).0 ≡ some s → s.current_step ≢ breakdown)
unfolding get_session migrate_old_session
get_session-migrated id m = (
  ap (λ (t : Sessions). (find_session id t, t))
      (update-twice id migrate_old_session m migrate-twice),
  λ s e. found (find_session id m) s (sym (find_session-update id migrate_old_session m) ∙ e),
)
  where
    found :
        (o : Option WizardSession) (s : WizardSession)
        → Option.map migrate_old_session o ≡ some s
        → s.current_step ≢ breakdown
    found none s e q = cc
    found (some t) s e q = migrate_step-new t.current_step (ap step_of e ∙ q)
