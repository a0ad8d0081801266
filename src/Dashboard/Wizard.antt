-- ===== src/Dashboard/Wizard.antt =====
-- internal/dashboard/wizard.go: the sessions of the wizard and their store. Sessions are shared by
-- pointer, so a setter acts on the session in the store (`update`). `now` is the clock, `id` the new
-- UUID; a map is a list of pairs with distinct keys. `CleanupOldSessions` runs on a ticker.
pub mod Sessions
pub mod Tasks
use Prim.Native.String.{◌++◌}
use one_dev_army.Common.{
  ℕ, zero, suc, ◌+◌, Bool, true, false, not, ◌&&◌, ◌||◌, Option, none, some, List, [], ◌∷◌,
  ◌++◌ as append, String, str_eq, if◌then◌else◌, ltb, leb, length,
}
use one_dev_army.Common.Effect.{Result, ok, err}

pub data WizardType : Type 0 where
  feature bug : WizardType

-- `breakdown` is the step of old sessions.
pub data WizardStep : Type 0 where
  new refine create done breakdown : WizardStep

pub record LlmLogEntry : Type 0 where
  pub timestamp : ℕ
  pub role : String
  pub message : String

pub record CreatedIssue : Type 0 where
  pub number : ℕ
  pub title : String
  pub url : String
  pub is_epic : Bool
  pub success : Bool
  pub error : String

pub record WizardSession : Type 0 where
  pub id : String
  pub type : WizardType
  pub current_step : WizardStep
  pub idea_text : String
  pub refined_description : String
  pub technical_planning : String
  pub generated_title : String
  pub custom_title : String
  pub use_custom_title : Bool
  pub priority : String
  pub complexity : String
  pub created_issues : List CreatedIssue
  pub epic_number : ℕ
  pub add_to_sprint : Bool
  pub skip_breakdown : Bool
  pub language : String
  pub llm_logs : List LlmLogEntry
  pub created_at : ℕ
  pub updated_at : ℕ

abbrev pub max_sessions : ℕ
max_sessions = 1000

unfoldable pub add_log : String → String → ℕ → WizardSession → WizardSession
add_log role message now s = record s {
  llm_logs = append s.llm_logs (record { timestamp = now; role = role; message = message } ∷ []);
  updated_at = now;
}

unfoldable pub set_step : WizardStep → ℕ → WizardSession → WizardSession
set_step step now s = record s { current_step = step; updated_at = now }

unfoldable pub set_refined_description : String → ℕ → WizardSession → WizardSession
set_refined_description d now s = record s { refined_description = d; updated_at = now }

unfoldable pub set_technical_planning : String → ℕ → WizardSession → WizardSession
set_technical_planning p now s = record s { technical_planning = p; updated_at = now }

unfoldable pub set_generated_title : String → ℕ → WizardSession → WizardSession
set_generated_title t now s = record s { generated_title = t; updated_at = now }

unfoldable pub set_custom_title : String → ℕ → WizardSession → WizardSession
set_custom_title t now s = record s { custom_title = t; updated_at = now }

unfoldable pub set_use_custom_title : Bool → ℕ → WizardSession → WizardSession
set_use_custom_title b now s = record s { use_custom_title = b; updated_at = now }

unfoldable pub get_final_title : WizardSession → String
get_final_title s =
    if s.use_custom_title && not (str_eq s.custom_title "")
    then s.custom_title
    else s.generated_title

unfoldable pub add_created_issue : CreatedIssue → ℕ → WizardSession → WizardSession
add_created_issue i now s = record s {
  created_issues = append s.created_issues (i ∷ []);
  updated_at = now;
}

unfoldable pub set_epic_number : ℕ → ℕ → WizardSession → WizardSession
set_epic_number n now s = record s { epic_number = n; updated_at = now }

unfoldable pub set_language : String → ℕ → WizardSession → WizardSession
set_language x now s = record s { language = x; updated_at = now }

unfoldable pub set_priority : String → ℕ → WizardSession → WizardSession
set_priority x now s = record s { priority = x; updated_at = now }

unfoldable pub set_complexity : String → ℕ → WizardSession → WizardSession
set_complexity x now s = record s { complexity = x; updated_at = now }

unfoldable pub set_idea_text : String → ℕ → WizardSession → WizardSession
set_idea_text x now s = record s { idea_text = x; updated_at = now }

unfoldable pub set_add_to_sprint : Bool → ℕ → WizardSession → WizardSession
set_add_to_sprint b now s = record s { add_to_sprint = b; updated_at = now }

unfoldable pub set_skip_breakdown : Bool → ℕ → WizardSession → WizardSession
set_skip_breakdown b now s = record s { skip_breakdown = b; updated_at = now }

unfoldable pub set_created_issues : List CreatedIssue → ℕ → WizardSession → WizardSession
set_created_issues is now s = record s { created_issues = is; updated_at = now }

abbrev pub migrate_step : WizardStep → WizardStep
migrate_step breakdown = refine
migrate_step s = s

-- A description without a planning is taken as the planning.
abbrev pub migrate_planning : String → String → String
migrate_planning description planning =
    if not (str_eq description "") && str_eq planning "" then description else planning

-- `MigrateOldSession`; the time of the session stays.
unfoldable pub migrate_old_session : WizardSession → WizardSession
migrate_old_session s = record s {
  current_step = migrate_step s.current_step;
  technical_planning = migrate_planning s.refined_description s.technical_planning;
}

abbrev pub Sessions : Type 0
Sessions = List (String × WizardSession)

-- `ValidWizardTypes`
abbrev pub type_of : String → Option WizardType
type_of s = if str_eq s "feature" then some feature else (if str_eq s "bug" then some bug else none)

abbrev pub new_session : WizardType → String → ℕ → WizardSession
new_session t id now = record {
  id = id;
  type = t;
  current_step = new;
  idea_text = "";
  refined_description = "";
  technical_planning = "";
  generated_title = "";
  custom_title = "";
  use_custom_title = false;
  priority = "";
  complexity = "";
  created_issues = [];
  epic_number = 0;
  add_to_sprint = false;
  skip_breakdown = false;
  language = "";
  llm_logs = [];
  created_at = now;
  updated_at = now;
}

-- `sessions[id] = session`
unfoldable pub put : String → WizardSession → Sessions → Sessions
put id s [] = (id, s) ∷ []
put id s ((k, v) ∷ m) = if str_eq k id then (id, s) ∷ m else (k, v) ∷ put id s m

unfoldable pub find_session : String → Sessions → Option WizardSession
find_session id [] = none
find_session id ((k, v) ∷ m) = if str_eq k id then some v else find_session id m

-- A change of a session through its pointer.
unfoldable pub update : String → (WizardSession → WizardSession) → Sessions → Sessions
update id f [] = []
update id f ((k, v) ∷ m) = if str_eq k id then (k, f v) ∷ m else (k, v) ∷ update id f m

abbrev pub create_of :
    Option WizardType → String → String → ℕ → Sessions → Result WizardSession × Sessions
create_of none type id now m =
    (err ("invalid wizard type: " ++ type ++ " (must be 'feature' or 'bug')"), m)
create_of (some t) type id now m =
    if leb max_sessions (length m)
    then (err "maximum number of sessions reached, please try again later", m)
    else (ok (new_session t id now), put id (new_session t id now) m)

unfoldable pub create_session : String → String → ℕ → Sessions → Result WizardSession × Sessions
unfolding put
create_session type id now m = create_of (type_of type) type id now m

-- `Get` migrates the session that it finds, in the store.
unfoldable pub get_session : String → Sessions → Option WizardSession × Sessions
unfolding find_session update migrate_old_session
get_session id m = let m1 = update id migrate_old_session m in (find_session id m1, m1)

unfoldable pub delete_session : String → Sessions → Sessions
delete_session id [] = []
delete_session id ((k, v) ∷ m) =
    let rest = delete_session id m in if str_eq k id then rest else (k, v) ∷ rest

-- `session.UpdatedAt.Before(now - maxAge)`
abbrev pub is_old : ℕ → ℕ → WizardSession → Bool
is_old max_age now s = ltb (s.updated_at + max_age) now

unfoldable pub cleanup_old_sessions : ℕ → ℕ → Sessions → Sessions
cleanup_old_sessions max_age now [] = []
cleanup_old_sessions max_age now ((k, v) ∷ m) =
    let rest = cleanup_old_sessions max_age now m in
    if is_old max_age now v then rest else (k, v) ∷ rest

abbrev pub count : Sessions → ℕ
count m = length m
