-- ===== src/Execution/Drift.antt =====
-- `analyze_drift` and `_parse_expected_plugins` of services/execution-service/main.py. Ages are in
-- microseconds, and an age limit given in hours is one in microseconds: no rounding is modelled.
pub mod Score
use nexora_platform.Prelude.{
  ℕ, zero, suc, ◌+◌, ◌-◌, ◌*◌, min, String, Bool, true, false, not, ◌&&◌, Option, none, some, List,
  [], ◌∷◌, ◌++◌, map, keep, any, count, head?, length, ltb, ◌==◌, if◌then◌else◌,
}
use nexora_platform.Prelude.Int.{ℤ, pos, negsuc}
use nexora_platform.Prelude.Text.{Field, missing, null, given, truthy, text_or, opt_eq, strip}
use nexora_platform.Prelude.Action.{
  Outcome, ok, raised, and_then, lift, gets, raise_if, ◌>>=◌, ◌>>◌,
}
use nexora_platform.Execution.Status.{succeeded, failed, timeout, cancelled}
use nexora_platform.Execution.Model.{Execution}
use nexora_platform.Execution.World.{
  Services, Handler, Raised, http, devices_required, no_devices_found, bad_expected_plugins,
}
use nexora_platform.Execution.Rollout.{fleet_members}

-- An item of `expected_plugins`: a text, an object, or something else.
pub data ExpectedItem : Type 0 where
  text : String → ExpectedItem
  object : (plugin_id : Field String) → (max_age : Option ℤ) → ExpectedItem
  other : ExpectedItem

pub record Expected : Type 0 where
  pub plugin_id : String
  pub max_age : Option ℕ

-- `str(item.get("plugin_id", ""))`
abbrev id_text : Field String → String
id_text missing = ""
id_text null = "None"
id_text (given s) = s

-- the age limit of an object, which must be positive if it is given
abbrev checked_age : Option ℤ → Outcome Raised (Option ℕ)
checked_age none = ok none
checked_age (some (pos zero)) = raised (http bad_expected_plugins)
checked_age (some (pos (suc n))) = ok (some (suc n))
checked_age (some (negsuc n)) = raised (http bad_expected_plugins)

-- the loop over the items: a blank text is passed over
unfoldable pub parse_items : List ExpectedItem → Outcome Raised (List Expected)
parse_items [] = ok []
parse_items (text s ∷ l) =
    let rest = parse_items l in
    if strip s == ""
    then rest
    else and_then rest (λ es. ok (record { plugin_id = strip s; max_age = none } ∷ es))
parse_items (object f age ∷ l) =
    let rest = parse_items l in
    if strip (id_text f) == ""
    then raised (http bad_expected_plugins)
    else and_then (checked_age age)
        (λ a. and_then rest (λ es. ok (record { plugin_id = strip (id_text f); max_age = a } ∷ es)))
parse_items (other ∷ l) = raised (http bad_expected_plugins)

-- `none` if the field is no list
unfoldable pub parse_expected_plugins : Option (List ExpectedItem) → Outcome Raised (List Expected)
unfolding parse_items
parse_expected_plugins none = raised (http bad_expected_plugins)
parse_expected_plugins (some []) = raised (http bad_expected_plugins)
parse_expected_plugins (some (x ∷ l)) =
    and_then (parse_items (x ∷ l))
      (λ es. elim es [ [] ↦ raised (http bad_expected_plugins) | e ∷ r ↦ ok (e ∷ r) ])

-- `expected_by_plugin[plugin_id]`: of two items for one plugin the later one counts
unfoldable pub policy_for : String → List Expected → Option ℕ → Option ℕ
policy_for p [] found = found
policy_for p (e ∷ es) found = policy_for p es (if e.plugin_id == p then e.max_age else found)

abbrev created : Execution → ℕ
created e = elim e.created_at [ none ↦ 0 | some t ↦ suc t ]

-- `installs.sort(key=created_at, reverse=True)`, which keeps the order of equal keys
unfoldable pub insert_newest : Execution → List Execution → List Execution
insert_newest e [] = e ∷ []
insert_newest e (x ∷ l) = if ltb (created e) (created x) then x ∷ insert_newest e l else e ∷ x ∷ l

unfoldable pub newest_first : List Execution → List Execution
unfolding insert_newest
newest_first [] = []
newest_first (e ∷ l) = insert_newest e (newest_first l)

abbrev pub is_success : Execution → Bool
is_success e = elim e.status [ succeeded ↦ true | _ ↦ false ]

abbrev pub has_failed : Execution → Bool
has_failed e = elim e.status [ failed ↦ true | timeout ↦ true | cancelled ↦ true | _ ↦ false ]

-- the executions that install the plugin on the device
abbrev pub installs : String → String → Execution → Bool
installs d p e =
    opt_eq e.execution_type (some "function.install")
    && opt_eq e.device_id (some d)
    && opt_eq e.plugin_id (some p)

pub data IssueKind : Type 0 where
  missing_install latest_install_failed stale_install : IssueKind

pub record Issue : Type 0 where
  pub plugin_id : String
  pub kind : IssueKind

abbrev pub issue : String → IssueKind → Issue
issue p k = record { plugin_id = p; kind = k }

abbrev pub latest_failed : Option Execution → Bool
latest_failed none = false
latest_failed (some e) = has_failed e

abbrev is_older : ℕ → Option ℕ → Option Execution → Bool
is_older now none latest = false
is_older now (some limit) none = false
is_older now (some limit) (some e) = elim e.created_at [
  | none ↦ false
  | some t ↦ ltb limit (now - t)
]

-- the body of the loop over the expected plugins: the issues of one plugin on one device
unfoldable pub plugin_issues : ℕ → List Expected → List Execution → String → String → List Issue
unfolding newest_first policy_for
plugin_issues now expected t d p =
    let rows = newest_first (keep (installs d p) t) in
    if any is_success rows
    then (if is_older now (policy_for p expected none) (head? rows)
        then issue p stale_install ∷ []
        else [])
    else issue p missing_install
      ∷ (if latest_failed (head? rows) then issue p latest_install_failed ∷ [] else [])

unfoldable pub device_issues :
    ℕ → List Expected → List Execution → String → List Expected → List Issue
unfolding plugin_issues
device_issues now expected t d [] = []
device_issues now expected t d (e ∷ es) =
    plugin_issues now expected t d e.plugin_id ++ device_issues now expected t d es

abbrev pub is_missing : Issue → Bool
is_missing i = elim i.kind [ missing_install ↦ true | _ ↦ false ]

abbrev pub is_stale : Issue → Bool
is_stale i = elim i.kind [ stale_install ↦ true | _ ↦ false ]

abbrev pub is_latest_failed : Issue → Bool
is_latest_failed i = elim i.kind [ latest_install_failed ↦ true | _ ↦ false ]

pub record DeviceDrift : Type 0 where
  pub device_id : String
  pub drift_score : ℕ
  pub missing_installs : ℕ
  pub stale_installs : ℕ
  pub failed_latest_installs : ℕ
  pub issues : List Issue
  pub has_drift : Bool

-- The counters are increased exactly where an issue of the kind is appended.
unfoldable pub summarize_device : String → List Issue → DeviceDrift
summarize_device d issues =
    let missing = count is_missing issues in
    let stale = count is_stale issues in
    let failures = count is_latest_failed issues in
    let score = min 100 (missing * 60 + stale * 25 + failures * 20) in
    record {
      device_id = d;
      drift_score = score;
      missing_installs = missing;
      stale_installs = stale;
      failed_latest_installs = failures;
      issues = issues;
      has_drift = ltb 0 score;
    }

unfoldable pub device_drift : ℕ → List Expected → List Execution → String → DeviceDrift
unfolding device_issues summarize_device
device_drift now expected t d = summarize_device d (device_issues now expected t d expected)

pub record DriftPayload : Type 0 where
  pub fleet_id : Option String
  pub device_ids : Option (List String)
  pub expected_plugins : Option (List ExpectedItem)

pub record DriftReport : Type 0 where
  pub expected_plugins : List Expected
  pub total_devices : ℕ
  pub devices_with_drift : ℕ
  pub missing_installs : ℕ
  pub stale_installs : ℕ
  pub failed_latest_installs : ℕ
  pub devices : List DeviceDrift

abbrev pub total_of : (DeviceDrift → ℕ) → List DeviceDrift → ℕ
total_of f [] = 0
total_of f (d ∷ ds) = f d + total_of f ds

unfoldable pub drift_report : List Expected → List DeviceDrift → DriftReport
drift_report expected ds = record {
  expected_plugins = expected;
  total_devices = length ds;
  devices_with_drift = count (λ d. d.has_drift) ds;
  missing_installs = total_of (λ d. d.missing_installs) ds;
  stale_installs = total_of (λ d. d.stale_installs) ds;
  failed_latest_installs = total_of (λ d. d.failed_latest_installs) ds;
  devices = ds;
}

-- the devices of the fleet, or those that are listed, blanks taken off
unfoldable pub drift_devices : Services → DriftPayload → Outcome Raised (List String)
drift_devices ext p =
    if truthy p.fleet_id
    then fleet_members (ext.get_fleet_members (text_or p.fleet_id ""))
    else elim p.device_ids [
      | none ↦ raised (http devices_required)
      | some [] ↦ raised (http devices_required)
      | some (x ∷ l) ↦ ok (keep (λ s. not (s == "")) (map strip (x ∷ l)))
    ]

unfoldable pub analyze_drift : Services → DriftPayload → Handler DriftReport
analyze_drift ext p = do
  device_ids ← lift (drift_devices ext p)
  raise_if (elim device_ids [ [] ↦ true | _ ∷ _ ↦ false ]) (http no_devices_found)
  expected ← lift (parse_expected_plugins p.expected_plugins)
  gets (λ w. drift_report expected (map (device_drift w.clock expected w.executions) device_ids))
