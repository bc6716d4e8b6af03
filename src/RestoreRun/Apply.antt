-- ===== src/RestoreRun/Apply.antt =====
-- Apply of internal/restore/restorer.go: one object of the plan. The answers of the API server are
-- arguments, and the calls that change the cluster come back as a list, in their order. The
-- contents of the object and the rewriting of its references are left out.
use backup_restore.Prelude.{
  String, Bool, true, false, ◌&&◌, List, [], ◌∷◌, Option, none, some, contains, str_append, str_eq,
  is_empty, if◌then◌else◌,
}
use backup_restore.Api.{RestoreConflictPolicy, BackupRecord}
use backup_restore.Errors.{Failure, other_error, Io, done, failed}
use backup_restore.Restore.{PlanItem, ConflictError, resolve}

-- What a Get or a Delete ends with.
pub data Found : Type 0 where
  found not_found : Found
  get_failed : Failure → Found

pub record Answers : Type 0 where
  -- The file of the object is read.
  pub loaded : Io (Unit {0})
  -- The transformation of a claim, done at once where there is none.
  pub transformed : Io (Unit {0})
  -- The API version is parsed and mapped to a resource.
  pub mapped : Io (Unit {0})
  pub existing : String → Found
  pub created : String → Io (Unit {0})
  pub updated : Io (Unit {0})
  pub deleted : Found
  -- The poll until the deleted object is gone.
  pub gone : Io (Unit {0})
  pub recreated : Io (Unit {0})

pub data Call : Type 0 where
  create_object update_object delete_object : String → Call
  -- The status of the BackupRecord, as complete patches it.
  note_restore : BackupRecord → Call

pub record ApplyResult : Type 0 where
  pub action : String
  pub target_name : String
  pub target_namespace : String

pub record Applied : Type 0 where
  pub calls : List Call
  pub result : ApplyResult
  pub error : Option Failure

abbrev pub no_result : ApplyResult
no_result = record { action = ""; target_name = ""; target_namespace = "" }

abbrev pub refused : Failure → Applied
refused e = record { calls = []; result = no_result; error = some e }

abbrev pub result_of : String → PlanItem → ApplyResult
result_of action item = record {
  action = action;
  target_name = item.target_name;
  target_namespace = item.target_namespace;
}

unfoldable pub recreate_supported : String → Bool
recreate_supported kind =
    contains
      ("Service" ∷ "Deployment" ∷ "StatefulSet" ∷ "DaemonSet" ∷ "Job" ∷ "CronJob" ∷ "Ingress"
        ∷ "HorizontalPodAutoscaler" ∷ "PodDisruptionBudget" ∷ "NetworkPolicy" ∷ "Role"
        ∷ "RoleBinding" ∷ "ConfigMap" ∷ [])
      kind

-- The candidates of availableName: the base, and the base with "-2" to "-10".
abbrev pub suffixes : List String
suffixes = "" ∷ "-2" ∷ "-3" ∷ "-4" ∷ "-5" ∷ "-6" ∷ "-7" ∷ "-8" ∷ "-9" ∷ "-10" ∷ []

pub data Name : Type 0 where
  free : String → Name
  no_name : Failure → Name

abbrev pub name_from : Found → String → Name → Name
name_from found candidate later = later
name_from not_found candidate later = free candidate
name_from (get_failed e) candidate later = no_name e

unfoldable pub first_free : (String → Found) → String → List String → Name
first_free existing base [] = no_name other_error
first_free existing base (suffix ∷ rest) =
    let candidate = str_append base suffix in
    name_from (existing candidate) candidate (first_free existing base rest)

unfoldable pub available_name : (String → Found) → String → Name
unfolding first_free
available_name existing base = first_free existing base suffixes

abbrev pub error_of : Io (Unit {0}) → Option Failure
error_of (done _) = none
error_of (failed e) = some e

-- Deletion, the wait until the object is gone, and a new object.
abbrev pub after_gone : Answers → PlanItem → Io (Unit {0}) → Applied
after_gone a item (failed e) = record {
  calls = update_object item.target_name ∷ delete_object item.target_name ∷ [];
  result = result_of "Recreate" item;
  error = some e;
}
after_gone a item (done _) = record {
  calls =
      update_object item.target_name
      ∷ delete_object item.target_name
      ∷ create_object item.target_name
      ∷ [];
  result = result_of "Recreate" item;
  error = error_of a.recreated;
}

unfoldable pub recreate : Answers → PlanItem → Found → Applied
recreate a item (get_failed e) = record {
  calls = update_object item.target_name ∷ delete_object item.target_name ∷ [];
  result = result_of "Recreate" item;
  error = some e;
}
recreate a item _ = after_gone a item a.gone

abbrev pub may_recreate : RestoreConflictPolicy → PlanItem → Bool
may_recreate policy item =
    policy.allow_recreate && policy.high_risk_confirmed && recreate_supported item.kind

unfoldable pub overwrite : Answers → RestoreConflictPolicy → PlanItem → Io (Unit {0}) → Applied
unfolding recreate recreate_supported
overwrite a policy item (done _) = record {
  calls = update_object item.target_name ∷ [];
  result = result_of "Overwrite" item;
  error = none;
}
overwrite a policy item (failed e) =
    if may_recreate policy item then recreate a item a.deleted else record {
      calls = update_object item.target_name ∷ [];
      result = result_of "Overwrite" item;
      error = some e;
    }

unfoldable pub rename : Answers → PlanItem → Name → Applied
rename a item (no_name e) = refused e
rename a item (free name) = record {
  calls = create_object name ∷ [];
  result = record {
    action = "Rename";
    target_name = name;
    target_namespace = item.target_namespace;
  };
  error = error_of (a.created name);
}

unfoldable pub create : Answers → PlanItem → Applied
create a item = record {
  calls = create_object item.target_name ∷ [];
  result = result_of "Create" item;
  error = error_of (a.created item.target_name);
}

-- The `switch` on the action; the resolver gives no other action.
unfoldable pub act : Answers → RestoreConflictPolicy → PlanItem → String → Applied
unfolding create overwrite rename available_name
act a policy item action =
    if str_eq action "Create"
    then create a item
    else if str_eq action "Skip"
    then record { calls = []; result = result_of "Skip" item; error = none }
    else if str_eq action "Overwrite"
    then overwrite a policy item a.updated
    else if str_eq action "Rename"
    then rename a item (available_name a.existing (str_append item.target_name "-restored"))
    else record { calls = []; result = result_of action item; error = none }

abbrev pub resolved :
    Answers → RestoreConflictPolicy → PlanItem → String × Option ConflictError → Applied
resolved a policy item (action, some e) = record {
  calls = [];
  result = result_of "Fail" item;
  error = some other_error;
}
resolved a policy item (action, none) = act a policy item action

unfoldable pub with_existing : Answers → RestoreConflictPolicy → PlanItem → Found → Applied
unfolding act resolve
with_existing a policy item (get_failed e) = refused e
with_existing a policy item found =
    resolved a policy item (resolve policy item.source_gvr item.kind true)
with_existing a policy item not_found =
    resolved a policy item (resolve policy item.source_gvr item.kind false)

abbrev pub is_synthetic : PlanItem → Bool
is_synthetic item = str_eq item.kind "Namespace" && is_empty item.file

abbrev pub then_apply : Io (Unit {0}) → Applied → Applied
then_apply (done _) next = next
then_apply (failed e) next = refused e

-- A namespace without a file is made up; any other object is loaded.
unfoldable pub apply : Answers → RestoreConflictPolicy → PlanItem → Applied
unfolding with_existing
apply a policy item = then_apply (if is_synthetic item then done tt else a.loaded) (
    then_apply a.transformed
      (then_apply a.mapped (with_existing a policy item (a.existing item.target_name))))
