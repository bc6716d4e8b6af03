-- ===== src/Restore/Conflict.antt =====
-- internal/restore/conflict.go: what happens to an object that the cluster has already.
use Prim.Native.Char.{code}
use backup_restore.Prelude.{
  String, Bool, List, [], ◌∷◌, Option, none, some, ◌==◌, is_empty, str_eq, contains, get_text,
  if◌then◌else◌,
}
use backup_restore.Api.{RestoreConflictPolicy}

-- strings.SplitN(s, ".", 2)[0].
unfoldable pub before_dot : String → String
before_dot String.[] = ""
before_dot (String.◌∷◌ c s) =
    let rest = before_dot s in if code c == b'.' then "" else String.◌∷◌ c rest

unfoldable pub policy_for : RestoreConflictPolicy → String → String
unfolding before_dot
policy_for policy gvr =
    if is_empty (get_text gvr policy.per_resource)
    then (if is_empty (get_text (before_dot gvr) policy.per_resource)
        then (if is_empty policy.default then "Skip" else policy.default)
        else get_text (before_dot gvr) policy.per_resource)
    else get_text gvr policy.per_resource

abbrev renamed_kinds : List String
renamed_kinds =
    "ConfigMap" ∷ "Secret" ∷ "ServiceAccount" ∷ "Service" ∷ "Deployment" ∷ "StatefulSet"
    ∷ "DaemonSet" ∷ "Job" ∷ "CronJob" ∷ "Ingress" ∷ "Role" ∷ "RoleBinding" ∷ []

unfoldable pub rename_supported : String → Bool
rename_supported kind = contains renamed_kinds kind

pub data ConflictError : Type 0 where
  already_exists rename_unsupported policy_unsupported : ConflictError

-- The action, and the error.
unfoldable pub resolve_policy_of : String → String → String × Option ConflictError
unfolding rename_supported
resolve_policy_of policy kind =
    if str_eq policy "Skip"
    then ("Skip", none)
    else if str_eq policy "Fail"
    then ("Fail", some already_exists)
    else if str_eq policy "Overwrite"
    then ("Overwrite", none)
    else if str_eq policy "Rename"
    then (if rename_supported kind then ("Rename", none) else ("Fail", some rename_unsupported))
    else ("Fail", some policy_unsupported)

unfoldable pub resolve :
    RestoreConflictPolicy → (gvr kind : String) → (exists : Bool) → String × Option ConflictError
unfolding policy_for resolve_policy_of
resolve policy gvr kind exists =
    if exists then resolve_policy_of (policy_for policy gvr) kind else ("Create", none)
