-- ===== src/Restore/Actions.antt =====
-- What a conflict policy allows (internal/restore/conflict.go).
use backup_restore.Prelude.{
  ◌≡◌, refl, String, Bool, true, false, not, ◌&&◌, Option, str_eq, Bool-cases, inl, inr, str_eq→eq,
  subst, sym,
}
use backup_restore.Api.{RestoreConflictPolicy}
use backup_restore.Webhook.Repository.{is_set}
use backup_restore.Restore.{ConflictError, policy_for, resolve, resolve_policy_of, rename_supported}

-- What an action and its error may be, for a policy and a kind.
abbrev pub IsAllowed : String → String → Bool → String × Option ConflictError → Type 0
IsAllowed policy kind exists (action, error) =
    (is_set error ≡ str_eq action "Fail")
    × (str_eq action "Create" ≡ not exists)
    × (str_eq action "Overwrite" ≡ (exists && str_eq policy "Overwrite"))
    × (str_eq action "Rename" ≡ (exists && str_eq policy "Rename" && rename_supported kind))
    × (str_eq action "Skip" ≡ (exists && str_eq policy "Skip"))

renamed :
    (kind : String) (supported : Bool)
    → rename_supported kind ≡ supported
    → IsAllowed "Rename" kind true (resolve_policy_of "Rename" kind)
unfolding resolve_policy_of
renamed kind true e = rw e (refl, refl, refl, refl, refl)
renamed kind false e = rw e (refl, refl, refl, refl, refl)

of_literal :
    (policy literal kind : String)
    → str_eq policy literal ≡ true
    → IsAllowed literal kind true (resolve_policy_of literal kind)
    → IsAllowed policy kind true (resolve_policy_of policy kind)
of_literal policy literal kind b h =
    subst (λ p. IsAllowed p kind true (resolve_policy_of p kind)) (sym (str_eq→eq policy literal b))
      h

resolve_policy_of-IsAllowed :
    (policy kind : String) → IsAllowed policy kind true (resolve_policy_of policy kind)
unfolding resolve_policy_of
resolve_policy_of-IsAllowed policy kind = elim (Bool-cases (str_eq policy "Skip")) [
  | inl b ↦ of_literal policy "Skip" kind b (refl, refl, refl, refl, refl)
  | inr b ↦ elim (Bool-cases (str_eq policy "Fail")) [
    | inl c ↦ of_literal policy "Fail" kind c (refl, refl, refl, refl, refl)
    | inr c ↦ elim (Bool-cases (str_eq policy "Overwrite")) [
      | inl d ↦ of_literal policy "Overwrite" kind d (refl, refl, refl, refl, refl)
      | inr d ↦ elim (Bool-cases (str_eq policy "Rename")) [
        | inl e ↦ of_literal policy "Rename" kind e (renamed kind (rename_supported kind) refl)
        | inr e ↦ rw b (rw c (rw d (rw e (refl, refl, refl, refl, refl))))
      ]
    ]
  ]
]

-- An object is created exactly if there is none; one that is there is overwritten exactly if the
-- policy for its resource says so, renamed exactly if the policy says so and the kind supports it,
-- and skipped exactly if the policy says so; else, and only then, the restore fails with an error.
resolve-IsAllowed :
    (policy : RestoreConflictPolicy) (gvr kind : String) (exists : Bool)
    → IsAllowed (policy_for policy gvr) kind exists (resolve policy gvr kind exists)
unfolding resolve
resolve-IsAllowed policy gvr kind true = resolve_policy_of-IsAllowed (policy_for policy gvr) kind
resolve-IsAllowed policy gvr kind false = (refl, refl, refl, refl, refl)
