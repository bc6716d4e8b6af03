-- ===== src/Webhook/Mapping.antt =====
-- The check of a namespace mapping (RestoreTask.validate in api/v1alpha1/webhook_validation.go)
-- against what it is for: two source namespaces never share a target.
use backup_restore.Prelude.{
  String, refl, ◌≡◌, ◌↔◌, false, List, [], ◌∷◌, arith, is_empty, lookup, insert, All, str_eq→eq,
  eq→str_eq,
}
use backup_restore.Webhook.Check.{valid}
use backup_restore.Webhook.Restore.{taken_by_other, validate_mapping_from, validate_mapping}

abbrev pub IsNamed : String × String → Type 0
IsNamed (source, target) = (is_empty source ≡ false) × (is_empty target ≡ false)

abbrev pub Agrees : String × String → String × String → Type 0
Agrees (source, target) (other, target') = target ≡ target' → source ≡ other

-- No two entries have one target and two sources.
abbrev pub IsInjective : List (String × String) → Type 0
IsInjective [] = Unit
IsInjective (entry ∷ mapping) = All (Agrees entry) mapping × IsInjective mapping

abbrev IsFree : List (String × String) → String × String → Type 0
IsFree seen (source, target) = taken_by_other (lookup target seen) source ≡ false

IsFree-insert :
    (seen : List (String × String)) (source target : String) (entry : String × String)
    → IsFree seen (source, target)
    → IsFree (insert target source seen) entry ↔ (Agrees (source, target) entry × IsFree seen entry)
unfolding lookup insert
IsFree-insert seen source target (other, target') free =
    let hit = str_eq→eq target target' in
    let same = eq→str_eq target target' in
    (
      λ h. (
        ground (arith, same, str_eq→eq source other),
        ground (arith, hit, str_eq→eq source other),
      ),
      λ h. ground (arith, hit, eq→str_eq source other),
    )

All-split :
    (P Q R : String × String → Type 0)
    → ((e : String × String) → P e ↔ (Q e × R e))
    → (m : List (String × String)) → All P m ↔ (All Q m × All R m)
All-split P Q R f [] = (λ h. (tt, tt), λ h. tt)
All-split P Q R f (e ∷ m) =
    let (to, from) = f e in
    let (to_rest, from_rest) = All-split P Q R f m in
    (
      λ h. (((to h.0).0, (to_rest h.1).0), ((to h.0).1, (to_rest h.1).1)),
      λ h. (from (h.0.0, h.1.0), from_rest (h.0.1, h.1.1)),
    )

validate_mapping_from-cons :
    (seen mapping : List (String × String)) (source target : String)
    → (validate_mapping_from seen ((source, target) ∷ mapping) ≡ valid) ↔ (
        IsNamed (source, target)
        × IsFree seen (source, target)
        × (validate_mapping_from (insert target source seen) mapping ≡ valid))
unfolding validate_mapping_from
validate_mapping_from-cons seen mapping source target = (λ h. ground arith, λ h. ground arith)

validate_mapping_from_iff :
    (seen mapping : List (String × String))
    → (validate_mapping_from seen mapping ≡ valid)
      ↔ (All IsNamed mapping × IsInjective mapping × All (IsFree seen) mapping)
unfolding validate_mapping_from
validate_mapping_from_iff seen [] = (λ h. (tt, tt, tt), λ h. refl)
validate_mapping_from_iff seen ((source, target) ∷ mapping) =
    let (to, from) = validate_mapping_from-cons seen mapping source target in
    let (to_rest, from_rest) = validate_mapping_from_iff (insert target source seen) mapping in
    (
      λ h.
          let (named, free, rest) = to h in
          let (names, injective, fresh) = to_rest rest in
          let (agree, old) = (split free).0 fresh in
          ((named, names), (agree, injective), (free, old)),
      λ h. from (h.0.0, h.2.0, from_rest (h.0.1, h.1.1, (split h.2.0).1 (h.1.0, h.2.1))),
    )
  where
    split :
        IsFree seen (source, target)
        → All (IsFree (insert target source seen)) mapping
          ↔ (All (Agrees (source, target)) mapping × All (IsFree seen) mapping)
    split free =
        All-split (IsFree (insert target source seen)) (Agrees (source, target)) (IsFree seen)
          (λ e. IsFree-insert seen source target e free) mapping

All-IsFree : (m : List (String × String)) → All (IsFree []) m
unfolding lookup
All-IsFree [] = tt
All-IsFree (e ∷ m) = (refl, All-IsFree m)

-- A namespace mapping is accepted exactly when all names are nonempty and no two entries send two
-- sources to one target, in whatever order the entries are visited.
pub validate_mapping_iff :
    (mapping : List (String × String))
    → (validate_mapping mapping ≡ valid) ↔ (All IsNamed mapping × IsInjective mapping)
unfolding validate_mapping
validate_mapping_iff mapping =
    let (to, from) = validate_mapping_from_iff [] mapping in
    (λ h. ((to h).0, (to h).1), λ h. from (h.0, h.1, All-IsFree mapping))
