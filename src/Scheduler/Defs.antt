-- ===== src/Scheduler/Defs.antt =====
-- Parse and DueTimes of internal/scheduler/scheduler.go. The cron library is a parameter.
use text.Mathlib.Text.{starts_with}
use backup_restore.Prelude.{
  ℕ, zero, suc, ◌-◌, ◌*◌, String, Bool, ◌||◌, ◌&&◌, not, List, [], ◌∷◌, Option, none, ◌==◌, length,
  drop, if◌then◌else◌, is_empty,
}
use backup_restore.Prelude.Int.{ℤ, pos, pos_part, ltb_ℤ, leb_ℤ, ◌-ℤ◌}
use backup_restore.Api.{Time, Duration, MissedRunPolicy}
use backup_restore.Webhook.Check.{field_count}

-- A parsed schedule is known by its function from a time to the next activation.
pub record Cron : Type 0 where
  pub location_ok : String → Bool
  pub parse : (timezone expression : String) → Option (Time → Time)

-- strings.Contains.
unfoldable pub contains_text : String → String → Bool
contains_text needle String.[] = is_empty needle
contains_text needle (String.◌∷◌ c s) =
    starts_with (String.◌∷◌ c s) needle || contains_text needle s

abbrev timezone_or : String → String
timezone_or timezone = if is_empty timezone then "Etc/UTC" else timezone

-- Parse; the zone is given apart, so that the text of the prefix CRON_TZ= is the library's.
unfoldable pub parse : Cron → String → String → Option (Time → Time)
unfolding contains_text field_count
parse cron expression timezone =
    if (field_count expression == 0)
      || contains_text "TZ=" expression
      || not (field_count expression == 5)
      || not (cron.location_ok (timezone_or timezone))
    then none
    else cron.parse (timezone_or timezone) expression

abbrev pub minute : Duration
minute = pos (60 * 1000000000)

-- The loop, which ends at the first activation after now, or after `rounds` of them.
unfoldable pub collect_due : (Time → Time) → Time → ℕ → Time → List Time
collect_due next now zero cursor = []
collect_due next now (suc rounds) cursor =
    let found = next cursor ∷ collect_due next now rounds (next cursor) in
    if ltb_ℤ now (next cursor) then [] else found

abbrev pub last_or : Time → List Time → Time
last_or t [] = t
last_or t (u ∷ ts) = last_or u ts

-- The last of the list, in a list of its own.
abbrev pub only_last : List Time → List Time
only_last [] = []
only_last (t ∷ ts) = last_or t ts ∷ []

-- The last k.
abbrev pub take_last : ℕ → List Time → List Time
take_last k ts = drop (length ts - k) ts

abbrev pub if_recent : Time → List Time → List Time
if_recent now [] = []
if_recent now (t ∷ ts) = if leb_ℤ (now -ℤ t) minute then t ∷ [] else []

unfoldable pub choose_due : MissedRunPolicy → Time → ℕ → List Time → List Time
choose_due MissedRunPolicy.skip now max_catch_up all = if_recent now (only_last all)
choose_due MissedRunPolicy.run_all now max_catch_up all = take_last max_catch_up all
choose_due _ now max_catch_up all = only_last all

-- Where the search begins: no earlier than the deadline allows, if there is one.
unfoldable pub start_from : Time → Time → Duration → Time
start_from last now deadline =
    if ltb_ℤ (pos 0) deadline && ltb_ℤ last (now -ℤ deadline) then now -ℤ deadline else last

abbrev pub catch_up : ℤ → ℕ
catch_up max_catch_up = if ltb_ℤ max_catch_up (pos 1) then 1 else pos_part max_catch_up

unfoldable pub due_times : (Time → Time) → Time → Time → Duration → MissedRunPolicy → ℤ → List Time
due_times next last now deadline missed_policy max_catch_up =
    choose_due missed_policy now (catch_up max_catch_up)
      (collect_due next now 1000 (start_from last now deadline))
