-- ===== src/Examples/Scheduled.antt =====
-- The theorems of Scheduler at work, with a schedule that is due an hour after any time.
use backup_restore.Prelude.{arith, ◌*◌}
use backup_restore.Prelude.Int.{pos, ◌+ℤ◌, +ℤ_parts}
use backup_restore.Api.{Time, MissedRunPolicy}
use backup_restore.Webhook.Defaults.{hour}
use backup_restore.Scheduler.{due_times, start_from, catch_up}
use backup_restore.Scheduler.Due.{Advances, AreDue, due_times-AreDue}

abbrev pub hourly : Time → Time
hourly t = t +ℤ pos hour

pub hourly-Advances : Advances hourly
hourly-Advances t = ground (arith, +ℤ_parts t (pos hour))

due_times-AreDue_example :
    AreDue
      (start_from (pos 0) (pos (5 * hour)) (pos (4 * hour)))
      (pos (5 * hour))
      (catch_up (pos 2))
      (due_times hourly (pos 0) (pos (5 * hour)) (pos (4 * hour)) MissedRunPolicy.run_all (pos 2))
due_times-AreDue_example =
    due_times-AreDue hourly hourly-Advances (pos 0) (pos (5 * hour)) (pos (4 * hour))
      MissedRunPolicy.run_all (pos 2)
