-- ===== src/Tests/Receipts.antt =====
-- The response receipts of card actions at concrete inputs.
use lantern_task_manager.Base.{◌≡◌, refl, true, false, none, some, ok, arith, find}
use lantern_task_manager.Storage.Orm.{Clock}
use lantern_task_manager.Interaction.{stored, in_progress, claim, complete}
use lantern_task_manager.Interaction.Receipts.{find_receipt, claim_once, complete-claim}
use lantern_task_manager.Tests.Sample.{world, clock, db, welcomed}

-- Four minutes after `clock`.
abbrev soon : Clock
soon = record clock { now = 1240 }

granted : (claim world clock "action:1" db).0 ≡ ok (true, none)
unfolding claim find
granted = refl

claim_once_example :
    claim world soon "action:1" (claim world clock "action:1" db).1
    ≡ (ok (false, some (stored in_progress)), (claim world clock "action:1" db).1)
claim_once_example = claim_once world clock soon "action:1" db refl granted (omega arith)

found_receipt : find_receipt "notify:welcome:bob" db ≡ some welcomed
unfolding find
found_receipt = refl

complete-claim_example :
    claim world soon "notify:welcome:bob"
      (complete world clock "notify:welcome:bob" "DONE" "Done." db).1
    ≡ (
      ok (false, some (record { code = "DONE"; text = "Done." })),
      (complete world clock "notify:welcome:bob" "DONE" "Done." db).1,
    )
complete-claim_example =
    complete-claim world clock soon "notify:welcome:bob" "DONE" "Done." db welcomed refl
      found_receipt refl refl refl
