-- ===== src/Tests/Desktop.antt =====
-- Transactions with the clipboard of a desktop that is busy at first.
use tailclip.Base.{none, if◌then◌else◌, ltb, ok, err}
use tailclip.Clipboard.{busy}
use tailclip.Clipboard.Session.{Desktop, run, retry_open_clipboard, rounds}
use tailclip.Clipboard.Session.Retry.{Ends, retry_open_clipboard-Ends}
use tailclip.Clipboard.Session.Balance.{IsBalanced, run-IsBalanced}

abbrev desktop : Desktop
desktop = record {
  ctx = λ t. none;
  create_owner = ok 9;
  destroy_owner = λ w. ok tt;
  attempt = λ i. if ltb i 2 then err busy else ok tt;
  open_time = λ i. 0;
  interrupted = λ i. none;
  oversleep = λ i. 0;
  close = ok tt;
}

abbrev busy_desktop : Desktop
busy_desktop = record desktop { attempt = λ i. err busy }

run-IsBalanced_example : IsBalanced (run busy_desktop 0 (ok tt))
run-IsBalanced_example = run-IsBalanced busy_desktop 0 (ok tt)

retry_open_clipboard-Ends_example : Ends rounds (retry_open_clipboard busy_desktop 0)
retry_open_clipboard-Ends_example = retry_open_clipboard-Ends busy_desktop 0
