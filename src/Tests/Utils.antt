-- ===== src/Tests/Utils.antt =====
-- A line of the log, and a text replaced.
use sprinkler_d.Prelude.{ℕ, ◌+◌, ◌*◌, ◌≤◌, ◌≡◌, refl, some, true, length, arith}
use sprinkler_d.Text.{Text, bytes, same_upto}
use sprinkler_d.Utils.Log.{log_err, log_debug, mxprnt, spaces, ends_line, log_line}
use sprinkler_d.Utils.Lines.{log_line_bounds}
use sprinkler_d.Utils.Replace.{count_patterns, replace}
use sprinkler_d.Utils.Replaced.{replace_ends}

abbrev too_long : Text
too_long = spaces 600

log_line_bounds_example :
    (length (log_line log_err too_long) ≤ mxprnt) × (ends_line (log_line log_err too_long) ≡ true)
log_line_bounds_example = log_line_bounds log_err too_long

short_line : log_line log_debug (bytes "loop") ≡ bytes "Debug:  loop\n"
unfolding log_line bytes
short_line = refl

replace_ends_example :
    (n : ℕ) × (t : Text) × (count_patterns 10 (bytes "on off on") (bytes "on") ≡ some n)
    × (replace 10 (bytes "on off on") (bytes "on") (bytes "1") ≡ some (t, length t + 1))
    × (length t + n * 2 ≡ 9 + n * 1)
unfolding bytes
replace_ends_example =
    replace_ends 10 (bytes "on off on") (bytes "on") (bytes "1") (omega arith) (omega arith)
      (omega arith) (omega arith) (omega arith)

on_replaced : replace 10 (bytes "on off on") (bytes "on") (bytes "1") ≡ some (bytes "1 off 1", 8)
unfolding replace bytes same_upto
on_replaced = refl
