-- ===== src/Utils/Log.antt =====
-- utils.c: `elevel2text`, `text2elevel` and `logMessage`. What logMessage writes is a list of texts, each with the place
-- it goes to; a message is the text that vsnprintf makes of its format, in full.
use sprinkler_d.Prelude.{
  ℕ, zero, suc, ◌-◌, ℤ, pos, negsuc, eqb_ℤ, ltb_ℤ, Bool, false, not, ◌&&◌, ◌||◌, List, [], ◌∷◌,
  ◌++◌, length, leb, ◌==◌, if◌then◌else◌,
}
use sprinkler_d.Text.{Text, bytes, first, same_text}

abbrev pub log_err : ℤ
log_err = pos 3

abbrev pub log_warning : ℤ
log_warning = pos 4

abbrev pub log_notice : ℤ
log_notice = pos 5

abbrev pub log_info : ℤ
log_info = pos 6

abbrev pub log_debug : ℤ
log_debug = pos 7

unfoldable pub elevel2text : ℤ → Text
elevel2text level =
    if eqb_ℤ level log_err
    then bytes "Error:"
    else if eqb_ℤ level log_debug
    then bytes "Debug:"
    else if eqb_ℤ level log_notice
    then bytes "Notice:"
    else if eqb_ℤ level log_info
    then bytes "Info:"
    else bytes "Warning:"

unfoldable pub text2elevel : Text → ℤ
text2elevel t =
    if same_text t (bytes "DEBUG")
    then log_debug
    else if same_text t (bytes "INFO")
    then log_info
    else if same_text t (bytes "NOTICE")
    then log_notice
    else if same_text t (bytes "WARNING")
    then log_warning
    else log_err

-- `MXPRNT`; the buffer has one byte more.
abbrev pub mxprnt : ℕ
mxprnt = 512

abbrev pub spaces : ℕ → Text
spaces zero = []
spaces (suc n) = b' ' ∷ spaces n

-- The buffer behind its first 8 bytes, as vsnprintf leaves it, and with the mark of a message that was cut off.
unfoldable pub printed : Text → Text
printed m = first (mxprnt - 11) m

unfoldable pub body : Text → Text
body m = if leb (mxprnt - 10) (length m) then first (mxprnt - 13) m ++ bytes "....\n" else m

abbrev pub ends_line : Text → Bool
ends_line [] = false
ends_line (c ∷ []) = c == b'\n'
ends_line (c ∷ d ∷ t) = ends_line (d ∷ t)

-- The level's text lies over the spaces in front, and the line ends with a newline.
unfoldable pub log_line : ℤ → Text → Text
unfolding elevel2text body
log_line level m =
    let name = elevel2text level in
    let line = name ++ (spaces (8 - length name) ++ body m) in
    if ends_line line then line else line ++ (b'\n' ∷ [])

pub data Sink : Type 0 where
  to_syslog to_file to_stdout to_stderr : Sink

-- `log_level`, `_daemon_` and `_debug2file_`, and whether the debug file opens.
pub record Logger : Type 0 where
  pub log_level : ℤ
  pub daemon : Bool
  pub debug_to_file : Bool
  pub file_opens : Bool

-- The line of a message, where it is written.
unfoldable pub write_line : Logger → ℤ → Text → List (Sink × Text)
write_line l level line =
    let error : List (Sink × Text) = if eqb_ℤ level log_err then (to_stderr, line) ∷ [] else [] in
    if l.debug_to_file
    then (if l.file_opens
        then (to_file, line) ∷ error
        else (to_stderr, bytes "Can't open debug log\n " ++ line) ∷ error)
    else if not (eqb_ℤ level log_err)
    then (to_stdout, line) ∷ error
    else error

unfoldable pub log_message : Logger → ℤ → Text → List (Sink × Text)
unfolding log_line printed write_line
log_message l level m =
    let unset = eqb_ℤ l.log_level (negsuc 0) in
    let early : List (Sink × Text) =
      if unset then (to_stderr, spaces 8 ++ printed m) ∷ (to_syslog, printed m) ∷ [] else [] in
    let system : List (Sink × Text) = if l.daemon then (to_syslog, body m) ∷ [] else [] in
    let lines : List (Sink × Text) =
      if not l.daemon || eqb_ℤ level log_err || l.debug_to_file
      then write_line l level (log_line level m)
      else [] in
    if not unset && ltb_ℤ l.log_level level then [] else early ++ (system ++ lines)
