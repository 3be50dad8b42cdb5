-- ===== src/Startup/Options.antt =====
-- sprinkler.c: the loop over the program's arguments; config.c: the text of a yes or no.
use sprinkler_d.Prelude.{
  Bool, true, false, ◌||◌, Option, none, some, List, [], ◌∷◌, if◌then◌else◌, map,
}
use sprinkler_d.Text.{Text, bytes, same_text, is_space, lower_byte, skip_spaces}

-- What the arguments set; the name of the configuration file is none where it is NULL, behind a `-c` that
-- comes last.
pub record Options : Type 0 where
  pub daemon : Bool
  pub debug_log : Bool
  pub debug_to_file : Bool
  pub cfg : Option Text

abbrev pub default_options : Options
default_options = record {
  daemon = true;
  debug_log = false;
  debug_to_file = false;
  cfg = some (bytes "./config.cfg");
}

-- The arguments behind the program's name; none is the exit of `-h`.
unfoldable pub read_args : List Text → Options → Option Options
read_args [] o = some o
read_args (a ∷ []) o =
    if same_text a (bytes "-h")
    then none
    else if same_text a (bytes "-d")
    then some (record o { daemon = false })
    else if same_text a (bytes "-v")
    then some (record o { debug_log = true })
    else if same_text a (bytes "-f")
    then some (record o { debug_to_file = true })
    else if same_text a (bytes "-c")
    then some (record o { cfg = none })
    else some o
read_args (a ∷ b ∷ rest) o =
    if same_text a (bytes "-h")
    then none
    else if same_text a (bytes "-d")
    then read_args (b ∷ rest) (record o { daemon = false })
    else if same_text a (bytes "-v")
    then read_args (b ∷ rest) (record o { debug_log = true })
    else if same_text a (bytes "-f")
    then read_args (b ∷ rest) (record o { debug_to_file = true })
    else if same_text a (bytes "-c")
    then read_args rest (record o { cfg = some b })
    else read_args (b ∷ rest) o

-- The spaces at the end are left out.
unfoldable pub trim_end : Text → Text
trim_end [] = []
trim_end (c ∷ s) = elim (trim_end s) [ [] ↦ if is_space c then [] else c ∷ [] | d ∷ t ↦ c ∷ d ∷ t ]

unfoldable pub trimwhitespace : Text → Text
unfolding trim_end
trimwhitespace s = trim_end (skip_spaces s)

unfoldable pub text2bool : Text → Bool
unfolding trimwhitespace
text2bool s =
    let word = map lower_byte (trimwhitespace s) in
    same_text word (bytes "yes") || same_text word (bytes "on")
