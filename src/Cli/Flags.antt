-- ===== src/Cli/Flags.antt =====
-- Package flag, as far as internal/adapters/cli/run.go uses it: text and Boolean flags, parsed with
-- ContinueOnError.
use claude_oauth_proxy.Base.{
  String, code, ◌⧺◌, ◌==◌, Bool, true, false, not, ◌||◌, Option, none, some, List, [], ◌∷◌, Dict,
  get, put, if◌then◌else◌, nat_eq, is_empty,
}
use claude_oauth_proxy.Core.{Result, ok, err}

pub data Flag : Type 0 where
  word : String → Flag
  switch : Bool → Flag

-- Why parsing fails: the usage is asked for, or the arguments are wrong.
pub data FlagError : Type 0 where
  help : FlagError
  wrong : String → FlagError

-- strconv.ParseBool
unfoldable pub parse_bool : String → Option Bool
parse_bool s =
    if s == "1" || s == "t" || s == "T" || s == "true" || s == "TRUE" || s == "True"
    then some true
    else if s == "0" || s == "f" || s == "F" || s == "false" || s == "FALSE" || s == "False"
    then some false
    else none

-- What one argument does: it ends the flags, is refused, sets a flag, or has the next argument as the
-- value of the flag it names.
pub data Step : Type 0 where
  ended : Step
  refused : FlagError → Step
  set : Dict Flag → Step
  wants : String → Step

-- The name of a flag, and the value after the first "=".
cut_value : String → String × Option String
cut_value String.[] = ("", none)
cut_value (String.◌∷◌ c s) =
    let (name, value) = cut_value s in
    if nat_eq (code c) b'=' then ("", some s) else (String.◌∷◌ c name, value)

set_switch : Dict Flag → String → Option String → Step
set_switch flags name none = set (put name (switch true) flags)
set_switch flags name (some value) = elim (parse_bool value) [
  | none ↦
      refused (wrong ("invalid boolean value \"" ⧺ value ⧺ "\" for -" ⧺ name ⧺ ": parse error"))
  | some b ↦ set (put name (switch b) flags)
]

set_word : Dict Flag → String → Option String → Step
set_word flags name none = wants name
set_word flags name (some value) = set (put name (word value) flags)

set_flag : Dict Flag → String → Option String → Option Flag → Step
unfolding set_switch set_word
set_flag flags name value none =
    if name == "help" || name == "h"
    then refused help
    else refused (wrong ("flag provided but not defined: -" ⧺ name))
set_flag flags name value (some (switch b)) = set_switch flags name value
set_flag flags name value (some (word w)) = set_word flags name value

named : Dict Flag → String → String → Step
unfolding cut_value set_flag
named flags arg String.[] = refused (wrong ("bad flag syntax: " ⧺ arg))
named flags arg (String.◌∷◌ c s) =
    if nat_eq (code c) b'-' || nat_eq (code c) b'='
    then refused (wrong ("bad flag syntax: " ⧺ arg))
    else let (name, value) = cut_value (String.◌∷◌ c s) in
      set_flag flags name value (get name flags)

-- `parseOne` up to the value that is an argument of its own.
unfoldable pub step : Dict Flag → String → Step
unfolding named
step flags String.[] = ended
step flags (String.◌∷◌ c String.[]) = ended
step flags (String.◌∷◌ c (String.◌∷◌ d s)) =
    if not (nat_eq (code c) b'-')
    then ended
    else if nat_eq (code d) b'-'
    then if is_empty s then ended else named flags (String.◌∷◌ c (String.◌∷◌ d s)) s
    else named flags (String.◌∷◌ c (String.◌∷◌ d s)) (String.◌∷◌ d s)

-- `Parse`, with the flag that waits for its value. What is left of the arguments is not looked at.
unfoldable pub parse_from : Option String → Dict Flag → List String → Result FlagError (Dict Flag)
parse_from none flags [] = ok flags
parse_from (some name) flags [] = err (wrong ("flag needs an argument: -" ⧺ name))
parse_from (some name) flags (value ∷ args) = parse_from none (put name (word value) flags) args
parse_from none flags (arg ∷ args) = elim (step flags arg) [
  | ended ↦ ok flags
  | refused e ↦ err e
  | set changed ↦ parse_from none changed args
  | wants name ↦ parse_from (some name) flags args
]

unfoldable pub parse_flags : Dict Flag → List String → Result FlagError (Dict Flag)
unfolding parse_from step
parse_flags flags args = parse_from none flags args

unfoldable pub word_of : String → Dict Flag → String
word_of name flags = elim (get name flags) [ some (word w) ↦ w | _ ↦ "" ]

unfoldable pub switch_of : String → Dict Flag → Bool
switch_of name flags = elim (get name flags) [ some (switch b) ↦ b | _ ↦ false ]
