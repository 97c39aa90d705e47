-- ===== src/Anthropic/Params/Sprintf.antt =====
-- fmt.Sprintf with one text argument, on the verbs %s and %v, a doubled %, and the marks that it
-- leaves for a missing or an unused argument. Flags and widths are not read.
use claude_oauth_proxy.Base.{String, code, ◌||◌, nat_eq, if◌then◌else◌, ◌⧺◌}

-- The argument has been used up.
spent : String → String
spent String.[] = ""
spent (String.◌∷◌ c String.[]) =
    if nat_eq (code c) b'%' then "%!(NOVERB)" else String.◌∷◌ c String.[]
spent (String.◌∷◌ c (String.◌∷◌ d s)) =
    let verb = spent s in
    let plain = spent (String.◌∷◌ d s) in
    if nat_eq (code c) b'%'
    then (if nat_eq (code d) b'%' then "%" else "%!" ⧺ String.◌∷◌ d "(MISSING)") ⧺ verb
    else String.◌∷◌ c plain

unfoldable pub sprintf : String → String → String
unfolding spent
sprintf String.[] arg = "%!(EXTRA string=" ⧺ arg ⧺ ")"
sprintf (String.◌∷◌ c String.[]) arg =
    (if nat_eq (code c) b'%' then "%!(NOVERB)" else String.◌∷◌ c String.[])
    ⧺ "%!(EXTRA string="
    ⧺ arg
    ⧺ ")"
sprintf (String.◌∷◌ c (String.◌∷◌ d s)) arg =
    let escaped = sprintf s arg in
    let plain = sprintf (String.◌∷◌ d s) arg in
    if nat_eq (code c) b'%'
    then if nat_eq (code d) b'%'
      then "%" ⧺ escaped
      else if nat_eq (code d) b's' || nat_eq (code d) b'v'
      then arg ⧺ spent s
      else "%!" ⧺ String.◌∷◌ d ("(string=" ⧺ arg ⧺ ")") ⧺ spent s
    else String.◌∷◌ c plain
