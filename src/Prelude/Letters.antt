-- ===== src/Prelude/Letters.antt =====
-- What the code uses of `str`, for texts of ASCII characters; other characters have no case here and
-- are no space.
use Prim.Native.Nat.{ℕ, ◌-◌}
use Prim.Native.Char.{Char, code}
use Prim.Native.String.{String, char_at, ◌++◌ as str_append}
use mathlib.Core.Path.{◌≡◌, refl}
use mathlib.Core.Bool.{Bool, false, ◌&&◌, ◌||◌}
use mathlib.Core.List.{List, [], ◌∷◌}
use text.Mathlib.Text.{find?, ◌==◌ as str_eq}
use ai_agent_workflow.Prelude.Tests.{leb, ◌==◌, if◌then◌else◌, is_some}
use ai_agent_workflow.Prelude.Lists.{any}

unfoldable pub lower_char : Char → Char
lower_char c =
    if leb 65 (code c) && leb (code c) 90
    then char_at "abcdefghijklmnopqrstuvwxyz" (code c - 65)
    else c

unfoldable pub upper_char : Char → Char
upper_char c =
    if leb 97 (code c) && leb (code c) 122
    then char_at "ABCDEFGHIJKLMNOPQRSTUVWXYZ" (code c - 97)
    else c

-- `s.lower()`
unfoldable pub lower : String → String
unfolding lower_char
lower String.[] = String.[]
lower (String.◌∷◌ c s) = String.◌∷◌ (lower_char c) (lower s)

-- `s.upper()`
unfoldable pub upper : String → String
unfolding upper_char
upper String.[] = String.[]
upper (String.◌∷◌ c s) = String.◌∷◌ (upper_char c) (upper s)

-- The space, and the characters from the tab to the carriage return and from 28 to 31.
abbrev pub is_space : Char → Bool
is_space c =
    code c == 32 || ((leb 9 (code c) && leb (code c) 13) || (leb 28 (code c) && leb (code c) 31))

-- `s.lstrip()`
unfoldable pub strip_left : String → String
strip_left String.[] = String.[]
strip_left (String.◌∷◌ c s) = let rest = strip_left s in if is_space c then rest else String.◌∷◌ c s

abbrev pub drop_space : Char → String → String
drop_space c String.[] = if is_space c then String.[] else String.◌∷◌ c String.[]
drop_space c (String.◌∷◌ d s) = String.◌∷◌ c (String.◌∷◌ d s)

-- `s.rstrip()`
unfoldable pub strip_right : String → String
strip_right String.[] = String.[]
strip_right (String.◌∷◌ c s) = drop_space c (strip_right s)

-- `s.strip()`
unfoldable pub strip : String → String
unfolding strip_left strip_right
strip s = strip_right (strip_left s)

-- `s.replace(c, t)` for one character.
unfoldable pub replace : ℕ → String → String → String
replace c t String.[] = String.[]
replace c t (String.◌∷◌ d s) =
    let rest = replace c t s in if code d == c then str_append t rest else String.◌∷◌ d rest

-- `t in s`
abbrev pub contains : String → String → Bool
contains s t = is_some (find? s t)

-- `any(t in s for t in markers)`
abbrev pub contains_any : String → List String → Bool
contains_any s markers = any (contains s) markers

-- `s in texts`
abbrev pub is_in : String → List String → Bool
is_in s texts = any (str_eq s) texts

-- `separator.join(texts)`
unfoldable pub join : String → List String → String
join separator [] = ""
join separator (text ∷ []) = text
join separator (text ∷ other ∷ texts) =
    str_append text (str_append separator (join separator (other ∷ texts)))

stripped : strip "  Passed with \n" ≡ "Passed with"
unfolding strip
stripped = refl

renamed : upper (replace b'-' "_" " no-file-change ") ≡ " NO_FILE_CHANGE "
unfolding upper replace
renamed = refl

-- `s.endswith(c)` for one character.
unfoldable pub ends_with : ℕ → String → Bool
ends_with c String.[] = false
ends_with c (String.◌∷◌ d String.[]) = code d == c
ends_with c (String.◌∷◌ d (String.◌∷◌ e s)) = ends_with c (String.◌∷◌ e s)
