-- ===== src/Aos/Output.antt =====
-- The functions of src/switchtest/drivers/aos.py on what a switch prints. `re_search pattern text` is
-- the text that `re.search` matches, its first group if the pattern has one.
use Prim.Native.Char.{Char, code}
use mathlib.Core.List.{reverse}
use omniswitch_ci_cd.Prelude.{
  ℕ, String, Bool, true, false, not, ◌&&◌, ◌||◌, Option, none, some, List, [], ◌∷◌, map, select,
  ◌==◌, if◌then◌else◌,
}
use omniswitch_ci_cd.Prelude.Text.{
  truthy, given, or_empty, join, codes, chars, of_chars, lower, starts_with, ends_with, contains,
  same, split_lines, strip_text, strip_right,
}

-- `s.lower()` as the code points that the tests on it read.
abbrev lowered : String → List ℕ
lowered s = lower (codes s)

-- `text.splitlines()`.
unfoldable pub lines_of : String → List String
unfolding split_lines
lines_of text = map of_chars (split_lines code (chars text))

-- `stripped.endswith(("->", "#", ">")) and " " not in stripped`: a bare prompt.
unfoldable pub is_bare_prompt : String → Bool
unfolding ends_with contains
is_bare_prompt s =
    (ends_with (codes s) (codes "->")
      || ends_with (codes s) (codes "#")
      || ends_with (codes s) (codes ">"))
    && not (contains (codes s) (codes " "))

-- `_is_repeatable`.
unfoldable pub is_repeatable : String → Bool
unfolding strip_text lower starts_with
is_repeatable command = starts_with (lowered (strip_text command)) (codes "show")

-- A line that `_meaningful_lines` keeps.
unfoldable pub is_meaningful : String → Bool
unfolding contains lower is_bare_prompt
is_meaningful s =
    truthy s && not (contains (lowered s) (codes "-> show ")) && not (is_bare_prompt s)

-- `_meaningful_lines`.
unfoldable pub meaningful_lines : String → List String
unfolding lines_of strip_text is_meaningful
meaningful_lines text = select is_meaningful (map strip_text (lines_of text))

-- `_extract_first_line`.
unfoldable pub extract_first_line : String → Option String
unfolding meaningful_lines
extract_first_line text = first (meaningful_lines text)
  where
    first : List String → Option String
    first [] = none
    first (line ∷ lines) = some line

-- `s.split(":", 1)[1]` of a text with a colon.
after_colon : List Char → List Char
after_colon [] = []
after_colon (c ∷ s) = if code c == b':' then s else after_colon s

abbrev is_trimmed : ℕ → Bool
is_trimmed c = c == b' ' || c == b',' || c == b'.'

trim_left : List Char → List Char
trim_left [] = []
trim_left (c ∷ s) = let rest = trim_left s in if is_trimmed (code c) then rest else c ∷ s

-- `s.strip(" ,.")`.
trim : List Char → List Char
unfolding trim_left
trim s = reverse (trim_left (reverse (trim_left s)))

-- The first line with a description.
describe : List String → Option String
unfolding lower starts_with after_colon trim
describe [] = none
describe (line ∷ lines) =
    let rest = describe lines in
    if starts_with (lowered line) (codes "description:")
    then some (of_chars (trim (after_colon (chars line))))
    else rest

-- `_extract_description`.
unfoldable pub extract_description : String → Option String
unfolding meaningful_lines describe
extract_description text = describe (meaningful_lines text)

module _ (re_search : (pattern text : String) → Option String) where
  -- The loop of `_extract_model` over the lines.
  model_line : List String → Option String
  unfolding strip_text contains lower
  model_line [] = none
  model_line (line ∷ lines) =
      let rest = model_line lines in
      if contains (lowered (strip_text line)) (codes "model") then some (strip_text line) else rest

  abbrev or_found : Option String → Option String → Option String
  or_found (some found) other = some found
  or_found none other = other

  abbrev search_in : String → Option String → Option String
  search_in pattern description =
      if given description then re_search pattern (or_empty description) else none

  -- `_extract_model`.
  unfoldable pub extract_model : String → Option String
  unfolding extract_description extract_first_line model_line lines_of
  extract_model text =
      or_found (search_in "\\b(OS[0-9A-Z-]+)\\b" (extract_description text))
        (or_found (model_line (lines_of text)) (extract_first_line text))

  abbrev stripped : Option String → Option String
  stripped none = none
  stripped (some s) = some (strip_text s)

  -- `_extract_firmware`.
  unfoldable pub extract_firmware : String → Option String
  unfolding extract_description extract_first_line strip_text
  extract_firmware text =
      or_found
        (stripped (
          search_in "\\b\\d+(?:\\.\\d+)+(?:\\.[A-Z0-9]+)?(?:\\s+[A-Z]+)?\\b"
            (extract_description text)))
        (extract_first_line text)

  -- `is_password_prompt` of src/switchtest/infrastructure/ssh/prompt.py.
  unfoldable pub is_password_prompt : String → Bool
  is_password_prompt text = found (re_search "(?im)password\\s*:\\s*$" text)
    where
      found : Option String → Bool
      found none = false
      found (some s) = true

  -- A line that `_clean_show_output` keeps, given without its blanks.
  unfoldable pub is_output : (command : List ℕ) → String → Bool
  unfolding is_password_prompt same lower ends_with contains is_bare_prompt
  is_output command s =
      truthy s
      && not (is_password_prompt s)
      && not (same (lowered s) command)
      && not (
          not (same command [])
          && ends_with (lowered s) command
          && contains (lowered s) (codes "->"))
      && not (is_bare_prompt s)

  -- `line.rstrip()`.
  abbrev rstrip_text : String → String
  rstrip_text s = of_chars (strip_right code (chars s))

  -- `_clean_show_output`.
  unfoldable pub clean_show_output : (text command : String) → String
  unfolding lines_of strip_text is_output lower join strip_right
  clean_show_output text command = strip_text (
      join "\n" (
        map rstrip_text (
          select (λ line. is_output (lowered (strip_text command)) (strip_text line))
            (lines_of text))))
