-- ===== src/Console/Text.antt =====
-- The patterns of src/switchtest/infrastructure/console/client.py and its functions on what was read. `re` is a parameter.
use Prim.Native.Char.{Char, code}
use mathlib.Core.List.{reverse}
use omniswitch_ci_cd.Prelude.{
  ℕ, zero, suc, String, ◌<>◌, Bool, true, false, not, ◌&&◌, ◌||◌, Option, none, some, List, [], ◌∷◌,
  any, map, select, leb, ◌==◌, if◌then◌else◌,
}
use omniswitch_ci_cd.Prelude.Text.{
  truthy, join, codes, chars, of_chars, starts_with, ends_with, contains, strip_text, replace,
}
use omniswitch_ci_cd.Prelude.Lines.{split_newline, tail_lines, strip_newlines}

-- `re.search` as a test, and `re.escape`.
pub record Regex : Type 0 where
  pub search : (pattern text : String) → Bool
  pub escape : String → String

abbrev pub login_prompt_pattern : String
login_prompt_pattern = "(?i)(login|username)\\s*:\\s*$"

abbrev pub password_prompt_pattern : String
password_prompt_pattern = "(?i)password\\s*:\\s*$"

abbrev pub login_failure_pattern : String
login_failure_pattern =
    "(?i)(login incorrect|authentication failed|access denied|permission denied)"

abbrev pub pager_pattern : String
pager_pattern = "(?i)(--\\s*more\\s*--|\\(\\s*more\\s*\\)|more\\s*\\?|press any key)"

abbrev pub confirm_pattern : String
confirm_pattern = "(?i)[(\\[]\\s*y(?:es)?\\s*[/|]\\s*n(?:o)?\\s*[)\\]]\\s*[:?]?\\s*$"

abbrev pub password_rejection_pattern : String
password_rejection_pattern =
    "(?i)password (?:must|should) |password can ?not be|passwords? do(?:es)? not match"

abbrev pub current_password_prompt_pattern : String
current_password_prompt_pattern = "(?i)enter current password\\s*:\\s*$"

abbrev pub new_password_prompt_pattern : String
new_password_prompt_pattern = "(?i)enter new password\\s*:\\s*$"

abbrev pub retype_password_prompt_pattern : String
retype_password_prompt_pattern = "(?i)retype new password\\s*:\\s*$"

-- Behind the `\x1b\[` of an escape sequence: the number of characters up to its end, if it ends. In `[0-?]*[ -/]*[@-~]`
-- the classes are disjoint, so that there is one way to match; `passed` is whether a character of the second was read.
unfoldable pub escape_rest : (passed : Bool) → List ℕ → Option ℕ
escape_rest passed [] = none
escape_rest passed (c ∷ s) =
    let parameter = escape_rest false s in
    let intermediate = escape_rest true s in
    if leb 0x40 c && leb c 0x7e
    then some 1
    else if leb 0x20 c && leb c 0x2f
    then elim intermediate [ none ↦ none | some n ↦ some (suc n) ]
    else if not passed && leb 0x30 c && leb c 0x3f
    then elim parameter [ none ↦ none | some n ↦ some (suc n) ]
    else none

-- The length of the escape sequence that the text starts with, less one.
abbrev pub escape_length : List ℕ → Option ℕ
escape_length [] = none
escape_length (c ∷ []) = none
escape_length (c ∷ d ∷ s) =
    if c == 0x1b && d == b'['
    then elim (escape_rest false s) [ none ↦ none | some n ↦ some (suc n) ]
    else none

-- The loop of `sub`: `skip` counts what is left of a removed sequence.
unfoldable pub strip_from : (skip : ℕ) → List Char → List Char
unfolding escape_rest
strip_from skip [] = []
strip_from (suc skip) (c ∷ s) = strip_from skip s
strip_from zero (c ∷ s) = elim (escape_length (map code (c ∷ s))) [
  | none ↦ c ∷ strip_from zero s
  | some n ↦ strip_from n s
]

-- `_strip_ansi`.
unfoldable pub strip_ansi : String → String
unfolding strip_from
strip_ansi text = of_chars (strip_from zero (chars text))

-- `_decode` of a chunk whose bytes were decoded as UTF-8.
unfoldable pub decode : String → String
unfolding replace
decode chunk = replace (replace chunk "\r\n" "\n") "\r" "\n"

-- `_tail` with its default of one line.
unfoldable pub tail : String → String
unfolding tail_lines
tail text = tail_lines text 1

module _ (regex : Regex) where
  abbrev is_noise : String → Bool
  is_noise line =
      regex.search current_password_prompt_pattern line
      || regex.search new_password_prompt_pattern line
      || regex.search retype_password_prompt_pattern line
      || regex.search login_prompt_pattern line

  abbrev joined_or_none : List String → String
  joined_or_none [] = "(no message)"
  joined_or_none (line ∷ lines) = join " / " (line ∷ lines)

  -- `_change_dialogue_message`.
  unfoldable pub change_dialogue_message : String → String
  unfolding split_newline strip_text join
  change_dialogue_message text =
      joined_or_none
        (select (λ line. truthy line && not (is_noise line)) (map strip_text (split_newline text)))

  -- `_matcher` and `_any_matcher`.
  abbrev pub any_matcher : List String → String → Bool
  any_matcher patterns text = any (λ pattern. regex.search pattern text) patterns

  -- `_expected_matcher`; `re.MULTILINE` is written into the pattern.
  unfoldable pub expected_matcher : (expected : String) → String → Bool
  unfolding starts_with ends_with contains
  expected_matcher expected text =
      if starts_with (codes expected) (codes "^") && ends_with (codes expected) (codes "$")
      then regex.search ("(?m)" <> expected) text
      else contains (codes text) (codes expected)

  -- `not line.strip() or prompt_pattern.search(line)`.
  abbrev pub is_popped : (prompt_pattern line : String) → Bool
  is_popped prompt_pattern line = not (truthy (strip_text line)) || regex.search prompt_pattern line

  -- The lines without those at the end that are blank or a prompt, backwards.
  unfoldable pub drop_prompts : (prompt_pattern : String) → List String → List String
  unfolding strip_text
  drop_prompts prompt_pattern [] = []
  drop_prompts prompt_pattern (line ∷ lines) =
      let rest = drop_prompts prompt_pattern lines in
      if is_popped prompt_pattern line then rest else line ∷ lines

  abbrev pub without_echo : (command : String) → List String → List String
  without_echo command [] = []
  without_echo command (line ∷ lines) =
      if truthy (strip_text command)
        && ends_with (codes (strip_text line)) (codes (strip_text command))
      then lines
      else line ∷ lines

  -- The lines that `_strip_echo_and_prompt` keeps.
  unfoldable pub kept_lines : (text command prompt_pattern : String) → List String
  unfolding split_newline strip_text ends_with drop_prompts
  kept_lines text command prompt_pattern =
      reverse (drop_prompts prompt_pattern (reverse (without_echo command (split_newline text))))

  -- `_strip_echo_and_prompt`.
  unfoldable pub strip_echo_and_prompt : (text command prompt_pattern : String) → String
  unfolding kept_lines join strip_newlines
  strip_echo_and_prompt text command prompt_pattern =
      strip_newlines (join "\n" (kept_lines text command prompt_pattern))
