-- ===== src/Commission/Text.antt =====
-- The functions of scripts/commission.py on what a switch prints. `re.search` and `re.match` are parameters,
-- fields of `Patterns`.
use Prim.Native.Char.{Char, code}
use omniswitch_ci_cd.Prelude.{
  ℕ, String, ◌<>◌, Bool, false, ◌&&◌, ◌||◌, Option, none, some, List, [], ◌∷◌, map, select, ◌==◌,
  str_eq, if◌then◌else◌,
}
use omniswitch_ci_cd.Prelude.Lines.{partition, split_newline, split_words, last_of}
use omniswitch_ci_cd.Prelude.Text.{
  truthy, join, codes, chars, of_chars, lower, contains, strip_text,
}

-- `holds_in part text`: `part in text`.
abbrev pub holds_in : (part text : String) → Bool
holds_in part text = contains (codes text) (codes part)

-- `part in text.lower()`, for a lower-case `part`.
abbrev pub said_in : (part text : String) → Bool
said_in part text = contains (lower (codes text)) (codes part)

abbrev joined_or_none : List String → String
joined_or_none [] = "(no output)"
joined_or_none (line ∷ lines) = join " / " (line ∷ lines)

-- `_condense`; `lines` is 3 where it is not given.
unfoldable pub condense : String → (lines : ℕ) → String
unfolding split_newline strip_text last_of join
condense text lines =
    joined_or_none (last_of lines (select truthy (map strip_text (split_newline text))))

-- What `split(" ", 1)` of the tail leaves behind the first word, with the blank in front of it.
unfoldable pub behind_word : List Char → List Char
behind_word [] = []
behind_word (c ∷ s) = if code c == b' ' then c ∷ s else behind_word s

abbrev hidden : String → Option (List Char × List Char) → String
hidden command none = command
hidden command (some (head, tail)) =
    of_chars head <> (" password ******" <> of_chars (behind_word tail))

-- `_redact`.
unfoldable pub redact : String → String
unfolding partition behind_word
redact command = hidden command (partition (codes " password ") (chars command))

-- `_ping_succeeded`.
unfoldable pub ping_succeeded : String → Bool
unfolding contains
ping_succeeded output =
    if holds_in "100% packet loss" output || holds_in "0 received" output
    then false
    else holds_in "bytes from" output || holds_in "0% packet loss" output

abbrev is_first : String → List String → Bool
is_first service [] = false
is_first service (field ∷ fields) = str_eq field service

-- The loop of `_service_enabled`.
unfoldable pub enabled_in : (service : String) → List String → Bool
unfolding split_words contains
enabled_in service [] = false
enabled_in service (line ∷ lines) =
    let rest = enabled_in service lines in
    if is_first service (split_words line) then holds_in "enabled" line else rest

-- `_service_enabled`.
unfoldable pub service_enabled : (output service : String) → Bool
unfolding split_newline enabled_in
service_enabled output service = enabled_in service (split_newline output)

-- `re.search` and `re.match` without regard to case, as a test, and `re.escape`.
pub record Patterns : Type 0 where
  pub search : (pattern text : String) → Bool
  pub match_start : (pattern text : String) → Bool
  pub escape : String → String

module _ (patterns : Patterns) where
  -- The loop of `_interface_is_up`.
  unfoldable pub up_in : (address : String) → List String → Bool
  unfolding contains
  up_in address [] = false
  up_in address (line ∷ lines) =
      let rest = up_in address lines in
      if holds_in address line then patterns.search "\\bUP\\b" line else rest

  -- `_interface_is_up`.
  unfoldable pub interface_is_up : (output address : String) → Bool
  unfolding split_newline up_in
  interface_is_up output address = up_in address (split_newline output)

  -- The inner loop of `_aaa_service_configured`: the first line with a server under the heading. `none` goes on with
  -- the outer loop.
  unfoldable pub server_under : List String → Option Bool
  unfolding lower contains
  server_under [] = none
  server_under (line ∷ lines) =
      let rest = server_under lines in
      if patterns.match_start "service type\\s*=" line
      then none
      else if truthy line && said_in "server" line
      then some (said_in "local" line)
      else rest

  -- The outer loop.
  unfoldable pub configured_in : (service : String) → List String → Bool
  unfolding server_under
  configured_in service [] = false
  configured_in service (line ∷ lines) =
      let rest = configured_in service lines in
      if patterns.match_start ("service type\\s*=\\s*" <> (patterns.escape service <> "\\b")) line
      then elim (server_under lines) [ none ↦ rest | some is_local ↦ is_local ]
      else rest

  -- `_aaa_service_configured`.
  unfoldable pub aaa_service_configured : (output service : String) → Bool
  unfolding split_newline strip_text configured_in
  aaa_service_configured output service =
      configured_in service (map strip_text (split_newline output))
