-- ===== src/Prelude/Text.antt =====
-- Python's `str`: truth of an optional text, decimal numerals, and the scanning functions of the
-- standard library that the program calls. `codes` gives the code points; `lower` maps ASCII
-- letters and leaves other code points as they are, which is enough for the ASCII markers that the
-- program looks for.
use Prim.Native.Nat.{ℕ, zero, suc, ◌+◌, ◌/◌, ◌%◌, pred, Ordering}
use Prim.Native.Char.{Char, code}
use Prim.Native.String.{String, compare, ◌++◌ as ◌<>◌}
use mathlib.Core.Bool.{Bool, true, false, not, ◌&&◌, ◌||◌}
use mathlib.Core.Option.{Option, none, some}
use mathlib.Core.List.{List, [], ◌∷◌, reverse}
use text.Mathlib.Text.{◌==◌ as str_eq}
use omniswitch_ci_cd.Prelude.Lists.{length}
use omniswitch_ci_cd.Prelude.Tests.{ltb, leb, ◌==◌, if◌then◌else◌}

-- `bool(s)`.
abbrev pub truthy : String → Bool
truthy s = not (str_eq s "")

-- `bool(o)` of an optional text.
abbrev pub given : Option String → Bool
given none = false
given (some s) = truthy s

-- `o or ""`.
abbrev pub or_empty : Option String → String
or_empty none = ""
or_empty (some s) = s

-- `o or d`, with a text for `d`.
abbrev pub or_text : Option String → String → String
or_text none d = d
or_text (some s) d = if truthy s then s else d

-- `a or b`, with an optional text for `b`.
abbrev pub or_else : Option String → Option String → Option String
or_else none b = b
or_else (some s) b = if truthy s then some s else b

-- `n or d` of an optional number.
abbrev pub or_number : Option ℕ → ℕ → ℕ
or_number none d = d
or_number (some n) d = if n == 0 then d else n

-- An optional text inside an f-string.
abbrev pub show_option : Option String → String
show_option none = "None"
show_option (some s) = s

digit : ℕ → String
digit zero = "0"
digit (suc zero) = "1"
digit (suc (suc zero)) = "2"
digit (suc (suc (suc zero))) = "3"
digit (suc (suc (suc (suc zero)))) = "4"
digit (suc (suc (suc (suc (suc zero))))) = "5"
digit (suc (suc (suc (suc (suc (suc zero)))))) = "6"
digit (suc (suc (suc (suc (suc (suc (suc zero))))))) = "7"
digit (suc (suc (suc (suc (suc (suc (suc (suc zero)))))))) = "8"
digit _ = "9"

show_upto : ℕ → ℕ → String
show_upto zero n = ""
show_upto (suc fuel) n =
    let more = show_upto fuel (n / 10) <> digit (n % 10) in if ltb n 10 then digit n else more

-- `str(n)`; a number has no more digits than its value plus one.
unfoldable pub show : ℕ → String
unfolding digit show_upto
show n = show_upto (suc n) n

-- An optional number inside an f-string.
unfoldable pub show_number : Option ℕ → String
unfolding show
show_number none = "None"
show_number (some n) = show n

-- `", ".join(parts)` with the separator as an argument.
unfoldable pub join : String → List String → String
join sep [] = ""
join sep (x ∷ []) = x
join sep (x ∷ y ∷ rest) = x <> (sep <> join sep (y ∷ rest))

-- The code points of a text.
abbrev pub codes : String → List ℕ
codes String.[] = []
codes (String.◌∷◌ c s) = code c ∷ codes s

-- `c.isspace()`, the characters that `strip` removes and `\s` matches.
unfoldable pub is_space : ℕ → Bool
is_space c =
    (leb 9 c && leb c 13)
    || (leb 28 c && leb c 32)
    || c == 0x85
    || c == 0xa0
    || c == 0x1680
    || (leb 0x2000 c && leb c 0x200a)
    || c == 0x2028
    || c == 0x2029
    || c == 0x202f
    || c == 0x205f
    || c == 0x3000

-- The functions that give text back are written over any items with a code point, `code` for the
-- characters of a text.
module _ {A : Type 0} (key : A → ℕ) where
  unfoldable pub strip_left : List A → List A
  unfolding is_space
  strip_left [] = []
  strip_left (c ∷ s) = let rest = strip_left s in if is_space (key c) then rest else c ∷ s

  abbrev cons_unless_blank : A → List A → List A
  cons_unless_blank c [] = if is_space (key c) then [] else c ∷ []
  cons_unless_blank c (d ∷ s) = c ∷ d ∷ s

  -- `s.rstrip()`.
  unfoldable pub strip_right : List A → List A
  unfolding is_space
  strip_right [] = []
  strip_right (c ∷ s) = cons_unless_blank c (strip_right s)

  -- `s.strip()`.
  unfoldable pub strip : List A → List A
  unfolding strip_left strip_right
  strip s = strip_right (strip_left s)

abbrev lower_code : ℕ → ℕ
lower_code c = if leb b'A' c && leb c b'Z' then c + 32 else c

-- `s.lower()`.
unfoldable pub lower : List ℕ → List ℕ
lower [] = []
lower (c ∷ s) = lower_code c ∷ lower s

-- `s.startswith(t)`.
unfoldable pub starts_with : List ℕ → List ℕ → Bool
starts_with s [] = true
starts_with [] (d ∷ t) = false
starts_with (c ∷ s) (d ∷ t) = c == d && starts_with s t

-- `s.endswith(t)`.
unfoldable pub ends_with : List ℕ → List ℕ → Bool
unfolding starts_with
ends_with s t = starts_with (reverse s) (reverse t)

-- `t in s`.
unfoldable pub contains : List ℕ → List ℕ → Bool
unfolding starts_with
contains [] t = starts_with [] t
contains (c ∷ s) t = starts_with (c ∷ s) t || contains s t

-- `s == t`.
unfoldable pub same : List ℕ → List ℕ → Bool
same [] [] = true
same (c ∷ s) (d ∷ t) = c == d && same s t
same _ _ = false

-- The line ends of `splitlines`.
unfoldable pub is_line_end : ℕ → Bool
is_line_end c =
    (leb 10 c && leb c 13) || (leb 28 c && leb c 30) || c == 0x85 || c == 0x2028 || c == 0x2029

module _ {A : Type 0} (key : A → ℕ) where
  -- The loop of `splitlines`; `line` is the line read so far, backwards, and the pair "\r\n" is one
  -- line end.
  unfoldable pub split_from : Bool → List A → List A → List (List A)
  unfolding is_line_end
  split_from after_cr [] [] = []
  split_from after_cr (c ∷ line) [] = reverse (c ∷ line) ∷ []
  split_from after_cr line (c ∷ s) =
      let joined = split_from false [] s in
      let broken = reverse line ∷ split_from (key c == 13) [] s in
      let longer = split_from false (c ∷ line) s in
      if after_cr && key c == 10 then joined else if is_line_end (key c) then broken else longer

  -- `s.splitlines()`.
  unfoldable pub split_lines : List A → List (List A)
  unfolding split_from
  split_lines s = split_from false [] s

-- The characters of a text, and back.
abbrev pub chars : String → List Char
chars String.[] = []
chars (String.◌∷◌ c s) = c ∷ chars s

abbrev pub of_chars : List Char → String
of_chars [] = ""
of_chars (c ∷ s) = String.◌∷◌ c (of_chars s)

-- `s.replace(old, new)`: `skip` counts what is left of a replaced occurrence.
unfoldable pub replace_from : (old : List ℕ) (new : String) (skip : ℕ) → String → String
unfolding starts_with
replace_from old new skip String.[] = ""
replace_from old new (suc skip) (String.◌∷◌ c s) = replace_from old new skip s
replace_from old new zero (String.◌∷◌ c s) =
    let found = new <> replace_from old new (pred (length old)) s in
    let kept = String.◌∷◌ c (replace_from old new zero s) in
    if starts_with (codes (String.◌∷◌ c s)) old then found else kept

-- `text.replace(old, new)` for a text `old` that is not empty.
unfoldable pub replace : String → (old new : String) → String
unfolding replace_from
replace s old new = replace_from (codes old) new 0 s

-- `s.strip()` as a text.
unfoldable pub strip_text : String → String
unfolding strip
strip_text s = of_chars (strip code (chars s))

-- The place of a text in an ascending list.
unfoldable pub insert_sorted : String → List String → List String
insert_sorted s [] = s ∷ []
insert_sorted s (t ∷ ts) =
    let rest = insert_sorted s ts in elim (compare s t) [ Ordering.gt ↦ t ∷ rest | _ ↦ s ∷ t ∷ ts ]

-- `sorted(texts)`: by code points, which is the order of the UTF-8 bytes.
unfoldable pub sorted : List String → List String
unfolding insert_sorted
sorted [] = []
sorted (s ∷ ts) = insert_sorted s (sorted ts)
