-- ===== src/Prelude/Lines.antt =====
-- Python's `split` with and without a separator, and what is built on it: the last lines of a text, its
-- prefixes, and the stripping of line ends.
use Prim.Native.Nat.{ℕ, zero, suc, ◌-◌}
use Prim.Native.Char.{Char, code}
use Prim.Native.String.{String}
use mathlib.Core.Bool.{Bool}
use mathlib.Core.Option.{Option, none, some}
use mathlib.Core.List.{List, [], ◌∷◌, map, reverse}
use omniswitch_ci_cd.Prelude.Lists.{length, select}
use omniswitch_ci_cd.Prelude.Tests.{◌==◌, if◌then◌else◌}
use omniswitch_ci_cd.Prelude.Text.{truthy, join, chars, of_chars, is_space, starts_with}

-- The loop of `split` at the characters that `is_end` finds; `word` is what was read so far, backwards.
unfoldable pub split_at : (ℕ → Bool) → List Char → List Char → List String
split_at is_end word [] = of_chars (reverse word) ∷ []
split_at is_end word (c ∷ s) =
    let broken = of_chars (reverse word) ∷ split_at is_end [] s in
    let longer = split_at is_end (c ∷ word) s in if is_end (code c) then broken else longer

-- `text.split("\n")`.
unfoldable pub split_newline : String → List String
unfolding split_at
split_newline text = split_at (λ c. c == 10) [] (chars text)

-- `text.split()`.
unfoldable pub split_words : String → List String
unfolding split_at is_space
split_words text = select truthy (split_at is_space [] (chars text))

-- `xs[-n:]` for a positive `n`.
unfoldable pub last_of : {A : Type 0} → ℕ → List A → List A
last_of n xs = drop (length xs - n) xs
  where
    drop : {A : Type 0} → ℕ → List A → List A
    drop zero ys = ys
    drop (suc k) [] = []
    drop (suc k) (y ∷ ys) = drop k ys

-- `"\n".join(text.split("\n")[-lines:])`.
unfoldable pub tail_lines : String → (lines : ℕ) → String
unfolding split_newline last_of join
tail_lines text lines = join "\n" (last_of lines (split_newline text))

-- `xs[:n]`.
unfoldable pub take : {A : Type 0} → ℕ → List A → List A
take zero xs = []
take (suc n) [] = []
take (suc n) (x ∷ xs) = x ∷ take n xs

-- `text[: len(text) - len(end)]`.
unfoldable pub without_end : (text end : String) → String
unfolding take
without_end text end = of_chars (take (length (chars text) - length (chars end)) (chars text))

unfoldable pub drop_newlines : List Char → List Char
drop_newlines [] = []
drop_newlines (c ∷ s) = let rest = drop_newlines s in if code c == 10 then rest else c ∷ s

-- `text.strip("\n")`.
unfoldable pub strip_newlines : String → String
unfolding drop_newlines
strip_newlines text = of_chars (reverse (drop_newlines (reverse (drop_newlines (chars text)))))

-- `text.partition(separator)`, for a text that has the separator.
unfoldable pub partition : (separator : List ℕ) → List Char → Option (List Char × List Char)
unfolding starts_with
partition separator [] = none
partition separator (c ∷ s) =
    let rest = partition separator s in
    if starts_with (map code (c ∷ s)) separator
    then some ([], skip (length separator) (c ∷ s))
    else elim rest [ none ↦ none | some parts ↦ some (c ∷ parts.0, parts.1) ]
  where
    skip : ℕ → List Char → List Char
    skip zero t = t
    skip (suc n) [] = []
    skip (suc n) (d ∷ t) = skip n t
