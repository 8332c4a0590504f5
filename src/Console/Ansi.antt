-- ===== src/Console/Ansi.antt =====
-- `_strip_ansi` of src/switchtest/infrastructure/console/client.py gives back the text into which a terminal put its
-- escape sequences.
use Prim.Native.Char.{Char, code}
use omniswitch_ci_cd.Prelude.{
  ℕ, zero, suc, ◌≡◌, refl, ◌∙◌, Bool, true, false, ◌&&◌, none, some, List, [], ◌∷◌, ◌++◌, map, All,
  leb, ◌==◌, arith,
}
use omniswitch_ci_cd.Console.Text.{escape_rest, escape_length, strip_from}

-- The classes `[0-?]`, `[ -/]` and `[@-~]`.
abbrev IsParameter : Char → Type 0
IsParameter c = (leb 0x30 (code c) && leb (code c) 0x3f) ≡ true

abbrev IsIntermediate : Char → Type 0
IsIntermediate c = (leb 0x20 (code c) && leb (code c) 0x2f) ≡ true

abbrev IsFinal : Char → Type 0
IsFinal c = (leb 0x40 (code c) && leb (code c) 0x7e) ≡ true

abbrev escape_char : Char
escape_char = "\u{1b}"

abbrev bracket : Char
bracket = "["

-- `Decorated s t`: `t` is `s`, which has no escape character, with escape sequences between its characters.
pub data Decorated : List Char → List Char → Type 0 where
  ends : Decorated [] []
  shows :
      {s t : List Char} (c : Char)
      → (code c == 0x1b) ≡ false
      → Decorated s t
      → Decorated (c ∷ s) (c ∷ t)
  moves :
      {s t : List Char} (parameters intermediates : List Char) (final : Char)
      → All IsParameter parameters
      → All IsIntermediate intermediates
      → IsFinal final
      → Decorated s t
      → Decorated s (escape_char ∷ bracket ∷ (parameters ++ (intermediates ++ final ∷ t)))

-- `n` behind the characters of a list.
behind : List Char → ℕ → ℕ
behind [] n = n
behind (x ∷ xs) n = suc (behind xs n)

-- The second class and the end.
intermediates_lem :
    (passed : Bool) (xs : List Char) (final : Char) (t : List Char)
    → All IsIntermediate xs
    → IsFinal final
    → escape_rest passed (map code (xs ++ final ∷ t)) ≡ some (behind xs 1)
unfolding escape_rest behind
intermediates_lem passed [] final t h f = ground (arith, f)
intermediates_lem passed (x ∷ xs) final t (p, h) f =
    ground (arith, p, intermediates_lem true xs final t h f)

parameters_lem :
    (ys xs : List Char) (final : Char) (t : List Char)
    → All IsParameter ys
    → All IsIntermediate xs
    → IsFinal final
    → escape_rest false (map code (ys ++ (xs ++ final ∷ t))) ≡ some (behind ys (behind xs 1))
unfolding escape_rest behind
parameters_lem [] xs final t g h f = intermediates_lem false xs final t h f
parameters_lem (y ∷ ys) xs final t (p, g) h f =
    ground (arith, p, parameters_lem ys xs final t g h f)

-- Skipping what is in front.
skip_lem : (xs t : List Char) (n : ℕ) → strip_from (behind xs n) (xs ++ t) ≡ strip_from n t
unfolding strip_from behind
skip_lem [] t n = refl
skip_lem (x ∷ xs) t n = skip_lem xs t n

-- A character that is no escape stays.
shown_lem :
    (c : Char) (t : List Char) → (code c == 0x1b) ≡ false → escape_length (map code (c ∷ t)) ≡ none
shown_lem c [] h = refl
shown_lem c (d ∷ t) h = ground (arith, h)

moved_lem :
    (ys xs : List Char) (final : Char) (t : List Char)
    → All IsParameter ys
    → All IsIntermediate xs
    → IsFinal final
    → strip_from zero (escape_char ∷ bracket ∷ (ys ++ (xs ++ final ∷ t))) ≡ strip_from zero t
unfolding strip_from
moved_lem ys xs final t g h f =
    rw (strip_from, parameters_lem ys xs final t g h f)
      (skip_lem ys (xs ++ final ∷ t) (behind xs 1) ∙ skip_lem xs (final ∷ t) 1)

-- Escape sequences that a terminal puts between the characters of a text, one or several in any place, are removed, and
-- the text comes back as it was.
pub strip_from-Decorated : (s t : List Char) → Decorated s t → strip_from zero t ≡ s
unfolding strip_from
strip_from-Decorated _ _ ends = refl
strip_from-Decorated _ _ (shows {s} {t} c plain rest) =
    rw (shown_lem c t plain, strip_from-Decorated s t rest)
strip_from-Decorated _ _ (moves {s} {t} ys xs final g h f rest) =
    moved_lem ys xs final t g h f ∙ strip_from-Decorated s t rest
