-- ===== src/Console/Output.antt =====
-- What `_strip_echo_and_prompt` of src/switchtest/infrastructure/console/client.py takes away from the lines it was given.
use mathlib.Core.Path.{subst}
use mathlib.Core.List.{reverse, reverse-append, reverse-reverse}
use omniswitch_ci_cd.Prelude.{
  String, ◌≡◌, ◌≢◌, refl, sym, ap, ◌∙◌, Bool, true, false, List, [], ◌∷◌, ◌++◌, All, All-append,
  if◌then◌else◌,
}
use omniswitch_ci_cd.Prelude.Lines.{split_newline}
use omniswitch_ci_cd.Console.Text.{Regex, is_popped, drop_prompts, without_echo, kept_lines}

head_eq : {x y : String} {xs ys : List String} → x ∷ xs ≡ y ∷ ys → x ≡ y
head_eq h = cc

nil_not_cons : {x : String} {xs : List String} → [] ≢ x ∷ xs
nil_not_cons h = cc

module _ (regex : Regex) (prompt_pattern : String) where
  abbrev IsPopped : String → Type 0
  IsPopped line = is_popped regex prompt_pattern line ≡ true

  All-reverse : (lines : List String) → All IsPopped lines → All IsPopped (reverse lines)
  All-reverse [] h = tt
  All-reverse (line ∷ lines) (p, h) =
      subst (All IsPopped) (sym (reverse-append (line ∷ []) lines))
        (All-append IsPopped (reverse lines) (line ∷ []) (All-reverse lines h) (p, tt))

  -- Backwards: the lines in front are popped, and the first one that is kept is not to be popped.
  abbrev Drops : List String → List String → Type 0
  Drops lines kept =
      (front : List String) × (lines ≡ front ++ kept)
      × All IsPopped front
      × ((line : String) (rest : List String)
          → kept ≡ line ∷ rest
          → is_popped regex prompt_pattern line ≡ false)

  drop_prompts-Drops : (lines : List String) → Drops lines (drop_prompts regex prompt_pattern lines)
  unfolding drop_prompts
  drop_prompts-Drops [] = ([], refl, tt, λ line rest h. absurd (nil_not_cons h))
  drop_prompts-Drops (line ∷ lines) =
      by (is_popped regex prompt_pattern line) refl (drop_prompts-Drops lines)
    where
      by :
          (b : Bool)
          → is_popped regex prompt_pattern line ≡ b
          → Drops lines (drop_prompts regex prompt_pattern lines)
          → Drops
              (line ∷ lines)
              (if b then drop_prompts regex prompt_pattern lines else line ∷ lines)
      by true h (front, same, popped, last) =
          (line ∷ front, ap (λ l. line ∷ l) same, (h, popped), last)
      by false h drops = (
        [],
        refl,
        tt,
        λ x rest e. subst (λ y. is_popped regex prompt_pattern y ≡ false) (head_eq e) h,
      )

  -- The lines as they were, kept and popped.
  rebuilt :
      (lines front kept : List String)
      → reverse lines ≡ front ++ kept
      → lines ≡ reverse kept ++ reverse front
  rebuilt lines front kept same =
      sym (reverse-reverse lines) ∙ ap reverse same ∙ reverse-append front kept

  -- Behind an echo of the command, the lines that were read are those that are kept and then lines that are blank or a
  -- prompt, and the last line that is kept is neither: all of the output is kept and nothing of the prompt.
  pub kept_lines-splits :
      (text command : String)
      → (popped : List String) × (without_echo regex command (split_newline text)
          ≡ kept_lines regex text command prompt_pattern ++ popped)
        × All IsPopped popped
        × ((init : List String) (line : String)
            → kept_lines regex text command prompt_pattern ≡ init ++ line ∷ []
            → is_popped regex prompt_pattern line ≡ false)
  unfolding kept_lines
  kept_lines-splits text command =
      let lines = without_echo regex command (split_newline text) in
      let (front, same, popped, last) = drop_prompts-Drops (reverse lines) in
      (
        reverse front,
        rebuilt lines front (drop_prompts regex prompt_pattern (reverse lines)) same,
        All-reverse front popped,
        λ init line h. last line (reverse init) (
            sym (reverse-reverse (drop_prompts regex prompt_pattern (reverse lines)))
            ∙ ap reverse h
            ∙ reverse-append init (line ∷ [])),
      )
