-- ===== src/Secfunc/Selection.antt =====
-- What `selected_phases` of scripts/run_secfunc.py selects.
use omniswitch_ci_cd.Prelude.{
  String, ◌≡◌, refl, ap, sym, ◌∙◌, Bool, true, false, not, ◌&&◌, List, [], ◌∷◌, any, map, select,
  str_eq, arith, if◌then◌else◌,
}
use omniswitch_ci_cd.Secfunc.Plan.{
  Step, Phase, SecfuncArguments, phases, is_excluded, with_steps, select_from, selected_phases,
}

-- `--phase` was not given, or with the name.
abbrev pub is_chosen : (names : List String) (name : String) → Bool
is_chosen [] name = true
is_chosen (first ∷ names) name = any (str_eq name) (first ∷ names)

-- The phase as it is, or with `--skip-console` without the steps that need the console.
abbrev pub without_console : (skip_console : Bool) → Phase → Phase
without_console true phase = record phase {
  steps = select (λ step. not step.needs_console) phase.steps;
}
without_console false phase = phase

abbrev pub has_steps : Phase → Bool
has_steps phase = elim phase.steps [ [] ↦ false | step ∷ steps ↦ true ]

-- The phases of `PHASES` that are chosen, of them what may run without the console, and of that the phases with a step.
abbrev pub wanted_of : SecfuncArguments → List Phase → List Phase
wanted_of arguments ps = select has_steps (
    map (without_console arguments.skip_console)
      (select (λ phase. is_chosen arguments.phase phase.name) ps))

select-if :
    (p : Phase → Bool) (phase : Phase) (ps : List Phase)
    → select p (phase ∷ ps) ≡ (if p phase then phase ∷ select p ps else select p ps)
select-if p phase ps = by_test (p phase) (select p ps)
  where
    by_test :
        (b : Bool) (rest : List Phase)
        → (elim b [ true ↦ phase ∷ rest | false ↦ rest ]) ≡ (if b then phase ∷ rest else rest)
    by_test true rest = refl
    by_test false rest = refl

select_all : (steps : List Step) → select (λ step. true) steps ≡ steps
select_all [] = refl
select_all (step ∷ steps) = ap (λ l. step ∷ l) (select_all steps)

kept-without_console :
    (skip_console : Bool) (phase : Phase)
    → record phase { steps = select (λ s. not (skip_console && s.needs_console)) phase.steps }
      ≡ without_console skip_console phase
kept-without_console true phase = refl
kept-without_console false phase = ap (λ l. record phase { steps = l }) (select_all phase.steps)

excluded-is_chosen :
    (names : List String) (name : String)
    → (elim names [ [] ↦ false | first ∷ rest ↦ not (any (str_eq name) (first ∷ rest)) ])
      ≡ not (is_chosen names name)
excluded-is_chosen [] name = refl
excluded-is_chosen (first ∷ names) name = refl

-- The filtered steps are put into the phase, unless there are none.
with_steps-has_steps :
    (phase : Phase) (steps : List Step) (rest : List Phase)
    → with_steps phase steps rest ≡ (
        if has_steps (record phase { steps = steps })
        then record phase { steps = steps } ∷ rest
        else rest)
with_steps-has_steps phase [] rest = refl
with_steps-has_steps phase (step ∷ steps) rest = refl

-- One round of the loop.
round :
    (skip_console : Bool) (phase : Phase) (rest chosen : List Phase) (excluded is_in : Bool)
    → excluded ≡ not is_in
    → rest ≡ select has_steps (map (without_console skip_console) chosen)
    → (if excluded
        then rest
        else with_steps phase
            (select (λ s. not (skip_console && s.needs_console)) phase.steps)
            rest)
      ≡ select has_steps
          (map (without_console skip_console) (if is_in then phase ∷ chosen else chosen))
round skip_console phase rest chosen true true e h = absurd (ground (arith, e))
round skip_console phase rest chosen false false e h = absurd (ground (arith, e))
round skip_console phase rest chosen true false e h = h
round skip_console phase rest chosen false true e h =
    with_steps-has_steps phase (select (λ s. not (skip_console && s.needs_console)) phase.steps)
      rest
    ∙ (ap (λ p. if has_steps p then p ∷ rest else rest) (kept-without_console skip_console phase)
        ∙ ap
            (λ l.
              if has_steps (without_console skip_console phase)
              then without_console skip_console phase ∷ l
              else l)
            h
        ∙ sym (
            select-if has_steps (without_console skip_console phase)
              (map (without_console skip_console) chosen)))

select_from-eq-wanted_of :
    (arguments : SecfuncArguments) (ps : List Phase)
    → select_from arguments ps ≡ wanted_of arguments ps
unfolding select_from
select_from-eq-wanted_of arguments [] = refl
select_from-eq-wanted_of arguments (phase ∷ others) =
    round arguments.skip_console phase (select_from arguments others)
      (select (λ p. is_chosen arguments.phase p.name) others) (is_excluded arguments phase)
      (is_chosen arguments.phase phase.name) (excluded-is_chosen arguments.phase phase.name)
      (select_from-eq-wanted_of arguments others)
    ∙ ap (λ l. select has_steps (map (without_console arguments.skip_console) l))
        (sym (select-if (λ p. is_chosen arguments.phase p.name) phase others))

-- `selected_phases` gives the phases of `PHASES` that `--phase` names, or all if it names none, in their order; with
-- `--skip-console` each without the steps that need the console; and of them those that have a step left.
pub selected_phases-eq-wanted_of :
    (arguments : SecfuncArguments) → selected_phases arguments ≡ wanted_of arguments phases
unfolding selected_phases
selected_phases-eq-wanted_of arguments = select_from-eq-wanted_of arguments phases
