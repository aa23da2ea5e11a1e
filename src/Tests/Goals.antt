-- ===== src/Tests/Goals.antt =====
-- Runners and settings of goals, and the theorem on permission modes applied to them.
use jmux.Base.{
  ◌≡◌, ◌≤◌, length, ◌+◌, refl, arith, Option, none, some, List, false, true, [], ◌∷◌, get_or_else,
}
use jmux.Base.Text.{Text, codes, text_eq}
use jmux.Base.Names.{listed}
use jmux.Graph.Space.{trim}
use jmux.Tests.Runs.{runner_with, settings_with}
use jmux.Graph.Proposal.{valid_node_id}
use jmux.Goal.Iterations.{
  print_u32, iteration_name, iteration_of, highest, has_name, next_iteration_number,
  next_iteration_number-fresh,
}
use jmux.Goal.Outcome.{parse_front_matter, parse_lines, parse_iteration_file}
use jmux.Goal.Slug.{slugify_goal, slugify_goal-valid}
use jmux.Goal.Permission.{
  bypass, permission_modes, resolve_permission_mode, resolve_permission_mode-bypass,
}

-- A runner that is set to the bypass is passed over for the mode of the settings.
resolve-ambient :
    resolve_permission_mode none
      (runner_with (codes "bypassPermissions"))
      (settings_with (codes " plan"))
    ≡ codes "plan"
unfolding resolve_permission_mode permission_modes bypass
resolve-ambient = refl

resolve-asked :
    resolve_permission_mode (some bypass) (runner_with (codes "auto")) (settings_with []) ≡ bypass
unfolding resolve_permission_mode permission_modes bypass
resolve-asked = refl

resolve-unknown :
    resolve_permission_mode (some (codes "yolo")) (runner_with (codes " ")) (settings_with bypass)
    ≡ codes "acceptEdits"
unfolding resolve_permission_mode permission_modes bypass
resolve-unknown = refl

resolve_permission_mode-bypass_example :
    (listed permission_modes
        (resolve_permission_mode none (runner_with bypass) (settings_with (codes "plan")))
      ≡ true)
    × (text_eq
          (resolve_permission_mode none (runner_with bypass) (settings_with (codes "plan")))
          bypass
        ≡ text_eq (trim (get_or_else none [])) bypass)
resolve_permission_mode-bypass_example =
    resolve_permission_mode-bypass none (runner_with bypass) (settings_with (codes "plan"))

slugify-words :
    slugify_goal (codes "Add a --version flag to the CLI, with a test")
    ≡ codes "add-a-version-flag-to-the"
unfolding slugify_goal
slugify-words = refl

slugify-blank :
    (slugify_goal (codes "  ") ≡ codes "goal") × (slugify_goal (codes "!!! ???") ≡ codes "goal")
unfolding slugify_goal
slugify-blank = (refl, refl)

-- Two letters with a no-break space between them.
slugify-space : slugify_goal (85 ∷ 194 ∷ 160 ∷ 66 ∷ []) ≡ codes "u-b"
unfolding slugify_goal
slugify-space = refl

slugify_goal-valid_example :
    (valid_node_id (slugify_goal (codes "Fix the TODOs!")) ≡ true)
    × (length (slugify_goal (codes "Fix the TODOs!")) ≤ 48)
slugify_goal-valid_example = slugify_goal-valid (codes "Fix the TODOs!")

-- The files 1 and 3, another file, and a name that is no UTF-8.
abbrev some_files : List (Option Text)
some_files =
    some (iteration_name 3)
    ∷ some (codes "notes.md")
    ∷ none
    ∷ some (codes "iteration-1.md")
    ∷ some (codes "iteration-9.txt")
    ∷ []

next_iteration-test :
    (next_iteration_number none ≡ some 1) × (next_iteration_number (some some_files) ≡ some 4)
unfolding next_iteration_number iteration_of iteration_name print_u32
next_iteration-test = (refl, refl)

-- Behind the highest number the addition overflows.
next_iteration-overflow :
    next_iteration_number (some (some (codes "iteration-4294967295.md") ∷ [])) ≡ none
unfolding next_iteration_number iteration_of
next_iteration-overflow = refl

next_iteration_number-fresh_example :
    (next_iteration_number (some some_files) ≡ some (highest 0 some_files + 1))
    × (has_name some_files (iteration_name (highest 0 some_files + 1)) ≡ false)
unfolding iteration_of iteration_name print_u32
next_iteration_number-fresh_example = next_iteration_number-fresh some_files (ground arith)

-- A status is read in lower case, and only before the second marker.
parse_iteration_file-test :
    (parse_iteration_file (some (codes "---\nkind: x\nstatus: DONE \n---\nbody"))
      ≡ some (some (record { status = codes "done" })))
    × (parse_iteration_file (some (codes "---\n---\nstatus: done")) ≡ some none)
    × (parse_iteration_file (some (codes "status: done")) ≡ some none)
unfolding parse_iteration_file parse_lines parse_front_matter
parse_iteration_file-test = (refl, refl, refl)
