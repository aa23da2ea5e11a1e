-- ===== src/Goal/Outcome.antt =====
-- `parse_iteration_file` (jmux/src/goal/mod.rs): the status in the front matter of the file that an
-- iteration wrote. What is read of the file comes from outside.
use jmux.Base.{not, Option, none, some, List, [], ◌∷◌, map, if◌then◌else◌}
use jmux.Base.Strs.{strip_prefix, to_lowercase}
use jmux.Base.Text.{Text, codes, text_eq}
use jmux.Graph.Space.{trim}
use jmux.Graph.Home.{lines_from}

pub record IterationOutcome : Type 0 where
  pub status : Text

abbrev outcome_of : Text → IterationOutcome
outcome_of v = record { status = map to_lowercase (trim v) }

abbrev pub marker : Text
marker = codes "---"

-- The loop over the lines behind the first.
unfoldable pub parse_front_matter : List Text → Option IterationOutcome
parse_front_matter [] = none
parse_front_matter (line ∷ lines) =
    let rest = parse_front_matter lines in
    if text_eq (trim line) marker then none else elim (strip_prefix (codes "status:") (trim line)) [
      | some v ↦ some (outcome_of v)
      | none ↦ rest
    ]

unfoldable pub parse_lines : List Text → Option IterationOutcome
parse_lines [] = none
parse_lines (line ∷ lines) =
    if not (text_eq (trim line) marker) then none else parse_front_matter lines

-- None where the file cannot be read; some none where it has no status.
unfoldable pub parse_iteration_file : Option Text → Option (Option IterationOutcome)
parse_iteration_file none = none
parse_iteration_file (some text) = some (parse_lines (lines_from [] text))
