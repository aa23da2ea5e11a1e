-- ===== src/Graph/Home.antt =====
-- Where a graph keeps its files: `validate_output_dir` (jmux/src/goal/mod.rs), `output_dir_rel` and
-- `base_is_clean` (jmux/src/goal/graph.rs).
use jmux.Base.{
  ◌==◌, ◌&&◌, ◌||◌, Bool, false, Option, none, some, List, [], ◌∷◌, ◌++◌, if◌then◌else◌, drop,
  retain, any, all, is_nil, or_else, get_or_else,
}
use jmux.Base.Strs.{starts_with}
use jmux.Base.Text.{Text, codes, text_eq}
use jmux.Graph.{GraphSpec}
use jmux.Graph.Space.{trim}
use jmux.Panel.Title.{split_path, is_component}
use jmux.Workspace.Entries.{is_char_boundary}

-- `Result<String, String>` of `validate_output_dir`; the two errors about paths have the text.
pub data OutputDir : Type 0 where
  output_dir_empty : OutputDir
  output_dir_outside output_dir_unnamed : Text → OutputDir
  output_dir_good : Text → OutputDir

-- `parts.join("/")`
abbrev join_slash : List Text → Text
join_slash [] = []
join_slash (p ∷ []) = p
join_slash (p ∷ q ∷ ps) = p ++ 47 ∷ join_slash (q ∷ ps)

abbrev from_parts : Text → List Text → OutputDir
from_parts dir parts =
    if starts_with dir (codes "/") || any (text_eq (codes "..")) parts
    then output_dir_outside dir
    else if is_nil parts
    then output_dir_unnamed dir
    else output_dir_good (join_slash parts)

abbrev validate_trimmed : Text → OutputDir
validate_trimmed dir =
    if is_nil dir
    then output_dir_empty
    else from_parts dir (retain is_component (split_path [] dir))

unfoldable pub validate_output_dir : Text → OutputDir
unfolding split_path
validate_output_dir dir = validate_trimmed (trim dir)

abbrev or_default : OutputDir → Text
or_default (output_dir_good dir) = dir
or_default bad = codes "docs/roadmap"

-- What a node is merged under: the name of its graph, and the graph's own directory.
pub record Home : Type 0 where
  pub name : Text
  pub own_dir : Text

unfoldable pub output_dir_rel : {F : Type 0} → GraphSpec F → Text
unfolding validate_output_dir
output_dir_rel spec = or_default (validate_output_dir spec.output_dir)

unfoldable pub home_of : {F : Type 0} → GraphSpec F → Home
unfolding output_dir_rel
home_of spec = record {
  name = spec.name;
  own_dir = output_dir_rel spec ++ (47 ∷ spec.name ++ 47 ∷ []);
}

-- `lines()`: without the line feeds, and without a carriage return before one.
abbrev drop_return : Text → Text
drop_return [] = []
drop_return (c ∷ []) = if c == 13 then [] else c ∷ []
drop_return (c ∷ d ∷ cs) = c ∷ drop_return (d ∷ cs)

abbrev pub lines_from : Text → Text → List Text
lines_from line [] = if is_nil line then [] else line ∷ []
lines_from line (c ∷ cs) =
    let ended = lines_from [] cs in
    let longer = lines_from (line ++ c ∷ []) cs in
    if c == 10 then drop_return line ∷ ended else longer

-- `line.get(3..).unwrap_or("")`
abbrev after_status : Text → Text
after_status line = if is_char_boundary line 3 then drop 3 line else []

-- What stands behind the last arrow of a rename.
abbrev behind_arrow : Text → Option Text
behind_arrow [] = none
behind_arrow (c ∷ cs) =
    or_else (behind_arrow cs)
      (if starts_with (c ∷ cs) (codes " -> ") then some (drop 4 (c ∷ cs)) else none)

-- `trim_matches('"')`
abbrev trim_start_quotes : Text → Text
trim_start_quotes [] = []
trim_start_quotes (c ∷ cs) = let rest = trim_start_quotes cs in if c == 34 then rest else c ∷ cs

abbrev trim_end_quotes : Text → Text
trim_end_quotes [] = []
trim_end_quotes (c ∷ cs) =
    let rest = trim_end_quotes cs in if is_nil rest && (c == 34) then [] else c ∷ rest

-- The path of a line of `git status --porcelain`.
abbrev status_path : Text → Text
status_path line =
    let path = trim (after_status line) in
    trim_end_quotes (trim_start_quotes (get_or_else (behind_arrow path) path))

abbrev is_own : Text → Text → Bool
is_own own_dir path = is_nil path || (starts_with path own_dir || text_eq (path ++ 47 ∷ []) own_dir)

unfoldable pub base_is_clean : Text → Text → Bool
unfolding is_char_boundary
base_is_clean porcelain own_dir =
    all (λ line. is_own own_dir (status_path line)) (lines_from [] porcelain)

-- Whether `git status` succeeded, and shows nothing but the graph's own files.
unfoldable pub can_merge : Option Text → Text → Bool
unfolding base_is_clean
can_merge none own_dir = false
can_merge (some porcelain) own_dir = base_is_clean porcelain own_dir
