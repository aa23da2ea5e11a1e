-- ===== src/Panel/Title.antt =====
-- `Panel::display_title`, and `Path::file_name` as it uses it (jmux/src/model/panel.rs).
use jmux.Base.{
  ◌==◌, Bool, true, false, ◌&&◌, Option, none, some, List, [], ◌∷◌, ◌++◌, if◌then◌else◌, is_nil,
  or_else, get_last?, get_or_else, retain, not,
}
use jmux.Base.Text.{Text, codes, text_eq}
use jmux.Panel.{
  PanelType, terminal, browser, markdown, diff, project, file_preview, notes, history, vault,
  agent_monitor, graph, Panel,
}

-- The parts of a path between its slashes.
unfoldable pub split_path : Text → Text → List Text
split_path part [] = part ∷ []
split_path part (c ∷ cs) = elim (c == 47) [
  | true ↦ part ∷ split_path [] cs
  | false ↦ split_path (part ++ c ∷ []) cs
]

-- Components that `Path::components` yields: empty parts and `.` are skipped.
abbrev pub is_component : Text → Bool
is_component part = not (is_nil part) && not (text_eq part (codes "."))

-- `Path::file_name`: the last component, unless it is `..`.
unfoldable pub file_name : Text → Option Text
unfolding split_path
file_name path = elim (get_last? (retain is_component (split_path [] path))) [
  | none ↦ none
  | some last ↦ if text_eq last (codes "..") then none else some last
]

-- The file's name, if there is a file and it has one.
abbrev file_title : Option Text → Text → Text
file_title none fallback = fallback
file_title (some file) fallback = get_or_else (file_name file) fallback

abbrev title_by_type : PanelType → Option Text → Text
title_by_type terminal file = codes "Terminal"
title_by_type browser file = codes "Browser"
title_by_type agent_monitor file = codes "Sub-agent"
title_by_type graph file = codes "Graph"
title_by_type markdown file = file_title file (codes "Markdown")
title_by_type diff file = codes "Diff"
title_by_type project file = codes "Project"
title_by_type file_preview file = file_title file (codes "Preview")
title_by_type notes file = codes "Notes"
title_by_type history file = codes "History"
title_by_type vault file = codes "Vault"

unfoldable pub display_title : {F : Type 0} → Panel F → Text
unfolding file_name
display_title panel =
    get_or_else (or_else panel.custom_title panel.title)
      (title_by_type panel.panel_type panel.markdown_file)
