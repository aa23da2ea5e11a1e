-- ===== src/Panel/Create.antt =====
-- The constructors of `Panel` (jmux/src/model/panel.rs). `id` is what `Uuid::new_v4()` returns.
use jmux.Base.{false, Option, none, some, [], ◌++◌, Uuid, or_else}
use jmux.Base.Text.{Text, codes}
use jmux.Panel.Title.{file_name}
use jmux.Panel.{
  terminal, browser, markdown, diff, project, file_preview, notes, history, vault, agent_monitor,
  graph, Panel,
}

module _ {F : Type 0} where
  unfoldable pub new_terminal : Uuid → Panel F
  new_terminal id = record {
    id = id;
    panel_type = terminal;
    title = none;
    custom_title = none;
    directory = none;
    is_pinned = false;
    is_manually_unread = false;
    git_branch = none;
    listening_ports = [];
    tty_name = none;
    browser_url = none;
    markdown_file = none;
    command = none;
    pending_scrollback = none;
    pending_zoom = none;
    parent_panel_id = none;
    agent_session_id = none;
  }

  -- The other constructors set a few fields beside these.
  unfoldable pub new_browser : Uuid → Panel F
  unfolding new_terminal
  new_browser id = record (new_terminal id) { panel_type = browser }

  unfoldable pub new_diff : Uuid → Option Text → Panel F
  unfolding new_terminal
  new_diff id dir = record (new_terminal id) {
    panel_type = diff;
    title = some (codes "Diff");
    directory = dir;
  }

  unfoldable pub new_project : Uuid → Option Text → Panel F
  unfolding new_terminal
  new_project id dir = record (new_terminal id) {
    panel_type = project;
    title = some (codes "Project");
    directory = dir;
  }

  unfoldable pub new_notes : Uuid → Text → Panel F
  unfolding new_terminal file_name
  new_notes id file_path = record (new_terminal id) {
    panel_type = notes;
    title = or_else (file_name file_path) (some (codes "Notes"));
    markdown_file = some file_path;
  }

  unfoldable pub new_file_preview : Uuid → Text → Panel F
  unfolding new_terminal file_name
  new_file_preview id file_path = record (new_terminal id) {
    panel_type = file_preview;
    title = file_name file_path;
    markdown_file = some file_path;
  }

  unfoldable pub new_markdown : Uuid → Text → Panel F
  unfolding new_terminal file_name
  new_markdown id file_path = record (new_terminal id) {
    panel_type = markdown;
    title = file_name file_path;
    markdown_file = some file_path;
  }

  unfoldable pub new_history : Uuid → Panel F
  unfolding new_terminal
  new_history id = record (new_terminal id) { panel_type = history; title = some (codes "History") }

  unfoldable pub new_vault : Uuid → Panel F
  unfolding new_terminal
  new_vault id = record (new_terminal id) { panel_type = vault; title = some (codes "Vault") }

  unfoldable new_agent_monitor : Uuid → Text → Text → Panel F
  unfolding new_terminal
  new_agent_monitor id transcript_path title = record (new_terminal id) {
    panel_type = agent_monitor;
    title = some title;
    markdown_file = some transcript_path;
  }

  unfoldable pub new_graph : Uuid → Text → Panel F
  unfolding new_terminal
  new_graph id graph_name = record (new_terminal id) {
    panel_type = graph;
    title = some (codes "graph: " ++ graph_name);
    command = some graph_name;
  }
