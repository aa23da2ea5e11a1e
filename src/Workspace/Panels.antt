-- ===== src/Workspace/Panels.antt =====
-- The operations of a workspace on its panels (jmux/src/model/workspace.rs). A method on `&mut self`
-- returns the new workspace beside its result; the identifier that `Uuid::new_v4()` makes is an
-- argument. `half` is the divider position 0.5 that the layout code writes.
use jmux.Base.{
  push_capped, pop, ℕ, ◌+◌, ◌-◌, Bool, true, false, Option, none, some, List, [], ◌∷◌,
  if◌then◌else◌, Uuid, head?, get_elem?, is_nil, is_some_eq, or_else, get_or_else, ltb,
}
use jmux.Base.Map.{Map, get, contains_key, insert, remove, update}
use jmux.Base.Text.{Text, codes}
use jmux.Layout.{
  SplitOrientation, LayoutNode, pane, index_of, all_panel_ids, single_pane,
  find_pane_with_panel_readonly,
}
use jmux.Layout.Edit
use jmux.Panel.{
  PanelType, terminal, browser, markdown, diff, project, file_preview, notes, history, vault,
  agent_monitor, graph, Panel,
}
use jmux.Panel.Create.{
  new_terminal, new_browser, new_markdown, new_diff, new_project, new_file_preview, new_notes,
  new_history, new_vault,
}
use jmux.Workspace.{Workspace}

abbrev pub closed_panels_cap : ℕ
closed_panels_cap = 10

-- The tab to the left of `panel_id` in its pane, or the right one where it is leftmost.
abbrev adjacent_tab : List Uuid → Uuid → Option Uuid
adjacent_tab ids panel_id = elim (index_of ids panel_id) [
  | none ↦ none
  | some idx ↦ if ltb 0 idx then get_elem? ids (idx - 1) else get_elem? ids (idx + 1)
]

-- An optional identifier without `panel_id`.
abbrev cleared : Option Uuid → Uuid → Option Uuid
cleared o panel_id = if is_some_eq o panel_id then none else o

module _ {F : Type 0} where
  abbrev pub panel_of_type : PanelType → Uuid → Panel F
  panel_of_type terminal id = new_terminal id
  panel_of_type browser id = new_browser id
  panel_of_type markdown id = new_markdown id []
  panel_of_type diff id = new_diff id none
  panel_of_type project id = new_project id none
  panel_of_type file_preview id = new_file_preview id []
  panel_of_type notes id = new_notes id []
  panel_of_type history id = new_history id
  panel_of_type vault id = new_vault id
  panel_of_type agent_monitor id = new_terminal id
  panel_of_type graph id = new_terminal id

  -- `home` is `$HOME`, or "/".
  unfoldable pub new : Uuid → Uuid → Text → Workspace F
  unfolding single_pane
  new id panel_id home = record {
    id = id;
    process_title = codes "Terminal";
    custom_title = none;
    custom_color = none;
    is_pinned = false;
    current_directory = home;
    focused_panel_id = some panel_id;
    previous_focused_panel_id = none;
    zoomed_panel_id = none;
    layout = single_pane panel_id;
    panels = (panel_id, new_terminal panel_id) ∷ [];
    status_entries = [];
    metadata_entries = [];
    metadata_blocks = [];
    log_entries = [];
    progress = none;
    git_branch = none;
    unread_count = 0;
    latest_notification = none;
    latest_notification_at = none;
    attention_panel_id = none;
    pr_status = none;
    pr_url = none;
    pr_checks = [];
    window_id = none;
    group_id = none;
    remote_config = none;
    remote_state = none;
    imessage_mode = false;
    closed_panels = [];
    env = [];
    description = none;
    subagent_monitor = false;
  }

  unfoldable with_directory : Uuid → Uuid → Text → Text → Workspace F
  unfolding new
  with_directory id panel_id home directory =
      let ws = new id panel_id home in
      elim ws.focused_panel_id [
        | none ↦ record ws { current_directory = directory }
        | some focused ↦ record ws {
          current_directory = directory;
          panels = update ws.panels focused (λ panel. record panel { directory = some directory });
        }
      ]

  unfoldable pub display_title : Workspace F → Text
  display_title ws = get_or_else ws.custom_title ws.process_title

  abbrev pub is_empty : Workspace F → Bool
  is_empty ws = is_nil ws.panels

  -- The layout after the focused pane is split, or the root where there is none.
  unfoldable pub split_focused : F → Workspace F → SplitOrientation → Uuid → LayoutNode F
  unfolding Edit.find_pane_with_panel Edit.split_with
  split_focused half ws orientation new_id =
      let at_root = Edit.split_with half ws.layout orientation new_id in
      elim ws.focused_panel_id [
        | none ↦ at_root
        | some focused_id ↦
            let done =
              Edit.find_pane_with_panel ws.layout focused_id
                (λ ids sel. Edit.split_with half (pane ids sel) orientation new_id) in
            if done.1 then done.0 else at_root
      ]

  -- `insert_panel`; it always succeeds.
  unfoldable pub insert_panel : F → Workspace F → Panel F → SplitOrientation → Workspace F
  unfolding split_focused
  insert_panel half ws panel orientation = record ws {
    panels = insert ws.panels panel.id panel;
    layout = split_focused half ws orientation panel.id;
    previous_focused_panel_id = ws.focused_panel_id;
    focused_panel_id = some panel.id;
  }

  unfoldable pub split : F → Workspace F → SplitOrientation → PanelType → Uuid → Workspace F
  unfolding split_focused
  split half ws orientation panel_type new_id = record ws {
    panels = insert ws.panels new_id (panel_of_type panel_type new_id);
    layout = split_focused half ws orientation new_id;
    previous_focused_panel_id = ws.focused_panel_id;
    focused_panel_id = some new_id;
  }

  -- The focus after the focused tab is closed: the adjacent tab if it is still there, or the first.
  unfoldable pub focus_after_close : Workspace F → Uuid → Map (Panel F) → LayoutNode F → Option Uuid
  unfolding find_pane_with_panel_readonly all_panel_ids
  focus_after_close ws panel_id panels layout =
      let neighbor : Option Uuid = elim (find_pane_with_panel_readonly ws.layout panel_id) [
        | none ↦ none
        | some ids ↦ adjacent_tab ids panel_id
      ] in
      let kept : Option Uuid = elim neighbor [
        | none ↦ none
        | some id ↦ if contains_key panels id then some id else none
      ] in
      or_else kept (head? (all_panel_ids layout))

  -- The workspace without a panel that it has.
  unfoldable pub close_panel : Workspace F → Uuid → Panel F → Workspace F
  unfolding Edit.remove_panel focus_after_close
  close_panel ws panel_id panel =
      let panels = remove ws.panels panel_id in
      let layout = (Edit.remove_panel ws.layout panel_id).0 in
      record ws {
        panels = panels;
        closed_panels = push_capped closed_panels_cap ws.closed_panels panel;
        layout = layout;
        focused_panel_id =
            if is_some_eq ws.focused_panel_id panel_id
            then focus_after_close ws panel_id panels layout
            else ws.focused_panel_id;
      }

  unfoldable pub remove_panel : Workspace F → Uuid → Workspace F × Bool
  unfolding close_panel
  remove_panel ws panel_id = elim (get ws.panels panel_id) [
    | none ↦ (ws, false)
    | some panel ↦ (close_panel ws panel_id panel, true)
  ]

  unfoldable pub reopen_last_closed_panel : Workspace F → Uuid → Workspace F × Option Uuid
  unfolding Edit.add_panel_to_pane all_panel_ids single_pane
  reopen_last_closed_panel ws new_id = elim (pop ws.closed_panels) [
    | none ↦ (ws, none)
    | some (closed, rest) ↦
        let panel = record closed { id = new_id; pending_scrollback = none; tty_name = none } in
        let target = or_else ws.focused_panel_id (head? (all_panel_ids ws.layout)) in
        let layout : LayoutNode F = elim target [
          | none ↦ single_pane new_id
          | some id ↦ (Edit.add_panel_to_pane ws.layout id new_id).0
        ] in
        (
          record ws {
            closed_panels = rest;
            panels = insert ws.panels new_id panel;
            layout = layout;
            previous_focused_panel_id = ws.focused_panel_id;
            focused_panel_id = some new_id;
          },
          some new_id,
        )
  ]

  -- The workspace that `detach_panel` leaves, where it has the panel.
  unfoldable pub detached : Workspace F → Uuid → Workspace F
  unfolding Edit.remove_panel all_panel_ids
  detached ws panel_id =
      let layout = (Edit.remove_panel ws.layout panel_id).0 in
      record ws {
        panels = remove ws.panels panel_id;
        layout = layout;
        focused_panel_id =
            if is_some_eq ws.focused_panel_id panel_id
            then head? (all_panel_ids layout)
            else ws.focused_panel_id;
        previous_focused_panel_id = cleared ws.previous_focused_panel_id panel_id;
        zoomed_panel_id = cleared ws.zoomed_panel_id panel_id;
      }

  unfoldable pub detach_panel : Workspace F → Uuid → Workspace F × Option (Panel F)
  unfolding detached
  detach_panel ws panel_id = elim (get ws.panels panel_id) [
    | none ↦ (ws, none)
    | some panel ↦ (detached ws panel_id, some panel)
  ]
