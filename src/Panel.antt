-- ===== src/Panel.antt =====
-- The panels of a workspace (`Panel`, `PanelType` and `GitBranch` in jmux/src/model/panel.rs).
-- `F` is the type of floats. A constructor takes the identifier that `Uuid::new_v4()` makes.
pub mod Create
pub mod Title
pub mod Path
use jmux.Base.{ℕ, Bool, Option, List, Uuid}
use jmux.Base.Text.{Text}

pub data PanelType : Type 0 where
  terminal browser markdown diff project file_preview notes history vault agent_monitor graph :
      PanelType

pub record GitBranch : Type 0 where
  pub branch : Text
  pub is_dirty : Bool

pub record Panel (F : Type 0) : Type 0 where
  pub id : Uuid
  pub panel_type : PanelType
  pub title : Option Text
  pub custom_title : Option Text
  pub directory : Option Text
  pub is_pinned : Bool
  pub is_manually_unread : Bool
  pub git_branch : Option GitBranch
  pub listening_ports : List ℕ  -- u16
  pub tty_name : Option Text
  pub browser_url : Option Text
  pub markdown_file : Option Text
  pub command : Option Text
  pub pending_scrollback : Option Text
  pub pending_zoom : Option F
  pub parent_panel_id : Option Uuid
  pub agent_session_id : Option Text
