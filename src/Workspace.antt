-- ===== src/Workspace.antt =====
-- The workspace model (jmux/src/model/workspace.rs): the record and the types of its entries.
-- Time stamps (`f64` seconds since the epoch, never negative) are natural numbers.
pub mod Panels
pub mod Rearrange
pub mod Sound
pub mod Close
pub mod Place
pub mod Move
pub mod Drag
pub mod Entries
pub mod Truncate
pub mod Push
pub mod Bounded
use jmux.Base.{ℕ, Bool, Option, List, Uuid}
use jmux.Base.Int.{ℤ}
use jmux.Base.Map.{Map}
use jmux.Base.Text.{Text}
use jmux.Layout.{LayoutNode}
use jmux.Panel.{GitBranch, Panel}

pub record PrCheck : Type 0 where
  pub name : Text
  pub conclusion : Text

pub record StatusEntry : Type 0 where
  pub key : Text
  pub value : Text
  pub icon : Option Text
  pub color : Option Text
  pub url : Option Text
  pub timestamp : ℕ

pub data MetadataFormat : Type 0 where
  plain markdown : MetadataFormat

pub record MetadataEntry : Type 0 where
  pub key : Text
  pub value : Text
  pub icon : Option Text
  pub color : Option Text
  pub url : Option Text
  pub priority : ℤ  -- i32
  pub format : MetadataFormat
  pub timestamp : ℕ

pub record MetadataBlock : Type 0 where
  pub key : Text
  pub content : Text
  pub priority : ℤ  -- i32
  pub timestamp : ℕ

pub record LogEntry : Type 0 where
  pub message : Text
  pub level : Text
  pub source : Option Text
  pub timestamp : ℕ

pub record Progress (F : Type 0) : Type 0 where
  pub value : F
  pub label : Option Text

-- `RemoteConfig` and `RemoteState` of jmux/src/remote/session.rs.
pub record RemoteConfig : Type 0 where
  pub destination : Text
  pub port : Option ℕ
  pub identity : Option Text
  pub ssh_options : List Text
  pub agent_forward : Bool
  pub remote_daemon_path : Option Text

pub data RemoteState : Type 0 where
  disconnected connecting : RemoteState
  connected : (proxy_port : ℕ) (daemon_version : Text) → RemoteState
  error : Text → RemoteState

pub record Workspace (F : Type 0) : Type 0 where
  pub id : Uuid
  pub process_title : Text
  pub custom_title : Option Text
  pub custom_color : Option Text
  pub is_pinned : Bool
  pub current_directory : Text
  pub focused_panel_id : Option Uuid
  pub previous_focused_panel_id : Option Uuid
  pub zoomed_panel_id : Option Uuid
  pub layout : LayoutNode F
  pub panels : Map (Panel F)
  pub status_entries : List StatusEntry
  pub metadata_entries : List MetadataEntry
  pub metadata_blocks : List MetadataBlock
  pub log_entries : List LogEntry
  pub progress : Option (Progress F)
  pub git_branch : Option GitBranch
  pub unread_count : ℕ  -- u32
  pub latest_notification : Option Text
  pub latest_notification_at : Option ℕ
  pub attention_panel_id : Option Uuid
  pub pr_status : Option Text
  pub pr_url : Option Text
  pub pr_checks : List PrCheck
  pub window_id : Option Uuid
  pub group_id : Option Uuid
  pub remote_config : Option RemoteConfig
  pub remote_state : Option RemoteState
  pub imessage_mode : Bool
  pub closed_panels : List (Panel F)
  pub env : List (Text × Text)
  pub description : Option Text
  pub subagent_monitor : Bool
