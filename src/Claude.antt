-- ===== src/Claude.antt =====
-- The state of an agent's pane, from its text on screen and its title
-- (jmux/src/model/claude_state.rs).
pub mod Chars
pub mod Menu
pub mod Turn
pub mod Background
pub mod Question
pub mod Pane
pub mod Classify
pub mod Options
pub mod Recent
