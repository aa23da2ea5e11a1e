-- ===== src/Lib.antt =====
-- Verification of the core of jmux, a terminal multiplexer: the workspace model in jmux/src/model/,
-- which the windows show and the sockets change, the goal graphs in jmux/src/goal/graph.rs, the
-- driver of goals in jmux/src/goal/mod.rs, and the notification store in jmux/src/notifications.rs.
--
-- The parts, from the inside out:
--
-- - Panel (jmux/src/model/panel.rs): the record of a panel, its constructors (Panel/Create) and its
--   title (Panel/Title), with a proof about paths in Panel/Path.
-- - Layout (jmux/src/model/panel.rs, `LayoutNode`): the tree of splits and panes. Layout holds the
--   type and the functions that read it, Layout/Edit those that change its panels, Layout/Divider
--   those that change dividers. The other children hold the proofs: Count (how often a panel stands
--   in the tree), Moves, Valid (the shape of the tree), Cycle, Neighbor, Order (tabs in a pane) and
--   Dividers.
-- - Workspace (jmux/src/model/workspace.rs): the records, and in Workspace/Panels and Rearrange the
--   operations on panels, which change the map of panels and the layout together. Workspace/Sound
--   states the invariant that ties the two; Close, Place, Move and Drag prove it of the operations.
--   Workspace/Entries holds the operations on the entries of the sidebar, with proofs in Truncate,
--   Push and Bounded.
-- - Tabs (jmux/src/model/tab_manager.rs and workspace_group.rs): the list of workspaces, the
--   selection, the focus history, the closed stack and the groups. Tabs/Select, Change, Close and
--   Groups hold the operations. Sound, Visits, Kept, Inserted and Written prove the invariant of
--   each operation, Reach that of every reachable state, Follow what stays selected, History and
--   Reopen what going back does, Bulk the bulk closings, and Cut, Blocks and Assign what the group
--   operations do to the order and the selection.
-- - Graph (jmux/src/goal/graph.rs): a plan of nodes that agents work off. Graph/Proposal is the
--   validation of a proposal, with its cycle check in Graph/Kahn; Graph/Schedule what happens to
--   nodes, Graph/Ticks the ticks of the scheduler, Graph/Commands what users do with a graph, and a
--   restart. Graph/Home has the output directory (`validate_output_dir` of jmux/src/goal/mod.rs)
--   and `base_is_clean`, Graph/Space `str::trim`. The proofs: Unmet, Relax, Rounds, Start and
--   Acyclic on the cycle check, Deps, Nodes and Plan on the validation; Lookup, Grows, InOrder,
--   Moves, Launching and Order on the order of the plan, Cap on the limit, Started, Sound,
--   SoundTicks, SoundCommands, SoundEdits and Steps on all reachable graphs; Oblige, Waiting,
--   Progress, Finishes, Live and Approved on the way to completion; Ends on how graphs end, and
--   Stuck on one that has no plan; and Reported leads from the report of an agent, by way of the
--   driver, to its node.
-- - Goal (jmux/src/goal/mod.rs): the records of goals, their runners and settings
--   (jmux/src/settings/mod.rs). Goal/Permission is the choice of the permission mode that an agent
--   is launched with, Goal/Slug the name that is made of a goal's text, Goal/Iterations the numbers
--   of the iterations' files, and Goal/Outcome the status that is read from one. Goal/Registry,
--   Messages and Drive are the driver, which looks at every run every two seconds: the registry
--   with escalation and the next iteration, the texts, and `drive_one` and `tick`. Goal/Steps, on
--   Goal/Conditions, states what a pass may do and what it changes, Decisions, Escalation and
--   Drives prove it of the code, and Outline leaves the counts of ticks out; Typed, Paced and Ended
--   follow from that, and Finished on whole ticks. Stalls and DeadAgent are on many passes over one
--   run.
-- - Claude (jmux/src/model/claude_state.rs): what the screen and the title of a terminal say of the
--   agent in it. Claude/Chars has lines and white space, Claude/Menu the selection menus, Turn and
--   Background whether a turn is running, Question whether the last response asks something,
--   Classify the state that follows, and Pane which panes run Claude. Options and Recent hold the
--   proofs.
-- - Notifications (jmux/src/notifications.rs): the store, with proofs in Store and Unread.
-- - Base: what the parts share. Base/Lists has the operations of `Vec`, Base/Pieces lemmas on cut
--   lists, Base/Map `HashMap<Uuid, V>` as an association list, Base/Text strings as UTF-8 bytes,
--   Base/Strs the methods of `str` that the goals and the screens share, Base/Names lists and sets
--   of names, Base/Float the float operations as a record of parameters, Base/Int the `i32` values.
-- - Tests: concrete layouts, workspaces, tab managers, graphs, runs, screens and stores, and the
--   theorems applied to them.
--
-- A method on `&mut self` is a function that returns the new state, paired with its result where it
-- has one. A method that borrows mutably only to hand out a reference (`selected_mut`,
-- `workspace_mut`, `get_mut`, `group_mut`) has no function of its own: where the code writes
-- through the reference, the model has that write. `Uuid::new_v4()` is an argument, and so is the
-- time that `SystemTime::now()` gives. An identifier is a number; only its equality and its order
-- in `same_panel_set` are used. `f64` is an abstract type with the operations of Base/Float.
-- Indices and lengths are natural numbers, as no list comes near the size of memory; where the code
-- subtracts, it has tested that it can. Sums of `u32` numbers panic where they overflow, which the
-- next number of an iteration and the unread count of a group show as a missing result.
--
-- Loops are structural recursions, on the tree, on a list or, in `focus_back` and `focus_forward`,
-- on the number of entries that are left in the history. The cycle check alone has fuel, one round
-- more than there are nodes, which is proved to be enough. A removal by descending indices is the
-- fold over the reversed indices that the code runs.
--
-- What the graphs meet outside is the record `World`, which each tick gets anew: the goal runs, the
-- outcomes of git, of runner resolution and of `launch_goal`, the file of the proposal as its JSON
-- or an error, and the order in which the map of the cycle check is visited. What the driver meets
-- is the record `Outside`: the time, the files, the screens, which agents are live or frozen, and
-- whether input is taken; each run meets its own, as the code asks for these one run after another.
-- The numbers of iterations are taken from the names in a directory, and the status from the text
-- of a file; both come from outside. The functions on a graph get the graph that the registry has
-- under the name. The counters of a run (`u32`) count ticks, reminders and iterations, one at a
-- time, and are natural numbers.
--
-- Not modelled: the JSON tree of a layout, the redacted text of `PendingScrollback`, which is its
-- text here, the summary of a notification (`record_notification`), `create_graph` and the edits of
-- proposal.json, the notifications and files that the scheduler of graphs writes, the launching of
-- goals (`launch_goal`, `resolve_run` and the resolution of runners) and of their agents' terminals
-- (`ensure_agent_spawned`), and the rest: sockets, sessions on disk, the other settings, remote
-- connections and the user interface. These are mostly calls of GTK, of the file system and of
-- processes.
pub mod Base
pub mod Claude
pub mod Goal
pub mod Graph
pub mod Layout
pub mod Notifications
pub mod Panel
pub mod Tabs
pub mod Tests
pub mod Workspace
