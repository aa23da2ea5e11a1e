-- ===== src/Workspace/Bounded.antt =====
-- The bounds on the entries of the sidebar, and what a status call leaves
-- (jmux/src/model/workspace.rs).
use jmux.Base.{
  ℕ, ◌/◌, ◌≡◌, leb, if◌then◌else◌, ◌≤◌, refl, inl, inr, arith, true, not, Option, some, List, [],
  ◌∷◌, ◌++◌, length, drop, find, ltb, Bool-cases, length-append, length-drop,
}
use jmux.Base.Int.{ℤ}
use jmux.Base.Text.{Text, text_eq, text_eq_refl}
use jmux.Workspace.{StatusEntry, MetadataFormat, LogEntry, Workspace}
use jmux.Workspace.Entries.{
  truncate_str, truncated, max_status_entries, max_metadata_entries, max_metadata_blocks,
  max_log_entries, set_status_with_url, set_metadata, clear_metadata, set_metadata_block,
  clear_metadata_block, append_log,
}
use jmux.Workspace.Push.{length-retain, length-write_or_push, write_or_push-found}

log_room :
    (entries : List LogEntry) (entry : LogEntry)
    → length entries ≤ max_log_entries
    → length (
        (if leb max_log_entries (length entries)
          then drop (length entries / 4) entries
          else entries)
        ++ entry ∷ [])
      ≤ max_log_entries
log_room entries entry h = elim (Bool-cases (leb max_log_entries (length entries))) [
  | inl full ↦ rw full (
      omega (
        arith,
        length-append (drop (length entries / 4) entries) (entry ∷ []),
        length-drop (length entries / 4) entries,
        full_length full,
      ))
  | inr free ↦ rw free (ground (arith, length-append entries (entry ∷ [])))
]
  where
    full_length : leb max_log_entries (length entries) ≡ true → max_log_entries ≤ length entries
    full_length full = ground arith

module _ {F : Type 0} where
  -- The entries of a workspace are within their limits.
  pub record IsBounded (ws : Workspace F) : Type 0 where
    pub status : length ws.status_entries ≤ max_status_entries
    pub metadata : length ws.metadata_entries ≤ max_metadata_entries
    pub blocks : length ws.metadata_blocks ≤ max_metadata_blocks
    pub logs : length ws.log_entries ≤ max_log_entries

  -- One call of an operation that changes the entries.
  pub data EntryStep : Workspace F → Workspace F → Type 0 where
    status_step :
        (ws : Workspace F) (key value : Text) (icon color url : Option Text) (now : ℕ)
        → EntryStep ws (set_status_with_url ws key value icon color url now)
    metadata_step :
        (ws : Workspace F) (key value : Text) (icon color url : Option Text) (priority : ℤ)
        (format : MetadataFormat) (now : ℕ)
        → EntryStep ws (set_metadata ws key value icon color url priority format now)
    clear_step : (ws : Workspace F) (key : Text) → EntryStep ws (clear_metadata ws key)
    block_step :
        (ws : Workspace F) (key content : Text) (priority : ℤ) (now : ℕ)
        → EntryStep ws (set_metadata_block ws key content priority now)
    clear_block_step : (ws : Workspace F) (key : Text) → EntryStep ws (clear_metadata_block ws key)
    log_step :
        (ws : Workspace F) (message level : Text) (source : Option Text) (now : ℕ)
        → EntryStep ws (append_log ws message level source now)

  pub data EntryReach (start : Workspace F) : Workspace F → Type 0 where
    unchanged : EntryReach start start
    changed :
        {ws after : Workspace F} → EntryReach start ws → EntryStep ws after → EntryReach start after

  EntryStep-IsBounded :
      {ws after : Workspace F} → EntryStep ws after → IsBounded ws → IsBounded after
  unfolding set_status_with_url set_metadata clear_metadata set_metadata_block clear_metadata_block
      append_log
  EntryStep-IsBounded (status_step ws key value icon color url now) b = record {
    status =
        length-write_or_push max_status_entries _ _ _ _ ws.status_entries (omega arith) b.status;
    metadata = b.metadata;
    blocks = b.blocks;
    logs = b.logs;
  }
  EntryStep-IsBounded (metadata_step ws key value icon color url priority format now) b = record {
    status = b.status;
    metadata =
        length-write_or_push max_metadata_entries _ _ _ _ ws.metadata_entries (omega arith)
          b.metadata;
    blocks = b.blocks;
    logs = b.logs;
  }
  EntryStep-IsBounded (clear_step ws key) b = record {
    status = b.status;
    metadata =
        omega (arith, length-retain (λ e. not (text_eq e.key key)) ws.metadata_entries, b.metadata);
    blocks = b.blocks;
    logs = b.logs;
  }
  EntryStep-IsBounded (block_step ws key content priority now) b = record {
    status = b.status;
    metadata = b.metadata;
    blocks =
        length-write_or_push max_metadata_blocks _ _ _ _ ws.metadata_blocks (omega arith) b.blocks;
    logs = b.logs;
  }
  EntryStep-IsBounded (clear_block_step ws key) b = record {
    status = b.status;
    metadata = b.metadata;
    blocks =
        omega (arith, length-retain (λ e. not (text_eq e.key key)) ws.metadata_blocks, b.blocks);
    logs = b.logs;
  }
  EntryStep-IsBounded (log_step ws message level source now) b = record {
    status = b.status;
    metadata = b.metadata;
    blocks = b.blocks;
    logs = log_room ws.log_entries _ b.logs;
  }

  -- From a workspace within the limits, any sequence of the operations on status, metadata and log
  -- entries reaches one with at most 100 status entries, 100 metadata entries, 50 metadata blocks
  -- and 1000 log entries.
  pub EntryReach-IsBounded :
      {start ws : Workspace F} → EntryReach start ws → IsBounded start → IsBounded ws
  EntryReach-IsBounded unchanged b = b
  EntryReach-IsBounded (changed r st) b = EntryStep-IsBounded st (EntryReach-IsBounded r b)

  -- After `set_status_with_url`, the entry found under the truncated key, written or new, has the
  -- truncated value, the truncated URL and the time of the call, also where another entry had to
  -- make room.
  pub set_status_with_url_lem :
      (ws : Workspace F) (key value : Text) (icon color url : Option Text) (now : ℕ)
      → (entry : StatusEntry) × (find
            (λ e. text_eq e.key (truncate_str key 256))
            (set_status_with_url ws key value icon color url now).status_entries
          ≡ some entry)
        × (entry.value ≡ truncate_str value 4096)
        × (entry.url ≡ truncated url 2048)
        × (entry.timestamp ≡ now)
  unfolding set_status_with_url
  set_status_with_url_lem ws key value icon color url now =
      let (entry, found, same) =
        write_or_push-found
          (λ entry.
            (entry.value ≡ truncate_str value 4096)
            × (entry.url ≡ truncated url 2048)
            × (entry.timestamp ≡ now))
          max_status_entries (λ a b. ltb a.timestamp b.timestamp)
          (λ entry. text_eq entry.key (truncate_str key 256))
          (λ entry. record entry {
            value = truncate_str value 4096;
            icon = truncated icon 256;
            color = truncated color 64;
            url = truncated url 2048;
            timestamp = now;
          })
          (record {
            key = truncate_str key 256;
            value = truncate_str value 4096;
            icon = truncated icon 256;
            color = truncated color 64;
            url = truncated url 2048;
            timestamp = now;
          })
          ws.status_entries (λ x. refl) (text_eq_refl (truncate_str key 256))
          (λ x. (refl, refl, refl)) (refl, refl, refl) in
      (entry, found, same.0, same.1, same.2)
