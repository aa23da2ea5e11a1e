-- ===== src/Workspace/Entries.antt =====
-- The entries that a workspace shows in the sidebar: status, metadata and log
-- (jmux/src/model/workspace.rs). `now` is the time of the call.
use jmux.Base.{
  ℕ, zero, suc, ◌/◌, ◌==◌, Bool, true, ◌&&◌, ◌||◌, not, Option, none, some, List, [], ◌∷◌, ◌++◌,
  if◌then◌else◌, length, take, drop, get_elem?, any, find, head?, or_else, update_first, erase_idx,
  retain, ltb, leb,
}
use jmux.Base.Int.{ℤ, ltb_ℤ}
use mathlib.Core.List.{reverse}
use jmux.Base.Text.{Text, codes, text_eq}
use jmux.Workspace.{MetadataFormat, Workspace}

-- `str::is_char_boundary`: no byte of the form 10xxxxxx stands at the index.
unfoldable pub is_char_boundary : Text → ℕ → Bool
is_char_boundary s zero = true
is_char_boundary s (suc i) = elim (get_elem? s (suc i)) [
  | none ↦ suc i == length s
  | some byte ↦ ltb byte 128 || leb 192 byte
]

-- The loop that looks for a boundary, downwards from `end`.
unfoldable pub boundary_below : Text → ℕ → ℕ
unfolding is_char_boundary
boundary_below s zero = zero
boundary_below s (suc end) =
    let lower = boundary_below s end in if is_char_boundary s (suc end) then suc end else lower

unfoldable pub truncate_str : Text → ℕ → Text
unfolding boundary_below
truncate_str s max_bytes =
    if leb (length s) max_bytes then s else take (boundary_below s max_bytes) s

unfoldable pub truncated : Option Text → ℕ → Option Text
unfolding truncate_str
truncated none max_bytes = none
truncated (some s) max_bytes = some (truncate_str s max_bytes)

module _ {ℓ} {A : Type ℓ} where
  -- `enumerate().min_by(..).map(|(i, _)| i)`: the index of the first least element.
  unfoldable pub min_index : (A → A → Bool) → List A → Option ℕ
  min_index less [] = none
  min_index less (x ∷ xs) = elim (min_index less xs) [
    | none ↦ some 0
    | some i ↦ elim (get_elem? xs i) [
      | none ↦ some 0
      | some y ↦ if less y x then some (suc i) else some 0
    ]
  ]

  -- The list with room for one element: at the limit, the least one is removed.
  unfoldable pub make_room : ℕ → (A → A → Bool) → List A → List A
  unfolding min_index
  make_room limit less xs =
      if leb limit (length xs)
      then elim (min_index less xs) [ none ↦ xs | some i ↦ erase_idx xs i ]
      else xs

  -- The element is written if it is there, or else a new one is pushed.
  unfoldable pub write_or_push : ℕ → (A → A → Bool) → (A → Bool) → (A → A) → A → List A → List A
  unfolding make_room
  write_or_push limit less has write new xs =
      if any has xs then update_first has write xs else make_room limit less xs ++ new ∷ []

abbrev pub max_status_entries : ℕ
max_status_entries = 100

abbrev pub max_metadata_entries : ℕ
max_metadata_entries = 100

abbrev pub max_metadata_blocks : ℕ
max_metadata_blocks = 50

abbrev pub max_log_entries : ℕ
max_log_entries = 1000

-- By priority, then by time.
abbrev pub before : ℤ → ℕ → ℤ → ℕ → Bool
before p s q t = ltb_ℤ p q || (not (ltb_ℤ q p) && ltb s t)

module _ {F : Type 0} where
  unfoldable pub set_status_with_url :
      Workspace F → (key value : Text) (icon color url : Option Text) → ℕ → Workspace F
  set_status_with_url ws key value icon color url now =
      let name = truncate_str key 256 in
      let text = truncate_str value 4096 in
      let icon = truncated icon 256 in
      let color = truncated color 64 in
      let url = truncated url 2048 in
      record ws {
        status_entries =
            write_or_push max_status_entries (λ a b. ltb a.timestamp b.timestamp)
              (λ entry. text_eq entry.key name)
              (λ entry. record entry {
                value = text;
                icon = icon;
                color = color;
                url = url;
                timestamp = now;
              })
              (record {
                key = name;
                value = text;
                icon = icon;
                color = color;
                url = url;
                timestamp = now;
              })
              ws.status_entries;
      }

  abbrev set_status : Workspace F → (key value : Text) (icon color : Option Text) → ℕ → Workspace F
  unfolding set_status_with_url
  set_status ws key value icon color now = set_status_with_url ws key value icon color none now

  unfoldable pub set_metadata :
      Workspace F
      → (key value : Text) (icon color url : Option Text) → ℤ
      → MetadataFormat
      → ℕ
      → Workspace F
  set_metadata ws key value icon color url priority format now =
      let name = truncate_str key 256 in
      let text = truncate_str value 4096 in
      record ws {
        metadata_entries =
            write_or_push max_metadata_entries
              (λ a b. before a.priority a.timestamp b.priority b.timestamp)
              (λ entry. text_eq entry.key name)
              (λ entry. record entry {
                value = text;
                icon = icon;
                color = color;
                url = url;
                priority = priority;
                format = format;
                timestamp = now;
              })
              (record {
                key = name;
                value = text;
                icon = icon;
                color = color;
                url = url;
                priority = priority;
                format = format;
                timestamp = now;
              })
              ws.metadata_entries;
      }

  unfoldable pub clear_metadata : Workspace F → Text → Workspace F
  clear_metadata ws key = record ws {
    metadata_entries = retain (λ entry. not (text_eq entry.key key)) ws.metadata_entries;
  }

  unfoldable pub set_metadata_block : Workspace F → (key content : Text) → ℤ → ℕ → Workspace F
  set_metadata_block ws key content priority now =
      let name = truncate_str key 256 in
      let text = truncate_str content 32768 in
      record ws {
        metadata_blocks =
            write_or_push max_metadata_blocks
              (λ a b. before a.priority a.timestamp b.priority b.timestamp)
              (λ block. text_eq block.key name)
              (λ block. record block { content = text; priority = priority; timestamp = now })
              (record { key = name; content = text; priority = priority; timestamp = now })
              ws.metadata_blocks;
      }

  unfoldable pub clear_metadata_block : Workspace F → Text → Workspace F
  clear_metadata_block ws key = record ws {
    metadata_blocks = retain (λ block. not (text_eq block.key key)) ws.metadata_blocks;
  }

  -- At the limit the oldest quarter is drained.
  unfoldable pub append_log :
      Workspace F → (message level : Text) → (source : Option Text) → ℕ → Workspace F
  append_log ws message level source now =
      let entries = ws.log_entries in
      record ws {
        log_entries =
            (if leb max_log_entries (length entries)
              then drop (length entries / 4) entries
              else entries)
            ++ record {
              message = truncate_str message 8192;
              level = truncate_str level 64;
              source = truncated source 256;
              timestamp = now;
            }
              ∷ [];
      }

  -- The newest entry of the key "agent", or else the newest of all.
  unfoldable sidebar_status_label : Workspace F → Option Text
  sidebar_status_label ws =
      let newest = reverse ws.status_entries in
      elim (or_else (find (λ entry. text_eq entry.key (codes "agent")) newest) (head? newest)) [
        | none ↦ none
        | some entry ↦ some entry.value
      ]

  unfoldable mark_notifications_read : Workspace F → Workspace F
  mark_notifications_read ws = record ws { unread_count = 0 }

  unfoldable clear_attention : Workspace F → Workspace F
  clear_attention ws = record ws { attention_panel_id = none }
