-- ===== src/Tests/Entries.antt =====
-- The theorems on the sidebar entries at a concrete workspace and text.
use jmux.Base.{ℕ, ◌≡◌, ◌≤◌, ◌<◌, refl, true, false, none, some, [], ◌∷◌, arith, length, take, find}
use jmux.Base.Int.{pos}
use jmux.Base.Text.{Text, codes, text_eq}
use jmux.Workspace.{StatusEntry, plain, Workspace}
use jmux.Workspace.Panels.{new}
use jmux.Workspace.Entries.{
  is_char_boundary, truncate_str, truncated, set_status_with_url, set_metadata, append_log,
}
use jmux.Workspace.Truncate.{truncate_str_lem}
use jmux.Workspace.Bounded.{
  IsBounded, unchanged, changed, status_step, metadata_step, log_step, EntryReach-IsBounded,
  set_status_with_url_lem,
}

-- "aé": the second character has two bytes.
abbrev accented : Text
accented = 97 ∷ 195 ∷ 169 ∷ []

-- The cut falls inside the second character, which is dropped.
truncate_str-accented : truncate_str accented 2 ≡ codes "a"
unfolding truncate_str
truncate_str-accented = refl

truncate_str_lem_example :
    (length (truncate_str accented 2) ≤ 2)
    × (truncate_str accented 2 ≡ take (length (truncate_str accented 2)) accented)
    × (is_char_boundary accented (length (truncate_str accented 2)) ≡ true)
    × ((i : ℕ)
        → length (truncate_str accented 2) < i
        → i ≤ 2
        → i ≤ length accented
        → is_char_boundary accented i ≡ false)
truncate_str_lem_example = truncate_str_lem accented 2

abbrev fresh : Workspace ℕ
unfolding new
fresh = new 10 1 (codes "/home/me")

abbrev labelled : Workspace ℕ
unfolding set_status_with_url
labelled = set_status_with_url fresh (codes "agent") (codes "busy") none none none 5

fresh-IsBounded : IsBounded fresh
unfolding fresh
fresh-IsBounded = record {
  status = omega arith;
  metadata = omega arith;
  blocks = omega arith;
  logs = omega arith;
}

EntryReach-IsBounded_example : IsBounded (
    append_log
      (set_metadata labelled (codes "pr") (codes "12") none none none (pos 3) plain 6)
      (codes "done")
      (codes "info")
      none
      7)
unfolding labelled
EntryReach-IsBounded_example =
    EntryReach-IsBounded
      (changed
        (changed
          (changed unchanged (status_step fresh (codes "agent") (codes "busy") none none none 5))
          (metadata_step labelled (codes "pr") (codes "12") none none none (pos 3) plain 6))
        (log_step (set_metadata labelled (codes "pr") (codes "12") none none none (pos 3) plain 6)
          (codes "done") (codes "info") none 7))
      fresh-IsBounded

set_status_with_url_lem_example :
    (entry : StatusEntry) × (find
        (λ e. text_eq e.key (truncate_str (codes "agent") 256))
        (set_status_with_url labelled
          (codes "agent")
          (codes "idle")
          none
          none
          none
          6).status_entries
      ≡ some entry)
    × (entry.value ≡ truncate_str (codes "idle") 4096)
    × (entry.url ≡ truncated none 2048)
    × (entry.timestamp ≡ 6)
set_status_with_url_lem_example =
    set_status_with_url_lem labelled (codes "agent") (codes "idle") none none none 6
