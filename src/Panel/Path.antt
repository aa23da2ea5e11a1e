-- ===== src/Panel/Path.antt =====
-- `Path::file_name` on a path built from a directory and a name, as the panel titles use it
-- (jmux/src/model/panel.rs).
use jmux.Base.{
  ℕ, ◌==◌, ◌≡◌, refl, Bool, true, false, some, List, [], ◌∷◌, ◌++◌, arith, if◌then◌else◌, contains,
  get_last?, retain, Bool-cases, inl, inr, ap, ◌∙◌, sym,
}
use mathlib.Core.List.{append_assoc, append-nil}
use jmux.Base.Text.{Text, codes, text_eq}
use jmux.Panel.Title.{split_path, is_component, file_name, display_title}
use jmux.Panel.Create.{new_markdown, new_file_preview, new_notes}

on_false :
    {A : Type 0} (b : Bool) (x y : A)
    → b ≡ false
    → (elim b as (λ _. A) [ true ↦ x | false ↦ y ]) ≡ y
on_false b x y h = rw h refl

on_true :
    {A : Type 0} (b : Bool) (x y : A) → b ≡ true → (elim b as (λ _. A) [ true ↦ x | false ↦ y ]) ≡ x
on_true b x y h = rw h refl

split_path-other :
    (part : Text) (c : ℕ) (cs : Text)
    → (c == 47) ≡ false
    → split_path part (c ∷ cs) ≡ split_path (part ++ c ∷ []) cs
unfolding split_path
split_path-other part c cs h = on_false (c == 47) _ _ h

split_path-slash :
    (part : Text) (c : ℕ) (cs : Text)
    → (c == 47) ≡ true
    → split_path part (c ∷ cs) ≡ part ∷ split_path [] cs
unfolding split_path
split_path-slash part c cs h = on_true (c == 47) _ _ h

split_path-nil : (part : Text) → split_path part [] ≡ part ∷ []
unfolding split_path
split_path-nil part = refl

-- A text without a slash is one part.
split_path-name :
    (part name : Text) → contains name 47 ≡ false → split_path part name ≡ (part ++ name) ∷ []
split_path-name part [] h = split_path-nil part ∙ ap (λ t. t ∷ []) (sym (append-nil part))
split_path-name part (c ∷ cs) h =
    split_path-other part c cs (ground arith)
    ∙ split_path-name (part ++ c ∷ []) cs (ground arith)
    ∙ ap (λ t. t ∷ []) (append_assoc part (c ∷ []) cs)

get_last?-retain-cons :
    (q : Text) (parts : List Text) (name : Text)
    → get_last? (retain is_component parts) ≡ some name
    → get_last? (retain is_component (q ∷ parts)) ≡ some name
get_last?-retain-cons q parts name h = keep (retain is_component parts) h
  where
    keep :
        (l : List Text)
        → get_last? l ≡ some name
        → get_last? (if is_component q then q ∷ l else l) ≡ some name
    keep [] k = cc
    keep (x ∷ l) k = ground arith

last_part :
    (part dir name : Text)
    → contains name 47 ≡ false
    → is_component name ≡ true
    → get_last? (retain is_component (split_path part (dir ++ 47 ∷ name))) ≡ some name
last_part part [] name h k = rw (split_path-slash part 47 name refl) (
    get_last?-retain-cons part (split_path [] name) name
      (rw (split_path-name [] name h) (rw k refl)))
last_part part (c ∷ dir) name h k = elim (Bool-cases (c == 47)) [
  | inl slash ↦ rw (split_path-slash part c (dir ++ 47 ∷ name) slash) (
      get_last?-retain-cons part (split_path [] (dir ++ 47 ∷ name)) name
        (last_part [] dir name h k))
  | inr other ↦
      rw (split_path-other part c (dir ++ 47 ∷ name) other)
        (last_part (part ++ c ∷ []) dir name h k)
]

file_name-last :
    (dir name : Text)
    → contains name 47 ≡ false
    → is_component name ≡ true
    → text_eq name (codes "..") ≡ false
    → file_name (dir ++ 47 ∷ name) ≡ some name
unfolding file_name
file_name-last dir name h k up = rw (last_part [] dir name h k, file_name) (rw up refl)

-- The title of a new markdown, preview or notes panel on a path that ends in a slash and a name is
-- that name, if the name has no slash and is not empty, `.` or `..`.
display_title-file_panels :
    (F : Type 0) (id : ℕ) (dir name : Text)
    → contains name 47 ≡ false
    → is_component name ≡ true
    → text_eq name (codes "..") ≡ false
    → (display_title {F = F} (new_markdown id (dir ++ 47 ∷ name)) ≡ name)
      × (display_title {F = F} (new_file_preview id (dir ++ 47 ∷ name)) ≡ name)
      × (display_title {F = F} (new_notes id (dir ++ 47 ∷ name)) ≡ name)
unfolding display_title new_markdown new_file_preview new_notes
display_title-file_panels F id dir name h k up =
    rw (file_name-last dir name h k up) (refl, refl, refl)
