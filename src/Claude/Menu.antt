-- ===== src/Claude/Menu.antt =====
-- `has_selection_menu` (jmux/src/model/claude_state.rs): numbered options with a pointer, and the
-- footer of a menu.
use jmux.Base.{
  ℕ, zero, suc, ◌+◌, ◌-◌, ◌==◌, leb, ◌&&◌, ◌||◌, Bool, true, false, not, Option, none, some, List,
  [], ◌∷◌, if◌then◌else◌, drop, take, is_nil,
}
use jmux.Base.Strs.{contains}
use jmux.Base.Text.{codes}
use jmux.Claude.Chars.{
  Chars, is_whitespace, skip_whitespace, trim_chars, lower, lines, tail, count_digits,
}
use jmux.Goal.Iterations.{digits_from, in_u32}

-- `'❯'`, or `'>'`
abbrev is_pointer : ℕ → Bool
is_pointer c = (c == 10095) || (c == 62)

abbrev skip_pointer : Chars → Bool × Chars
skip_pointer [] = (false, [])
skip_pointer (c ∷ cs) = if is_pointer c then (true, skip_whitespace cs) else (false, c ∷ cs)

-- The text behind the digits: a full stop or a parenthesis, white space, and a label.
abbrev is_label : Chars → Bool
is_label [] = false
is_label (c ∷ []) = false
is_label (c ∷ d ∷ cs) =
    ((c == 46) || (c == 41)) && (is_whitespace d && not (is_nil (trim_chars (d ∷ cs))))

abbrev with_pointer : Bool → Option ℕ → Option (Bool × ℕ)
with_pointer pointed none = none
with_pointer pointed (some n) = some (pointed, n)

abbrev parse_numbered : Bool × Chars → Option (Bool × ℕ)
parse_numbered (pointed, s) =
    let digits = count_digits s in
    if (digits == 0) || not (is_label (drop digits s))
    then none
    else with_pointer pointed (in_u32 (digits_from 0 (take digits s)))

unfoldable pub parse_option : Chars → Option (Bool × ℕ)
parse_option line = parse_numbered (skip_pointer (skip_whitespace line))

abbrev pub is_numbered : Option (Bool × ℕ) → ℕ → Bool
is_numbered none expected = false
is_numbered (some (p, n)) expected = n == expected

abbrev pub is_pointed : Option (Bool × ℕ) → Bool
is_pointed none = false
is_pointed (some (p, n)) = p

-- The inner loop: how many lines from here are numbered `expected` and onwards, and whether `pointed`
-- holds or one of them has the pointer.
unfoldable pub numbered : ℕ → Bool → List Chars → ℕ × Bool
numbered expected pointed [] = (0, pointed)
numbered expected pointed (line ∷ ls) =
    let option = parse_option line in
    let rest = numbered (expected + 1) (pointed || is_pointed option) ls in
    if is_numbered option expected then (suc rest.0, rest.1) else (0, pointed)

-- The outer loop; `skip` is the number of lines up to where it goes on.
unfoldable pub menu_from : ℕ → List Chars → Bool
menu_from skip [] = false
menu_from (suc skip) (line ∷ ls) = menu_from skip ls
menu_from zero (line ∷ ls) =
    let block = numbered 1 false (line ∷ ls) in
    let rest = menu_from (block.0 - 1) ls in if leb 2 block.0 && block.1 then true else rest

unfoldable pub has_pointer_menu : Chars → Bool
has_pointer_menu text = menu_from 0 (lines text)

abbrev is_footer : Chars → Bool
is_footer low =
    contains low (codes "enter to select")
    || (contains low (codes "enter to submit")
        || (contains low (codes "enter to confirm")
            || (contains low (codes "↑/↓ to navigate")
                || (contains low (codes "↑/↓")
                    && (contains low (codes "navigate") || contains low (codes "select"))))))

unfoldable pub has_menu_footer : Chars → Bool
unfolding tail
has_menu_footer text = is_footer (lower (tail text 8))

unfoldable pub has_selection_menu : Chars → Bool
unfolding has_pointer_menu has_menu_footer
has_selection_menu text = has_pointer_menu text || has_menu_footer text
