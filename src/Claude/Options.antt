-- ===== src/Claude/Options.antt =====
-- What `has_pointer_menu` (jmux/src/model/claude_state.rs) finds: the lines that it jumps over after a
-- list of options hide no menu.
use jmux.Base.{
  ℕ, zero, suc, ◌+◌, ◌-◌, ◌≡◌, ◌≤◌, ◌↔◌, sym, ap, arith, ◌&&◌, ◌||◌, Bool, true, false, Option,
  none, some, List, [], ◌∷◌, ◌++◌, inl, inr, Bool-cases, length, length-take, take, drop, any, leb,
}
use jmux.Base.Pieces.{take-drop-append}
use jmux.Claude.Chars.{Chars, lines}
use jmux.Claude.Menu.{parse_option, is_numbered, is_pointed, numbered, menu_from, has_pointer_menu}

-- The lines are options with the numbers from `n` on.
abbrev AreOptions : ℕ → List Chars → Type 0
AreOptions n [] = Unit {0}
AreOptions n (l ∷ ls) = (is_numbered (parse_option l) n ≡ true) × AreOptions (n + 1) ls

abbrev has_pointer : List Chars → Bool
has_pointer ls = any (λ l. is_pointed (parse_option l)) ls

-- A menu among the lines.
pub record Menu (ls : List Chars) : Type 0 where
  pub before : List Chars
  pub options : List Chars
  pub after : List Chars
  pub parts : ls ≡ before ++ (options ++ after)
  pub enough : 2 ≤ length options
  pub in_order : AreOptions 1 options
  pub pointed : has_pointer options ≡ true

numbered-AreOptions :
    (n : ℕ) (p : Bool) (ls : List Chars) → AreOptions n (take (numbered n p ls).0 ls)
unfolding numbered
numbered-AreOptions n p [] = tt
numbered-AreOptions n p (l ∷ ls) = elim (Bool-cases (is_numbered (parse_option l) n)) [
  | inl e ↦ rw e (e, numbered-AreOptions (n + 1) (p || is_pointed (parse_option l)) ls)
  | inr e ↦ rw e tt
]

numbered-pointed :
    (n : ℕ) (p : Bool) (ls : List Chars)
    → (numbered n p ls).1 ≡ (p || has_pointer (take (numbered n p ls).0 ls))
unfolding numbered
numbered-pointed n p [] = ground arith
numbered-pointed n p (l ∷ ls) = elim (Bool-cases (is_numbered (parse_option l) n)) [
  | inl e ↦ rw e (ground (arith, numbered-pointed (n + 1) (p || is_pointed (parse_option l)) ls))
  | inr e ↦ rw e (ground arith)
]

numbered-le : (n : ℕ) (p : Bool) (ls : List Chars) → (numbered n p ls).0 ≤ length ls
unfolding numbered
numbered-le n p [] = omega arith
numbered-le n p (l ∷ ls) = ground (arith, numbered-le (n + 1) (p || is_pointed (parse_option l)) ls)

is_numbered-eq :
    (o : Option (Bool × ℕ)) (m n : ℕ) → is_numbered o m ≡ true → is_numbered o n ≡ true → m ≡ n
is_numbered-eq none m n h k = cc
is_numbered-eq (some (p, i)) m n h k = ground arith

-- All the options are among the numbered lines.
le-numbered :
    (n : ℕ) (p : Bool) (options after : List Chars)
    → AreOptions n options
    → (length options ≤ (numbered n p (options ++ after)).0)
unfolding numbered
le-numbered n p [] after a = omega arith
le-numbered n p (l ∷ ls) after a =
    rw (a.0) (omega (arith, le-numbered (n + 1) (p || is_pointed (parse_option l)) ls after a.1))

pointed-numbered :
    (n : ℕ) (p : Bool) (options after : List Chars)
    → AreOptions n options
    → (p || has_pointer options) ≡ true
    → (numbered n p (options ++ after)).1 ≡ true
unfolding numbered
pointed-numbered n p [] after a h = ground (arith, numbered-pointed n p after)
pointed-numbered n p (l ∷ ls) after a h =
    rw (a.0)
      (pointed-numbered (n + 1) (p || is_pointed (parse_option l)) ls after a.1 (ground arith))

-- No numbered line from here is the first of a list: it has another number.
numbered-le-before :
    (n : ℕ) (p : Bool) (before : List Chars) (l : Chars) (ls : List Chars)
    → is_numbered (parse_option l) 1 ≡ true
    → 2 ≤ n + length before
    → (numbered n p (before ++ l ∷ ls)).0 ≤ length before
unfolding numbered
numbered-le-before n p [] l ls first h = elim (Bool-cases (is_numbered (parse_option l) n)) [
  | inl e ↦ absurd (omega (arith, is_numbered-eq (parse_option l) 1 n first e))
  | inr e ↦ rw e (omega arith)
]
numbered-le-before n p (b ∷ before) l ls first h =
    ground (arith, numbered-le-before (n + 1) (p || is_pointed (parse_option b)) before l ls)

menu_from-before :
    (skip : ℕ) (before options after : List Chars)
    → skip ≤ length before
    → 2 ≤ length options
    → AreOptions 1 options
    → has_pointer options ≡ true
    → menu_from skip (before ++ (options ++ after)) ≡ true
unfolding menu_from
menu_from-before skip [] [] after h enough a p = absurd (omega arith)
menu_from-before (suc skip) [] (l ∷ ls) after h enough a p = absurd (omega arith)
menu_from-before zero [] (l ∷ ls) after h enough a p =
    ground (arith, le-numbered 1 false (l ∷ ls) after a, pointed-numbered 1 false (l ∷ ls) after a)
menu_from-before skip (b ∷ before) [] after h enough a p = absurd (omega arith)
menu_from-before (suc skip) (b ∷ before) (l ∷ ls) after h enough a p =
    menu_from-before skip before (l ∷ ls) after (omega arith) enough a p
menu_from-before zero (b ∷ before) (l ∷ ls) after h enough a p =
    let k = (numbered 1 false ((b ∷ before) ++ l ∷ (ls ++ after))).0 in
    ground (
      arith,
      numbered-le-before 1 false (b ∷ before) l (ls ++ after) a.0,
      menu_from-before (k - 1) before (l ∷ ls) after,
    )

Menu-cons : (l : Chars) (ls : List Chars) → Menu ls → Menu (l ∷ ls)
Menu-cons l ls m = record {
  before = l ∷ m.before;
  options = m.options;
  after = m.after;
  parts = ap (λ t. l ∷ t) m.parts;
  enough = m.enough;
  in_order = m.in_order;
  pointed = m.pointed;
}

numbered-Menu :
    (ls : List Chars) → (leb 2 (numbered 1 false ls).0 && (numbered 1 false ls).1) ≡ true → Menu ls
numbered-Menu ls h = record {
  before = [];
  options = take (numbered 1 false ls).0 ls;
  after = drop (numbered 1 false ls).0 ls;
  parts = sym (take-drop-append (numbered 1 false ls).0 ls);
  enough = ground (arith, length-take (numbered 1 false ls).0 ls, numbered-le 1 false ls);
  in_order = numbered-AreOptions 1 false ls;
  pointed = ground (arith, numbered-pointed 1 false ls);
}

menu_from-Menu : (skip : ℕ) (ls : List Chars) → menu_from skip ls ≡ true → Menu ls
unfolding menu_from
menu_from-Menu skip [] h = cc
menu_from-Menu (suc skip) (l ∷ ls) h = Menu-cons l ls (menu_from-Menu skip ls h)
menu_from-Menu zero (l ∷ ls) h =
    let block = numbered 1 false (l ∷ ls) in
    elim (Bool-cases (leb 2 block.0 && block.1)) [
      | inl e ↦ numbered-Menu (l ∷ ls) e
      | inr e ↦ Menu-cons l ls (menu_from-Menu (block.0 - 1) ls (ground arith))
    ]

-- `has_pointer_menu` is true exactly if, among the lines of the text, two or more in a row are
-- options that are numbered from 1 on, one of them with a pointer.
pub has_pointer_menu-Menu : (text : Chars) → (has_pointer_menu text ≡ true) ↔ Menu (lines text)
unfolding has_pointer_menu
has_pointer_menu-Menu text = (
  menu_from-Menu 0 (lines text),
  λ m.
      rw (m.parts)
        (menu_from-before 0 m.before m.options m.after (omega arith) m.enough m.in_order m.pointed),
)
