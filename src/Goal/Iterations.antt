-- ===== src/Goal/Iterations.antt =====
-- The files of a goal's iterations: the name in `iteration_rel`, and `next_iteration_number`
-- (jmux/src/goal/mod.rs). The entries of their directory come
-- from outside.
use jmux.Base.{
  ℕ, zero, suc, ◌+◌, ◌-◌, ◌*◌, ◌/◌, ◌%◌, ◌==◌, ◌≡◌, ◌≤◌, ◌<◌, refl, ap, ◌∙◌, inl, inr, Bool-cases,
  arith, ltb, Bool, true, false, Option, none, some, List, [], ◌∷◌, ◌++◌, if◌then◌else◌, is_nil,
}
use jmux.Base.Strs.{is_digit, strip_prefix}
use jmux.Base.Text.{Text, codes, text_eq, text_eq→eq}

-- The number that the digits after `n` make.
abbrev pub digits_from : ℕ → Text → Option ℕ
digits_from n [] = some n
digits_from n (c ∷ cs) =
    let rest = digits_from (10 * n + (c - 48)) cs in if is_digit c then rest else none

abbrev pub in_u32 : Option ℕ → Option ℕ
in_u32 none = none
in_u32 (some n) = if ltb n 4294967296 then some n else none

abbrev without_plus : Text → Text
without_plus [] = []
without_plus (c ∷ cs) = if c == 43 then cs else c ∷ cs

-- `parse::<u32>().ok()`: digits, with a plus sign before them or none, that make a `u32`.
abbrev parse_u32 : Text → Option ℕ
parse_u32 text =
    let digits = without_plus text in if is_nil digits then none else in_u32 (digits_from 0 digits)

-- The decimal digits of a number below `10 ^ k`; a `u32` has at most ten.
abbrev print_digits : ℕ → ℕ → Text
print_digits zero n = []
print_digits (suc k) n =
    let first = print_digits k (n / 10) in
    if ltb n 10 then (48 + n) ∷ [] else first ++ (48 + n % 10) ∷ []

-- `{n}` of a `u32`
unfoldable pub print_u32 : ℕ → Text
print_u32 n = print_digits 10 n

abbrev put_before : ℕ → Option Text → Option Text
put_before c none = none
put_before c (some text) = some (c ∷ text)

abbrev strip_suffix : Text → Text → Option Text
strip_suffix suffix [] = if is_nil suffix then some [] else none
strip_suffix suffix (c ∷ cs) =
    let rest = strip_suffix suffix cs in
    if text_eq (c ∷ cs) suffix then some [] else put_before c rest

-- `format!("iteration-{n}.md")`
unfoldable pub iteration_name : ℕ → Text
iteration_name n = codes "iteration-" ++ print_u32 n ++ codes ".md"

abbrev parse_stem : Option Text → Option ℕ
parse_stem none = none
parse_stem (some stem) = parse_u32 stem

abbrev parse_rest : Option Text → Option ℕ
parse_rest none = none
parse_rest (some rest) = parse_stem (strip_suffix (codes ".md") rest)

unfoldable pub iteration_of : Text → Option ℕ
iteration_of name = parse_rest (strip_prefix (codes "iteration-") name)

abbrev max_with : ℕ → Option ℕ → ℕ
max_with m none = m
max_with m (some n) = if ltb m n then n else m

-- The loop over the entries; one that is no UTF-8 is none.
abbrev pub highest : ℕ → List (Option Text) → ℕ
highest m [] = m
highest m (none ∷ entries) = highest m entries
highest m (some name ∷ entries) = highest (max_with m (iteration_of name)) entries

-- The addition is checked: none where it overflows and the program panics.
abbrev checked_next : ℕ → Option ℕ
checked_next m = if ltb (m + 1) 4294967296 then some (m + 1) else none

-- `entries` is none where the directory cannot be read.
unfoldable pub next_iteration_number : Option (List (Option Text)) → Option ℕ
unfolding iteration_of
next_iteration_number none = checked_next 0
next_iteration_number (some entries) = checked_next (highest 0 entries)

digits_from-digit :
    (n m : ℕ) (cs : Text) (d : ℕ)
    → d ≤ 9
    → digits_from n cs ≡ some m
    → digits_from n (cs ++ (48 + d) ∷ []) ≡ some (10 * m + d)
digits_from-digit n m [] d h e = ground arith
digits_from-digit n m (c ∷ cs) d h e =
    ground (arith, digits_from-digit (10 * n + (c - 48)) m cs d h)

-- `10 ^ k`
abbrev ten_to : ℕ → ℕ
ten_to zero = 1
ten_to (suc k) = 10 * ten_to k

digits_from-print : (k n : ℕ) → n < ten_to k → digits_from 0 (print_digits k n) ≡ some n
digits_from-print zero n h = ground arith
digits_from-print (suc k) n h = elim (Bool-cases (ltb n 10)) [
  | inl e ↦ ground arith
  | inr e ↦ rw e (
      digits_from-digit 0 (n / 10) (print_digits k (n / 10)) (n % 10) (omega arith)
        (digits_from-print k (n / 10) (ground arith))
      ∙ ap some (omega arith))
]

is_nil-append : (xs : Text) (x : ℕ) → is_nil (xs ++ x ∷ []) ≡ false
is_nil-append [] x = refl
is_nil-append (y ∷ xs) x = refl

print_digits-is_nil : (k n : ℕ) → is_nil (print_digits (suc k) n) ≡ false
print_digits-is_nil k n = elim (Bool-cases (ltb n 10)) [
  | inl e ↦ rw e refl
  | inr e ↦ rw e (is_nil-append (print_digits k (n / 10)) (48 + n % 10))
]

without_plus-digits : (n m : ℕ) (cs : Text) → digits_from n cs ≡ some m → without_plus cs ≡ cs
without_plus-digits n m [] e = refl
without_plus-digits n m (c ∷ cs) e = ground arith

strip_suffix-digits :
    (n m : ℕ) (cs : Text)
    → digits_from n cs ≡ some m
    → strip_suffix (codes ".md") (cs ++ codes ".md") ≡ some cs
strip_suffix-digits n m [] e = refl
strip_suffix-digits n m (c ∷ cs) e = ground (arith, strip_suffix-digits (10 * n + (c - 48)) m cs)

parse_u32-digits :
    (n : ℕ) (text : Text)
    → is_nil text ≡ false
    → digits_from 0 text ≡ some n
    → n < 4294967296
    → parse_u32 text ≡ some n
parse_u32-digits n text filled e h = rw (without_plus-digits 0 n text e, filled, e) (ground arith)

parse_rest-digits :
    (n : ℕ) (text : Text)
    → is_nil text ≡ false
    → digits_from 0 text ≡ some n
    → n < 4294967296
    → parse_rest (some (text ++ codes ".md")) ≡ some n
parse_rest-digits n text filled e h =
    rw (strip_suffix-digits 0 n text e) (parse_u32-digits n text filled e h)

parse_rest-print :
    (n : ℕ) → n < 4294967296 → parse_rest (some (print_u32 n ++ codes ".md")) ≡ some n
unfolding print_u32
parse_rest-print n h =
    parse_rest-digits n (print_digits 10 n) (print_digits-is_nil 9 n)
      (digits_from-print 10 n (omega arith)) h

-- The name of an iteration's file is read back as the iteration.
iteration_of-name : (n : ℕ) → n < 4294967296 → iteration_of (iteration_name n) ≡ some n
unfolding iteration_of iteration_name
iteration_of-name n h = parse_rest-print n h

max_with-le : (m : ℕ) (read : Option ℕ) → m ≤ max_with m read
max_with-le m none = omega arith
max_with-le m (some n) = ground arith

le-max_with : (m n : ℕ) → n ≤ max_with m (some n)
le-max_with m n = ground arith

highest-le : (m : ℕ) (entries : List (Option Text)) → m ≤ highest m entries
highest-le m [] = omega arith
highest-le m (none ∷ entries) = highest-le m entries
highest-le m (some name ∷ entries) =
    omega (
      arith,
      highest-le (max_with m (iteration_of name)) entries,
      max_with-le m (iteration_of name),
    )

-- An entry of the directory has the name.
abbrev pub has_name : List (Option Text) → Text → Bool
has_name [] name = false
has_name (none ∷ entries) name = has_name entries name
has_name (some x ∷ entries) name =
    let rest = has_name entries name in if text_eq x name then true else rest

highest-has_name :
    (m : ℕ) (entries : List (Option Text)) (name : Text) (n : ℕ)
    → iteration_of name ≡ some n
    → has_name entries name ≡ true
    → n ≤ highest m entries
highest-has_name m [] name n e h = cc
highest-has_name m (none ∷ entries) name n e h = highest-has_name m entries name n e h
highest-has_name m (some x ∷ entries) name n e h = elim (Bool-cases (text_eq x name)) [
  | inl same ↦
      rw (ap iteration_of (text_eq→eq x name same) ∙ e)
        (omega (arith, highest-le (max_with m (some n)) entries, le-max_with m n))
  | inr other ↦ highest-has_name (max_with m (iteration_of x)) entries name n e (ground arith)
]

-- Unless a file of the directory has the highest number of a `u32`, `next_iteration_number` returns
-- one more than the highest number of a file, and no file has the name of that iteration.
pub next_iteration_number-fresh :
    (entries : List (Option Text))
    → highest 0 entries < 4294967295
    → (next_iteration_number (some entries) ≡ some (highest 0 entries + 1))
      × (has_name entries (iteration_name (highest 0 entries + 1)) ≡ false)
unfolding next_iteration_number
next_iteration_number-fresh entries h =
    let next = highest 0 entries + 1 in
    (
      ground arith,
      elim (Bool-cases (has_name entries (iteration_name next))) [
        | inl taken ↦ absurd (
            omega (
              arith,
              highest-has_name 0 entries (iteration_name next) next
                  (iteration_of-name next (omega arith)) taken,
            ))
        | inr free ↦ free
      ],
    )
