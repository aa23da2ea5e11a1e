-- ===== src/Goal/Slug.antt =====
-- `slugify_goal` (jmux/src/goal/mod.rs): the name of a run that has only its goal's text.
use jmux.Base.{
  ℕ, zero, suc, ◌==◌, ◌≡◌, ◌≤◌, refl, inl, inr, Bool-cases, arith, ltb, leb, ◌&&◌, ◌||◌, Bool, true,
  not, List, [], ◌∷◌, ◌++◌, map, if◌then◌else◌, length, take, retain, is_nil, all, length-take,
}
use jmux.Base.Strs.{to_lowercase}
use jmux.Base.Text.{Text, codes}
use jmux.Graph.Space.{Space, between, visible, read_space}
use jmux.Graph.Proposal.{is_id_byte, all_bytes, valid_node_id}

-- `split_whitespace()`: `word` has the whole characters of the current word, `start` the bytes of
-- the character that is being read.
abbrev split_from : Text → Text → Space → Text → List Text
split_from word start s [] = if is_nil (word ++ start) then [] else (word ++ start) ∷ []
split_from word start s (b ∷ bs) = elim (read_space s b) [
  | between ↦ let rest = split_from [] [] between bs in if is_nil word then rest else word ∷ rest
  | visible ↦ split_from (word ++ start ++ b ∷ []) [] between bs
  | s' ↦ split_from word (start ++ b ∷ []) s' bs
]

abbrev split_whitespace : Text → List Text
split_whitespace text = split_from [] [] between text

abbrev pub is_alphanumeric : ℕ → Bool
is_alphanumeric c = (leb 97 c && leb c 122) || ((leb 65 c && leb c 90) || (leb 48 c && leb c 57))

abbrev slug_word : Text → Text
slug_word raw = map to_lowercase (retain is_alphanumeric raw)

-- The loop over the words, up to the sixth that is not empty.
abbrev push_words : List Text → List Text → List Text
push_words words [] = words
push_words words (raw ∷ raws) =
    let word = slug_word raw in
    let next = if is_nil word then words else words ++ word ∷ [] in
    let rest = push_words next raws in
    if not (is_nil word) && (length next == 6) then next else rest

-- `words.join("-")`
abbrev join_hyphen : List Text → Text
join_hyphen [] = []
join_hyphen (w ∷ []) = w
join_hyphen (w ∷ v ∷ ws) = w ++ 45 ∷ join_hyphen (v ∷ ws)

abbrev trim_start_hyphens : Text → Text
trim_start_hyphens [] = []
trim_start_hyphens (c ∷ cs) = let rest = trim_start_hyphens cs in if c == 45 then rest else c ∷ cs

abbrev trim_end_hyphens : Text → Text
trim_end_hyphens [] = []
trim_end_hyphens (c ∷ cs) =
    let rest = trim_end_hyphens cs in if is_nil rest && (c == 45) then [] else c ∷ rest

abbrev shorten : Text → Text
shorten slug = if ltb 48 (length slug) then take 48 slug else slug

abbrev slug_or_goal : Text → Text
slug_or_goal slug = if is_nil slug then codes "goal" else slug

unfoldable pub slugify_goal : Text → Text
slugify_goal text = slug_or_goal (
    trim_end_hyphens
      (trim_start_hyphens (shorten (join_hyphen (push_words [] (split_whitespace text))))))

IsIdText : Text → Type 0
IsIdText text = all_bytes is_id_byte text ≡ true

append-IsIdText : (a b : Text) → IsIdText a → IsIdText b → IsIdText (a ++ b)
unfolding IsIdText
append-IsIdText [] b ha hb = hb
append-IsIdText (x ∷ a) b ha hb = ground (arith, append-IsIdText a b)

slug_word-IsIdText : (raw : Text) → IsIdText (slug_word raw)
unfolding IsIdText
slug_word-IsIdText [] = refl
slug_word-IsIdText (c ∷ raw) = ground (arith, slug_word-IsIdText raw)

add_word-IsIdText :
    (words : List Text) (w : Text)
    → all (all_bytes is_id_byte) words ≡ true
    → IsIdText w
    → all (all_bytes is_id_byte) (words ++ w ∷ []) ≡ true
unfolding IsIdText
add_word-IsIdText [] w h hw = ground arith
add_word-IsIdText (v ∷ words) w h hw = ground (arith, add_word-IsIdText words w)

push_words-IsIdText :
    (words raws : List Text)
    → all (all_bytes is_id_byte) words ≡ true
    → all (all_bytes is_id_byte) (push_words words raws) ≡ true
push_words-IsIdText words [] h = h
push_words-IsIdText words (raw ∷ raws) h =
    let w = slug_word raw in
    let next = if is_nil w then words else words ++ w ∷ [] in
    let good : all (all_bytes is_id_byte) next ≡ true = elim (Bool-cases (is_nil w)) [
      | inl e ↦ rw e h
      | inr e ↦ rw e (add_word-IsIdText words w h (slug_word-IsIdText raw))
    ] in
    elim (Bool-cases (not (is_nil w) && (length next == 6))) [
      | inl e ↦ rw e good
      | inr e ↦ rw e (push_words-IsIdText next raws good)
    ]

join_hyphen-IsIdText :
    (words : List Text) → all (all_bytes is_id_byte) words ≡ true → IsIdText (join_hyphen words)
unfolding IsIdText
join_hyphen-IsIdText [] h = refl
join_hyphen-IsIdText (w ∷ []) h = ground arith
join_hyphen-IsIdText (w ∷ v ∷ words) h =
    append-IsIdText w (45 ∷ join_hyphen (v ∷ words)) (ground arith)
      (ground (arith, join_hyphen-IsIdText (v ∷ words)))

take-IsIdText : (n : ℕ) (text : Text) → IsIdText text → IsIdText (take n text)
unfolding IsIdText
take-IsIdText zero text h = refl
take-IsIdText (suc n) [] h = refl
take-IsIdText (suc n) (c ∷ text) h = ground (arith, take-IsIdText n text)

trim_start_hyphens-IsIdText : (text : Text) → IsIdText text → IsIdText (trim_start_hyphens text)
unfolding IsIdText
trim_start_hyphens-IsIdText [] h = refl
trim_start_hyphens-IsIdText (c ∷ cs) h = ground (arith, trim_start_hyphens-IsIdText cs)

trim_end_hyphens-IsIdText : (text : Text) → IsIdText text → IsIdText (trim_end_hyphens text)
unfolding IsIdText
trim_end_hyphens-IsIdText [] h = refl
trim_end_hyphens-IsIdText (c ∷ cs) h = ground (arith, trim_end_hyphens-IsIdText cs)

length-trim_start_hyphens : (text : Text) → length (trim_start_hyphens text) ≤ length text
length-trim_start_hyphens [] = omega arith
length-trim_start_hyphens (c ∷ cs) = ground (arith, length-trim_start_hyphens cs)

length-trim_end_hyphens : (text : Text) → length (trim_end_hyphens text) ≤ length text
length-trim_end_hyphens [] = omega arith
length-trim_end_hyphens (c ∷ cs) = ground (arith, length-trim_end_hyphens cs)

shorten-IsIdText : (text : Text) → IsIdText text → IsIdText (shorten text)
shorten-IsIdText text h = elim (Bool-cases (ltb 48 (length text))) [
  | inl e ↦ rw e (take-IsIdText 48 text h)
  | inr e ↦ rw e h
]

length-shorten : (text : Text) → length (shorten text) ≤ 48
length-shorten text = ground (arith, length-take 48 text)

slug_or_goal-valid :
    (slug : Text)
    → IsIdText slug
    → length slug ≤ 48
    → (valid_node_id (slug_or_goal slug) ≡ true) × (length (slug_or_goal slug) ≤ 48)
unfolding IsIdText valid_node_id
slug_or_goal-valid [] h short = (refl, omega arith)
slug_or_goal-valid (c ∷ slug) h short = (ground arith, short)

-- Whatever the text of a goal is, the name that it gets is a valid identifier of a node, of at most
-- 48 characters.
pub slugify_goal-valid :
    (text : Text) → (valid_node_id (slugify_goal text) ≡ true) × (length (slugify_goal text) ≤ 48)
unfolding slugify_goal
slugify_goal-valid text =
    let words = push_words [] (split_whitespace text) in
    let slug = shorten (join_hyphen words) in
    let start = trim_start_hyphens slug in
    let good : IsIdText slug =
      shorten-IsIdText (join_hyphen words)
        (join_hyphen-IsIdText words (push_words-IsIdText [] (split_whitespace text) refl)) in
    slug_or_goal-valid (trim_end_hyphens start)
      (trim_end_hyphens-IsIdText start (trim_start_hyphens-IsIdText slug good))
      (omega (
        arith,
        length-trim_end_hyphens start,
        length-trim_start_hyphens slug,
        length-shorten (join_hyphen words),
      ))
