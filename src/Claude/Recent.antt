-- ===== src/Claude/Recent.antt =====
-- What the array of `last_response_is_question` (jmux/src/model/claude_state.rs) holds: slots that are
-- written in turn keep the last four lines.
use mathlib.Core.List.{append_assoc, append-nil}
use jmux.Base.{
  ℕ, zero, suc, ◌+◌, ◌-◌, ◌%◌, ◌≡◌, ◌<◌, refl, sym, ap, ◌∙◌, arith, Bool, not, Option, none, some,
  List, [], ◌∷◌, ◌++◌, map, inl, inr, Bool-cases, if_true, ltb, length, drop, any, retain,
  keep_last,
}
use jmux.Claude.Chars.{Chars, lines}
use jmux.Claude.Question.{
  Recent, no_lines, store_line, recent_from, cleaned, is_chrome, is_question, asks, any_asks,
  last_response_is_question,
}

-- The lines of the response.
abbrev pub response : List Chars → List Chars
response raws = retain (λ s. not (is_chrome s)) (map cleaned raws)

-- The slots from the oldest on, where the next to be written is given.
abbrev slots : Recent → ℕ → List (Option Chars)
slots r zero = r.first ∷ r.second ∷ r.third ∷ r.fourth ∷ []
slots r (suc zero) = r.second ∷ r.third ∷ r.fourth ∷ r.first ∷ []
slots r (suc (suc zero)) = r.third ∷ r.fourth ∷ r.first ∷ r.second ∷ []
slots r (suc (suc (suc i))) = r.fourth ∷ r.first ∷ r.second ∷ r.third ∷ []

any_asks-slots : (r : Recent) (i : ℕ) → any_asks r ≡ any asks (slots r i)
any_asks-slots r zero = ground arith
any_asks-slots r (suc zero) = ground arith
any_asks-slots r (suc (suc zero)) = ground arith
any_asks-slots r (suc (suc (suc i))) = ground arith

-- A line that is written is the newest, and the oldest is lost.
slots-store_line :
    (r : Recent) (i : ℕ) (s : Chars)
    → i < 4
    → slots (store_line r i s) ((i + 1) % 4) ≡ drop 1 (slots r i) ++ some s ∷ []
slots-store_line r zero s h = refl
slots-store_line r (suc zero) s h = refl
slots-store_line r (suc (suc zero)) s h = refl
slots-store_line r (suc (suc (suc zero))) s h = refl
slots-store_line r (suc (suc (suc (suc i)))) s h = absurd (omega arith)

length-slots : (r : Recent) (i : ℕ) → length (slots r i) ≡ 4
length-slots r zero = refl
length-slots r (suc zero) = refl
length-slots r (suc (suc zero)) = refl
length-slots r (suc (suc (suc i))) = refl

drop-push {ℓ} :
    {A : Type ℓ} (k : ℕ) (xs : List A) (y : A) (ys : List A)
    → 0 < length xs
    → drop (suc k) (xs ++ y ∷ ys) ≡ drop k ((drop 1 xs ++ y ∷ []) ++ ys)
drop-push k [] y ys h = absurd (omega arith)
drop-push k (x ∷ xs) y ys h = ap (drop k) (sym (append_assoc xs (y ∷ []) ys))

push_line :
    (r : Recent) (i : ℕ) (s : Chars) (idx : ℕ) (kept : List Chars) {q : Bool}
    → i < 4
    → i ≡ idx % 4
    → q ≡ any asks (drop (length kept) (slots (store_line r i s) ((idx + 1) % 4) ++ map some kept))
    → q ≡ any asks (drop (suc (length kept)) (slots r i ++ some s ∷ map some kept))
push_line r i s idx kept h e ih =
    let n = length kept in
    let next : (idx + 1) % 4 ≡ (i + 1) % 4 = omega arith in
    let stored : slots (store_line r i s) ((idx + 1) % 4) ≡ drop 1 (slots r i) ++ some s ∷ [] =
      ap (slots (store_line r i s)) next ∙ slots-store_line r i s h in
    ih
    ∙ ap (λ x. any asks (drop n (x ++ map some kept))) stored
    ∙ ap (any asks)
        (sym (drop-push n (slots r i) (some s) (map some kept) (omega (arith, length-slots r i))))

slots-recent_from :
    (r : Recent) (idx : ℕ) (raws : List Chars)
    → any_asks (recent_from r idx raws)
      ≡ any asks (drop (length (response raws)) (slots r (idx % 4) ++ map some (response raws)))
unfolding recent_from
slots-recent_from r idx [] = rw (append-nil (slots r (idx % 4))) (any_asks-slots r (idx % 4))
slots-recent_from r idx (raw ∷ raws) = elim (Bool-cases (is_chrome (cleaned raw))) [
  | inl e ↦ rw e (slots-recent_from r idx raws)
  | inr e ↦ rw e (
      push_line r (idx % 4) (cleaned raw) idx (response raws) (omega arith) refl
        (slots-recent_from (store_line r (idx % 4) (cleaned raw)) (idx + 1) raws))
]

any-asks-map : (ls : List Chars) → any asks (map some ls) ≡ any is_question ls
any-asks-map [] = refl
any-asks-map (l ∷ ls) = ground (arith, any-asks-map ls)

drop-map {ℓ κ} :
    {A : Type ℓ} {B : Type κ} (f : A → B) (k : ℕ) (xs : List A)
    → drop k (map f xs) ≡ map f (drop k xs)
drop-map f zero xs = refl
drop-map f (suc k) [] = refl
drop-map f (suc k) (x ∷ xs) = drop-map f k xs

keep_last-five :
    (a b c d e : Chars) (ls : List Chars)
    → keep_last 4 (a ∷ b ∷ c ∷ d ∷ e ∷ ls) ≡ drop (length ls) (b ∷ c ∷ d ∷ e ∷ ls)
keep_last-five a b c d e ls =
    if_true (ltb 4 (length (a ∷ b ∷ c ∷ d ∷ e ∷ ls)))
      (drop (length (a ∷ b ∷ c ∷ d ∷ e ∷ ls) - 4) (a ∷ b ∷ c ∷ d ∷ e ∷ ls)) (a ∷ b ∷ c ∷ d ∷ e ∷ ls)
      (ground arith)
    ∙ ap (λ (k : ℕ). drop k (a ∷ b ∷ c ∷ d ∷ e ∷ ls))
        (let n : length (a ∷ b ∷ c ∷ d ∷ e ∷ ls) - 4 ≡ suc (length ls) = omega arith in n)

last_four :
    (ls : List Chars)
    → any asks (drop (length ls) (none ∷ none ∷ none ∷ none ∷ map some ls))
      ≡ any is_question (keep_last 4 ls)
last_four [] = refl
last_four (a ∷ []) = refl
last_four (a ∷ b ∷ []) = refl
last_four (a ∷ b ∷ c ∷ []) = refl
last_four (a ∷ b ∷ c ∷ d ∷ []) = refl
last_four (a ∷ b ∷ c ∷ d ∷ e ∷ ls) =
    ap (any asks) (drop-map some (length ls) (b ∷ c ∷ d ∷ e ∷ ls))
    ∙ any-asks-map (drop (length ls) (b ∷ c ∷ d ∷ e ∷ ls))
    ∙ ap (any is_question) (sym (keep_last-five a b c d e ls))

-- `last_response_is_question` is true exactly if one of the last four lines of the response is a
-- question.
pub last_response_is_question-last_four :
    (text : Chars)
    → last_response_is_question text ≡ any is_question (keep_last 4 (response (lines text)))
unfolding last_response_is_question
last_response_is_question-last_four text =
    slots-recent_from no_lines 0 (lines text) ∙ last_four (response (lines text))
