-- ===== src/Goal/Permission.antt =====
-- The permission mode that an agent is launched with: `validate_permission_mode` and
-- `resolve_permission_mode` (jmux/src/goal/mod.rs).
use jmux.Base.{
  ◌≡◌, refl, ap, arith, inl, inr, ◌&&◌, Bool, true, false, not, Bool-cases, Option, List, [], ◌∷◌,
  if◌then◌else◌, is_nil, get_or_else,
}
use jmux.Base.Text.{Text, codes, text_eq, text_eq→eq}
use jmux.Base.Names.{listed}
use jmux.Graph.Space.{trim}
use jmux.Goal.{GoalRunner, GoalSettings}

unfoldable pub bypass : Text
bypass = codes "bypassPermissions"

unfoldable pub permission_modes : List Text
unfolding bypass
permission_modes =
    codes "supervised"
    ∷ codes "acceptEdits"
    ∷ codes "plan"
    ∷ codes "auto"
    ∷ codes "manual"
    ∷ codes "dontAsk"
    ∷ bypass
    ∷ []

abbrev default_goal_permission_mode : Text
default_goal_permission_mode = codes "acceptEdits"

-- `Result<String, String>` of `validate_permission_mode`.
pub data Mode : Type 0 where
  mode_unknown : Text → Mode
  mode_never_configured : Mode
  mode_good : Text → Mode

abbrev validate_trimmed_mode : Text → Bool → Mode
validate_trimmed_mode mode allow_bypass =
    if not (listed permission_modes mode)
    then mode_unknown mode
    else if text_eq mode bypass && not allow_bypass
    then mode_never_configured
    else mode_good mode

unfoldable validate_permission_mode : Text → Bool → Mode
validate_permission_mode mode allow_bypass = validate_trimmed_mode (trim mode) allow_bypass

abbrev good_or : Text → Mode → Text
good_or rest (mode_good mode) = mode
good_or rest bad = rest

-- The first source that is not blank and validates, else `rest`.
-- A source that is not blank and validates, else `rest`.
abbrev from_trimmed : Text → Bool → Text → Text
from_trimmed mode allow_bypass rest =
    if is_nil mode then rest else good_or rest (validate_trimmed_mode mode allow_bypass)

unfoldable from_source : Text → Bool → Text → Text
unfolding validate_permission_mode
from_source value allow_bypass rest =
    if is_nil (trim value) then rest else good_or rest (validate_permission_mode value allow_bypass)

unfoldable pub resolve_permission_mode : Option Text → GoalRunner → GoalSettings → Text
unfolding from_source
resolve_permission_mode requested runner settings = from_source (get_or_else requested []) true (
    from_source runner.permission_mode false
      (from_source settings.permission_mode false default_goal_permission_mode))

nil_mode : (mode : Text) → is_nil mode ≡ true → text_eq mode bypass ≡ false
unfolding bypass
nil_mode [] e = refl
nil_mode (c ∷ cs) e = cc

unlisted_mode : (mode : Text) → listed permission_modes mode ≡ false → text_eq mode bypass ≡ false
unfolding permission_modes bypass
unlisted_mode mode e = elim (Bool-cases (text_eq mode bypass)) [
  | inl same ↦
      let known : listed permission_modes mode ≡ true =
        ap (listed permission_modes) (text_eq→eq mode bypass same) in
      cc
  | inr other ↦ other
]

module _ (mode rest : Text) where
  -- A source that may not ask for the bypass does not bring it in.
  from_trimmed-ambient :
      text_eq rest bypass ≡ false → text_eq (from_trimmed mode false rest) bypass ≡ false
  from_trimmed-ambient e = ground arith

  from_trimmed-request :
      text_eq rest bypass ≡ false
      → text_eq (from_trimmed mode true rest) bypass ≡ text_eq mode bypass
  from_trimmed-request e = ground (arith, nil_mode mode, unlisted_mode mode)

  from_trimmed-listed :
      (allow : Bool)
      → listed permission_modes rest ≡ true
      → listed permission_modes (from_trimmed mode allow rest) ≡ true
  from_trimmed-listed allow e = ground arith

default-listed : listed permission_modes default_goal_permission_mode ≡ true
unfolding permission_modes
default-listed = refl

default-ambient : text_eq default_goal_permission_mode bypass ≡ false
unfolding bypass
default-ambient = refl

-- The permission mode that an agent is launched with is one of the known modes, and it is
-- `bypassPermissions` exactly if the request of this launch, trimmed, is: whatever the runner and
-- the settings say.
pub resolve_permission_mode-bypass :
    (requested : Option Text) (runner : GoalRunner) (settings : GoalSettings)
    → (listed permission_modes (resolve_permission_mode requested runner settings) ≡ true)
      × (text_eq (resolve_permission_mode requested runner settings) bypass
          ≡ text_eq (trim (get_or_else requested [])) bypass)
unfolding resolve_permission_mode from_source validate_permission_mode
resolve_permission_mode-bypass requested runner settings =
    let asked = trim (get_or_else requested []) in
    let for_runner = trim runner.permission_mode in
    let for_all = trim settings.permission_mode in
    let last = from_trimmed for_all false default_goal_permission_mode in
    let ambient = from_trimmed for_runner false last in
    (
      from_trimmed-listed asked ambient true (
          from_trimmed-listed for_runner last false
            (from_trimmed-listed for_all default_goal_permission_mode false default-listed)),
      from_trimmed-request asked ambient (
          from_trimmed-ambient for_runner last
            (from_trimmed-ambient for_all default_goal_permission_mode default-ambient)),
    )
