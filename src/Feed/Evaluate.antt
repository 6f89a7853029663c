-- ===== src/Feed/Evaluate.antt =====
-- crates/bergamot-feed/src/lib.rs: whether a filter takes an item.
use bergamot.Prelude.{
  ℕ, ◌-◌, ◌*◌, ◌/◌, ◌^◌, Bool, true, false, not, ◌&&◌, ◌||◌, List, [], ◌∷◌, ◌++◌, Option, none,
  some, if◌then◌else◌, ltb, leb, ◌==◌, all, any,
}
use bergamot.Prelude.Int.{ℤ, pos, negsuc}
use bergamot.Text.{Text, codes, same, trim}
use bergamot.Text.Split.{strip_prefix}
use bergamot.Text.Decimal.{parse_int}
use bergamot.Feed.{
  FeedItemInfo, FilterField, by_title, by_category, by_size, by_age, by_imdb, by_season, by_episode,
  by_rating, by_genre, by_tag, set_priority, set_pause, set_category, set_dupe_key, set_dupe_score,
  FilterCondition, FilterRule, FilterResult, Matching, reject_all,
}

abbrev le_int : ℤ → ℤ → Bool
le_int (pos a) (pos b) = leb a b
le_int (pos a) (negsuc b) = false
le_int (negsuc a) (pos b) = true
le_int (negsuc a) (negsuc b) = leb b a

abbrev or_default {ℓ} : {A : Type ℓ} → A → Option A → A
or_default a none = a
or_default a (some b) = b

-- `as i64` of a size of type u64.
abbrev wrapped : ℕ → ℤ
wrapped n = if ltb n (2 ^ 63) then pos n else negsuc (2 ^ 64 - n - 1)

-- `replace("\\*", ".*")`.
abbrev stars : Text → Text
stars [] = []
stars (c ∷ []) = c ∷ []
stars (c ∷ d ∷ s) =
    let rest = stars s in
    let other = stars (d ∷ s) in if c == b'\\' && d == b'*' then b'.' ∷ b'*' ∷ rest else c ∷ other

-- Days between two times, towards zero.
abbrev days_between : ℕ → ℕ → ℤ
days_between now time =
    let ahead = (time - now) / 86400 in
    if leb time now
    then pos ((now - time) / 86400)
    else if ahead == 0
    then pos 0
    else negsuc (ahead - 1)

-- The comparison that a pattern starts with, and what is behind it.
abbrev operator : Text → (ℤ → ℤ → Bool) × Text
unfolding strip_prefix
operator s = elim (strip_prefix (codes ">=") s) [
  | some rest ↦ (λ v p. le_int p v, rest)
  | none ↦ elim (strip_prefix (codes "<=") s) [
    | some rest ↦ (λ v p. le_int v p, rest)
    | none ↦ elim (strip_prefix (codes ">") s) [
      | some rest ↦ (λ v p. not (le_int v p), rest)
      | none ↦ elim (strip_prefix (codes "<") s) [
        | some rest ↦ (λ v p. not (le_int p v), rest)
        | none ↦ (λ v p. le_int v p && le_int p v, or_default s (strip_prefix (codes "=") s))
      ]
    ]
  ]
]

abbrev is_number_char : ℕ → Bool
is_number_char c = (leb b'0' c && leb c b'9') || c == b'.'

abbrev chosen : (ℕ → Bool) → Text → Text
chosen p [] = []
chosen p (c ∷ s) = if p c then c ∷ chosen p s else chosen p s

abbrev multiplier : Text → Option ℕ
multiplier s =
    if any (same s) (codes "b" ∷ [] ∷ [])
    then some 1
    else if any (same s) (codes "kb" ∷ codes "k" ∷ [])
    then some 1024
    else if any (same s) (codes "mb" ∷ codes "m" ∷ [])
    then some (1024 * 1024)
    else if any (same s) (codes "gb" ∷ codes "g" ∷ [])
    then some (1024 * 1024 * 1024)
    else none

module _ (lib : Matching) where
  unfoldable pub match_wildcard : Text → Text → Bool
  match_wildcard p value = lib.matches_regex (b'^' ∷ (stars (lib.escape p) ++ b'$' ∷ [])) value

  abbrev size_of : Text → Option ℤ
  size_of [] = none
  size_of (c ∷ s) =
      elim (multiplier (lib.to_lowercase (trim (chosen (λ d. not (is_number_char d)) (c ∷ s))))) [
        | none ↦ none
        | some factor ↦ lib.scaled (chosen is_number_char (c ∷ s)) factor
      ]

  unfoldable pub parse_size : Text → Option ℤ
  parse_size value = size_of (trim value)

  -- A number that does not parse stands for 0.
  unfoldable pub match_number_comparison : Text → ℤ → Bool
  unfolding operator parse_size
  match_number_comparison p value =
      let (test, number) = operator (trim p) in test value (or_default (pos 0) (parse_size number))

  abbrev if_there : (Text → Bool) → Option Text → Bool
  if_there p none = false
  if_there p (some s) = p s

  abbrev rating_matches : Text → Option ℤ → Bool
  unfolding match_number_comparison
  rating_matches p none = false
  rating_matches p (some r) = match_number_comparison p r

  abbrev field_matches : ℕ → FeedItemInfo → Text → FilterField → Bool
  unfolding match_wildcard match_number_comparison rating_matches
  field_matches now item p by_title = lib.matches_regex p item.title
  field_matches now item p by_category = match_wildcard p item.category
  field_matches now item p by_size = match_number_comparison p (wrapped item.size)
  field_matches now item p by_age = match_number_comparison p (days_between now item.time)
  field_matches now item p by_imdb = if_there (lib.matches_regex p) item.imdb_id
  field_matches now item p by_season = if_there (lib.matches_regex p) item.season
  field_matches now item p by_episode = if_there (lib.matches_regex p) item.episode
  field_matches now item p by_rating = rating_matches p item.rating
  field_matches now item p by_genre = any (match_wildcard p) item.genres
  field_matches now item p by_tag = any (match_wildcard p) item.tags
  field_matches now item p set_priority = true
  field_matches now item p set_pause = true
  field_matches now item p set_category = true
  field_matches now item p set_dupe_key = true
  field_matches now item p set_dupe_score = true

  unfoldable pub condition_matches : ℕ → FeedItemInfo → FilterCondition → Bool
  unfolding field_matches
  condition_matches now item c = field_matches now item c.condition c.field

  unfoldable pub rule_matches : ℕ → FeedItemInfo → FilterRule → Bool
  unfolding condition_matches
  rule_matches now item rule = all (condition_matches now item) rule.conditions

  unfoldable pub parse_bool : Text → Option Bool
  parse_bool value =
      let s = lib.to_lowercase (trim value) in
      if any (same s) (codes "yes" ∷ codes "true" ∷ codes "1" ∷ [])
      then some true
      else if any (same s) (codes "no" ∷ codes "false" ∷ codes "0" ∷ [])
      then some false
      else none

  abbrev or_kept {ℓ} : {A : Type ℓ} → Option A → Option A → Option A
  or_kept none old = old
  or_kept (some a) old = some a

  abbrev overridden : FilterResult → Text → FilterField → FilterResult
  unfolding parse_bool parse_int
  overridden r p set_category = record r { category = some p }
  overridden r p set_priority = record r { priority = or_kept (parse_int (2 ^ 31) p) r.priority }
  overridden r p set_pause = record r { pause = parse_bool p }
  overridden r p set_dupe_key = record r { dupe_key = some p }
  overridden r p set_dupe_score = record r {
    dupe_score = or_kept (parse_int (2 ^ 31) p) r.dupe_score;
  }
  overridden r p other = r

  unfoldable pub option_overrides : FilterResult → List FilterCondition → FilterResult
  unfolding overridden
  option_overrides r [] = r
  option_overrides r (c ∷ cs) = option_overrides (overridden r c.condition c.field) cs

  -- The first rule that matches decides; without one the item is rejected.
  unfoldable pub evaluate : ℕ → List FilterRule → FeedItemInfo → FilterResult
  unfolding rule_matches option_overrides
  evaluate now [] item = reject_all
  evaluate now (rule ∷ rules) item =
      let r = option_overrides reject_all rule.conditions in
      if rule_matches now item rule
      then record r { action = rule.action }
      else evaluate now rules item
