-- ===== src/Feed.antt =====
-- crates/bergamot-feed/src/lib.rs: feeds, their filters and the history of their items.
pub mod Evaluate
pub mod Coordinator
pub mod Once
mod Tests
use mathlib.Core.Option
use bergamot.Prelude.{
  ℕ, suc, ◌+◌, ◌-◌, ◌*◌, ◌/◌, ◌^◌, ◌≡◌, ◌↔◌, Bool, true, false, not, ◌&&◌, ◌||◌, List, [], ◌∷◌,
  ◌++◌, map, reverse, Option, none, some, arith, length, if◌then◌else◌, ltb, leb, ◌==◌, is_some,
  all, any,
}
use bergamot.Prelude.Int.{ℤ, pos, negsuc}
use bergamot.Prelude.Find.{find, retain}
use bergamot.Prelude.Map.{Eq, get, insert}
use bergamot.Text.{Text, codes, same, same_iff, trim, starts_with}
use bergamot.Text.Split.{split_once, strip_prefix, lines, split_whitespace}
use bergamot.Text.Decimal.{parse_int}

pub record FeedConfig : Type 0 where
  pub id : ℕ
  pub name : Text
  pub url : Text
  pub filter : Text
  pub interval_min : ℕ
  pub backlog : Bool
  pub pause_nzb : Bool
  pub category : Text
  pub priority : ℤ
  pub extensions : List Text

-- The fields of `FeedItemInfo` that the filters and the history read. The time is in seconds.
pub record FeedItemInfo : Type 0 where
  pub title : Text
  pub url : Text
  pub category : Text
  pub size : ℕ
  pub time : ℕ
  pub season : Option Text
  pub episode : Option Text
  pub imdb_id : Option Text
  pub rating : Option ℤ
  pub genres : List Text
  pub tags : List Text

pub data FeedItemStatus : Type 0 where
  unknown backlog_item item_fetched skipped : FeedItemStatus

pub data FeedStatus : Type 0 where
  idle fetching error : FeedStatus

pub record FeedInfo : Type 0 where
  pub id : ℕ
  pub name : Text
  pub url : Text
  pub last_update : Option ℕ
  pub next_update : Option ℕ
  pub status : FeedStatus
  pub item_count : ℕ
  pub failure : Option Text

pub data FilterAction : Type 0 where
  accept reject require options comment : FilterAction

pub data FilterField : Type 0 where
  by_title by_category by_size by_age by_imdb by_season by_episode by_rating by_genre by_tag :
      FilterField
  set_priority set_pause set_category set_dupe_key set_dupe_score : FilterField

pub record FilterCondition : Type 0 where
  pub field : FilterField
  pub condition : Text

pub record FilterRule : Type 0 where
  pub action : FilterAction
  pub conditions : List FilterCondition

pub record FilterResult : Type 0 where
  pub action : FilterAction
  pub category : Option Text
  pub priority : Option ℤ
  pub pause : Option Bool
  pub dupe_key : Option Text
  pub dupe_score : Option ℤ

pub record FilterParseError : Type 0 where
  pub line : ℕ
  pub message : Text

pub data Result {ℓ} (A : Type ℓ) : Type ℓ where
  ok : A → Result A
  err : FilterParseError → Result A

infixl 5 ◌>>=◌
abbrev pub ◌>>=◌ {ℓ κ} : {A : Type ℓ} {B : Type κ} → Result A → (A → Result B) → Result B
ok a >>= f = f a
err e >>= f = err e

-- The libraries: whether a regular expression is one and matches, `regex::escape`, the lower case of
-- a text, and a text as an `f64` times a factor as an `i64`.
pub record Matching : Type 0 where
  pub matches_regex : Text → Text → Bool
  pub escape : Text → Text
  pub to_lowercase : Text → Text
  pub scaled : Text → ℕ → Option ℤ

abbrev pub reject_all : FilterResult
reject_all = record {
  action = reject;
  category = none;
  priority = none;
  pause = none;
  dupe_key = none;
  dupe_score = none;
}

abbrev refuse {ℓ} : {A : Type ℓ} → ℕ → Text → Result A
refuse line_no message = err (record { line = line_no; message = message })

abbrev quoted : Text → Text → Text
quoted before s = before ++ (codes " '" ++ (s ++ codes "'"))

-- The first entry whose key is the text.
abbrev look_up {ℓ} : {A : Type ℓ} → Text → List (Text × A) → Option A
look_up s [] = none
look_up s ((t, a) ∷ entries) = if same s t then some a else look_up s entries

abbrev or_refuse {ℓ} : {A : Type ℓ} → ℕ → Text → Option A → Result A
or_refuse line_no message none = refuse line_no message
or_refuse line_no message (some a) = ok a

unfoldable pub parse_action : Text → ℕ → Result (FilterAction × Text)
unfolding split_once
parse_action line line_no = do
  parts ← or_refuse line_no (codes "missing action separator ':'") (split_once b':' line)
  action ← or_refuse line_no (quoted (codes "unknown action") (trim parts.0)) (
      look_up (trim parts.0) (
        (codes "A", accept)
        ∷ (codes "Accept", accept)
        ∷ (codes "R", reject)
        ∷ (codes "Reject", reject)
        ∷ (codes "Q", require)
        ∷ (codes "Require", require)
        ∷ (codes "O", options)
        ∷ (codes "Options", options)
        ∷ (codes "C", comment)
        ∷ (codes "Comment", comment)
        ∷ []))
  ok (action, trim parts.1)

unfoldable pub parse_field : Text → ℕ → Result FilterField
parse_field value line_no = or_refuse line_no (quoted (codes "unknown field") (trim value)) (
    look_up (trim value) (
      (codes "title", by_title)
      ∷ (codes "category", by_category)
      ∷ (codes "size", by_size)
      ∷ (codes "age", by_age)
      ∷ (codes "imdb", by_imdb)
      ∷ (codes "season", by_season)
      ∷ (codes "episode", by_episode)
      ∷ (codes "rating", by_rating)
      ∷ (codes "genre", by_genre)
      ∷ (codes "tag", by_tag)
      ∷ (codes "priority", set_priority)
      ∷ (codes "pause", set_pause)
      ∷ (codes "category:", set_category)
      ∷ (codes "dupekey", set_dupe_key)
      ∷ (codes "dupescore", set_dupe_score)
      ∷ []))

-- `&pattern[..pattern.len() - 1]`, where the pattern ends in `)`.
abbrev before_paren : Text → Option Text
before_paren [] = none
before_paren (c ∷ []) = if c == b')' then some [] else none
before_paren (c ∷ d ∷ s) = Option.map (λ t. c ∷ t) (before_paren (d ∷ s))

unfoldable pub parse_condition : ℕ → Text → Result FilterCondition
unfolding split_once parse_field
parse_condition line_no token = do
  parts ←
      or_refuse line_no (quoted (codes "missing '(' in condition") token) (split_once b'(' token)
  inside ←
      or_refuse line_no (quoted (codes "missing ')' in condition") token) (before_paren parts.1)
  field ← parse_field parts.0 line_no
  ok (record { field = field; condition = inside })

unfoldable pub parse_tokens : ℕ → List Text → Result (List FilterCondition)
unfolding parse_condition
parse_tokens line_no [] = ok []
parse_tokens line_no (token ∷ tokens) = do
  c ← parse_condition line_no token
  cs ← parse_tokens line_no tokens
  ok (c ∷ cs)

unfoldable pub parse_conditions : Text → ℕ → Result (List FilterCondition)
unfolding split_whitespace parse_tokens
parse_conditions text line_no = parse_tokens line_no (split_whitespace text)

abbrev with_conditions : FilterAction → Result (List FilterCondition) → Result (List FilterRule)
with_conditions comment cs = ok []
with_conditions accept cs = cs >>= λ cs. ok (record { action = accept; conditions = cs } ∷ [])
with_conditions reject cs = cs >>= λ cs. ok (record { action = reject; conditions = cs } ∷ [])
with_conditions require cs = cs >>= λ cs. ok (record { action = require; conditions = cs } ∷ [])
with_conditions options cs = cs >>= λ cs. ok (record { action = options; conditions = cs } ∷ [])

-- The rule of a line: none for an empty line and for a comment.
unfoldable pub parse_line : ℕ → Text → Result (List FilterRule)
unfolding parse_action parse_conditions
parse_line line_no [] = ok []
parse_line line_no (c ∷ s) = do
  a ← parse_action (c ∷ s) line_no
  with_conditions a.0 (parse_conditions a.1 line_no)

unfoldable pub parse_lines : ℕ → List Text → Result (List FilterRule)
unfolding parse_line
parse_lines line_no [] = ok []
parse_lines line_no (line ∷ rest) = do
  rule ← parse_line line_no (trim line)
  rules ← parse_lines (suc line_no) rest
  ok (rule ++ rules)

-- `FeedFilter::parse`; a `FeedFilter` is its rules.
unfoldable pub parse_filter : Text → Result (List FilterRule)
unfolding lines parse_lines
parse_filter text = parse_lines 1 (lines text)
