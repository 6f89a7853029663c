-- ===== src/Feed/Coordinator.antt =====
-- crates/bergamot-feed/src/lib.rs: `FeedHistoryDb`; coordinator.rs: `FeedCoordinator`. What fetching
-- a feed gives, and the items that rss.rs reads in it, are arguments. Times are in seconds.
use bergamot.Prelude.{
  ℕ, ◌+◌, ◌*◌, ◌≡◌, ◌↔◌, Bool, true, ◌&&◌, List, [], ◌∷◌, ◌++◌, Option, none, some, arith, length,
  if◌then◌else◌, ltb, leb, ◌==◌, is_some,
}
use bergamot.Prelude.Find.{find, retain, modify_first}
use bergamot.Prelude.Map.{Eq, number_eq, get, insert}
use bergamot.Text.{Text, same, same_iff}
use bergamot.Feed.{
  FeedConfig, FeedItemInfo, FeedItemStatus, item_fetched, skipped, FeedInfo, fetching, idle, error,
  FilterAction, accept, reject, require, options, comment, FilterRule, FilterParseError, Matching,
  parse_filter,
}
use bergamot.Feed as Filter
use bergamot.Feed.Evaluate.{evaluate}

-- An item's key: the id of its feed, and its address.
abbrev pub ItemKey : Type 0
ItemKey = ℕ × Text

abbrev pub same_key : ItemKey → ItemKey → Bool
same_key (a, s) (b, t) = a == b && same s t

pub same_key_iff : (a b : ItemKey) → (same_key a b ≡ true) ↔ (a ≡ b)
same_key_iff (a, s) (b, t) = ground (arith, same_iff s t)

instance abbrev pub item_key_eq : Eq ItemKey
item_key_eq = record { beq = same_key; beq_iff = same_key_iff }

instance abbrev pub text_key_eq : Eq Text
text_key_eq = record { beq = same; beq_iff = same_iff }

pub record FeedHistoryEntry : Type 0 where
  pub status : FeedItemStatus
  pub first_seen : ℕ
  pub last_seen : ℕ

pub record FeedHistoryDb : Type 0 where
  pub entries : List (ItemKey × FeedHistoryEntry)
  pub retention_days : ℕ

abbrev pub key_of : ℕ → FeedItemInfo → ItemKey
key_of feed_id item = (feed_id, item.url)

unfoldable pub already_processed : ℕ → FeedItemInfo → FeedHistoryDb → Bool
already_processed feed_id item db = is_some (get (key_of feed_id item) db.entries)

abbrev first_seen_or : ℕ → Option FeedHistoryEntry → ℕ
first_seen_or now none = now
first_seen_or now (some e) = e.first_seen

unfoldable pub mark : ℕ → ℕ → FeedItemInfo → FeedItemStatus → FeedHistoryDb → FeedHistoryDb
mark now feed_id item status db =
    let key = key_of feed_id item in
    record db {
      entries =
          insert key
            (record {
              status = status;
              first_seen = first_seen_or now (get key db.entries);
              last_seen = now;
            })
            db.entries;
    }

unfoldable pub purge_old : ℕ → FeedHistoryDb → FeedHistoryDb
purge_old now db = record db {
  entries =
      retain
        (λ (e : ItemKey × FeedHistoryEntry). ltb now (e.1.last_seen + db.retention_days * 86400))
        db.entries;
}

unfoldable pub load_entries : List (ItemKey × FeedHistoryEntry) → FeedHistoryDb → FeedHistoryDb
load_entries [] db = db
load_entries ((key, e) ∷ es) db = load_entries es (record db { entries = insert key e db.entries })

-- What fetching and reading a feed gives.
pub data FeedData : Type 0 where
  not_fetched : Text → FeedData
  not_read : Text → FeedData
  items_read : List FeedItemInfo → FeedData

pub data FeedError : Type 0 where
  no_data bad_feed : Text → FeedError
  bad_filter : FilterParseError → FeedError
  no_feed : ℕ → FeedError

pub data Processed : Type 0 where
  ok : List FeedItemInfo → Processed
  err : FeedError → Processed

pub record FeedCoordinator : Type 0 where
  pub feeds : List FeedConfig
  pub feed_infos : List (ℕ × FeedInfo)
  pub history : FeedHistoryDb
  pub filter_cache : List (Text × List FilterRule)

abbrev fresh_info : FeedConfig → FeedInfo
fresh_info f = record {
  id = f.id;
  name = f.name;
  url = f.url;
  last_update = none;
  next_update = none;
  status = idle;
  item_count = 0;
  failure = none;
}

-- A later feed with the id of an earlier one replaces its entry.
abbrev add_infos : List FeedConfig → List (ℕ × FeedInfo) → List (ℕ × FeedInfo)
add_infos [] infos = infos
add_infos (f ∷ fs) infos = add_infos fs (insert f.id (fresh_info f) infos)

unfoldable pub new_coordinator : List FeedConfig → FeedHistoryDb → FeedCoordinator
new_coordinator feeds history = record {
  feeds = feeds;
  feed_infos = add_infos feeds [];
  history = history;
  filter_cache = [];
}

abbrev with_info : ℕ → (FeedInfo → FeedInfo) → FeedCoordinator → FeedCoordinator
with_info id f c = record c {
  feed_infos =
      modify_first (λ (e : ℕ × FeedInfo). e.0 == id) (λ (e : ℕ × FeedInfo). (e.0, f e.1))
        c.feed_infos;
}

module _ (lib : Matching) (now : ℕ) (feed_id : ℕ) where
  abbrev AcceptLoop : Type 0
  AcceptLoop = FeedHistoryDb → FeedHistoryDb × List FeedItemInfo

  abbrev add_item :
      FeedItemInfo → FeedHistoryDb × List FeedItemInfo → FeedHistoryDb × List FeedItemInfo
  add_item item (db, items) = (db, item ∷ items)

  abbrev pub handle_action :
      AcceptLoop → FeedItemInfo → FeedHistoryDb → FilterAction → FeedHistoryDb × List FeedItemInfo
  handle_action next item db accept = add_item item (next (mark now feed_id item item_fetched db))
  handle_action next item db options = add_item item (next (mark now feed_id item item_fetched db))
  handle_action next item db reject = next (mark now feed_id item skipped db)
  handle_action next item db require = next db
  handle_action next item db comment = next db

  unfoldable pub accept_items : List FilterRule → List FeedItemInfo → AcceptLoop
  unfolding already_processed mark evaluate
  accept_items rules [] db = (db, [])
  accept_items rules (item ∷ items) db =
      if already_processed feed_id item db
      then accept_items rules items db
      else handle_action (accept_items rules items) item db (evaluate lib now rules item).action

abbrev pub stored :
    Text
    → Filter.Result (List FilterRule)
    → FeedCoordinator
    → FeedCoordinator × Filter.Result (List FilterRule)
stored text (Filter.ok rules) c =
    (record c { filter_cache = insert text rules c.filter_cache }, Filter.ok rules)
stored text (Filter.err e) c = (c, Filter.err e)

unfoldable pub cached :
    Text
    → Option (List FilterRule)
    → FeedCoordinator
    → FeedCoordinator × Filter.Result (List FilterRule)
unfolding parse_filter
cached text (some rules) c = (c, Filter.ok rules)
cached text none c = stored text (parse_filter text) c

unfoldable pub get_or_parse_filter :
    Text → FeedCoordinator → FeedCoordinator × Filter.Result (List FilterRule)
unfolding cached
get_or_parse_filter text c = cached text (get text c.filter_cache) c

module _ (lib : Matching) (now : ℕ) (feed : FeedConfig) where
  unfoldable pub with_filter :
      List FeedItemInfo
      → FeedCoordinator × Filter.Result (List FilterRule)
      → FeedCoordinator × Processed
  unfolding accept_items
  with_filter items (c, Filter.err e) = (c, err (bad_filter e))
  with_filter items (c, Filter.ok rules) =
      let (db, accepted) = accept_items lib now feed.id rules items c.history in
      (
        with_info feed.id
            (λ (i : FeedInfo). record i {
              status = idle;
              last_update = some now;
              next_update = some (now + feed.interval_min * 60);
              item_count = length accepted;
              failure = none;
            })
            (record c { history = db }),
        ok accepted,
      )

  unfoldable pub with_feed_data : FeedData → FeedCoordinator → FeedCoordinator × Processed
  unfolding with_filter get_or_parse_filter
  with_feed_data (not_fetched e) c = (
    with_info feed.id (λ (i : FeedInfo). record i { status = error; failure = some e }) c,
    err (no_data e),
  )
  with_feed_data (not_read e) c = (c, err (bad_feed e))
  with_feed_data (items_read items) c = with_filter items (get_or_parse_filter feed.filter c)

  unfoldable pub process_feed : FeedData → FeedCoordinator → FeedCoordinator × Processed
  unfolding with_feed_data
  process_feed d c =
      with_feed_data d (with_info feed.id (λ (i : FeedInfo). record i { status = fetching }) c)

abbrev find_info : ℕ → List (ℕ × FeedInfo) → Option FeedInfo
find_info id [] = none
find_info id ((k, i) ∷ infos) = if k == id then some i else find_info id infos

-- `is_none_or`: there is no time, or it is reached.
abbrev is_due : ℕ → Option ℕ → Bool
is_due now none = true
is_due now (some next) = leb next now

abbrev next_update_of : Option FeedInfo → Option ℕ
next_update_of none = none
next_update_of (some i) = i.next_update

unfoldable pub due_feeds : ℕ → FeedCoordinator → List FeedConfig
due_feeds now c =
    retain (λ (f : FeedConfig). is_due now (next_update_of (find_info f.id c.feed_infos))) c.feeds

unfoldable pub find_feed : ℕ → FeedCoordinator → Option FeedConfig
find_feed feed_id c = find (λ (f : FeedConfig). f.id == feed_id) c.feeds

pub data FeedCommand : Type 0 where
  process_feed_command : ℕ → FeedCommand
  tick get_infos : FeedCommand

-- What a command gives: for each feed that was processed, its id and its result. The reply to
-- `get_infos` is the field `feed_infos`.
abbrev pub Results : Type 0
Results = List (ℕ × Processed)

module _ (lib : Matching) (fetched : FeedConfig → FeedData) (now : ℕ) where
  unfoldable pub process_feeds : List FeedConfig → FeedCoordinator → FeedCoordinator × Results
  unfolding process_feed
  process_feeds [] c = (c, [])
  process_feeds (f ∷ fs) c =
      let (c', r) = process_feed lib now f (fetched f) c in
      let (c'', rs) = process_feeds fs c' in (c'', (f.id, r) ∷ rs)

  unfoldable pub process_found : ℕ → Option FeedConfig → FeedCoordinator → FeedCoordinator × Results
  unfolding process_feeds
  process_found feed_id none c = (c, (feed_id, err (no_feed feed_id)) ∷ [])
  process_found feed_id (some f) c = process_feeds (f ∷ []) c

  -- One round of `run_actor`.
  unfoldable pub handle_feed_command : FeedCommand → FeedCoordinator → FeedCoordinator × Results
  unfolding process_found due_feeds find_feed
  handle_feed_command (process_feed_command feed_id) c =
      process_found feed_id (find_feed feed_id c) c
  handle_feed_command tick c = process_feeds (due_feeds now c) c
  handle_feed_command get_infos c = (c, [])

-- A round with the clock and with what the feeds give.
pub record Round : Type 0 where
  pub now : ℕ
  pub fetched : FeedConfig → FeedData
  pub command : FeedCommand

-- The loop of `run_actor`, over the commands that it receives.
unfoldable pub run_actor : Matching → List Round → FeedCoordinator → FeedCoordinator × Results
unfolding handle_feed_command
run_actor lib [] c = (c, [])
run_actor lib (r ∷ rs) c =
    let (c', results) = handle_feed_command lib r.fetched r.now r.command c in
    let (c'', others) = run_actor lib rs c' in (c'', results ++ others)
