-- ===== src/Feed/Once.antt =====
-- FeedCoordinator: an item is accepted once.
use bergamot.Prelude.{
  ℕ, ◌≡◌, refl, sym, ◌∙◌, ap, subst, Bool, true, false, List, [], ◌∷◌, ◌++◌, append_assoc, map,
  Option, none, some, arith, if◌then◌else◌, is_some, Bool-cases, inl, inr, All, All-append,
  All-weaken,
}
use bergamot.Prelude.Map.{get, get-insert}
use bergamot.Feed.{
  FeedConfig, FeedItemInfo, FeedItemStatus, item_fetched, skipped, FilterAction, accept, reject,
  require, options, comment, FilterRule, Matching,
}
use bergamot.Text.{Text}
use bergamot.Feed as Filter
use bergamot.Feed.Evaluate.{evaluate}
use bergamot.Feed.Coordinator.{
  ItemKey, same_key, same_key_iff, item_key_eq, text_key_eq, FeedHistoryDb, key_of,
  already_processed, mark, FeedData, not_fetched, not_read, items_read, Processed, ok, err,
  FeedCoordinator, handle_action, accept_items, stored, cached, get_or_parse_filter, with_filter,
  with_feed_data, process_feed, Results, process_feeds, process_found, FeedCommand,
  process_feed_command, tick, get_infos, handle_feed_command, Round, run_actor,
}

abbrev known : ItemKey → FeedHistoryDb → Bool
known k db = is_some (get k db.entries)

abbrev pub Unique : List ItemKey → Type 0
Unique [] = Unit
Unique (k ∷ ks) = All (λ j. same_key k j ≡ false) ks × Unique ks

-- A history took keys in: they were new to it and are all different, and nothing is forgotten.
pub record Grows (db : FeedHistoryDb) (keys : List ItemKey) (db' : FeedHistoryDb) : Type 0 where
  pub new : All (λ k. known k db ≡ false) keys
  pub unique : Unique keys
  pub kept : (k : ItemKey) → known k db ≡ true → known k db' ≡ true
  pub taken : All (λ k. known k db' ≡ true) keys

Grows-refl : (db : FeedHistoryDb) → Grows db [] db
Grows-refl db = record { new = tt; unique = tt; kept = λ k h. h; taken = tt }

-- A known key and one that is not known are different.
apart :
    (db : FeedHistoryDb) (j k : ItemKey)
    → known j db ≡ true
    → known k db ≡ false
    → same_key j k ≡ false
apart db j k h g = elim (Bool-cases (same_key j k)) [
  | inl e ↦ let q = ap (λ i. known i db) ((same_key_iff j k).0 e) in absurd (cc)
  | inr e ↦ e
]

Unique-append :
    (db : FeedHistoryDb) (js ks : List ItemKey)
    → Unique js
    → Unique ks
    → All (λ j. known j db ≡ true) js
    → All (λ k. known k db ≡ false) ks
    → Unique (js ++ ks)
Unique-append db [] ks uj uk hj hk = uk
Unique-append db (j ∷ js) ks uj uk hj hk = (
  All-append _ js ks uj.0 (All-weaken _ _ ks (λ k g. apart db j k hj.0 g) hk),
  Unique-append db js ks uj.1 uk hj.1 hk,
)

unknown_before :
    (db db' : FeedHistoryDb) (k : ItemKey)
    → (known k db ≡ true → known k db' ≡ true)
    → known k db' ≡ false
    → known k db ≡ false
unknown_before db db' k kept h = elim (Bool-cases (known k db)) [
  | inl e ↦ let q = kept e in absurd (cc)
  | inr e ↦ e
]

Grows-trans :
    (a b c : FeedHistoryDb) (js ks : List ItemKey)
    → Grows a js b
    → Grows b ks c
    → Grows a (js ++ ks) c
Grows-trans a b c js ks g h = record {
  new =
      All-append _ js ks g.new (All-weaken _ _ ks (λ k n. unknown_before a b k (g.kept k) n) h.new);
  unique = Unique-append b js ks g.unique h.unique g.taken h.new;
  kept = λ k e. h.kept k (g.kept k e);
  taken = All-append _ js ks (All-weaken _ _ js (λ j e. h.kept j e) g.taken) h.taken;
}

module _ (now feed_id : ℕ) (item : FeedItemInfo) (status : FeedItemStatus)
    (db : FeedHistoryDb) where
  known-mark :
      (k : ItemKey)
      → known k (mark now feed_id item status db)
        ≡ (if same_key (key_of feed_id item) k then true else known k db)
  unfolding mark
  known-mark k = elim (Bool-cases (same_key (key_of feed_id item) k)) [
    | inl e ↦ rw (get-insert (key_of feed_id item) k _ db.entries, e) refl
    | inr e ↦ rw (get-insert (key_of feed_id item) k _ db.entries, e) refl
  ]

  mark-kept : (k : ItemKey) → known k db ≡ true → known k (mark now feed_id item status db) ≡ true
  mark-kept k h = ground (arith, known-mark k)

  mark-Grows : Grows db [] (mark now feed_id item status db)
  mark-Grows = record { new = tt; unique = tt; kept = mark-kept; taken = tt }

  mark-Grows_one :
      known (key_of feed_id item) db ≡ false
      → Grows db (key_of feed_id item ∷ []) (mark now feed_id item status db)
  mark-Grows_one h =
      let key = key_of feed_id item in
      let self = (same_key_iff key key).1 refl in
      record {
        new = (h, tt);
        unique = (tt, tt);
        kept = mark-kept;
        taken = (known-mark key ∙ rw self refl, tt);
      }

module _ (lib : Matching) (now feed_id : ℕ) where
  -- What a loop over further items does with a history.
  abbrev GrowsBy : FeedHistoryDb → FeedHistoryDb × List FeedItemInfo → Type 0
  GrowsBy db r = Grows db (map (key_of feed_id) r.1) r.0

  accepted_one :
      (item : FeedItemInfo) (db : FeedHistoryDb) (r : FeedHistoryDb × List FeedItemInfo)
      → known (key_of feed_id item) db ≡ false
      → GrowsBy (mark now feed_id item item_fetched db) r
      → GrowsBy db (r.0, item ∷ r.1)
  accepted_one item db r h g =
      Grows-trans db (mark now feed_id item item_fetched db) r.0 (key_of feed_id item ∷ [])
        (map (key_of feed_id) r.1) (mark-Grows_one now feed_id item item_fetched db h) g

  handle_action-Grows :
      (next : FeedHistoryDb → FeedHistoryDb × List FeedItemInfo) (item : FeedItemInfo)
      (db : FeedHistoryDb)
      → ((db : FeedHistoryDb) → GrowsBy db (next db))
      → known (key_of feed_id item) db ≡ false
      → (a : FilterAction) → GrowsBy db (handle_action lib now feed_id next item db a)
  handle_action-Grows next item db on h accept = accepted_one item db (next _) h (on _)
  handle_action-Grows next item db on h options = accepted_one item db (next _) h (on _)
  handle_action-Grows next item db on h reject =
      let marked = mark now feed_id item skipped db in
      Grows-trans db marked (next marked).0 [] (map (key_of feed_id) (next marked).1)
        (mark-Grows now feed_id item skipped db) (on marked)
  handle_action-Grows next item db on h require = on db
  handle_action-Grows next item db on h comment = on db

  accept_items-Grows :
      (rules : List FilterRule) (items : List FeedItemInfo) (db : FeedHistoryDb)
      → GrowsBy db (accept_items lib now feed_id rules items db)
  unfolding accept_items
  accept_items-Grows rules [] db = Grows-refl db
  accept_items-Grows rules (item ∷ items) db =
      elim (Bool-cases (already_processed feed_id item db)) [
        | inl e ↦ rw e (accept_items-Grows rules items db)
        | inr e ↦ rw e (
            handle_action-Grows (accept_items lib now feed_id rules items) item db
              (λ db. accept_items-Grows rules items db) e (evaluate lib now rules item).action)
      ]

abbrev keys_accepted : ℕ → Processed → List ItemKey
keys_accepted id (ok items) = map (key_of id) items
keys_accepted id (err e) = []

-- The keys of the items that were accepted, in order.
abbrev pub accepted_keys : Results → List ItemKey
accepted_keys [] = []
accepted_keys ((id, r) ∷ rs) = keys_accepted id r ++ accepted_keys rs

accepted_keys-append :
    (rs ss : Results) → accepted_keys (rs ++ ss) ≡ accepted_keys rs ++ accepted_keys ss
accepted_keys-append [] ss = refl
accepted_keys-append ((id, r) ∷ rs) ss =
    rw (accepted_keys-append rs ss)
      (sym (append_assoc (keys_accepted id r) (accepted_keys rs) (accepted_keys ss)))

abbrev CoordinatorGrows : FeedCoordinator → List ItemKey → FeedCoordinator → Type 0
CoordinatorGrows c keys c' = Grows c.history keys c'.history

stored-history :
    (text : Text) (r : Filter.Result (List FilterRule)) (c : FeedCoordinator)
    → (stored text r c).0.history ≡ c.history
stored-history text (Filter.ok rules) c = refl
stored-history text (Filter.err e) c = refl

cached-history :
    (text : Text) (o : Option (List FilterRule)) (c : FeedCoordinator)
    → (cached text o c).0.history ≡ c.history
unfolding cached
cached-history text (some rules) c = refl
cached-history text none c = stored-history text _ c

module _ (lib : Matching) (now : ℕ) (feed : FeedConfig) where
  abbrev ProcessedGrows : FeedCoordinator → FeedCoordinator × Processed → Type 0
  ProcessedGrows c r = CoordinatorGrows c (keys_accepted feed.id r.1) r.0

  with_filter-Grows :
      (items : List FeedItemInfo) (r : FeedCoordinator × Filter.Result (List FilterRule))
      → ProcessedGrows r.0 (with_filter lib now feed items r)
  unfolding with_filter
  with_filter-Grows items (c, Filter.err e) = Grows-refl c.history
  with_filter-Grows items (c, Filter.ok rules) =
      accept_items-Grows lib now feed.id rules items c.history

  with_feed_data-Grows :
      (d : FeedData) (c : FeedCoordinator) → ProcessedGrows c (with_feed_data lib now feed d c)
  unfolding with_feed_data get_or_parse_filter
  with_feed_data-Grows (not_fetched e) c = Grows-refl c.history
  with_feed_data-Grows (not_read e) c = Grows-refl c.history
  with_feed_data-Grows (items_read items) c =
      let (c', r) = get_or_parse_filter feed.filter c in
      let same_history = cached-history feed.filter (get feed.filter c.filter_cache) c in
      subst
        (λ db.
          Grows db (keys_accepted feed.id (with_filter lib now feed items (c', r)).1)
            (with_filter lib now feed items (c', r)).0.history)
        same_history (with_filter-Grows items (c', r))

  process_feed-Grows :
      (d : FeedData) (c : FeedCoordinator) → ProcessedGrows c (process_feed lib now feed d c)
  unfolding process_feed
  process_feed-Grows d c = with_feed_data-Grows d _

module _ (lib : Matching) where
  abbrev ResultsGrow : FeedCoordinator → FeedCoordinator × Results → Type 0
  ResultsGrow c r = CoordinatorGrows c (accepted_keys r.1) r.0

  process_feeds-Grows :
      (fetched : FeedConfig → FeedData) (now : ℕ) (fs : List FeedConfig) (c : FeedCoordinator)
      → ResultsGrow c (process_feeds lib fetched now fs c)
  unfolding process_feeds
  process_feeds-Grows fetched now [] c = Grows-refl c.history
  process_feeds-Grows fetched now (f ∷ fs) c =
      let (c', r) = process_feed lib now f (fetched f) c in
      let (c'', rs) = process_feeds lib fetched now fs c' in
      Grows-trans c.history c'.history c''.history (keys_accepted f.id r) (accepted_keys rs)
        (process_feed-Grows lib now f (fetched f) c) (process_feeds-Grows fetched now fs c')

  process_found-Grows :
      (fetched : FeedConfig → FeedData) (now feed_id : ℕ) (o : Option FeedConfig)
      (c : FeedCoordinator)
      → ResultsGrow c (process_found lib fetched now feed_id o c)
  unfolding process_found
  process_found-Grows fetched now feed_id none c = Grows-refl c.history
  process_found-Grows fetched now feed_id (some f) c = process_feeds-Grows fetched now (f ∷ []) c

  handle_feed_command-Grows :
      (fetched : FeedConfig → FeedData) (now : ℕ) (cmd : FeedCommand) (c : FeedCoordinator)
      → ResultsGrow c (handle_feed_command lib fetched now cmd c)
  unfolding handle_feed_command
  handle_feed_command-Grows fetched now (process_feed_command feed_id) c =
      process_found-Grows fetched now feed_id _ c
  handle_feed_command-Grows fetched now tick c = process_feeds-Grows fetched now _ c
  handle_feed_command-Grows fetched now get_infos c = Grows-refl c.history

-- Whatever commands the coordinator receives, whatever the feeds give and whatever the filters say:
-- no item, told by its feed and its address, is accepted twice, none is accepted that the history
-- held before, and the history holds those that were accepted and all that it held.
pub run_actor-Grows :
    (lib : Matching) (rounds : List Round) (c : FeedCoordinator)
    → Grows c.history (accepted_keys (run_actor lib rounds c).1) (run_actor lib rounds c).0.history
unfolding run_actor
run_actor-Grows lib [] c = Grows-refl c.history
run_actor-Grows lib (r ∷ rs) c =
    let (c', results) = handle_feed_command lib r.fetched r.now r.command c in
    let (c'', others) = run_actor lib rs c' in
    subst (λ keys. Grows c.history keys c''.history) (sym (accepted_keys-append results others))
      (Grows-trans c.history c'.history c''.history (accepted_keys results) (accepted_keys others)
        (handle_feed_command-Grows lib r.fetched r.now r.command c) (run_actor-Grows lib rs c'))
