-- ===== src/Feed/Tests.antt =====
-- crates/bergamot-feed: runs on small inputs, and the witness.
use bergamot.Prelude.{ℕ, ◌≡◌, refl, false, List, [], ◌∷◌, map, none, some}
use bergamot.Prelude.Int.{pos}
use bergamot.Text.{Text, codes, same, trim}
use bergamot.Feed.{
  FeedConfig, FeedItemInfo, Matching, FilterRule, accept, reject, by_title, by_size, ok, err,
  parse_filter,
}
use bergamot.Feed.Evaluate.{evaluate}
use bergamot.Feed.Coordinator.{
  FeedCoordinator, new_coordinator, items_read, process_feed_command, Round, run_actor,
}
use bergamot.Feed.Once.{Grows, accepted_keys, run_actor-Grows}

-- A regular expression matches itself only, and the number 700 is the only one that parses.
abbrev exact : Matching
exact = record {
  matches_regex = same;
  escape = λ s. s;
  to_lowercase = λ s. s;
  scaled = λ s factor. some (pos 700);
}

abbrev rules : List FilterRule
rules =
    record {
      action = reject;
      conditions = record { field = by_title; condition = codes "bad" } ∷ [];
    }
    ∷ record {
      action = accept;
      conditions = record { field = by_size; condition = codes ">=700" } ∷ [];
    }
    ∷ []

parsed : parse_filter (codes "R: title(bad)\n\nC: note\nA: size(>=700)") ≡ ok rules
unfolding parse_filter trim
parsed = refl

no_separator :
    parse_filter (codes "\nA title(x)")
    ≡ err (record { line = 2; message = codes "missing action separator ':'" })
unfolding parse_filter trim
no_separator = refl

abbrev item : Text → ℕ → FeedItemInfo
item title size = record {
  title = title;
  url = codes "u";
  category = [];
  size = size;
  time = 0;
  season = none;
  episode = none;
  imdb_id = none;
  rating = none;
  genres = [];
  tags = [];
}

big_enough : (evaluate exact 0 rules (item (codes "good") 800)).action ≡ accept
unfolding evaluate trim
big_enough = refl

too_small : (evaluate exact 0 rules (item (codes "good") 600)).action ≡ reject
unfolding evaluate trim
too_small = refl

abbrev feed : FeedConfig
feed = record {
  id = 3;
  name = codes "f";
  url = codes "http://f";
  filter = codes "A:";
  interval_min = 10;
  backlog = false;
  pause_nzb = false;
  category = [];
  priority = pos 0;
  extensions = [];
}

abbrev coordinator : FeedCoordinator
unfolding new_coordinator
coordinator = new_coordinator (feed ∷ []) (record { entries = []; retention_days = 30 })

-- The feed gives the same item twice, and again in the next round.
abbrev rounds : List Round
rounds =
    map
      (λ n. record {
        now = n;
        fetched = λ f. items_read (item (codes "a") 1 ∷ item (codes "a") 1 ∷ []);
        command = process_feed_command 3;
      })
      (0 ∷ 1 ∷ [])

accepted_once : accepted_keys (run_actor exact rounds coordinator).1 ≡ (3, codes "u") ∷ []
unfolding run_actor trim coordinator
accepted_once = refl

run_actor-Grows_example :
    Grows coordinator.history
      (accepted_keys (run_actor exact rounds coordinator).1)
      (run_actor exact rounds coordinator).0.history
run_actor-Grows_example = run_actor-Grows exact rounds coordinator
