-- ===== src/Queue/Slots.antt =====
-- crates/bergamot-queue/src/coordinator.rs: `next_assignment` and `try_fill_download_slots`. What
-- the channel answers to the sends of one call is an argument, `answers`, by the number of the send.
pub mod Progress
pub mod Filled
use bergamot.Prelude.{
  ℕ, zero, suc, ◌+◌, Bool, true, false, ◌||◌, List, [], ◌∷◌, ◌++◌, Option, none, some,
  if◌then◌else◌, leb, ◌==◌, get_elem?, length,
}
use bergamot.Prelude.Map.{insert}
use bergamot.Prelude.Find.{sum_by}
use bergamot.Text.{Text}
use bergamot.Queue.Nzb.{ArticleInfo, FileInfo, NzbInfo}
use bergamot.Queue.State.{
  ArticleId, article_id_eq, ActiveDownload, downloading, SchedulerOps, QueueCoordinator, find_nzb,
  increment_active_per_file,
}
use bergamot.Queue.Select.{next_article, mark_segment_status, waiting}

pub record ArticleAssignment : Type 0 where
  pub article_id : ArticleId
  pub message_id : Text
  pub groups : List Text
  pub output_filename : Text
  pub expected_size : ℕ
  pub server_id : Option ℕ

pub data Sent : Type 0 where
  accepted full closed : Sent

abbrev pub of_segment : ArticleId → FileInfo → Option ArticleInfo → Option ArticleAssignment
of_segment id f none = none
of_segment id f (some a) = some (record {
  article_id = id;
  message_id = a.message_id;
  groups = f.groups;
  output_filename = f.output_filename;
  expected_size = a.size;
  server_id = none;
})

abbrev pub of_file : ArticleId → Option FileInfo → Option ArticleAssignment
of_file id none = none
of_file id (some f) = of_segment id f (get_elem? f.articles id.seg_idx)

abbrev pub of_nzb : ArticleId → Option NzbInfo → Option ArticleAssignment
of_nzb id none = none
of_nzb id (some n) = of_file id (get_elem? n.files id.file_idx)

abbrev pub of_article :
    {S : Type 0} → QueueCoordinator S → Option ArticleId → Option ArticleAssignment
of_article c none = none
of_article c (some id) = of_nzb id (find_nzb id.nzb_id c)

-- The id is the assignment's `article_id`.
unfoldable pub next_assignment : {S : Type 0} → QueueCoordinator S → Option ArticleAssignment
unfolding next_article
next_assignment c = of_article c (next_article c)

-- An assignment before those of the later rounds.
abbrev pub add_sent :
    {S : Type 0}
    → ArticleAssignment
    → Option (QueueCoordinator S × List ArticleAssignment)
    → Option (QueueCoordinator S × List ArticleAssignment)
add_sent a none = none
add_sent a (some (c, sent)) = some (c, a ∷ sent)

-- How many articles have not been tried: of a file, of a download, of the queue.
abbrev pub one_waiting : ArticleInfo → ℕ
one_waiting a = if waiting a then 1 else 0

abbrev pub untried_of : FileInfo → ℕ
untried_of f = sum_by one_waiting f.articles

abbrev pub untried_in : NzbInfo → ℕ
untried_in n = sum_by untried_of n.files

abbrev pub untried : List NzbInfo → ℕ
untried = sum_by untried_in

module _ {S : Type 0} where
  -- After a send that was accepted.
  unfoldable pub dispatched : ℕ → ArticleAssignment → QueueCoordinator S → QueueCoordinator S
  unfolding mark_segment_status increment_active_per_file
  dispatched clock a c =
      let id = a.article_id in
      let c' =
        increment_active_per_file (id.nzb_id, id.file_idx) (mark_segment_status id downloading c) in
      record c' {
        active_downloads =
            insert id
              (record { started = clock; server_id = a.server_id; expected_size = a.expected_size })
              c.active_downloads;
      }

  abbrev pub with_scheduler : QueueCoordinator S → Option S → QueueCoordinator S
  with_scheduler c s = record c { server_scheduler = s }

module _ {S : Type 0} (ops : SchedulerOps S) where
  abbrev pub max_slots : QueueCoordinator S → ℕ
  max_slots c = elim c.server_scheduler [
    | none ↦ c.max_connections
    | some s ↦ ops.total_max_connections s
  ]

  abbrev pub no_capacity : Option S → Bool
  no_capacity none = false
  no_capacity (some s) = ops.total_available_capacity s == 0

  -- The scheduler picks a server and counts the article in.
  abbrev pub assign_by : S → ArticleAssignment → Option ℕ → Option S × ArticleAssignment
  assign_by s a none = (some s, a)
  assign_by s a (some sid) =
      (some (ops.assign_to_server s sid a.expected_size), record a { server_id = some sid })

  unfoldable pub assign : Option S → ArticleAssignment → Option S × ArticleAssignment
  assign none a = (none, a)
  assign (some s) a = assign_by s a (ops.select_server s a.expected_size)

  abbrev pub roll_back_by : S → ArticleAssignment → Option ℕ → S
  roll_back_by s a none = s
  roll_back_by s a (some sid) = ops.complete_on_server s sid a.expected_size 0 false

  unfoldable pub roll_back : Option S → ArticleAssignment → Option S
  roll_back none a = none
  roll_back (some s) a = some (roll_back_by s a a.server_id)

  -- The match on what the channel answers to a send; a send that is accepted goes on with `rest`.
  unfoldable pub after_send :
      QueueCoordinator S
      → Option S
      → ArticleAssignment
      → Option (QueueCoordinator S × List ArticleAssignment)
      → Sent
      → Option (QueueCoordinator S × List ArticleAssignment)
  unfolding roll_back
  after_send c s a rest accepted = add_sent a rest
  after_send c s a rest full = some (with_scheduler c (roll_back s a), [])
  after_send c s a rest closed = some (with_scheduler c s, [])

  -- The `while` loop; the second part lists the assignments that were sent. `none` when the fuel is
  -- used up.
  unfoldable pub fill_loop :
      ℕ
      → (ℕ → Sent)
      → ℕ
      → ℕ
      → ℕ
      → QueueCoordinator S
      → Option (QueueCoordinator S × List ArticleAssignment)
  unfolding next_assignment assign after_send dispatched
  fill_loop zero answers n clock slots c = none
  fill_loop (suc fuel) answers n clock slots c =
      if leb slots (length c.active_downloads) || no_capacity c.server_scheduler
      then some (c, [])
      else elim (next_assignment c) [
        | none ↦ some (c, [])
        | some a ↦
            let (s, a') = assign c.server_scheduler a in
            let rest =
              fill_loop fuel answers (suc n) clock slots
                (dispatched clock a' (with_scheduler c s)) in
            after_send c s a' rest (answers n)
      ]

  -- The fuel is one more than the articles that can be dispatched.
  unfoldable pub try_fill_download_slots :
      (ℕ → Sent) → ℕ → QueueCoordinator S → Option (QueueCoordinator S × List ArticleAssignment)
  unfolding fill_loop
  try_fill_download_slots answers clock c =
      if c.paused || c.shutdown
      then some (c, [])
      else fill_loop (suc (untried c.queue.queue)) answers 0 clock (max_slots c) c
