-- ===== src/Queue/Ingest.antt =====
-- crates/bergamot-queue/src/coordinator.rs: `ingest_nzb` and `check_duplicate`. The text that an
-- error of the parser is shown as is an argument.
pub mod Fits
use bergamot.Prelude.{
  ℕ, zero, suc, ◌+◌, Bool, true, false, not, List, [], ◌∷◌, ◌++◌, map, reverse, drop, Option, none,
  some, length, if◌then◌else◌,
}
use bergamot.Prelude.Int.{ℤ, pos}
use mathlib.Core.Option
use bergamot.Prelude.Find.{find, sum_by}
use bergamot.Text.{Text, codes, same, starts_with}
use bergamot.Text.Decimal.{decimal}
use bergamot.Nzb.Model.{Segment, NzbError}
use bergamot.Nzb.Model as Parsed
use bergamot.Nzb.Subject.{Libraries}
use bergamot.Nzb.Info.{Readers, parse_nzb_auto}
use bergamot.Queue.Types.{
  nzb_kind, Priority, DupMode, by_score, by_all, by_force, undefined, NzbParameter, par_none,
  unpack_none, move_none, delete_none, mark_none, url_none, script_none,
}
use bergamot.Queue.Nzb.{ArticleInfo, FileInfo, NzbInfo, HistoryInfo}
use bergamot.Queue.Health.{Scaling, calculate_critical_health}
use bergamot.Queue.State.{nzb_parse, io_error, duplicate, QueueCoordinator}
use bergamot.Queue.Edit.{Answer, ok, err}
use bergamot.Queue.NewNzb.{
  AddNzbOptions, Contents, NzbSource, contents, unreadable, or_default, strip_suffix, new_nzb,
}

abbrev pub put_nzb : Bool → NzbInfo → List NzbInfo → List NzbInfo
put_nzb true n ns = n ∷ ns
put_nzb false n ns = ns ++ n ∷ []

abbrev dup_in_history : DupMode → Option HistoryInfo → Option ℕ
dup_in_history by_force h = none
dup_in_history mode none = none
dup_in_history mode (some h) = some h.id

abbrev dup_among : DupMode → Option NzbInfo → Option HistoryInfo → Option ℕ
dup_among mode (some n) h = some n.id
dup_among mode none h = dup_in_history mode h

module _ {S : Type 0} where
  unfoldable pub check_duplicate : Text → DupMode → QueueCoordinator S → Option ℕ
  check_duplicate [] mode c = none
  check_duplicate (k ∷ key) mode c =
      dup_among mode (find (λ (n : NzbInfo). same n.dup_key (k ∷ key)) c.queue.queue)
        (find (λ (h : HistoryInfo). same h.nzb_info.dup_key (k ∷ key)) c.queue.history)

  -- After the duplicate check: the download is queued under the next id, its files under the next
  -- file ids.
  unfoldable pub enqueue : Bool → NzbInfo → ℕ → QueueCoordinator S → QueueCoordinator S
  enqueue add_to_top n count c =
      let q = c.queue in
      record c {
        queue = record q {
          queue = put_nzb add_to_top n q.queue;
          next_nzb_id = q.next_nzb_id + 1;
          next_file_id = q.next_file_id + count;
        };
      }

  -- An id is used up by a duplicate too.
  abbrev pub skip_id : QueueCoordinator S → QueueCoordinator S
  skip_id c = let q = c.queue in record c { queue = record q { next_nzb_id = q.next_nzb_id + 1 } }

-- The name, the key and the mode of a source with these options.
abbrev pub name_of : NzbSource → Text
name_of source = or_default (codes "nzb") source.file_name

abbrev pub key_of : NzbSource → AddNzbOptions → Text
key_of source options = or_default (strip_suffix (codes ".nzb") (name_of source)) options.dup_key

abbrev pub mode_of : AddNzbOptions → DupMode
mode_of options = or_default by_score options.dup_mode

module _ {S : Type 0} (sc : Scaling) (now : ℕ) (source : NzbSource) (category : Option Text)
    (priority : Priority) (options : AddNzbOptions) where
  -- After the file was parsed.
  unfoldable pub ingest_parsed :
      List Parsed.NzbFile → QueueCoordinator S → QueueCoordinator S × Answer ℕ
  unfolding check_duplicate new_nzb enqueue
  ingest_parsed files c =
      let key = key_of source options in
      let mode = mode_of options in
      let n = new_nzb sc now source (name_of source) key mode category priority options c files in
      elim (check_duplicate key mode c) [
        | some existing ↦ (skip_id c, err (duplicate (name_of source) existing))
        | none ↦ (enqueue options.add_to_top n (length files) c, ok c.queue.next_nzb_id)
      ]

  module _ (lib : Libraries) (readers : Readers) (shown : NzbError → Text) where
    unfoldable pub on_parsed :
        Parsed.Parsed Parsed.NzbInfo → QueueCoordinator S → QueueCoordinator S × Answer ℕ
    unfolding ingest_parsed
    on_parsed (Parsed.ok parsed) c = ingest_parsed parsed.files c
    on_parsed (Parsed.err e) c = (c, err (nzb_parse (shown e)))

    unfoldable pub on_contents : Contents → QueueCoordinator S → QueueCoordinator S × Answer ℕ
    unfolding on_parsed parse_nzb_auto
    on_contents (unreadable message) c = (c, err (io_error message))
    on_contents (contents bytes) c = on_parsed (parse_nzb_auto lib readers bytes) c

    unfoldable pub ingest_nzb : QueueCoordinator S → QueueCoordinator S × Answer ℕ
    unfolding on_contents
    ingest_nzb = on_contents source.file
