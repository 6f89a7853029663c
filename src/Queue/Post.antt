-- ===== src/Queue/Post.antt =====
-- crates/bergamot-queue/src/coordinator.rs: what post-processing reports back, and the restored
-- state; command.rs's `PostProcessTimings`.
use bergamot.Prelude.{ℕ, [], Option, none, some, is_some, if◌then◌else◌, get_elem?, Bool}
use mathlib.Core.Option
use bergamot.Prelude.Find.{position, remove_at, modify_first, sum_by}
use bergamot.Text.{Text, codes}
use bergamot.Queue.Types.{
  ParStatus, UnpackStatus, MoveStatus, PostStage, queued, par_loading, par_renaming, par_verifying,
  par_repairing, unpacking, moving, executing, stage_finished, PostInfo, nzb_entry,
}
use bergamot.Queue.Nzb.{NzbInfo, HistoryInfo, DownloadQueue}
use bergamot.Queue.State.{
  QueueCoordinator, has_id, entry_has_id, with_nzbs, with_history, modify_nzb, find_nzb,
}
use bergamot.Queue.Complete.{add_to_history}

pub record PostProcessTimings : Type 0 where
  pub post_total_sec : ℕ
  pub par_sec : ℕ
  pub repair_sec : ℕ
  pub unpack_sec : ℕ

abbrev or_keep : {A : Type 0} → A → Option A → A
or_keep a none = a
or_keep a (some b) = b

-- The body of `update_post_status`.
abbrev pub with_status :
    Option ParStatus → Option UnpackStatus → Option MoveStatus → NzbInfo → NzbInfo
with_status par unpack move n = record n {
  par_status = or_keep n.par_status par;
  unpack_status = or_keep n.unpack_status unpack;
  move_status = or_keep n.move_status move;
}

abbrev pub stage_label : PostStage → Text
stage_label queued = codes "Queued"
stage_label par_loading = codes "Loading par2 files"
stage_label par_renaming = codes "Renaming"
stage_label par_verifying = codes "Verifying"
stage_label par_repairing = codes "Repairing"
stage_label unpacking = codes "Unpacking"
stage_label moving = codes "Moving"
stage_label executing = codes "Executing script"
stage_label stage_finished = codes "Finished"

abbrev new_post : ℕ → ℕ → PostStage → PostInfo
new_post now id stage = record {
  nzb_id = id;
  stage = stage;
  progress_label = [];
  file_progress = 0;
  stage_progress = 0;
  start_time = now;
  stage_time = now;
  working = Bool.true;
  messages = [];
}

abbrev pub at_stage : ℕ → PostStage → PostInfo → PostInfo
at_stage now stage p = record p {
  stage = stage;
  stage_time = now;
  stage_progress = 0;
  progress_label = stage_label stage;
}

-- The body of `update_post_stage`: `get_or_insert_with`, then the fields.
abbrev pub with_stage : ℕ → ℕ → PostStage → NzbInfo → NzbInfo
with_stage now id stage n = record n {
  post_info = some (at_stage now stage (or_keep (new_post now id stage) n.post_info));
}

abbrev pub with_progress : ℕ → NzbInfo → NzbInfo
with_progress progress n = record n {
  post_info = Option.map (λ (p : PostInfo). record p { stage_progress = progress }) n.post_info;
}

-- The download as it is filed.
abbrev pub post_processed :
    ParStatus → UnpackStatus → MoveStatus → Option Text → PostProcessTimings → NzbInfo → NzbInfo
post_processed par unpack move final_dir t n = record n {
  par_status = par;
  unpack_status = unpack;
  move_status = move;
  final_dir = or_keep n.final_dir final_dir;
  post_total_sec = t.post_total_sec;
  par_sec = t.par_sec;
  repair_sec = t.repair_sec;
  unpack_sec = t.unpack_sec;
  post_info = none;
}

abbrev pub in_entry : (NzbInfo → NzbInfo) → HistoryInfo → HistoryInfo
in_entry f h = record h { nzb_info = f h.nzb_info }

module _ {S : Type 0} where
  -- The queue comes first, then the history.
  unfoldable pub update_post_status :
      ℕ
      → Option ParStatus
      → Option UnpackStatus
      → Option MoveStatus
      → QueueCoordinator S
      → QueueCoordinator S
  update_post_status id par unpack move c =
      if is_some (find_nzb id c)
      then modify_nzb id (with_status par unpack move) c
      else with_history c
          (modify_first (entry_has_id id) (in_entry (with_status par unpack move)) c.queue.history)

  unfoldable pub update_post_stage : ℕ → ℕ → PostStage → QueueCoordinator S → QueueCoordinator S
  update_post_stage now id stage c = modify_nzb id (with_stage now id stage) c

  unfoldable pub update_post_progress : ℕ → ℕ → QueueCoordinator S → QueueCoordinator S
  update_post_progress id progress c = modify_nzb id (with_progress progress) c

  -- `remove(idx)` and `add_to_history`; nothing where the download is not queued.
  unfoldable pub file_nzb :
      ℕ → (NzbInfo → NzbInfo) → QueueCoordinator S → Option ℕ → Option NzbInfo → QueueCoordinator S
  unfolding add_to_history
  file_nzb now f c (some idx) (some n) =
      add_to_history now (f n) nzb_entry (with_nzbs c (remove_at idx c.queue.queue))
  file_nzb now f c none n = c
  file_nzb now f c (some idx) none = c

  abbrev pub nzb_at : QueueCoordinator S → Option ℕ → Option NzbInfo
  nzb_at c none = none
  nzb_at c (some idx) = get_elem? c.queue.queue idx

  unfoldable pub finish_post_processing :
      ℕ
      → ℕ
      → ParStatus
      → UnpackStatus
      → MoveStatus
      → Option Text
      → PostProcessTimings
      → QueueCoordinator S
      → QueueCoordinator S
  unfolding file_nzb
  finish_post_processing now id par unpack move final_dir timings c =
      let idx = position (has_id id) c.queue.queue in
      file_nzb now (post_processed par unpack move final_dir timings) c idx (nzb_at c idx)

  unfoldable pub seed_state : DownloadQueue → Bool → ℕ → QueueCoordinator S → QueueCoordinator S
  seed_state queue paused rate c = record c {
    session_downloaded = sum_by (λ (n : NzbInfo). n.success_size) queue.queue;
    queue = queue;
    paused = paused;
    download_rate = rate;
  }
