-- ===== src/Queue/Edit.antt =====
-- crates/bergamot-queue/src/coordinator.rs: `apply_edit`, `move_nzb` and `unpause_par_files`;
-- command.rs's `EditAction` and `MovePosition`. An operation returns the new state beside its
-- answer, since the source has changed the queue in place by the time that it fails.
pub mod Move
pub mod Setters
use bergamot.Prelude.{
  ℕ, zero, suc, ◌+◌, ◌-◌, Bool, true, false, ◌&&◌, not, List, [], ◌∷◌, ◌++◌, map, Option, none,
  some, length, if◌then◌else◌, ◌==◌, ltb, get_elem?,
}
use bergamot.Prelude.Int.{ℤ}
use mathlib.Core.Option
use bergamot.Prelude.Find.{position, remove_at, insert_at, modify_first, retain}
use bergamot.Text.{Text, same}
use bergamot.Queue.Types.{Priority, DupMode, NzbParameter}
use bergamot.Queue.Nzb.{FileInfo, NzbInfo}
use bergamot.Queue.Health.{is_par_file}
use bergamot.Queue.State.{
  QueueError, nzb_not_found, invalid_move, QueueCoordinator, has_id, with_nzbs, modify_nzb,
}

pub data MovePosition : Type 0 where
  top bottom : MovePosition
  up down before after : ℕ → MovePosition

pub data EditAction : Type 0 where
  move : MovePosition → EditAction
  pause resume : EditAction
  delete : Bool → EditAction
  set_priority : Priority → EditAction
  set_category : Text → EditAction
  set_parameter : Text → Text → EditAction
  merge : ℕ → EditAction
  split : List ℕ → EditAction
  set_name set_dupe_key : Text → EditAction
  set_dupe_score : ℤ → EditAction
  set_dupe_mode : DupMode → EditAction

pub data Answer (A : Type 0) : Type 0 where
  ok : A → Answer A
  err : QueueError → Answer A

abbrev pub min : ℕ → ℕ → ℕ
min a b = if ltb b a then b else a

-- The new index, among the other downloads; `none` is `InvalidMove`.
unfoldable pub new_index : MovePosition → ℕ → List NzbInfo → Option ℕ
new_index top index others = some 0
new_index bottom index others = some (length others)
new_index (up steps) index others = some (index - steps)
new_index (down steps) index others = some (min (index + steps) (length others))
new_index (before other) index others = position (has_id other) others
new_index (after other) index others = Option.map suc (position (has_id other) others)

abbrev pub put_back : NzbInfo → List NzbInfo → Option ℕ → List NzbInfo × Answer (Unit {0})
put_back n others none = (others, err invalid_move)
put_back n others (some k) = (insert_at (min k (length others)) n others, ok tt)

abbrev pub take_out :
    ℕ → MovePosition → List NzbInfo → Option ℕ → Option NzbInfo → List NzbInfo × Answer (Unit {0})
unfolding new_index
take_out id p xs (some index) (some n) =
    put_back n (remove_at index xs) (new_index p index (remove_at index xs))
take_out id p xs index n = (xs, err (nzb_not_found id))

abbrev pub at_index : List NzbInfo → Option ℕ → Option NzbInfo
at_index xs none = none
at_index xs (some i) = get_elem? xs i

-- `move_nzb`, on the queue.
unfoldable pub move_in : ℕ → MovePosition → List NzbInfo → List NzbInfo × Answer (Unit {0})
unfolding new_index
move_in id p xs = let index = position (has_id id) xs in take_out id p xs index (at_index xs index)

unfoldable pub set_param : Text → Text → List NzbParameter → List NzbParameter
set_param key value [] = record { name = key; value = value } ∷ []
set_param key value (p ∷ ps) =
    if same p.name key then record p { value = value } ∷ ps else p ∷ set_param key value ps

-- What an action that sets a field does to each download that it names.
unfoldable pub setter : EditAction → NzbInfo → NzbInfo
unfolding set_param
setter pause n = record n { paused = true }
setter resume n = record n { paused = false }
setter (set_priority p) n = record n { priority = p }
setter (set_category s) n = record n { category = s }
setter (set_name s) n = record n { name = s }
setter (set_dupe_key s) n = record n { dup_key = s }
setter (set_dupe_score z) n = record n { dup_score = z }
setter (set_dupe_mode m) n = record n { dup_mode = m }
setter (set_parameter key value) n = record n { parameters = set_param key value n.parameters }
setter a n = n

-- The loop over the ids of an action that sets a field.
unfoldable pub set_all : (NzbInfo → NzbInfo) → List ℕ → List NzbInfo → List NzbInfo
set_all f [] xs = xs
set_all f (id ∷ ids) xs = set_all f ids (modify_first (has_id id) f xs)

unfoldable pub delete_all : List ℕ → List NzbInfo → List NzbInfo
delete_all [] xs = xs
delete_all (id ∷ ids) xs = delete_all ids (retain (λ n. not (has_id id n)) xs)

-- The loop of `Move`, which stops at the first error.
unfoldable pub move_all : List ℕ → MovePosition → List NzbInfo → List NzbInfo × Answer (Unit {0})
unfolding move_in
move_all [] p xs = (xs, ok tt)
move_all (id ∷ ids) p xs =
    let (ys, r) = move_in id p xs in elim r [ ok u ↦ move_all ids p ys | err e ↦ (ys, err e) ]

unfoldable pub edit : EditAction → List ℕ → List NzbInfo → List NzbInfo × Answer (Unit {0})
unfolding move_all set_all delete_all setter
edit (move p) ids xs = move_all ids p xs
edit (delete delete_files) ids xs = (delete_all ids xs, ok tt)
edit (merge target) ids xs = (xs, ok tt)
edit (split indices) ids xs = (xs, ok tt)
edit a ids xs = (set_all (setter a) ids xs, ok tt)

module _ {S : Type 0} where
  unfoldable pub move_nzb :
      ℕ → MovePosition → QueueCoordinator S → QueueCoordinator S × Answer (Unit {0})
  unfolding move_in
  move_nzb id p c = let (xs, r) = move_in id p c.queue.queue in (with_nzbs c xs, r)

  unfoldable pub apply_edit :
      EditAction → List ℕ → QueueCoordinator S → QueueCoordinator S × Answer (Unit {0})
  unfolding edit
  apply_edit a ids c = let (xs, r) = edit a ids c.queue.queue in (with_nzbs c xs, r)

  unfoldable pub unpause_par_files : ℕ → QueueCoordinator S → QueueCoordinator S
  unpause_par_files id c =
      modify_nzb id
        (λ n. record n {
          files =
              map
                (λ (f : FileInfo).
                  if f.paused && is_par_file f.filename then record f { paused = false } else f)
                n.files;
        })
        c
