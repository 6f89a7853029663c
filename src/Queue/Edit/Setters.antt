-- ===== src/Queue/Edit/Setters.antt =====
-- What an edit that sets a field does, download by download.
use bergamot.Prelude.{
  ℕ, ◌≡◌, refl, sym, subst, inl, inr, Bool-cases, ap, ◌∙◌, Bool, true, false, List, [], ◌∷◌, Option,
  none, some, arith, ◌==◌, if◌then◌else◌, any,
}
use mathlib.Core.Option
use bergamot.Prelude.Find.{find, modify_first}
use bergamot.Text.{Text, same, same_sound, same_refl}
use bergamot.Queue.Types.{NzbParameter}
use bergamot.Queue.Nzb.{NzbInfo}
use bergamot.Queue.State.{has_id}
use bergamot.Queue.Edit.{
  EditAction, move, pause, resume, delete, set_priority, set_category, set_parameter, merge, split,
  set_name, set_dupe_key, set_dupe_score, set_dupe_mode, ok, setter, set_all, set_param, edit,
}

abbrev pub listed : List ℕ → ℕ → Bool
listed ids j = any (λ id. id == j) ids

set_param_idem :
    (key value : Text) (ps : List NzbParameter)
    → set_param key value (set_param key value ps) ≡ set_param key value ps
unfolding set_param
set_param_idem key value [] = ground (arith, same_refl key)
set_param_idem key value (p ∷ ps) = ground (arith, set_param_idem key value ps)

pub setter-id : (a : EditAction) (n : NzbInfo) → (setter a n).id ≡ n.id
unfolding setter
setter-id pause n = refl
setter-id a n = refl

setter_idem : (a : EditAction) (n : NzbInfo) → setter a (setter a n) ≡ setter a n
unfolding setter
setter_idem (set_parameter key value) n = rw set_param_idem
setter_idem pause n = refl
setter_idem a n = refl

module _ (f : NzbInfo → NzbInfo) (same_id : (n : NzbInfo) → (f n).id ≡ n.id)
    (idem : (n : NzbInfo) → f (f n) ≡ f n) where
  find-modify_first :
      (i j : ℕ) (xs : List NzbInfo)
      → find (has_id j) (modify_first (has_id i) f xs)
        ≡ (if i == j then Option.map f (find (has_id j) xs) else find (has_id j) xs)
  find-modify_first i j [] = ground arith
  find-modify_first i j (x ∷ xs) = ground (arith, same_id x, find-modify_first i j xs)

  map_idem : (o : Option NzbInfo) → Option.map f (Option.map f o) ≡ Option.map f o
  map_idem none = refl
  map_idem (some n) = ap some (idem n)

  find-set_all :
      (ids : List ℕ) (j : ℕ) (xs : List NzbInfo)
      → find (has_id j) (set_all f ids xs)
        ≡ (if listed ids j then Option.map f (find (has_id j) xs) else find (has_id j) xs)
  unfolding set_all
  find-set_all [] j xs = refl
  find-set_all (i ∷ ids) j xs =
      find-set_all ids j (modify_first (has_id i) f xs)
      ∙ ground (arith, find-modify_first i j xs, map_idem (find (has_id j) xs))

-- `merge` and `split` leave a download as it is.
same_option : (b : Bool) (o : Option NzbInfo) → o ≡ (if b then Option.map (λ n. n) o else o)
same_option b none = ground arith
same_option b (some n) = ground arith

abbrev pub is_setter : EditAction → Bool
is_setter (move p) = false
is_setter (delete d) = false
is_setter a = true

edit-setter :
    (a : EditAction) (ids : List ℕ) (j : ℕ) (xs : List NzbInfo)
    → is_setter a ≡ true
    → ((edit a ids xs).1 ≡ ok tt)
      × (find (has_id j) (edit a ids xs).0 ≡ (
          if listed ids j then Option.map (setter a) (find (has_id j) xs) else find (has_id j) xs))
unfolding edit
edit-setter (move p) ids j xs h = cc
edit-setter (delete d) ids j xs h = cc
edit-setter (merge t) ids j xs h = (refl, same_option _ (find (has_id j) xs))
edit-setter (split is) ids j xs h = (refl, same_option _ (find (has_id j) xs))
edit-setter pause ids j xs h =
    (refl, find-set_all (setter pause) (setter-id pause) (setter_idem pause) ids j xs)
edit-setter resume ids j xs h =
    (refl, find-set_all (setter resume) (setter-id resume) (setter_idem resume) ids j xs)
edit-setter (set_priority p) ids j xs h = (
  refl,
  find-set_all (setter (set_priority p)) (setter-id (set_priority p)) (setter_idem (set_priority p))
      ids j xs,
)
edit-setter (set_category s) ids j xs h = (
  refl,
  find-set_all (setter (set_category s)) (setter-id (set_category s)) (setter_idem (set_category s))
      ids j xs,
)
edit-setter (set_name s) ids j xs h = (
  refl,
  find-set_all (setter (set_name s)) (setter-id (set_name s)) (setter_idem (set_name s)) ids j xs,
)
edit-setter (set_dupe_key s) ids j xs h = (
  refl,
  find-set_all (setter (set_dupe_key s)) (setter-id (set_dupe_key s)) (setter_idem (set_dupe_key s))
      ids j xs,
)
edit-setter (set_dupe_score z) ids j xs h = (
  refl,
  find-set_all (setter (set_dupe_score z)) (setter-id (set_dupe_score z))
      (setter_idem (set_dupe_score z)) ids j xs,
)
edit-setter (set_dupe_mode m) ids j xs h = (
  refl,
  find-set_all (setter (set_dupe_mode m)) (setter-id (set_dupe_mode m))
      (setter_idem (set_dupe_mode m)) ids j xs,
)
edit-setter (set_parameter k v) ids j xs h = (
  refl,
  find-set_all (setter (set_parameter k v)) (setter-id (set_parameter k v))
      (setter_idem (set_parameter k v)) ids j xs,
)

-- The value of the first parameter with a name.
abbrev pub value_of : Text → List NzbParameter → Option Text
value_of key [] = none
value_of key (p ∷ ps) = if same p.name key then some p.value else value_of key ps

-- What an action makes of a download, the other fields kept. `SetParameter` sets the value of one
-- name and keeps those of all others.
abbrev pub SetTo : EditAction → NzbInfo → NzbInfo → Type 0
SetTo pause n m = m ≡ record n { paused = true }
SetTo resume n m = m ≡ record n { paused = false }
SetTo (set_priority p) n m = m ≡ record n { priority = p }
SetTo (set_category s) n m = m ≡ record n { category = s }
SetTo (set_name s) n m = m ≡ record n { name = s }
SetTo (set_dupe_key s) n m = m ≡ record n { dup_key = s }
SetTo (set_dupe_score z) n m = m ≡ record n { dup_score = z }
SetTo (set_dupe_mode d) n m = m ≡ record n { dup_mode = d }
SetTo (set_parameter key value) n m =
    (m ≡ record n { parameters = m.parameters })
    × (value_of key m.parameters ≡ some value)
    × ((other : Text)
        → same key other ≡ false
        → value_of other m.parameters ≡ value_of other n.parameters)
SetTo a n m = m ≡ n

-- What is found under an id before and after an edit, by whether the id is listed.
abbrev pub Edited : EditAction → Bool → Option NzbInfo → Option NzbInfo → Type 0
Edited a is_listed none found = found ≡ none
Edited a is_listed (some n) none = ⊥
Edited a true (some n) (some m) = SetTo a n m
Edited a false (some n) (some m) = m ≡ n

value_of-set_param :
    (key value : Text) (ps : List NzbParameter) → value_of key (set_param key value ps) ≡ some value
unfolding set_param
value_of-set_param key value [] = ground (arith, same_refl key)
value_of-set_param key value (p ∷ ps) = ground (arith, value_of-set_param key value ps)

value_of-set_param_other :
    (key value other : Text) (ps : List NzbParameter)
    → same key other ≡ false
    → value_of other (set_param key value ps) ≡ value_of other ps
unfolding set_param
value_of-set_param_other key value other [] h = rw h refl
value_of-set_param_other key value other (p ∷ ps) h = elim (Bool-cases (same p.name key)) [
  | inl e ↦
      let q : p.name ≡ key = same_sound p.name key e in
      let k : same p.name other ≡ false = rw q h in rw (e, k) refl
  | inr e ↦ rw e (ground (arith, value_of-set_param_other key value other ps h))
]

setter-SetTo : (a : EditAction) (n : NzbInfo) → SetTo a n (setter a n)
unfolding setter
setter-SetTo (move p) n = refl
setter-SetTo pause n = refl
setter-SetTo resume n = refl
setter-SetTo (delete d) n = refl
setter-SetTo (set_priority p) n = refl
setter-SetTo (set_category s) n = refl
setter-SetTo (set_parameter key value) n = (
  refl,
  value_of-set_param key value n.parameters,
  λ other h. value_of-set_param_other key value other n.parameters h,
)
setter-SetTo (merge t) n = refl
setter-SetTo (split is) n = refl
setter-SetTo (set_name s) n = refl
setter-SetTo (set_dupe_key s) n = refl
setter-SetTo (set_dupe_score z) n = refl
setter-SetTo (set_dupe_mode d) n = refl

setter-Edited :
    (a : EditAction) (b : Bool) (o : Option NzbInfo)
    → Edited a b o (if b then Option.map (setter a) o else o)
setter-Edited a true none = refl
setter-Edited a false none = refl
setter-Edited a true (some n) = setter-SetTo a n
setter-Edited a false (some n) = refl

-- An edit that is neither a move nor a deletion succeeds; afterwards the download found under an id
-- is the one found before, if the id is listed with just the field set that the action names, to
-- the value that it gives, and as it was if the id is not listed. Merging and splitting set no field.
pub edit-find :
    (a : EditAction) (ids : List ℕ) (j : ℕ) (xs : List NzbInfo)
    → is_setter a ≡ true
    → ((edit a ids xs).1 ≡ ok tt)
      × Edited a (listed ids j) (find (has_id j) xs) (find (has_id j) (edit a ids xs).0)
edit-find a ids j xs h =
    let (succeeds, found) = edit-setter a ids j xs h in
    (
      succeeds,
      subst (Edited a (listed ids j) (find (has_id j) xs)) (sym found)
          (setter-Edited a (listed ids j) (find (has_id j) xs)),
    )
