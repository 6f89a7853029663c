-- ===== src/Nzb/Info/Metas.antt =====
-- crates/bergamot-nzb/src/parser.rs: what the metas and the files of a document come to.
use bergamot.Prelude.{
  ◌≡◌, refl, sym, ◌∙◌, ap, subst, Bool, Bool-cases, inl, inr, ◌||◌, List, [], ◌∷◌, ◌++◌, map,
  Option, none, some, if◌then◌else◌, append_assoc, append-nil,
}
use mathlib.Core.List.{Perm}
use mathlib.Core.List.Perm
use bergamot.Prelude.Sort.{insert_by, sort_by, by_key, Rising, Rising-sort_by}
use bergamot.Text.{Text, codes, same, same_sound}
use bergamot.Nzb.Model.{Segment, NzbFile, NzbMeta}
use bergamot.Nzb.Names.Distinct.{Renamed, Pairwise, ensure_unique_filenames-Apart}
use bergamot.Nzb.Subject.{Libraries}
use bergamot.Nzb.Parser.{date_of}
use bergamot.Nzb.Ends.{set_meta, built}
use bergamot.Nzb.Info.{sort_segments, named_files}
use bergamot.Nzb.Info.Document.{FileElement, add_metas, builder_of}

abbrev pub or_before : Option Text → Option Text → Option Text
or_before none before = before
or_before (some s) before = some s

-- The last value of a key, and all values of it in order.
abbrev pub last_of : Text → List (Text × Text) → Option Text
last_of k [] = none
last_of k ((key, value) ∷ rest) =
    or_before (last_of k rest) (if same key k then some value else none)

abbrev pub all_of : Text → List (Text × Text) → List Text
all_of k [] = []
all_of k ((key, value) ∷ rest) = (if same key k then value ∷ [] else []) ++ all_of k rest

abbrev pub has_field : Text → Bool
has_field key =
    same key (codes "title")
    || same key (codes "password")
    || same key (codes "category")
    || same key (codes "tag")

abbrev pub others_of : List (Text × Text) → List (Text × Text)
others_of [] = []
others_of ((key, value) ∷ rest) =
    (if has_field key then [] else (key, value) ∷ []) ++ others_of rest

-- The metas of a document: the last title, password and category, all tags, and the rest as pairs.
pub record MetaRead (metas : List (Text × Text)) (m : NzbMeta) : Type 0 where
  pub title : m.title ≡ last_of (codes "title") metas
  pub password : m.password ≡ last_of (codes "password") metas
  pub category : m.category ≡ last_of (codes "category") metas
  pub tags : m.tags ≡ all_of (codes "tag") metas
  pub extra : m.extra ≡ others_of metas

record SetBy (key value : Text) (m : NzbMeta) : Type 0 where
  title :
      (set_meta key value m).title
      ≡ or_before (if same key (codes "title") then some value else none) m.title
  password :
      (set_meta key value m).password
      ≡ or_before (if same key (codes "password") then some value else none) m.password
  category :
      (set_meta key value m).category
      ≡ or_before (if same key (codes "category") then some value else none) m.category
  tags : (set_meta key value m).tags ≡ m.tags ++ (if same key (codes "tag") then value ∷ [] else [])
  extra :
      (set_meta key value m).extra ≡ m.extra ++ (if has_field key then [] else (key, value) ∷ [])

set_meta-SetBy : (key value : Text) (m : NzbMeta) → SetBy key value m
set_meta-SetBy key value m = elim (Bool-cases (same key (codes "title"))) [
  | inl e ↦ rw (same_sound key (codes "title") e) (record {
    title = refl;
    password = refl;
    category = refl;
    tags = sym (append-nil m.tags);
    extra = sym (append-nil m.extra);
  })
  | inr e ↦ elim (Bool-cases (same key (codes "password"))) [
    | inl f ↦ rw (same_sound key (codes "password") f) (record {
      title = refl;
      password = refl;
      category = refl;
      tags = sym (append-nil m.tags);
      extra = sym (append-nil m.extra);
    })
    | inr f ↦ elim (Bool-cases (same key (codes "category"))) [
      | inl g ↦ rw (same_sound key (codes "category") g) (record {
        title = refl;
        password = refl;
        category = refl;
        tags = sym (append-nil m.tags);
        extra = sym (append-nil m.extra);
      })
      | inr g ↦ elim (Bool-cases (same key (codes "tag"))) [
        | inl h ↦ rw (same_sound key (codes "tag") h) (record {
          title = refl;
          password = refl;
          category = refl;
          tags = refl;
          extra = sym (append-nil m.extra);
        })
        | inr h ↦ record {
          title = rw (e, f, g, h) refl;
          password = rw (e, f, g, h) refl;
          category = rw (e, f, g, h) refl;
          tags = rw (e, f, g, h) (sym (append-nil m.tags));
          extra = rw (e, f, g, h) refl;
        }
      ]
    ]
  ]
]

or_before_assoc : (a b c : Option Text) → or_before a (or_before b c) ≡ or_before (or_before a b) c
or_before_assoc none b c = refl
or_before_assoc (some s) b c = refl

record Added (metas : List (Text × Text)) (m : NzbMeta) : Type 0 where
  title : (add_metas m metas).title ≡ or_before (last_of (codes "title") metas) m.title
  password : (add_metas m metas).password ≡ or_before (last_of (codes "password") metas) m.password
  category : (add_metas m metas).category ≡ or_before (last_of (codes "category") metas) m.category
  tags : (add_metas m metas).tags ≡ m.tags ++ all_of (codes "tag") metas
  extra : (add_metas m metas).extra ≡ m.extra ++ others_of metas

add_metas-Added : (metas : List (Text × Text)) (m : NzbMeta) → Added metas m
add_metas-Added [] m = record {
  title = refl;
  password = refl;
  category = refl;
  tags = sym (append-nil m.tags);
  extra = sym (append-nil m.extra);
}
add_metas-Added ((key, value) ∷ rest) m =
    let h = add_metas-Added rest (set_meta key value m) in
    let s = set_meta-SetBy key value m in
    record {
      title =
          h.title
          ∙ ap (or_before (last_of (codes "title") rest)) s.title
          ∙ or_before_assoc _ _ m.title;
      password =
          h.password
          ∙ ap (or_before (last_of (codes "password") rest)) s.password
          ∙ or_before_assoc _ _ m.password;
      category =
          h.category
          ∙ ap (or_before (last_of (codes "category") rest)) s.category
          ∙ or_before_assoc _ _ m.category;
      tags =
          h.tags
          ∙ ap (λ t. t ++ all_of (codes "tag") rest) s.tags
          ∙ append_assoc m.tags _ (all_of (codes "tag") rest);
      extra =
          h.extra ∙ ap (λ t. t ++ others_of rest) s.extra ∙ append_assoc m.extra _ (others_of rest);
    }

-- A file of the result against its element: all but its name, which may get a suffix, and its
-- segments by number.
pub record FileRead (f : FileElement) (g : NzbFile) : Type 0 where
  pub poster : g.poster ≡ f.poster
  pub date : g.date ≡ date_of (some f.date)
  pub subject : g.subject ≡ f.subject
  pub groups : g.groups ≡ f.groups
  pub segments : Perm g.segments f.segments
  pub in_order : Rising (λ s. s.number) g.segments

abbrev pub AllRead : List FileElement → List NzbFile → Type 0
AllRead [] [] = Unit
AllRead [] (g ∷ gs) = ⊥
AllRead (f ∷ fs) [] = ⊥
AllRead (f ∷ fs) (g ∷ gs) = FileRead f g × AllRead fs gs

insert_by-perm :
    (before : Segment → Segment → Bool) (a : Segment) (xs : List Segment)
    → Perm (insert_by before a xs) (a ∷ xs)
insert_by-perm before a [] = Perm.refl _
insert_by-perm before a (x ∷ xs) = elim (Bool-cases (before a x)) [
  | inl e ↦ rw e (Perm.refl _)
  | inr e ↦ rw e (Perm.trans (Perm.cons x (insert_by-perm before a xs)) (Perm.swap a x xs))
]

sort_by-perm : (before : Segment → Segment → Bool) (xs : List Segment) → Perm (sort_by before xs) xs
sort_by-perm before [] = Perm.refl _
sort_by-perm before (x ∷ xs) =
    Perm.trans (insert_by-perm before x (sort_by before xs)) (Perm.cons x (sort_by-perm before xs))

module _ (lib : Libraries) where
  abbrev sorted : FileElement → NzbFile
  sorted f = sort_segments (built lib (builder_of f))

  sorted-FileRead : (f : FileElement) → FileRead f (sorted f)
  unfolding built
  sorted-FileRead f = record {
    poster = refl;
    date = refl;
    subject = refl;
    groups = refl;
    segments = sort_by-perm (by_key (λ s. s.number)) f.segments;
    in_order = Rising-sort_by (λ s. s.number) f.segments;
  }

  Renamed-FileRead : (f : FileElement) (g : NzbFile) → Renamed (sorted f) g → FileRead f g
  Renamed-FileRead f g r =
      let h = sorted-FileRead f in
      subst (FileRead f) (sym r.only_name) (record {
        poster = h.poster;
        date = h.date;
        subject = h.subject;
        groups = h.groups;
        segments = h.segments;
        in_order = h.in_order;
      })

  Pairwise-AllRead :
      (fs : List FileElement) (gs : List NzbFile)
      → Pairwise (map sort_segments (map (λ f. built lib (builder_of f)) fs)) gs
      → AllRead fs gs
  Pairwise-AllRead [] [] h = tt
  Pairwise-AllRead [] (g ∷ gs) h = h
  Pairwise-AllRead (f ∷ fs) [] h = h
  Pairwise-AllRead (f ∷ fs) (g ∷ gs) h = (Renamed-FileRead f g h.0, Pairwise-AllRead fs gs h.1)

  pub named_files-AllRead :
      (fs : List FileElement) → AllRead fs (named_files (map (λ f. built lib (builder_of f)) fs))
  unfolding named_files
  named_files-AllRead fs =
      let (out, e, pairs, apart) =
        ensure_unique_filenames-Apart
          (map sort_segments (map (λ f. built lib (builder_of f)) fs)) in
      rw e (Pairwise-AllRead fs out pairs)

abbrev pub no_meta : NzbMeta
no_meta = record { title = none; password = none; category = none; tags = []; extra = [] }

or_before-none : (o : Option Text) → or_before o none ≡ o
or_before-none none = refl
or_before-none (some s) = refl

pub add_metas-MetaRead : (metas : List (Text × Text)) → MetaRead metas (add_metas no_meta metas)
add_metas-MetaRead metas =
    let h = add_metas-Added metas no_meta in
    record {
      title = h.title ∙ or_before-none _;
      password = h.password ∙ or_before-none _;
      category = h.category ∙ or_before-none _;
      tags = h.tags;
      extra = h.extra;
    }
