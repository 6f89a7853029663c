-- ===== src/Queue/Ingest/Fits.antt =====
-- crates/bergamot-queue/src/coordinator.rs: a file that is taken in has the counters right that are sums over its files.
use bergamot.Prelude.{
  ℕ, suc, ◌^◌, ◌<◌, ◌≡◌, refl, sym, ◌∙◌, inl, inr, Bool, Bool-cases, true, false, List, [], ◌∷◌,
  map, Option, Option-cases, arith, All, All-append, length, length-map,
}
use bergamot.Prelude.Find.{sum_by}
use bergamot.Text.{Text}
use bergamot.Nzb.Model.{Segment, NzbError}
use bergamot.Nzb.Model as Parsed
use bergamot.Nzb.Subject.{Libraries}
use bergamot.Nzb.Info.{Readers, parse_nzb_auto, is_gzip}
use bergamot.Nzb.Info.Complete.{Complete, CompleteFile, parse-Complete}
use bergamot.Queue.Types.{Priority, DupMode}
use bergamot.Queue.Nzb.{FileInfo, NzbInfo}
use bergamot.Queue.Health.{Scaling}
use bergamot.Queue.State.{QueueCoordinator}
use bergamot.Queue.Download.Accounts.{
  FileAccounts, bytes_if, one_if, is_finished, is_failed, is_pending,
}
use bergamot.Queue.Download.Books.{NzbAccounts, par_only, to_finish, article_count}
use bergamot.Queue.Download.Steps.{Books}
use bergamot.Queue.NewNzb.{
  AddNzbOptions, Contents, NzbSource, contents, unreadable, new_article, new_file, new_files,
  new_nzb,
}
use bergamot.Queue.Ingest.{
  put_nzb, check_duplicate, enqueue, key_of, mode_of, name_of, ingest_parsed, on_parsed,
  on_contents, ingest_nzb,
}

-- The bytes of a file's segments add up to its size.
abbrev pub Balanced : Parsed.NzbFile → Type 0
Balanced f = f.total_size ≡ sum_by (λ (s : Segment). s.bytes) f.segments

new_articles :
    (ss : List Segment)
    → (sum_by (bytes_if is_finished) (map new_article ss) ≡ 0)
      × (sum_by (bytes_if is_failed) (map new_article ss) ≡ 0)
      × (sum_by (bytes_if is_pending) (map new_article ss) ≡ sum_by (λ (s : Segment). s.bytes) ss)
      × (sum_by (one_if is_finished) (map new_article ss) ≡ 0)
      × (sum_by (one_if is_failed) (map new_article ss) ≡ 0)
unfolding new_article
new_articles [] = (refl, refl, refl, refl, refl)
new_articles (s ∷ ss) =
    let (a, b, c, d, e) = new_articles ss in
    (omega arith, omega arith, omega arith, omega arith, omega arith)

new_file-FileAccounts :
    (now : ℕ) (p : Priority) (id file_id idx : ℕ) (f : Parsed.NzbFile)
    → Balanced f
    → FileAccounts (new_file now p id file_id idx f)
unfolding new_file
new_file-FileAccounts now p id file_id idx f h =
    let (a, b, c, d, e) = new_articles f.segments in
    record { succeeded = sym a; lost = sym b; left = h ∙ sym c; hits = sym d; misses = sym e }

-- The sum of a figure that is 0 in every new file.
module _ (now : ℕ) (p : Priority) (id : ℕ) where
  new_files-zero :
      (g : FileInfo → ℕ)
      → ((file_id idx : ℕ) (f : Parsed.NzbFile) → g (new_file now p id file_id idx f) ≡ 0)
      → (file_id idx : ℕ) (fs : List Parsed.NzbFile)
      → 0 ≡ sum_by g (new_files now p id file_id idx fs)
  unfolding new_files
  new_files-zero g h file_id idx [] = refl
  new_files-zero g h file_id idx (f ∷ fs) =
      omega (arith, h file_id idx f, new_files-zero g h (suc file_id) (suc idx) fs)

  new_files-size :
      (file_id idx : ℕ) (fs : List Parsed.NzbFile)
      → sum_by (λ (f : Parsed.NzbFile). f.total_size) fs
        ≡ sum_by (λ (f : FileInfo). f.remaining_size) (new_files now p id file_id idx fs)
  unfolding new_files new_file
  new_files-size file_id idx [] = refl
  new_files-size file_id idx (f ∷ fs) = omega (arith, new_files-size (suc file_id) (suc idx) fs)

  new_files-count :
      (file_id idx : ℕ) (fs : List Parsed.NzbFile)
      → length fs ≡ sum_by to_finish (new_files now p id file_id idx fs)
  unfolding new_files new_file
  new_files-count file_id idx [] = refl
  new_files-count file_id idx (f ∷ fs) = omega (arith, new_files-count (suc file_id) (suc idx) fs)

  new_files-articles :
      (file_id idx : ℕ) (fs : List Parsed.NzbFile)
      → sum_by (λ (f : Parsed.NzbFile). length f.segments) fs
        ≡ sum_by article_count (new_files now p id file_id idx fs)
  unfolding new_files new_file
  new_files-articles file_id idx [] = refl
  new_files-articles file_id idx (f ∷ fs) =
      omega
        (arith, length-map new_article f.segments, new_files-articles (suc file_id) (suc idx) fs)

  new_files-FileAccounts :
      (file_id idx : ℕ) (fs : List Parsed.NzbFile)
      → All Balanced fs
      → All FileAccounts (new_files now p id file_id idx fs)
  unfolding new_files
  new_files-FileAccounts file_id idx [] h = tt
  new_files-FileAccounts file_id idx (f ∷ fs) h = (
    new_file-FileAccounts now p id file_id idx f h.0,
    new_files-FileAccounts (suc file_id) (suc idx) fs h.1,
  )

module _ {S : Type 0} (sc : Scaling) (now : ℕ) (source : NzbSource) (category : Option Text)
    (priority : Priority) (options : AddNzbOptions) where
  new_nzb-NzbAccounts :
      (name key : Text) (mode : DupMode) (c : QueueCoordinator S) (fs : List Parsed.NzbFile)
      → All Balanced fs
      → NzbAccounts (new_nzb sc now source name key mode category priority options c fs)
  unfolding new_nzb new_file
  new_nzb-NzbAccounts name key mode c fs h =
      let zero_sum =
        λ (g : FileInfo → ℕ)
            (k : (i j : ℕ) (f : Parsed.NzbFile)
              → g (new_file now priority c.queue.next_nzb_id i j f) ≡ 0).
          new_files-zero now priority c.queue.next_nzb_id g k c.queue.next_file_id 0 fs in
      record {
        each = new_files-FileAccounts now priority c.queue.next_nzb_id c.queue.next_file_id 0 fs h;
        succeeded = zero_sum (λ f. f.success_size) (λ i j f. refl);
        lost = zero_sum (λ f. f.failed_size) (λ i j f. refl);
        left = new_files-size now priority c.queue.next_nzb_id c.queue.next_file_id 0 fs;
        hits = zero_sum (λ f. f.success_articles) (λ i j f. refl);
        misses = zero_sum (λ f. f.failed_articles) (λ i j f. refl);
        par_gained = zero_sum (par_only (λ f. f.success_size)) (λ i j f. ground arith);
        par_lost = zero_sum (par_only (λ f. f.failed_size)) (λ i j f. ground arith);
        par_misses = zero_sum (par_only (λ f. f.failed_articles)) (λ i j f. ground arith);
        unfinished = new_files-count now priority c.queue.next_nzb_id c.queue.next_file_id 0 fs;
        articles = new_files-articles now priority c.queue.next_nzb_id c.queue.next_file_id 0 fs;
      }

  ingest_parsed-Books :
      (fs : List Parsed.NzbFile) (c : QueueCoordinator S)
      → All Balanced fs
      → Books c
      → Books (ingest_parsed sc now source category priority options fs c).0
  unfolding ingest_parsed enqueue
  ingest_parsed-Books fs c h b =
      let key = key_of source options in
      let mode = mode_of options in
      let k = new_nzb-NzbAccounts (name_of source) key mode c fs h in
      elim (Option-cases (check_duplicate key mode c)) [
        | inr (i, e) ↦ rw (ingest_parsed, e) (record { live = b.live; filed = b.filed })
        | inl e ↦
            rw (ingest_parsed, e)
              (record { live = put c.queue.queue options.add_to_top k b.live; filed = b.filed })
      ]
    where
      put :
          {n : NzbInfo} (ns : List NzbInfo) (top : Bool)
          → NzbAccounts n
          → All NzbAccounts ns
          → All NzbAccounts (put_nzb top n ns)
      put ns true k a = (k, a)
      put {n} ns false k a = All-append NzbAccounts ns (n ∷ []) a (k, tt)

-- The bytes of a file's segments add up to less than 2^64.
abbrev pub Small : Parsed.NzbFile → Type 0
Small f = sum_by (λ (s : Segment). s.bytes) f.segments < 2 ^ 64

module _ (lib : Libraries) where
  Small-Balanced :
      (fs : List Parsed.NzbFile) → All (CompleteFile lib) fs → All Small fs → All Balanced fs
  Small-Balanced [] c s = tt
  Small-Balanced (f ∷ fs) c s = (omega (arith, c.0.size), Small-Balanced fs c.1 s.1)

  parse_nzb_auto-Complete :
      (readers : Readers) (bytes : List ℕ) (info : Parsed.NzbInfo)
      → parse_nzb_auto lib readers bytes ≡ Parsed.ok info
      → Complete lib info
  unfolding parse_nzb_auto
  parse_nzb_auto-Complete readers bytes info h = elim (Bool-cases (is_gzip bytes)) [
    | inl e ↦ parse-Complete lib (readers.gzip bytes) info (rw e at h)
    | inr e ↦ parse-Complete lib (readers.plain bytes) info (rw e at h)
  ]

module _ {S : Type 0} (sc : Scaling) (now : ℕ) (source : NzbSource) (category : Option Text)
    (priority : Priority) (options : AddNzbOptions) (lib : Libraries) (readers : Readers)
    (shown : NzbError → Text) (c : QueueCoordinator S) (b : Books c) where
  on_parsed-Books :
      (r : Parsed.Parsed Parsed.NzbInfo)
      → ((info : Parsed.NzbInfo) → r ≡ Parsed.ok info → Complete lib info × All Small info.files)
      → Books (on_parsed sc now source category priority options lib readers shown r c).0
  unfolding on_parsed
  on_parsed-Books (Parsed.err e) h = b
  on_parsed-Books (Parsed.ok info) h =
      let (whole, small) = h info refl in
      ingest_parsed-Books sc now source category priority options info.files c
        (Small-Balanced lib info.files whole.files small) b

  on_contents-Books :
      (k : Contents)
      → ((bytes : List ℕ) (info : Parsed.NzbInfo)
          → k ≡ contents bytes
          → parse_nzb_auto lib readers bytes ≡ Parsed.ok info
          → All Small info.files)
      → Books (on_contents sc now source category priority options lib readers shown k c).0
  unfolding on_contents
  on_contents-Books (unreadable message) h = b
  on_contents-Books (contents bytes) h =
      on_parsed-Books (parse_nzb_auto lib readers bytes)
        (λ info e. (parse_nzb_auto-Complete lib readers bytes info e, h bytes info refl e))

  -- Whatever the file at the path, whether it is read, parses, is a duplicate or not: where the
  -- sizes of the segments of each file that it lists add up to less than 2^64, taking it in keeps
  -- these counters of every download in the queue and the history the sums over its files and
  -- articles: the sizes and article counts of successes and failures, what remains, how many articles
  -- there are, how many files are not complete, and what par2 files have gained and lost.
  pub ingest_nzb-Books :
      ((bytes : List ℕ) (info : Parsed.NzbInfo)
        → source.file ≡ contents bytes
        → parse_nzb_auto lib readers bytes ≡ Parsed.ok info
        → All Small info.files)
      → Books (ingest_nzb sc now source category priority options lib readers shown c).0
  unfolding ingest_nzb
  ingest_nzb-Books h = on_contents-Books source.file h
