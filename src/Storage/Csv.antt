-- ===== src/Storage/Csv.antt =====
-- crates/storage/src/csv_sink.rs: one file of comma-separated lines for each slot and day. The file
-- system is a parameter, and so is the printing of times and floats.
use Prim.Native.String.{String, [], ◌∷◌}
use Prim.Native.Char.{code}
use text.Mathlib.TextLemmas.{append_assoc, append-nil}
use hass_sma_rs.Prelude.{
  ℕ, ◌≡◌, refl, ◌==◌, if◌then◌else◌, ap, ◌∙◌, List, [], ◌∷◌, Bool, true, false, not, Option, none,
  some, Result, ok, err,
}
use hass_sma_rs.Prelude.Texts.{◌<>◌, decimal, padded}

pub record Day : Type 0 where
  pub year : ℕ
  pub month : ℕ
  pub day : ℕ

pub record Row : Type 0 where
  pub date : Day
  pub time : String
  pub slot : String
  pub serial : ℕ
  pub metric : String
  pub value : String

-- The calls of the file system: `false` for one that fails, `none` for an existence that cannot be
-- told.
pub record Files (S : Type 0) : Type 0 where
  pub create_dir_all : S → String → Bool × S
  pub try_exists : S → String → Option Bool
  pub open_append : S → String → Bool × S
  pub write_all : S → String → String → Bool × S
  pub flush : S → String → Bool × S

pub data StorageError : Type 0 where
  io sqlx : StorageError

pub record CsvSink : Type 0 where
  pub root : String

unfoldable pub filename_for : CsvSink → String → Day → String
filename_for sink slot d =
    sink.root
    <> "/"
    <> slot
    <> "-"
    <> padded 4 d.year
    <> "-"
    <> padded 2 d.month
    <> "-"
    <> padded 2 d.day
    <> ".csv"

-- `Path::parent`, of a path with a file name: what stands in front of the last slash.
unfoldable pub parent_of : String → Option String
parent_of [] = none
parent_of (c ∷ path) = elim (parent_of path) [
  | none ↦ if code c == 47 then some "" else none
  | some parent ↦ some (c ∷ parent)
]

abbrev pub csv_header : String
csv_header = "time,serial,metric,value\n"

unfoldable pub line_of : Row → String
line_of r = r.time <> "," <> decimal r.serial <> "," <> r.metric <> "," <> r.value <> "\n"

abbrev pub unwrap_or : Option Bool → Bool → Bool
unwrap_or none b = b
unwrap_or (some a) b = a

module _ {S : Type 0} (files : Files S) where
  abbrev pub Appended : Type 0
  Appended = Result StorageError (Unit {0}) × S

  abbrev pub and_then : Bool × S → (S → Appended) → Appended
  and_then (true, s) f = f s
  and_then (false, s) f = (err io, s)

  abbrev pub finish : Bool × S → Appended
  finish (true, s) = (ok tt, s)
  finish (false, s) = (err io, s)

  abbrev pub write_line : String → Row → S → Appended
  write_line path r s =
      and_then (files.write_all s path (line_of r)) (λ s'. finish (files.flush s' path))

  abbrev pub write_rows : String → Row → Bool → S → Appended
  write_rows path r true s = and_then (files.write_all s path csv_header) (write_line path r)
  write_rows path r false s = write_line path r s

  -- `if let Some(parent) = path.parent()`
  abbrev pub create_parent : Option String → S → Bool × S
  create_parent none s = (true, s)
  create_parent (some parent) s = files.create_dir_all s parent

  -- The header goes in front of the first line of a file that is new.
  unfoldable pub append : CsvSink → Row → S → Appended
  unfolding parent_of
  append sink r s =
      let path = filename_for sink r.slot r.date in
      and_then (create_parent (parent_of path) s) (λ s₁.
        let is_new = not (unwrap_or (files.try_exists s₁ path) false) in
        and_then (files.open_append s₁ path) (write_rows path r is_new))

  -- Rows one after the other; a failure is dropped by the caller.
  unfoldable pub append_all : CsvSink → List Row → S → S
  append_all sink [] s = s
  append_all sink (r ∷ rs) s = append_all sink rs (append sink r s).1

abbrev pub is_some : {A : Type 0} → Option A → Bool
is_some none = false
is_some (some a) = true

abbrev pub text_in : Option String → String
text_in none = ""
text_in (some t) = t

-- A file system that works: `content` has the text of a file.
pub record Works {S : Type 0} (files : Files S) (content : S → String → Option String)
    : Type 0 where
  pub creates :
      (s : S) (d : String)
      → (s' : S) × (files.create_dir_all s d ≡ (true, s'))
        × ((p : String) → content s' p ≡ content s p)
  pub tells : (s : S) (p : String) → files.try_exists s p ≡ some (is_some (content s p))
  pub opens :
      (s : S) (p : String)
      → (s' : S) × (files.open_append s p ≡ (true, s'))
        × (content s' p ≡ some (text_in (content s p)))
  pub writes :
      (s : S) (p t x : String)
      → content s p ≡ some t
      → (s' : S) × (files.write_all s p x ≡ (true, s')) × (content s' p ≡ some (t <> x))
  pub flushes :
      (s : S) (p : String)
      → (s' : S) × (files.flush s p ≡ (true, s')) × (content s' p ≡ content s p)

abbrev pub lines_of : List Row → String
lines_of [] = ""
lines_of (r ∷ rs) = line_of r <> lines_of rs

-- What a file has in front of the next line: the header, if it is new.
abbrev pub started : Option String → String
started none = csv_header
started (some t) = t

module _ {S : Type 0} (files : Files S) (content : S → String → Option String)
    (works : Works files content) (sink : CsvSink) where
  write_line-content :
      (path t : String) (r : Row) (s : S)
      → content s path ≡ some t
      → (s' : S) × (write_line files path r s ≡ (ok tt, s'))
        × (content s' path ≡ some (t <> line_of r))
  write_line-content path t r s h =
      let (s₁, e₁, c₁) = works.writes s path t (line_of r) h in
      let (s₂, e₂, c₂) = works.flushes s₁ path in (s₂, rw (e₁, e₂), c₂ ∙ c₁)

  write_rows-content :
      (path : String) (r : Row) (s : S) (before : Option String)
      → content s path ≡ some (text_in before)
      → (s' : S) × (write_rows files path r (not (is_some before)) s ≡ (ok tt, s'))
        × (content s' path ≡ some (started before <> line_of r))
  write_rows-content path r s none h =
      let (s₁, e₁, c₁) = works.writes s path "" csv_header h in
      let (s₂, e₂, c₂) = write_line-content path csv_header r s₁ c₁ in (s₂, rw (e₁, e₂), c₂)
  write_rows-content path r s (some t) h = write_line-content path t r s h

  create_parent-content :
      (parent : Option String) (s : S)
      → (s' : S) × (create_parent files parent s ≡ (true, s'))
        × ((p : String) → content s' p ≡ content s p)
  create_parent-content none s = (s, refl, λ p. refl)
  create_parent-content (some parent) s = works.creates s parent

  append-content :
      (r : Row) (s : S) (path : String)
      → filename_for sink r.slot r.date ≡ path
      → (s' : S) × (append files sink r s ≡ (ok tt, s'))
        × (content s' path ≡ some (started (content s path) <> line_of r))
  unfolding append
  append-content r s path same =
      let (s₁, e₁, c₁) = create_parent-content (parent_of path) s in
      let (s₂, e₂, c₂) = works.opens s₁ path in
      let told = works.tells s₁ path in
      let (s₃, e₃, c₃) =
        write_rows-content path r s₂ (content s path)
          (c₂ ∙ ap (λ (o : Option String). some (text_in o)) (c₁ path)) in
      (s₃, rw (same, e₁, told, c₁ path, e₂, e₃), c₃)

  -- The rows are all of the slot and day of one file.
  abbrev pub GoTo : String → List Row → Type 0
  GoTo path [] = Unit {0}
  GoTo path (r ∷ rs) = (filename_for sink r.slot r.date ≡ path) × GoTo path rs

  more-content :
      (path t : String) (rs : List Row) (s : S)
      → GoTo path rs
      → content s path ≡ some t
      → content (append_all files sink rs s) path ≡ some (t <> lines_of rs)
  unfolding append_all
  more-content path t [] s g h = rw (append-nil t) h
  more-content path t (r ∷ rs) s (same, g) h =
      let (s', e, c) = append-content r s path same in
      let c' : content s' path ≡ some (t <> line_of r) =
        c ∙ ap (λ (o : Option String). some (started o <> line_of r)) h in
      rw e (more-content path (t <> line_of r) rs s' g c')
      ∙ ap some (append_assoc t (line_of r) (lines_of rs))

  -- On a file system that works, rows of one slot and day end up in one file, in order, behind the
  -- header if the file was new and behind what it had if not: the header stands there once.
  pub append_all-content :
      (path : String) (r : Row) (rs : List Row) (s : S)
      → GoTo path (r ∷ rs)
      → content (append_all files sink (r ∷ rs) s) path
        ≡ some (started (content s path) <> lines_of (r ∷ rs))
  unfolding append_all
  append_all-content path r rs s (same, g) =
      let (s', e, c) = append-content r s path same in
      rw e (more-content path (started (content s path) <> line_of r) rs s' g c)
      ∙ ap some (append_assoc (started (content s path)) (line_of r) (lines_of rs))
