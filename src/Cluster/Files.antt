-- ===== src/Cluster/Files.antt =====
-- The file helpers of cluster/utils.go over a file system that is a parameter, and what they answer to
-- the root directory of `Start`.
use etcdlabs.Prelude.{
  ℕ, ◌≡◌, ◌≢◌, ap, ◌∙◌, Bool, true, false, Option, none, some, inl, inr, arith, Text, codes,
  Option-cases,
}
use etcdlabs.Cluster.Types.{good, Platform, Cluster}
use etcdlabs.Cluster.Build.{BuildEvent, prepare_root}

-- What the program uses of `os` and `ioutil`: `Stat`, `MkdirAll`, `WriteFile` and `Remove`, with their
-- errors.
pub record FileSystem : Type 1 where
  pub Disk : Type 0
  pub stat_error : Text → Disk → Option Text
  pub make_dirs : Text → ℕ → Disk → Disk × Option Text
  pub write_file : Text → Text → ℕ → Disk → Disk × Option Text
  pub remove_file : Text → Disk → Disk × Option Text

-- 0600 and 0700.
abbrev pub private_file_mode : ℕ
private_file_mode = 384

abbrev pub private_dir_mode : ℕ
private_dir_mode = 448

abbrev is_nil : Option Text → Bool
is_nil none = true
is_nil (some e) = false

module _ (fs : FileSystem) where
  open fs use {Disk, stat_error, make_dirs, write_file, remove_file}

  unfoldable pub exist_file_or_dir : Text → Disk → Bool
  exist_file_or_dir name d = is_nil (stat_error name d)

  unfoldable pub dir_writable : Platform → Text → Disk → Disk × Option Text
  dir_writable p dir d =
      let f = p.join_path dir (codes ".touch") in
      let (d', e) = write_file f (codes "") private_file_mode d in
      elim e [ some x ↦ (d', some x) | none ↦ remove_file f d' ]

  unfoldable pub mkdir_all : Platform → Text → Disk → Disk × Option Text
  unfolding dir_writable
  mkdir_all p dir d =
      let (d', e) = make_dirs dir private_dir_mode d in
      elim e [ some x ↦ (d', some x) | none ↦ dir_writable p dir d' ]

-- Calls that succeed do what they say, and leave the other names alone.
pub record IsFaithful (fs : FileSystem) : Type 0 where
  pub made :
      (dir : Text) (mode : ℕ) (d d' : fs.Disk)
      → fs.make_dirs dir mode d ≡ (d', none)
      → fs.stat_error dir d' ≡ none
  pub written_else :
      (f g text : Text) (mode : ℕ) (d d' : fs.Disk)
      → fs.write_file f text mode d ≡ (d', none)
      → g ≢ f
      → fs.stat_error g d' ≡ fs.stat_error g d
  pub removed :
      (f : Text) (d d' : fs.Disk) → fs.remove_file f d ≡ (d', none) → fs.stat_error f d' ≢ none
  pub removed_else :
      (f g : Text) (d d' : fs.Disk)
      → fs.remove_file f d ≡ (d', none)
      → g ≢ f
      → fs.stat_error g d' ≡ fs.stat_error g d

module _ (fs : FileSystem) (p : Platform) (dir : Text) where
  -- The three calls of a `mkdirAll` that succeeds.
  mkdir_all-inv :
      (d d' : fs.Disk)
      → mkdir_all fs p dir d ≡ (d', none)
      → let f = p.join_path dir (codes ".touch") in
        (d₁ : fs.Disk) × (d₂ : fs.Disk) × (fs.make_dirs dir private_dir_mode d ≡ (d₁, none))
        × (fs.write_file f (codes "") private_file_mode d₁ ≡ (d₂, none))
        × (fs.remove_file f d₂ ≡ (d', none))
  unfolding mkdir_all
  mkdir_all-inv d d' e =
      let made = fs.make_dirs dir private_dir_mode d in
      let f = p.join_path dir (codes ".touch") in
      let written = fs.write_file f (codes "") private_file_mode made.0 in
      elim (Option-cases made.1) [
        | inr (x, q) ↦ ground (arith, q)
        | inl q ↦ elim (Option-cases written.1) [
          | inr (x, r) ↦ ground (arith, q, r)
          | inl r ↦ (made.0, written.0, ground (arith, q), ground (arith, r), ground (arith, q, r))
        ]
      ]

  -- A `mkdirAll` without an error leaves the directory, and nothing of the file by which it has tried
  -- to write there.
  pub mkdir_all_lem :
      (d d' : fs.Disk)
      → IsFaithful fs
      → dir ≢ p.join_path dir (codes ".touch")
      → mkdir_all fs p dir d ≡ (d', none)
      → (exist_file_or_dir fs dir d' ≡ true)
        × (exist_file_or_dir fs (p.join_path dir (codes ".touch")) d' ≡ false)
  unfolding exist_file_or_dir
  mkdir_all_lem d d' ok other e =
      let f = p.join_path dir (codes ".touch") in
      let (d₁, d₂, m, w, r) = mkdir_all-inv d d' e in
      let there =
        ok.removed_else f dir d₂ d' r other
        ∙ ok.written_else f dir (codes "") private_file_mode d₁ d₂ w other
        ∙ ok.made dir private_dir_mode d d₁ m in
      (
        ap is_nil there,
        elim (Option-cases (fs.stat_error f d')) [
          | inl q ↦ absurd (ok.removed f d₂ d' r q)
          | inr (x, q) ↦ ap is_nil q
        ],
      )

  -- The answers that `Start` gets about its root directory.
  unfoldable pub asked : fs.Disk → BuildEvent → BuildEvent
  asked d ev = record ev {
    root_exists = exist_file_or_dir fs dir d;
    mkdir_error = (mkdir_all fs p dir d).1;
  }

  -- Behind a root directory that `Start` has prepared, and that was not there before, it is there.
  pub prepare_root-made :
      (d : fs.Disk) (ev : BuildEvent) (clus clus' : Cluster)
      → IsFaithful fs
      → dir ≢ p.join_path dir (codes ".touch")
      → exist_file_or_dir fs dir d ≡ false
      → prepare_root (asked d ev) clus ≡ good clus'
      → (clus' ≡ clus) × (exist_file_or_dir fs dir (mkdir_all fs p dir d).0 ≡ true)
  unfolding prepare_root asked
  prepare_root-made d ev clus clus' ok other absent e =
      elim (Option-cases (mkdir_all fs p dir d).1) [
        | inr (x, q) ↦ ground (arith, absent, q)
        | inl q ↦ (
          ground (arith, absent, q),
          (mkdir_all_lem d (mkdir_all fs p dir d).0 ok other (ground (arith, q))).0,
        )
      ]
