-- ===== src/BanAttack/Compiled/Paths.antt =====
-- src/ban_attack/compiled.rs: the check of a log path, over what it asks of the file system.
use router_hub.Common.{
  ℕ, zero, suc, Bool, true, false, not, ◌||◌, List, Option, none, some, nat_beq, if◌then◌else◌,
  length, Result, ok, err, any,
}

pub data Component : Type 0 where
  parent_dir other_component : Component

pub record Metadata : Type 0 where
  pub is_symlink : Bool
  pub is_file : Bool

-- The methods of `Path` that the check calls. `canonicalize` is `None` where the source has `Err`.
pub record PathSystem (FilePath : Type 0) : Type 0 where
  pub is_absolute : FilePath → Bool
  pub chars : FilePath → List ℕ
  pub components : FilePath → List Component
  pub parent : FilePath → Option FilePath
  pub exists : FilePath → Bool
  pub canonicalize : FilePath → Option FilePath
  pub starts_with : FilePath → FilePath → Bool
  pub symlink_metadata : FilePath → Option Metadata

pub data PathError : Type 0 where
  not_absolute glob_characters parent_traversal no_existing_parent unresolved_parent : PathError
  outside_log_dirs not_inspected is_a_symlink not_a_regular_file : PathError

-- `"*?[]{}".contains(character)`.
unfoldable pub is_glob : ℕ → Bool
is_glob c =
    nat_beq c b'*'
    || nat_beq c b'?'
    || nat_beq c b'['
    || nat_beq c b']'
    || nat_beq c b'{'
    || nat_beq c b'}'

abbrev pub is_parent_dir : Component → Bool
is_parent_dir parent_dir = true
is_parent_dir other_component = false

module _ {FilePath : Type 0} (fs : PathSystem FilePath) where
  -- The loop of `nearest_existing`, on fuel: a path is longer than its parent.
  unfoldable pub nearest_from : ℕ → FilePath → Option FilePath
  nearest_from zero path = none
  nearest_from (suc fuel) path =
      if fs.exists path
      then some path
      else elim (fs.parent path) [ none ↦ none | some up ↦ nearest_from fuel up ]

  unfoldable pub nearest_existing : FilePath → Option FilePath
  nearest_existing path = nearest_from (suc (length (fs.chars path))) path

  -- `canonical_parent.starts_with(root.canonicalize()?)`.
  unfoldable pub is_below : FilePath → FilePath → Bool
  is_below canonical root = elim (fs.canonicalize root) [
    | none ↦ false
    | some canonical_root ↦ fs.starts_with canonical canonical_root
  ]

  -- The last part of the check: a path that exists is a regular file and no symbolic link.
  unfoldable pub check_target : FilePath → Result PathError (Unit {0})
  check_target path = if not (fs.exists path) then ok tt else elim (fs.symlink_metadata path) [
    | none ↦ err not_inspected
    | some meta ↦
        if meta.is_symlink
        then err is_a_symlink
        else if not meta.is_file
        then err not_a_regular_file
        else ok tt
  ]

  unfoldable pub check_parent : FilePath → List FilePath → Result PathError (Unit {0})
  check_parent path roots = elim (nearest_existing path) [
    | none ↦ err no_existing_parent
    | some parent ↦ elim (fs.canonicalize parent) [
      | none ↦ err unresolved_parent
      | some canonical ↦
          if not (any (is_below canonical) roots) then err outside_log_dirs else check_target path
    ]
  ]

  unfoldable pub validate_log_path : FilePath → List FilePath → Result PathError (Unit {0})
  validate_log_path path roots =
      if not (fs.is_absolute path)
      then err not_absolute
      else if any is_glob (fs.chars path)
      then err glob_characters
      else if any is_parent_dir (fs.components path)
      then err parent_traversal
      else check_parent path roots
