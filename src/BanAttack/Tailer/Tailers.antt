-- ===== src/BanAttack/Tailer/Tailers.antt =====
-- src/ban_attack/tailer.rs: the tailer over all its paths.
use router_hub.Common.{
  ℕ, ◌+◌, ◌%◌, ◌^◌, ◌≡◌, refl, true, false, ◌||◌, List, [], ◌∷◌, map, none, some, arith, Eq, Map,
  get, contains_key, insert, retain, has, values, contains_key-insert, contains_key-retain, Result,
  ok, err,
}
use router_hub.BanAttack.Config.{StartAt}
use router_hub.BanAttack.CompiledConfig.{CompiledFile}
use router_hub.BanAttack.Tailer.Files.{
  FileSystem, PathState, IoError, open_file, read_lines_bounded,
}

-- `PathState::default()`.
abbrev pub no_state : PathState
no_state = record { active = none; retired = []; initialized = false }

abbrev pub sum : List ℕ → ℕ
sum [] = 0
sum (n ∷ ns) = n + sum ns

abbrev pub dropped_of : PathState → ℕ
dropped_of state =
    elim (state.active) [ none ↦ 0 | some file ↦ file.dropped_line_count ]
    + sum (map (λ file. file.dropped_line_count) state.retired)

module _ {FilePath : Type 0} ⦃e : Eq FilePath⦄ where
  -- The additions are those of `u64`, which wrap round.
  unfoldable pub dropped_line_count : Map FilePath PathState → ℕ
  dropped_line_count paths = sum (map dropped_of (values paths)) % 2 ^ 64

  -- `entry(path).or_default()`.
  abbrev pub state_of : FilePath → Map FilePath PathState → PathState
  state_of path paths = elim (get path paths) [ none ↦ no_state | some state ↦ state ]

  module _ (fs : FileSystem FilePath) where
    -- What one round of the loop of `sync` makes of the state of its file.
    unfoldable pub sync_state : FilePath → StartAt → PathState → PathState
    sync_state path start_at state = elim (state.active) [
      | some file ↦ state
      | none ↦ elim (open_file fs path start_at) [
        | err _ ↦ record state { initialized = true }
        | ok file ↦ record state { active = some file; initialized = true }
      ]
    ]

    unfoldable pub sync_files :
        {Dfa Regex : Type 0}
        → List (CompiledFile FilePath Dfa Regex)
        → Map FilePath PathState
        → Map FilePath PathState
    sync_files [] paths = paths
    sync_files (file ∷ files) paths =
        sync_files files
          (insert file.path (sync_state file.path file.start_at (state_of file.path paths)) paths)

    unfoldable pub sync :
        {Dfa Regex : Type 0}
        → List (CompiledFile FilePath Dfa Regex)
        → Map FilePath PathState
        → Map FilePath PathState
    sync files paths =
        sync_files files (retain (λ path _. has path (map (λ file. file.path) files)) paths)

    -- `read_lines_bounded` on the tailer: an error leaves the state of the path as it stood.
    unfoldable pub read_path :
        FilePath
        → StartAt
        → ℕ
        → ℕ
        → ℕ
        → Map FilePath PathState
        → Result IoError (List (List ℕ)) × Map FilePath PathState
    read_path path start max_bytes max_lines max_line_bytes paths =
        let out =
          read_lines_bounded fs path start max_bytes max_lines max_line_bytes
            (state_of path paths) in
        (out.0, insert path out.1 paths)

    module _ {Dfa Regex : Type 0} where
      contains_key-sync_files :
          (p : FilePath) (files : List (CompiledFile FilePath Dfa Regex))
          (paths : Map FilePath PathState)
          → contains_key p (sync_files files paths)
            ≡ (has p (map (λ file. file.path) files) || contains_key p paths)
      unfolding sync_files has
      contains_key-sync_files p [] paths = refl
      contains_key-sync_files p (file ∷ files) paths =
          let state = sync_state file.path file.start_at (state_of file.path paths) in
          ground (
            arith,
            contains_key-sync_files p files (insert file.path state paths),
            contains_key-insert file.path p state paths,
          )

      -- After `sync` the tailer keeps a state for the configured paths, and for no other path.
      pub contains_key-sync :
          (p : FilePath) (files : List (CompiledFile FilePath Dfa Regex))
          (paths : Map FilePath PathState)
          → contains_key p (sync files paths) ≡ has p (map (λ file. file.path) files)
      unfolding sync
      contains_key-sync p files paths =
          let listed = λ (path : FilePath). has path (map (λ file. file.path) files) in
          ground (
            arith,
            contains_key-sync_files p files (retain (λ path _. listed path) paths),
            contains_key-retain (λ path _. listed path) listed p paths (λ _ _. refl),
          )
