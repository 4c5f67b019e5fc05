-- ===== src/BanAttack/Tailer/Files.antt =====
-- src/ban_attack/tailer.rs: opening, rotation, rewriting and retirement of the files of a path.
use router_hub.Common.{
  ℕ, ◌+◌, ◌-◌, Bool, true, false, not, ◌&&◌, ◌||◌, List, [], ◌∷◌, ◌++◌, Option, none, some, leb,
  ltb, nat_beq, if◌then◌else◌, length, min, Result, ok, err, M, ◌>>◌,
}
use router_hub.BanAttack.Config.{StartAt, beginning, at_end}
use router_hub.BanAttack.Tailer.{FileId, OpenFile, trim_line_ending, feed}

pub data IoError : Type 0 where
  not_found invalid_input other_error : IoError

pub record Metadata : Type 0 where
  pub id : FileId
  pub len : ℕ
  pub modified : Option ℕ
  pub is_file : Bool
  pub is_symlink : Bool

-- What one call sees of the file system. `metadata` follows a symbolic link at the end of the path
-- and `symlink_metadata` does not; `open` gives the inode of the handle; the others are calls
-- on a handle, and `read` may give fewer bytes than it is asked for.
pub record FileSystem (FilePath : Type 0) : Type 0 where
  pub metadata : FilePath → Result IoError Metadata
  pub symlink_metadata : FilePath → Result IoError Metadata
  pub open_handle : FilePath → Result IoError FileId
  pub handle_metadata : FileId → Result IoError Metadata
  pub read : FileId → ℕ → ℕ → Result IoError (List ℕ)
  pub seek : FileId → ℕ → Result IoError (Unit {0})
  pub read_exact : FileId → ℕ → ℕ → Result IoError (List ℕ)

pub record PathState : Type 0 where
  pub active : Option OpenFile
  pub retired : List OpenFile
  pub initialized : Bool

abbrev pub anchor_bytes : ℕ
anchor_bytes = 64

abbrev pub retired_idle_polls : ℕ
retired_idle_polls = 2

abbrev pub same_id : FileId → FileId → Bool
same_id a b = nat_beq a.device b.device && nat_beq a.inode b.inode

abbrev pub bytes_beq : List ℕ → List ℕ → Bool
bytes_beq [] [] = true
bytes_beq [] (y ∷ ys) = false
bytes_beq (x ∷ xs) [] = false
bytes_beq (x ∷ xs) (y ∷ ys) = nat_beq x y && bytes_beq xs ys

abbrev pub modified_beq : Option ℕ → Option ℕ → Bool
modified_beq none none = true
modified_beq none (some b) = false
modified_beq (some a) none = false
modified_beq (some a) (some b) = nat_beq a b

abbrev pub is_empty {ℓ} : {A : Type ℓ} → List A → Bool
is_empty [] = true
is_empty (x ∷ xs) = false

-- A pure `Result`, in the order of its calls.
abbrev bind : {A B : Type 0} → Result IoError A → (A → Result IoError B) → Result IoError B
bind (ok a) f = f a
bind (err e) f = err e

module _ {FilePath : Type 0} (fs : FileSystem FilePath) where
  unfoldable pub read_anchor : FileId → ℕ → Result IoError (List ℕ)
  read_anchor id offset =
      let len = min offset anchor_bytes in
      if nat_beq len 0 then ok [] else fs.read_exact id (offset - len) len

  -- `OpenFile::open`.
  unfoldable pub open_file : FilePath → StartAt → Result IoError OpenFile
  open_file path start_at = bind (fs.symlink_metadata path) λ before.
      if before.is_symlink
      then err invalid_input
      else if not before.is_file
      then err invalid_input
      else bind (fs.open_handle path) λ id. bind (fs.handle_metadata id) λ meta.
        if not meta.is_file || not (same_id before.id meta.id)
        then err invalid_input
        else let offset : ℕ = elim start_at [ beginning ↦ 0 | at_end ↦ meta.len ] in
          bind (read_anchor id offset) λ anchor. ok (record {
            id = meta.id;
            offset = offset;
            pending = [];
            anchor = anchor;
            last_len = meta.len;
            last_modified = meta.modified;
            idle_polls = 0;
            discarding_long_line = false;
            dropped_line_count = 0;
          })

  unfoldable pub reset : Metadata → OpenFile → OpenFile
  reset meta f = record f {
    offset = 0;
    pending = [];
    anchor = [];
    last_len = meta.len;
    last_modified = meta.modified;
    idle_polls = 0;
    discarding_long_line = false;
  }

  -- `Err` of the anchor's `read_exact` is taken for a rewrite; that of `seek` is an error.
  unfoldable pub was_rewritten : Metadata → OpenFile → Result IoError Bool
  was_rewritten meta f =
      let start = f.offset - length f.anchor in
      if ltb meta.len f.offset
      then ok true
      else if nat_beq meta.len f.last_len && modified_beq meta.modified f.last_modified
      then ok false
      else if is_empty f.anchor
      then ok false
      else elim (fs.seek f.id start) [
        | err e ↦ err e
        | ok _ ↦ elim (fs.read_exact f.id start (length f.anchor)) [
          | ok actual ↦ ok (not (bytes_beq actual f.anchor))
          | err e ↦ ok true
        ]
      ]

  -- `read_complete_lines`, over the file and the lines collected so far. What it has consumed stays
  -- consumed if one of the later calls fails. The result: was anything read, and how much was used.
  unfoldable pub read_complete_lines :
      ℕ → ℕ → ℕ → OpenFile × List (List ℕ) → Result IoError (Bool × ℕ) × (OpenFile × List (List ℕ))
  read_complete_lines max_bytes max_lines max_line_bytes (f, output) =
      elim (fs.read f.id f.offset max_bytes) [
        | err e ↦ (err e, (f, output))
        | ok bytes ↦
            let (lines, f1, consumed) = feed max_lines max_line_bytes bytes output f in
            elim (fs.handle_metadata f.id) [
              | err e ↦ (err e, (f1, lines))
              | ok meta ↦
                  let f2 = record f1 { last_len = meta.len; last_modified = meta.modified } in
                  if is_empty bytes
                  then (ok (false, consumed), (f2, lines))
                  else elim (read_anchor f2.id f2.offset) [
                    | err e ↦ (err e, (f2, lines))
                    | ok anchor ↦ (ok (true, consumed), (record f2 { anchor = anchor }, lines))
                  ]
            ]
      ]

  -- The first half of `read_lines_bounded`: `None` is a path that is not there.
  unfoldable pub rotate_missing : PathState → PathState
  rotate_missing state = elim state.active [
    | none ↦ state
    | some old ↦ record state { active = none; retired = state.retired ++ old ∷ [] }
  ]

  unfoldable pub first_open : FilePath → StartAt → PathState → Result IoError (Unit {0}) × PathState
  first_open path initial_start state =
      let start_at = if state.initialized then beginning else initial_start in
      elim (open_file path start_at) [
        | err e ↦ (err e, state)
        | ok f ↦ (ok tt, record state { active = some f; initialized = true })
      ]

  unfoldable pub follow :
      FilePath → Metadata → OpenFile → PathState → Result IoError (Unit {0}) × PathState
  follow path meta active state =
      if not (same_id active.id meta.id)
      then (let moved = record state { active = none; retired = state.retired ++ active ∷ [] } in
          elim (open_file path beginning) [
            | err e ↦ (err e, moved)
            | ok f ↦ (ok tt, record moved { active = some f })
          ])
      else elim (was_rewritten meta active) [
        | err e ↦ (err e, state)
        | ok rewritten ↦
            if rewritten
            then (ok tt, record state { active = some (reset meta active) })
            else (ok tt, state)
      ]

  unfoldable pub refresh : FilePath → StartAt → M IoError PathState (Unit {0})
  refresh path initial_start state = elim (fs.metadata path) [
    | err not_found ↦ (ok tt, rotate_missing state)
    | err e ↦ (err e, state)
    | ok meta ↦ elim state.active [
      | none ↦ first_open path initial_start state
      | some active ↦ follow path meta active state
    ]
  ]

  -- A retired file after a read: kept, or dropped with its last line once it has been idle.
  unfoldable pub retire : Bool → OpenFile × List (List ℕ) → Option OpenFile × List (List ℕ)
  retire read_any (f, lines) =
      let idle = if read_any then 0 else min (f.idle_polls + 1) 255 in
      if leb retired_idle_polls idle
      then (none, if is_empty f.pending then lines else lines ++ trim_line_ending f.pending ∷ [])
      else (some (record f { idle_polls = idle }), lines)

  -- The loop over the retired files: the bytes left, the files kept and the lines. An error leaves
  -- the loop, and the drained files are gone with it.
  unfoldable pub drain :
      ℕ
      → ℕ
      → List OpenFile
      → ℕ
      → List OpenFile
      → List (List ℕ)
      → Result IoError (ℕ × List OpenFile × List (List ℕ))
  drain max_lines max_line_bytes [] remaining retained lines = ok (remaining, retained, lines)
  drain max_lines max_line_bytes (f ∷ rest) remaining retained lines =
      if nat_beq remaining 0 || leb max_lines (length lines)
      then drain max_lines max_line_bytes rest remaining (retained ++ f ∷ []) lines
      else let out = read_complete_lines remaining max_lines max_line_bytes (f, lines) in
        bind out.0 λ reply.
          let (kept, lines') = retire reply.0 out.1 in
          drain max_lines max_line_bytes rest (remaining - reply.1)
            (elim kept [ none ↦ retained | some g ↦ retained ++ g ∷ [] ]) lines'

  -- The last read of `read_lines_bounded`, of the active file.
  unfoldable pub read_active : ℕ → ℕ → ℕ → List (List ℕ) → M IoError PathState (List (List ℕ))
  read_active remaining max_lines max_line_bytes lines state = elim state.active [
    | none ↦ (ok lines, state)
    | some f ↦
        if ltb 0 remaining && ltb (length lines) max_lines
        then (let out = read_complete_lines remaining max_lines max_line_bytes (f, lines) in
            let state' = record state { active = some out.1.0 } in
            elim out.0 [ err e ↦ (err e, state') | ok reply ↦ (ok out.1.1, state') ])
        else (ok lines, state)
  ]

  unfoldable pub read_lines_bounded :
      FilePath → StartAt → ℕ → ℕ → ℕ → M IoError PathState (List (List ℕ))
  read_lines_bounded path initial_start max_bytes max_lines max_line_bytes = do
    refresh path initial_start
    λ s. elim (drain max_lines max_line_bytes s.retired max_bytes [] []) [
      | err e ↦ (err e, record s { retired = [] })
      | ok left ↦ read_active left.0 max_lines max_line_bytes left.2 (record s { retired = left.1 })
    ]
