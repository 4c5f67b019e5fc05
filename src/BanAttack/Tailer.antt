-- ===== src/BanAttack/Tailer.antt =====
-- src/ban_attack/tailer.rs: one open log file, and the loop that cuts its bytes into lines.
pub mod Files
pub mod Tailers
pub mod Split
pub mod Lines
use router_hub.Common.{
  ℕ, suc, ◌+◌, Bool, true, false, List, [], ◌∷◌, ◌++◌, Option, none, some, leb, ltb, nat_beq,
  if◌then◌else◌, length, sat_add64, u64_max, min,
}

pub record FileId : Type 0 where
  pub device : ℕ
  pub inode : ℕ

-- The `file` of the source is the handle of the inode `id`. Times of modification are numbers.
pub record OpenFile : Type 0 where
  pub id : FileId
  pub offset : ℕ
  pub pending : List ℕ
  pub anchor : List ℕ
  pub last_len : ℕ
  pub last_modified : Option ℕ
  pub idle_polls : ℕ
  pub discarding_long_line : Bool
  pub dropped_line_count : ℕ

abbrev pub newline : ℕ
newline = b'\n'

abbrev pub carriage_return : ℕ
carriage_return = b'\r'

-- A line loses one carriage return at its end.
unfoldable pub trim_line_ending : List ℕ → List ℕ
trim_line_ending [] = []
trim_line_ending (c ∷ []) = if nat_beq c carriage_return then [] else c ∷ []
trim_line_ending (c ∷ d ∷ rest) = c ∷ trim_line_ending (d ∷ rest)

-- What one byte does to the file.
unfoldable pub take_byte : ℕ → ℕ → OpenFile → OpenFile
take_byte max_line_bytes byte f =
    let offset = sat_add64 f.offset 1 in
    if f.discarding_long_line
    then record f {
      offset = offset;
      discarding_long_line = if nat_beq byte newline then false else true;
    }
    else if nat_beq byte newline
    then record f { offset = offset; pending = [] }
    else if ltb (length f.pending) max_line_bytes
    then record f { offset = offset; pending = f.pending ++ byte ∷ [] }
    else record f {
      offset = offset;
      pending = [];
      discarding_long_line = true;
      dropped_line_count = sat_add64 f.dropped_line_count 1;
    }

-- The line that the byte completes.
unfoldable pub emitted : ℕ → OpenFile → List (List ℕ)
emitted byte f =
    if f.discarding_long_line
    then []
    else if nat_beq byte newline
    then trim_line_ending f.pending ∷ []
    else []

-- The loop of `read_complete_lines`: the lines, the file and the bytes consumed.
unfoldable pub feed : ℕ → ℕ → List ℕ → List (List ℕ) → OpenFile → List (List ℕ) × OpenFile × ℕ
feed max_lines max_line_bytes [] output f = (output, f, 0)
feed max_lines max_line_bytes (byte ∷ bytes) output f =
    let rest =
      feed max_lines max_line_bytes bytes (output ++ emitted byte f)
        (take_byte max_line_bytes byte f) in
    if leb max_lines (length output) then (output, f, 0) else (rest.0, rest.1, suc rest.2)
