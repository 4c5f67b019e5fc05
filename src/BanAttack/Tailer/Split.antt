-- ===== src/BanAttack/Tailer/Split.antt =====
-- src/ban_attack/tailer.rs: cutting bytes into lines, against a reference that knows no limits.
use router_hub.Common.{
  ℕ, zero, suc, ◌+◌, ◌≤◌, ◌<◌, ◌≡◌, refl, ◌∙◌, List, [], ◌∷◌, ◌++◌, leb, length, length-append,
  sat_add64, u64_max, arith, Bool-cases, inl, inr,
}
use mathlib.Core.List.{append_assoc}
use router_hub.BanAttack.Tailer.{OpenFile, take_byte, emitted, feed}

abbrev pub drop {ℓ} : {A : Type ℓ} → ℕ → List A → List A
drop zero xs = xs
drop (suc n) [] = []
drop (suc n) (x ∷ xs) = drop n xs

-- All lines of a run of bytes, and the file after them.
unfoldable pub scan : ℕ → List ℕ → OpenFile → List (List ℕ) × OpenFile
scan max_line_bytes [] f = ([], f)
scan max_line_bytes (byte ∷ bytes) f =
    let rest = scan max_line_bytes bytes (take_byte max_line_bytes byte f) in
    (emitted byte f ++ rest.0, rest.1)

-- The lines that a bounded read adds, followed by the lines of the bytes that it left, are the
-- lines of all the bytes, and the file ends in the same state: a limit on the lines neither loses
-- nor repeats any.
pub feed-scan :
    (max_lines max_line_bytes : ℕ) (bytes : List ℕ) (output : List (List ℕ)) (f : OpenFile)
    → let out = feed max_lines max_line_bytes bytes output f in
      let later = scan max_line_bytes (drop out.2 bytes) out.1 in
      let all = scan max_line_bytes bytes f in
      (out.0 ++ later.0 ≡ output ++ all.0) × (later.1 ≡ all.1)
unfolding feed scan
feed-scan max_lines max_line_bytes [] output f = (refl, refl)
feed-scan max_lines max_line_bytes (byte ∷ bytes) output f =
    elim (Bool-cases (leb max_lines (length output))) [
      | inl full ↦ rw (full, feed) (refl, refl)
      | inr room ↦
          let ih =
            feed-scan max_lines max_line_bytes bytes (output ++ emitted byte f)
              (take_byte max_line_bytes byte f) in
          rw (room, feed) (ih.0 ∙ append_assoc output (emitted byte f) _, ih.1)
    ]

-- Two runs of bytes give the lines of the one run that they make together.
pub scan-append :
    (max_line_bytes : ℕ) (xs ys : List ℕ) (f : OpenFile)
    → let first = scan max_line_bytes xs f in
      let second = scan max_line_bytes ys first.1 in
      (scan max_line_bytes (xs ++ ys) f ≡ (first.0 ++ second.0, second.1))
unfolding scan
scan-append max_line_bytes [] ys f = refl
scan-append max_line_bytes (byte ∷ xs) ys f =
    let ih = scan-append max_line_bytes xs ys (take_byte max_line_bytes byte f) in
    rw (ih, append_assoc) refl

length-emitted-le : (byte : ℕ) (f : OpenFile) → length (emitted byte f) ≤ 1
unfolding emitted
length-emitted-le byte f = ground arith

take_byte-offset : (m byte : ℕ) (f : OpenFile) → (take_byte m byte f).offset ≡ sat_add64 f.offset 1
unfolding take_byte
take_byte-offset m byte f = ground arith

-- A bounded read keeps to the limit on lines, consumes no byte that it was not given, and counts
-- every byte that it consumes in the offset, as long as the offset fits its 64 bits.
pub feed_bounds :
    (max_lines max_line_bytes : ℕ) (bytes : List ℕ) (output : List (List ℕ)) (f : OpenFile)
    → length output ≤ max_lines
    → f.offset + length bytes ≤ u64_max
    → let out = feed max_lines max_line_bytes bytes output f in
      (length out.0 ≤ max_lines) × (out.2 ≤ length bytes) × (out.1.offset ≡ f.offset + out.2)
unfolding feed sat_add64
feed_bounds max_lines max_line_bytes [] output f h k = omega arith
feed_bounds max_lines max_line_bytes (byte ∷ bytes) output f h k =
    elim (Bool-cases (leb max_lines (length output))) [
      | inl full ↦ rw (full, feed) (omega arith)
      | inr room ↦
          let step = take_byte-offset max_line_bytes byte f in
          let short = length-emitted-le byte f in
          let longer = length-append output (emitted byte f) in
          let below : length output < max_lines = ground arith in
          let ih =
            feed_bounds max_lines max_line_bytes bytes (output ++ emitted byte f)
              (take_byte max_line_bytes byte f) (omega arith) (omega arith) in
          rw (room, feed) (omega arith)
    ]
