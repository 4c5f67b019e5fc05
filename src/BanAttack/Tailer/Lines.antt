-- ===== src/BanAttack/Tailer/Lines.antt =====
-- src/ban_attack/tailer.rs: what the tailer delivers of a log that is written line by line.
use router_hub.Common.{
  All, ℕ, ◌+◌, ◌≤◌, ◌<◌, ◌≡◌, ◌≢◌, refl, sym, ap, ◌∙◌, Bool, true, false, List, [], ◌∷◌, ◌++◌, leb,
  ltb, if◌then◌else◌, length, length-append, sat_add64, arith, Bool-cases, inl, inr,
}
use mathlib.Core.List.{append_assoc, append-nil}
use router_hub.BanAttack.Tailer.{OpenFile, newline, trim_line_ending, take_byte, emitted}
use router_hub.BanAttack.Tailer.Split.{scan, scan-append}

abbrev pub HasNoNewline : List ℕ → Type 0
HasNoNewline = All (λ c. c ≢ newline)

-- The text of a log: every line with a newline behind it.
unfoldable pub text_of : List (List ℕ) → List ℕ
text_of [] = []
text_of (l ∷ ls) = l ++ newline ∷ text_of ls

-- Between two lines: nothing is pending, and nothing is being discarded.
pub record IsAtLineStart (f : OpenFile) : Type 0 where
  pub pending : f.pending ≡ []
  pub keeping : f.discarding_long_line ≡ false

-- The file after the bytes `l` of a line that fits.
abbrev IsKept : List ℕ → OpenFile → OpenFile → Type 0
IsKept l f g =
    (g.pending ≡ f.pending ++ l)
    × (g.discarding_long_line ≡ false)
    × (g.dropped_line_count ≡ f.dropped_line_count)

take_byte-IsKept :
    (m c : ℕ) (f : OpenFile)
    → c ≢ newline
    → length f.pending < m
    → f.discarding_long_line ≡ false
    → IsKept (c ∷ []) f (take_byte m c f) × (emitted c f ≡ [])
unfolding take_byte emitted
take_byte-IsKept m c f n k d = ground arith

scan_fitting :
    (m : ℕ) (l : List ℕ) (f : OpenFile)
    → HasNoNewline l
    → length f.pending + length l ≤ m
    → f.discarding_long_line ≡ false
    → ((scan m l f).0 ≡ []) × IsKept l f (scan m l f).1
unfolding scan
scan_fitting m [] f h k d = (refl, (sym (append-nil f.pending), d, refl))
scan_fitting m (c ∷ l) f (n, h) k d =
    let (step, quiet) = take_byte-IsKept m c f n (omega arith) d in
    let room = ap length step.0 ∙ length-append f.pending (c ∷ []) in
    let (out, rest) = scan_fitting m l (take_byte m c f) h (omega arith) step.1 in
    (
      rw (quiet, out),
      (rest.0 ∙ rw step.0 (append_assoc f.pending (c ∷ []) l), rest.1, rest.2 ∙ step.2),
    )

-- A line that fits is delivered, without its carriage return.
scan_line :
    (m : ℕ) (l : List ℕ) (f : OpenFile)
    → HasNoNewline l
    → length l ≤ m
    → IsAtLineStart f
    → let out = scan m (l ++ newline ∷ []) f in
      (out.0 ≡ trim_line_ending l ∷ [])
      × IsAtLineStart out.1
      × (out.1.dropped_line_count ≡ f.dropped_line_count)
unfolding scan take_byte emitted
scan_line m l f h k s =
    let (quiet, kept) = scan_fitting m l f h (ground arith) s.keeping in
    rw (scan-append m l (newline ∷ []) f) (ground (arith, s.pending))

-- The file after a line was given up: the rest of it is discarded.
abbrev GivenUp : ℕ → OpenFile → Type 0
GivenUp dropped g =
    (g.pending ≡ []) × (g.discarding_long_line ≡ true) × (g.dropped_line_count ≡ dropped)

discard_byte :
    (m c : ℕ) (f : OpenFile) (dropped : ℕ)
    → c ≢ newline
    → GivenUp dropped f
    → GivenUp dropped (take_byte m c f) × (emitted c f ≡ [])
unfolding take_byte emitted
discard_byte m c f dropped n s = ground arith

overflow_byte :
    (m c : ℕ) (f : OpenFile)
    → c ≢ newline
    → ltb (length f.pending) m ≡ false
    → f.discarding_long_line ≡ false
    → GivenUp (sat_add64 f.dropped_line_count 1) (take_byte m c f) × (emitted c f ≡ [])
unfolding take_byte emitted
overflow_byte m c f n full d = ground arith

scan_discarding :
    (m : ℕ) (l : List ℕ) (f : OpenFile) (dropped : ℕ)
    → HasNoNewline l
    → GivenUp dropped f
    → ((scan m l f).0 ≡ []) × GivenUp dropped (scan m l f).1
unfolding scan
scan_discarding m [] f dropped h s = (refl, s)
scan_discarding m (c ∷ l) f dropped (n, h) s =
    let (next, quiet) = discard_byte m c f dropped n s in
    let (out, rest) = scan_discarding m l (take_byte m c f) dropped h next in
    (rw (quiet, out), rest)

scan_too_long :
    (m : ℕ) (l : List ℕ) (f : OpenFile)
    → HasNoNewline l
    → length f.pending ≤ m
    → m < length f.pending + length l
    → f.discarding_long_line ≡ false
    → ((scan m l f).0 ≡ []) × GivenUp (sat_add64 f.dropped_line_count 1) (scan m l f).1
unfolding scan
scan_too_long m [] f h k over d = absurd (omega arith)
scan_too_long m (c ∷ l) f (n, h) k over d = elim (Bool-cases (ltb (length f.pending) m)) [
  | inl room ↦
      let (step, quiet) = take_byte-IsKept m c f n (ground arith) d in
      let more = ap length step.0 ∙ length-append f.pending (c ∷ []) in
      let (out, rest) = scan_too_long m l (take_byte m c f) h (ground arith) (omega arith) step.1 in
      (rw (quiet, out), (rest.0, rest.1, rest.2 ∙ ap (λ k. sat_add64 k 1) step.2))
  | inr full ↦
      let (step, quiet) = overflow_byte m c f n full d in
      let (out, rest) =
        scan_discarding m l (take_byte m c f) (sat_add64 f.dropped_line_count 1) h step in
      (rw (quiet, out), rest)
]

-- A line that is too long is given up whole, and counted once.
scan_long_line :
    (m : ℕ) (l : List ℕ) (f : OpenFile)
    → HasNoNewline l
    → m < length l
    → IsAtLineStart f
    → let out = scan m (l ++ newline ∷ []) f in
      (out.0 ≡ [])
      × IsAtLineStart out.1
      × (out.1.dropped_line_count ≡ sat_add64 f.dropped_line_count 1)
unfolding scan take_byte emitted
scan_long_line m l f h k s =
    let (quiet, left) = scan_too_long m l f h (ground arith) (ground arith) s.keeping in
    rw (scan-append m l (newline ∷ []) f) (ground arith)

unfoldable pub fits : ℕ → List ℕ → Bool
fits m l = leb (length l) m

unfoldable pub delivered : ℕ → List (List ℕ) → List (List ℕ)
delivered m [] = []
delivered m (l ∷ ls) = if fits m l then trim_line_ending l ∷ delivered m ls else delivered m ls

unfoldable pub dropped_after : ℕ → List (List ℕ) → ℕ → ℕ
dropped_after m [] n = n
dropped_after m (l ∷ ls) n = dropped_after m ls (if fits m l then n else sat_add64 n 1)

-- Of a log that is written line by line, read from the start of a line, the tailer delivers, in
-- order, every line that fits the limit, without one carriage return at its end; every other line is
-- dropped whole and counted once, and the file is at the start of a line again. No line holds a
-- newline itself.
pub scan-text_of :
    (m : ℕ) (ls : List (List ℕ)) (f : OpenFile)
    → All HasNoNewline ls
    → IsAtLineStart f
    → let out = scan m (text_of ls) f in
      (out.0 ≡ delivered m ls)
      × IsAtLineStart out.1
      × (out.1.dropped_line_count ≡ dropped_after m ls f.dropped_line_count)
unfolding text_of delivered dropped_after fits scan
scan-text_of m [] f h s = (refl, s, refl)
scan-text_of m (l ∷ ls) f (n, h) s = elim (Bool-cases (leb (length l) m)) [
  | inl short ↦
      let (one, start, count) = scan_line m l f n (ground arith) s in
      let (rest, end, total) = scan-text_of m ls (scan m (l ++ newline ∷ []) f).1 h start in
      rw (short, ← append_assoc l (newline ∷ []) (text_of ls), scan-append, one, rest, total, count)
        (refl, end, refl)
  | inr long ↦
      let (none_left, start, count) = scan_long_line m l f n (ground arith) s in
      let (rest, end, total) = scan-text_of m ls (scan m (l ++ newline ∷ []) f).1 h start in
      rw
        (
          long,
          ← append_assoc l (newline ∷ []) (text_of ls),
          scan-append,
          none_left,
          rest,
          total,
          count,
        )
        (refl, end, refl)
]
