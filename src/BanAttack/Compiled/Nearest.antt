-- ===== src/BanAttack/Compiled/Nearest.antt =====
-- src/ban_attack/compiled.rs: the loop of `nearest_existing` and its fuel.
use router_hub.Common.{
  ℕ, zero, suc, ◌<◌, ◌≡◌, refl, none, some, arith, if◌then◌else◌, length, Option-cases, inl, inr,
}
use router_hub.BanAttack.Compiled.Paths.{PathSystem, nearest_from, nearest_existing}

module _ {FilePath : Type 0} (fs : PathSystem FilePath)
    (shorter : (path up : FilePath)
      → fs.parent path ≡ some up
      → length (fs.chars up) < length (fs.chars path)) where
  -- Any fuel beyond the length of the path gives the same answer.
  enough_fuel :
      (m n : ℕ) (path : FilePath)
      → length (fs.chars path) < m
      → length (fs.chars path) < n
      → nearest_from fs m path ≡ nearest_from fs n path
  unfolding nearest_from
  enough_fuel zero n path h k = absurd (omega arith)
  enough_fuel (suc m) zero path h k = absurd (omega arith)
  enough_fuel (suc m) (suc n) path h k = elim (Option-cases (fs.parent path)) [
    | inl top ↦ rw (top, nearest_from) refl
    | inr (up, found) ↦
        let less = shorter path up found in
        rw (found, nearest_from, enough_fuel m n up (omega arith) (omega arith)) refl
  ]

  -- Where every path is longer than its parent, `nearest_existing` is what the loop of the source
  -- computes, with no bound on its rounds: the path itself if it exists, else the answer for the
  -- parent, and none above the last one.
  pub nearest_existing-loop :
      (path : FilePath)
      → nearest_existing fs path ≡ (
          if fs.exists path
          then some path
          else elim (fs.parent path) [ none ↦ none | some up ↦ nearest_existing fs up ])
  unfolding nearest_existing nearest_from
  nearest_existing-loop path = elim (Option-cases (fs.parent path)) [
    | inl top ↦ rw top refl
    | inr (up, found) ↦
        let less = shorter path up found in
        rw
          (
            found,
            enough_fuel (length (fs.chars path)) (suc (length (fs.chars up))) up (omega arith)
                (omega arith),
          )
          refl
  ]
