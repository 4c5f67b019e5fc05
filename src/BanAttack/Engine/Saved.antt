-- ===== src/BanAttack/Engine/Saved.antt =====
-- src/ban_attack/engine.rs: what `save_state` leaves on the disk.
use router_hub.Common.{
  ℕ, String, ◌≡◌, refl, ◌∙◌, ◌⊎◌, inl, inr, false, List, Option, some, Eq, ◌==◌, Option-cases,
  Result-cases, Ends-weaken, Result, ok, err, Ends, Triple, bind_rule, Ends-ok, Ends-of_reply,
}
use router_hub.BanAttack.Net.{Externs}
use router_hub.BanAttack.Aggregate.State.{Aggregator}
use router_hub.BanAttack.Aggregate.Persist.{PersistentState, persistent_state}
use router_hub.BanAttack.Engine.{Disk, Outside, StateError}
use router_hub.BanAttack.Engine.Storage.{
  parse_state, load_state, publish, write_state, drop_temp, save_in, save_state,
}

module _ {Net FilePath E : Type 0} ⦃eq : Eq FilePath⦄ (disk : Disk Net FilePath E) where
  -- What the worker relies on in the file system, where `content` is what a file holds. A file that is
  -- written is another than the one that is kept; a rename replaces the target at once or not at all.
  pub record DiskLaws (content : FilePath → E → Option (List ℕ)) : Type 0 where
    pub temp_differs : (d p : FilePath) (name : String) → (p == disk.temp_path d p name) ≡ false
    pub name_keeps : (p : FilePath) (x : E) → content p (disk.new_v4 x).1 ≡ content p x
    pub directories_keep :
        (p d : FilePath) (x : E) → content p (disk.create_dir_all d x).1 ≡ content p x
    pub create_keeps :
        (p q : FilePath) (x : E)
        → (p == q) ≡ false
        → content p (disk.create_new q x).1 ≡ content p x
    pub write_keeps :
        (p q : FilePath) (bytes : List ℕ) (x : E)
        → (p == q) ≡ false
        → content p (disk.write_all q bytes x).1 ≡ content p x
    pub written :
        (q : FilePath) (bytes : List ℕ) (x : E)
        → (disk.write_all q bytes x).0 ≡ ok tt
        → content q (disk.write_all q bytes x).1 ≡ some bytes
    pub sync_keeps : (p q : FilePath) (x : E) → content p (disk.sync_all q x).1 ≡ content p x
    pub renamed :
        (q p : FilePath) (x : E)
        → (disk.rename q p x).0 ≡ ok tt
        → content p (disk.rename q p x).1 ≡ content q x
    pub not_renamed :
        (q p : FilePath) (x : E) {bad : StateError}
        → (disk.rename q p x).0 ≡ err bad
        → content p (disk.rename q p x).1 ≡ content p x
    pub directory_sync_keeps :
        (p d : FilePath) (x : E) → content p (disk.sync_directory d x).1 ≡ content p x
    pub remove_keeps :
        (p q : FilePath) (x : E)
        → (p == q) ≡ false
        → content p (disk.remove_file q x).1 ≡ content p x
    pub read_gives :
        (p : FilePath) (bytes : List ℕ) (x : E)
        → content p x ≡ some bytes
        → (disk.read p x).0 ≡ ok bytes

module _ {Net FilePath E : Type 0} ⦃eq : Eq FilePath⦄ (out : Outside Net FilePath E)
    {content : FilePath → E → Option (List ℕ)} (laws : DiskLaws out.disk content) where
  module _ (path directory temp : FilePath) (differs : (path == temp) ≡ false) (bytes : List ℕ)
      (before : Option (List ℕ)) where
    abbrev Old : E → Type 0
    Old x = content path x ≡ before

    abbrev New : E → Type 0
    New x = content path x ≡ some bytes

    abbrev Either : E → Type 0
    Either x = Old x ⊎ New x

    -- The temporary file is complete, and the state file is the old one.
    abbrev Written : E → Type 0
    Written x = Old x × (content temp x ≡ some bytes)

    write_rule : Triple Old (out.disk.write_all temp bytes) (λ _. Written) Either
    write_rule x p =
        let keeps = laws.write_keeps path temp bytes x differs ∙ p in
        Ends-of_reply (λ _. Written) Either _ (λ u e. (keeps, laws.written temp bytes x e))
          (λ bad e. inl keeps)

    sync_rule : Triple Written (out.disk.sync_all temp) (λ _. Written) Either
    sync_rule x p =
        let keeps = laws.sync_keeps path temp x ∙ p.0 in
        Ends-of_reply (λ _. Written) Either _ (λ u e. (keeps, laws.sync_keeps temp temp x ∙ p.1))
          (λ bad e. inl keeps)

    rename_rule : Triple Written (out.disk.rename temp path) (λ _. New) Either
    rename_rule x p =
        Ends-of_reply (λ _. New) Either _ (λ u e. laws.renamed temp path x e ∙ p.1)
          (λ bad e. inl (laws.not_renamed temp path x e ∙ p.0))

    directory_rule : Triple New (out.disk.sync_directory directory) (λ _. New) Either
    directory_rule x p =
        let keeps = laws.directory_sync_keeps path directory x ∙ p in
        Ends-of_reply (λ _. New) Either _ (λ u e. keeps) (λ bad e. inr keeps)

    publish_rule : Triple Old (publish out directory temp path bytes) (λ _. New) Either
    unfolding publish
    publish_rule =
        bind_rule Old (λ _. Written) (λ _. New) Either (out.disk.write_all temp bytes) _ write_rule
          (λ _.
            bind_rule Written (λ _. Written) (λ _. New) Either (out.disk.sync_all temp) _ sync_rule
              (λ _.
                bind_rule Written (λ _. New) (λ _. New) Either (out.disk.rename temp path) _
                  rename_rule (λ _. directory_rule)))

    -- Removing the temporary file leaves the state file.
    drop_temp-Ends :
        (r : Result StateError (Unit {0}) × E)
        → Ends (λ _. New) Either r
        → Ends (λ _. New) Either (drop_temp out temp r)
    drop_temp-Ends (ok u, x) h = h
    drop_temp-Ends (err bad, x) h =
        let keeps = laws.remove_keeps path temp x differs in
        elim h [ inl old ↦ inl (keeps ∙ old) | inr new ↦ inr (keeps ∙ new) ]

  -- What a save leaves in the state file: the old content, or the whole of the new text.
  abbrev pub IsWhole : FilePath → PersistentState Net → Option (List ℕ) → E → Type 0
  IsWhole path state before x =
      (content path x ≡ before)
      ⊎ ((bytes : List ℕ) × (out.disk.to_vec_pretty state ≡ ok bytes)
          × (content path x ≡ some bytes))

  abbrev pub IsSaved : FilePath → PersistentState Net → E → Type 0
  IsSaved path state x =
      (bytes : List ℕ) × (out.disk.to_vec_pretty state ≡ ok bytes) × (content path x ≡ some bytes)

  module _ (path : FilePath) (state : PersistentState Net) (before : Option (List ℕ)) where
    abbrev Whole : E → Type 0
    Whole = IsWhole path state before

    write_state-Ends :
        (directory temp : FilePath) (x : E)
        → (path == temp) ≡ false
        → content path x ≡ before
        → Ends
            (λ _. IsSaved path state)
            Whole
            (drop_temp out temp (write_state out directory temp path state x))
    unfolding write_state
    write_state-Ends directory temp x differs old =
        elim (Result-cases (out.disk.to_vec_pretty state)) [
          | inr (bad, e) ↦ rw (e, write_state) (inl (laws.remove_keeps path temp x differs ∙ old))
          | inl (bytes, e) ↦
              rw (e, write_state)
                (Ends-weaken _ _ (λ _. IsSaved path state) Whole _ (λ _ y new. (bytes, e, new))
                  (λ y either. elim either [ inl same ↦ inl same | inr new ↦ inr (bytes, e, new) ])
                  (drop_temp-Ends path directory temp differs bytes before _
                    (publish_rule path directory temp differs bytes before x old)))
        ]

    save_in-Ends :
        (directory : FilePath) (x : E)
        → content path x ≡ before
        → Ends (λ _. IsSaved path state) Whole (save_in out directory path state x)
    unfolding save_in
    save_in-Ends directory x old =
        let (name, x1) = out.disk.new_v4 x in
        let temp = out.disk.temp_path directory path name in
        let differs = laws.temp_differs directory path name in
        bind_rule (λ y. content path y ≡ before) (λ _ y. content path y ≡ before)
          (λ _. IsSaved path state) Whole (out.disk.create_new temp)
          (λ _ y. drop_temp out temp (write_state out directory temp path state y))
          (λ y old.
            let keeps = laws.create_keeps path temp y differs ∙ old in
            Ends-of_reply (λ _ z. content path z ≡ before) Whole _ (λ _ _. keeps)
              (λ _ _. inl keeps))
          (λ _ y old. write_state-Ends directory temp y differs old) x1
          (laws.name_keeps path x ∙ old)

    -- Wherever `save_state` stops, and whatever the calls to the disk answer, the state file is whole:
    -- it holds what it held before, or the whole of the new text; where the save ends well, it holds
    -- the new text.
    pub save_state-IsWhole :
        (x : E)
        → content path x ≡ before
        → Ends (λ _. IsSaved path state) Whole (save_state out path state x)
    unfolding save_state
    save_state-IsWhole x old = elim (Option-cases (out.disk.parent path)) [
      | inl e ↦ rw (e, save_state) (inl old)
      | inr (directory, e) ↦
          rw (e, save_state)
            (bind_rule (λ y. content path y ≡ before) (λ _ y. content path y ≡ before)
              (λ _. IsSaved path state) Whole (out.disk.create_dir_all directory)
              (λ _. save_in out directory path state)
              (λ y old.
                let keeps = laws.directories_keep path directory y ∙ old in
                Ends-of_reply (λ _ z. content path z ≡ before) Whole _ (λ _ _. keeps)
                  (λ _ _. inl keeps))
              (λ _. save_in-Ends directory) x old)
    ]

  -- A state that was saved well is read back by the next start as it was, where `serde_json` reads
  -- what it wrote.
  pub load_state-save_state :
      ⦃o : Externs Net⦄ (path : FilePath) (now : ℕ) (g : Aggregator Net) (x : E)
      → let state = persistent_state out.name_lt now g in
        ((bytes : List ℕ)
          → out.disk.to_vec_pretty state ≡ ok bytes
          → out.disk.from_slice bytes ≡ ok state)
        → (save_state out path state x).0 ≡ ok tt
        → (load_state out path (save_state out path state x).1).0 ≡ ok (some state)
  unfolding load_state parse_state persistent_state
  load_state-save_state path now g x reads h =
      let state = persistent_state out.name_lt now g in
      let (bytes, encoded, stored) =
        Ends-ok (λ _. IsSaved path state) (Whole path state (content path x)) _
          (save_state-IsWhole path state (content path x) x refl) h in
      rw
        (
          laws.read_gives path bytes (save_state out path state x).1 stored,
          load_state,
          parse_state,
          reads bytes encoded,
        )
        refl
