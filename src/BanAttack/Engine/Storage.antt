-- ===== src/BanAttack/Engine/Storage.antt =====
-- src/ban_attack/engine.rs: `load_state`, `save_state`, and when the worker saves.
use router_hub.Common.{
  ℕ, ◌-◌, Bool, true, false, not, List, Option, none, some, leb, nat_beq, if◌then◌else◌, Result, ok,
  err, M, ◌>>◌,
}
use router_hub.BanAttack.Net.{Externs}
use router_hub.BanAttack.Aggregate.Persist.{PersistentState, persistent_state}
use router_hub.BanAttack.Tailer.Files.{not_found}
use router_hub.BanAttack.Engine.{
  Disk, Outside, Worker, Site, StateError, unsupported_version, no_parent, not_saved, failed, emit,
}

module _ {Net FilePath E : Type 0} (out : Outside Net FilePath E) where
  abbrev disk : Disk Net FilePath E
  disk = out.disk

  -- `load_state` once the bytes are read.
  unfoldable pub parse_state : List ℕ → Result StateError (Option (PersistentState Net))
  parse_state bytes = elim (disk.from_slice bytes) [
    | err x ↦ err x
    | ok state ↦
        if nat_beq state.schema_version 1
        then ok (some state)
        else err (unsupported_version state.schema_version)
  ]

  unfoldable pub load_state : FilePath → E → Result StateError (Option (PersistentState Net)) × E
  load_state path e =
      let (read, e1) = disk.read path e in
      elim read [
        | err not_found ↦ (ok none, e1)
        | err x ↦ (err (out.text_of x), e1)
        | ok bytes ↦ (parse_state bytes, e1)
      ]

  -- The closure in `save_state` once the bytes are there.
  unfoldable pub publish : FilePath → FilePath → FilePath → List ℕ → M StateError E (Unit {0})
  publish directory temp path bytes = do
    disk.write_all temp bytes
    disk.sync_all temp
    disk.rename temp path
    disk.sync_directory directory

  unfoldable pub write_state :
      FilePath → FilePath → FilePath → PersistentState Net → M StateError E (Unit {0})
  write_state directory temp path state e = elim (disk.to_vec_pretty state) [
    | err x ↦ (err x, e)
    | ok bytes ↦ publish directory temp path bytes e
  ]

  -- `if result.is_err() { let _ = remove_file(&temp); }`.
  abbrev pub drop_temp :
      FilePath → Result StateError (Unit {0}) × E → Result StateError (Unit {0}) × E
  drop_temp temp (ok u, e) = (ok u, e)
  drop_temp temp (err x, e) = (err x, (disk.remove_file temp e).1)

  unfoldable pub save_in : FilePath → FilePath → PersistentState Net → M StateError E (Unit {0})
  save_in directory path state e =
      let (name, e1) = disk.new_v4 e in
      let temp = disk.temp_path directory path name in
      let rest : M StateError E (Unit {0}) = do
        disk.create_new temp
        λ e2. drop_temp temp (write_state directory temp path state e2)
      in rest e1

  unfoldable pub save_state : FilePath → PersistentState Net → M StateError E (Unit {0})
  save_state path state = elim (disk.parent path) [
    | none ↦ λ e. (err no_parent, e)
    | some directory ↦ do disk.create_dir_all directory; save_in directory path state
  ]

  module _ {Dfa Regex : Type 0} ⦃o : Externs Net⦄ where
    -- The guard of `save_persistence_if_configured`, which reads the clock only where it decides.
    unfoldable pub save_is_due : Bool → Worker Net FilePath Dfa Regex → E → Bool × E
    save_is_due force w e =
        if not w.dirty
        then (false, e)
        else if force
        then (true, e)
        else (let (now, e1) = out.instant_now e in
            (leb (o.seconds w.config.persist_interval) (now - w.last_persist), e1))

    unfoldable pub mark_saved : Site Net FilePath Dfa Regex E → Site Net FilePath Dfa Regex E
    mark_saved (w, e) =
        let (t, e1) = out.instant_now e in
        let (now, e2) = out.utc_now e1 in
        (
          record w {
            dirty = false;
            last_persist = t;
            health = record w.health { last_persist_at = some now };
          },
          e2,
        )

    abbrev pub after_save :
        Result StateError (Unit {0}) → Site Net FilePath Dfa Regex E → Site Net FilePath Dfa Regex E
    after_save (ok u) s = mark_saved s
    after_save (err x) s = emit out (failed none (not_saved x)) s

    unfoldable pub save_now : Site Net FilePath Dfa Regex E → Site Net FilePath Dfa Regex E
    save_now (w, e) = elim w.config.persistence_file [
      | none ↦ mark_saved (w, e)
      | some path ↦
          let (now, e1) = out.utc_now e in
          let (r, e2) = save_state path (persistent_state out.name_lt now w.aggregator) e1 in
          after_save r (w, e2)
    ]

    unfoldable pub save_persistence_if_configured :
        Bool → Site Net FilePath Dfa Regex E → Site Net FilePath Dfa Regex E
    save_persistence_if_configured force (w, e) =
        let (due, e1) = save_is_due force w e in if due then save_now (w, e1) else (w, e1)
