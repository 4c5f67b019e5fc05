-- ===== src/BanAttack/CompiledConfig.antt =====
-- src/ban_attack/compiled.rs: a configuration that is accepted, with its rules compiled.
use router_hub.Common.{
  ℕ, ◌≡◌, Bool, List, [], ◌∷◌, map, Option, arith, Eq, any, Result, ok, err, Result-cases, inl, inr,
}
use router_hub.BanAttack.Net.{IpAddr, Externs}
use router_hub.BanAttack.Config.{
  AggregationConfig, FirewallConfig, IpSetConfig, StartAt, RuleConfig, FileConfig, Config,
}
use router_hub.BanAttack.Compiled.{ConfigError, validate}
use router_hub.BanAttack.Compiled.Paths.{PathSystem}
use router_hub.BanAttack.Rule.{RegexEngine, CompiledRule, RuleError, compile}

pub record CompiledFile (FilePath Dfa Regex : Type 0) : Type 0 where
  pub path : FilePath
  pub start_at : StartAt
  pub rules : List (CompiledRule Dfa Regex)

-- A `Duration` is a number of milliseconds in `poll_interval`, and of seconds in the other two.
pub record CompiledConfig (Net FilePath Dfa Regex : Type 0) : Type 0 where
  pub poll_interval : ℕ
  pub persistence_file : Option FilePath
  pub persist_interval : ℕ
  pub cleanup_interval : ℕ
  pub max_status_entries : ℕ
  pub max_read_bytes_per_file_poll : ℕ
  pub max_lines_per_file_poll : ℕ
  pub max_line_bytes : ℕ
  pub firewall : FirewallConfig FilePath
  pub aggregation : AggregationConfig
  pub ipset : IpSetConfig FilePath
  pub exceptions : List Net
  pub files : List (CompiledFile FilePath Dfa Regex)

pub data CompileError (FilePath : Type 0) : Type 0 where
  refused : ConfigError FilePath → CompileError FilePath
  bad_rule : RuleError → CompileError FilePath

module _ {Dfa Regex : Type 0} (engine : RegexEngine Dfa Regex) where
  -- The inner loop.
  unfoldable pub compile_rules :
      ℕ → ℕ → List RuleConfig → Result RuleError (List (CompiledRule Dfa Regex))
  compile_rules dfa size [] = ok []
  compile_rules dfa size (rule ∷ rules) = elim (compile engine rule dfa size) [
    | err e ↦ err e
    | ok first ↦ elim (compile_rules dfa size rules) [ err e ↦ err e | ok rest ↦ ok (first ∷ rest) ]
  ]

  -- The outer loop.
  unfoldable pub compile_files :
      {FilePath : Type 0}
      → ℕ
      → ℕ
      → List (FileConfig FilePath)
      → Result RuleError (List (CompiledFile FilePath Dfa Regex))
  compile_files dfa size [] = ok []
  compile_files dfa size (file ∷ files) = elim (compile_rules dfa size file.rules) [
    | err e ↦ err e
    | ok rules ↦ elim (compile_files dfa size files) [
      | err e ↦ err e
      | ok rest ↦ ok (record { path = file.path; start_at = file.start_at; rules = rules } ∷ rest)
    ]
  ]

  module _ {Net FilePath : Type 0} ⦃e : Eq FilePath⦄ (fs : PathSystem FilePath) where
    -- The compiled configuration around the files.
    abbrev pub with_files :
        Config Net FilePath
        → List (CompiledFile FilePath Dfa Regex)
        → CompiledConfig Net FilePath Dfa Regex
    with_files config files = record {
      poll_interval = config.poll_interval_ms;
      persistence_file = config.persistence_file;
      persist_interval = config.persist_interval_seconds;
      cleanup_interval = config.cleanup_interval_seconds;
      max_status_entries = config.max_status_entries;
      max_read_bytes_per_file_poll = config.max_read_bytes_per_file_poll;
      max_lines_per_file_poll = config.max_lines_per_file_poll;
      max_line_bytes = config.max_line_bytes;
      firewall = config.firewall;
      aggregation = config.aggregation;
      ipset = config.ipset;
      exceptions = config.exceptions;
      files = files;
    }

    unfoldable pub compile_config :
        Config Net FilePath → Result (CompileError FilePath) (CompiledConfig Net FilePath Dfa Regex)
    compile_config config = elim (validate fs config) [
      | err e ↦ err (refused e)
      | ok _ ↦
          elim (compile_files config.regex_dfa_cache_bytes config.regex_size_limit_bytes
            config.files) [ err e ↦ err (bad_rule e) | ok files ↦ ok (with_files config files) ]
    ]

unfoldable pub excludes :
    {Net FilePath Dfa Regex : Type 0} ⦃o : Externs Net⦄
    → CompiledConfig Net FilePath Dfa Regex
    → IpAddr
    → Bool
excludes ⦃o⦄ config a = any (λ n. o.contains n a) config.exceptions

module _ {FilePath Dfa Regex : Type 0} (engine : RegexEngine Dfa Regex) where
  compile_files-paths :
      (dfa size : ℕ) (files : List (FileConfig FilePath))
      {compiled : List (CompiledFile FilePath Dfa Regex)}
      → compile_files engine dfa size files ≡ ok compiled
      → map (λ file. file.path) compiled ≡ map (λ file. file.path) files
  unfolding compile_files
  compile_files-paths dfa size [] h = ground (arith, h)
  compile_files-paths dfa size (file ∷ files) {compiled} h =
      elim (Result-cases (compile_rules engine dfa size file.rules)) [
        | inr (e, failed) ↦ absurd (ground (arith, rw (failed, compile_files) at h))
        | inl (rules, good) ↦ elim (Result-cases (compile_files engine dfa size files)) [
          | inr (e, failed) ↦ absurd (ground (arith, rw (good, failed, compile_files) at h))
          | inl (rest, done) ↦
              let ih = compile_files-paths dfa size files {compiled = rest} done in
              let whole = rw (good, done, compile_files) at h in ground (arith, ih, whole)
        ]
      ]

  -- A configuration that compiles has passed `validate`, and its compiled files have the paths of
  -- its files, in their order.
  pub compile_config-paths :
      {Net : Type 0} ⦃e : Eq FilePath⦄ (fs : PathSystem FilePath) (config : Config Net FilePath)
      {compiled : CompiledConfig Net FilePath Dfa Regex}
      → compile_config engine fs config ≡ ok compiled
      → (validate fs config ≡ ok tt)
        × (map (λ file. file.path) compiled.files ≡ map (λ file. file.path) config.files)
  unfolding compile_config
  compile_config-paths fs config {compiled} h = elim (Result-cases (validate fs config)) [
    | inr (e, failed) ↦ absurd (ground (arith, rw (failed, compile_config) at h))
    | inl (u, good) ↦
        let dfa = config.regex_dfa_cache_bytes in
        let size = config.regex_size_limit_bytes in
        elim (Result-cases (compile_files engine dfa size config.files)) [
          | inr (e, failed) ↦ absurd (ground (arith, rw (good, failed, compile_config) at h))
          | inl (files, done) ↦
              let whole = rw (good, done, compile_config) at h in
              let paths = compile_files-paths dfa size config.files {compiled = files} done in
              (ground (arith, good), ground (arith, whole, paths))
        ]
  ]
