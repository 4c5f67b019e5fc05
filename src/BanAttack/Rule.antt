-- ===== src/BanAttack/Rule.antt =====
-- src/ban_attack/rule.rs: a rule of the configuration compiled, and a line matched against it. The
-- crates `regex` and `regex_automata` and the address parser of the standard library are fields of
-- `RegexEngine`. The cache of the automaton holds nothing that a match shows.
use router_hub.Common.{
  ℕ, zero, suc, String, Bool, true, false, ◌&&◌, List, [], ◌∷◌, Option, none, some, nat_beq,
  if◌then◌else◌, Map, has, ◌==◌, string_eq, Result, ok, err,
}
use router_hub.BanAttack.Net.{IpAddr}
use router_hub.BanAttack.Config.{RuleConfig}
use router_hub.BanAttack.Compiled.{is_blank}
pub mod Named

-- A search that fails is the `MatchError` of the automaton; the texts of errors are the crates'.
pub record RegexEngine (Dfa Regex : Type 0) : Type 0 where
  pub build_dfa : ℕ → String → Result String Dfa
  pub build_regex : ℕ → ℕ → String → Result String Regex
  pub capture_names : Regex → List (Option String)
  pub try_search_fwd : Dfa → String → Result String (Option ℕ)
  pub captures : Regex → String → Option (List (Option String))
  pub parse_ip : String → Option IpAddr

pub record CompiledRule (Dfa Regex : Type 0) : Type 0 where
  pub name : String
  pub weight : ℕ
  pub fast : Dfa
  pub regex : Regex
  pub ip_group_index : ℕ
  pub filters : List (ℕ × List String)

pub data RuleError : Type 0 where
  empty_name : RuleError
  zero_weight : String → RuleError
  bad_regex : String → String → RuleError
  no_ip_group : String → String → RuleError
  empty_values : String → String → RuleError
  unknown_group : String → String → RuleError

-- `capture_names().enumerate().filter_map(…)`, from the index `k` on.
unfoldable pub named_from : ℕ → List (Option String) → List (String × ℕ)
named_from k [] = []
named_from k (none ∷ names) = named_from (suc k) names
named_from k (some name ∷ names) = (name, k) ∷ named_from (suc k) names

-- `named_groups.iter().find_map(…)`.
unfoldable pub find_group : String → List (String × ℕ) → Option ℕ
find_group name [] = none
find_group name ((group, index) ∷ groups) =
    if group == name then some index else find_group name groups

-- The loop over `group_values`.
unfoldable pub compile_filters :
    String
    → List (String × ℕ)
    → Map String (List String)
    → Result RuleError (List (ℕ × List String))
compile_filters rule named [] = ok []
compile_filters rule named ((group, []) ∷ more) = err (empty_values rule group)
compile_filters rule named ((group, v ∷ values) ∷ more) = elim (find_group group named) [
  | none ↦ err (unknown_group rule group)
  | some index ↦ elim (compile_filters rule named more) [
    | err e ↦ err e
    | ok filters ↦ ok ((index, v ∷ values) ∷ filters)
  ]
]

-- `captures.get(i)`.
unfoldable pub nth_group : ℕ → List (Option String) → Option String
nth_group i [] = none
nth_group zero (text ∷ texts) = text
nth_group (suc i) (text ∷ texts) = nth_group i texts

-- The loop over `filters`.
unfoldable pub filters_pass : List (Option String) → List (ℕ × List String) → Bool
filters_pass texts [] = true
filters_pass texts ((index, allowed) ∷ filters) = elim (nth_group index texts) [
  | none ↦ false
  | some value ↦ has value allowed && filters_pass texts filters
]

module _ {Dfa Regex : Type 0} (engine : RegexEngine Dfa Regex) where
  -- `compile` once both automata are built.
  unfoldable pub compile_groups :
      RuleConfig → Dfa → Regex → Result RuleError (CompiledRule Dfa Regex)
  compile_groups config fast regex =
      let named = named_from 0 (engine.capture_names regex) in
      elim (find_group config.ip_group named) [
        | none ↦ err (no_ip_group config.name config.ip_group)
        | some ip_group_index ↦ elim (compile_filters config.name named config.group_values) [
          | err e ↦ err e
          | ok filters ↦ ok (record {
            name = config.name;
            weight = config.weight;
            fast = fast;
            regex = regex;
            ip_group_index = ip_group_index;
            filters = filters;
          })
        ]
      ]

  unfoldable pub compile : RuleConfig → ℕ → ℕ → Result RuleError (CompiledRule Dfa Regex)
  compile config dfa_cache_bytes regex_size_limit_bytes =
      if is_blank config.name
      then err empty_name
      else if nat_beq config.weight 0
      then err (zero_weight config.name)
      else elim (engine.build_dfa dfa_cache_bytes config.regex) [
        | err message ↦ err (bad_regex config.name message)
        | ok fast ↦ elim (engine.build_regex regex_size_limit_bytes dfa_cache_bytes config.regex) [
          | err message ↦ err (bad_regex config.name message)
          | ok regex ↦ compile_groups config fast regex
        ]
      ]

  -- `match_line` once the pattern is captured.
  unfoldable pub match_groups : CompiledRule Dfa Regex → List (Option String) → Option IpAddr
  match_groups rule texts =
      if filters_pass texts rule.filters
      then elim (nth_group rule.ip_group_index texts) [
        | none ↦ none
        | some text ↦ engine.parse_ip text
      ]
      else none

  unfoldable pub match_line : CompiledRule Dfa Regex → String → Result String (Option IpAddr)
  match_line rule line = elim (engine.try_search_fwd rule.fast line) [
    | err message ↦ err message
    | ok none ↦ ok none
    | ok (some end) ↦ elim (engine.captures rule.regex line) [
      | none ↦ ok none
      | some texts ↦ ok (match_groups rule texts)
    ]
  ]
