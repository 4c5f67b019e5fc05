-- ===== src/BanAttack/Rule/Named.antt =====
-- src/ban_attack/rule.rs: the indices of a compiled rule against the names in its configuration.
use router_hub.Common.{
  ℕ, suc, ◌-◌, ◌≤◌, String, ◌≡◌, refl, ap, Bool, true, false, ◌&&◌, List, [], ◌∷◌, Option, none,
  some, arith, if◌then◌else◌, nat_beq, Map, has, ◌==◌, string_eq, Result, ok, err, Bool-cases,
  Option-cases, Result-cases, inl, inr,
}
use router_hub.BanAttack.Net.{IpAddr}
use router_hub.BanAttack.Config.{RuleConfig}
use router_hub.BanAttack.Compiled.{is_blank}
use router_hub.BanAttack.Rule.{
  RegexEngine, CompiledRule, named_from, find_group, compile_filters, nth_group, filters_pass,
  compile_groups, compile, match_groups, match_line,
}

-- The text of the first group of that name: names and texts are read side by side.
unfoldable pub text_named : String → List (Option String) → List (Option String) → Option String
text_named name [] texts = none
text_named name (group ∷ groups) [] = none
text_named name (none ∷ groups) (text ∷ texts) = text_named name groups texts
text_named name (some group ∷ groups) (text ∷ texts) =
    let rest = text_named name groups texts in if group == name then text else rest

-- Every group of the configuration has one of its allowed values.
unfoldable pub values_allowed :
    Map String (List String) → List (Option String) → List (Option String) → Bool
values_allowed [] names texts = true
values_allowed ((group, allowed) ∷ more) names texts = elim (text_named group names texts) [
  | none ↦ false
  | some value ↦ has value allowed && values_allowed more names texts
]

find_group-le :
    (name : String) (k : ℕ) (names : List (Option String)) {i : ℕ}
    → find_group name (named_from k names) ≡ some i
    → k ≤ i
unfolding find_group named_from
find_group-le name k [] h = absurd (ground arith)
find_group-le name k (none ∷ names) {i} h =
    let later = find_group-le name (suc k) names {i = i} h in omega arith
find_group-le name k (some group ∷ names) {i} h = elim (Bool-cases (group == name)) [
  | inl here ↦ ground arith
  | inr there ↦ let later = find_group-le name (suc k) names {i = i} (rw there at h) in omega arith
]

-- What a found index selects is the text of the group of that name.
nth_group-find :
    (name : String) (k : ℕ) (names texts : List (Option String)) {i : ℕ}
    → find_group name (named_from k names) ≡ some i
    → nth_group (i - k) texts ≡ text_named name names texts
unfolding find_group named_from nth_group text_named
nth_group-find name k [] texts h = absurd (ground arith)
nth_group-find name k (group ∷ names) [] h = refl
nth_group-find name k (none ∷ names) (text ∷ texts) {i} h =
    let later = find_group-le name (suc k) names {i = i} h in
    let step : i - k ≡ suc (i - suc k) = omega arith in
    rw step (nth_group-find name (suc k) names texts {i = i} h)
nth_group-find name k (some group ∷ names) (text ∷ texts) {i} h =
    elim (Bool-cases (group == name)) [
      | inl here ↦ let same : i - k ≡ 0 = ground (arith, here) in rw (same, here) refl
      | inr there ↦
          let tail = rw there at h in
          let later = find_group-le name (suc k) names {i = i} tail in
          let step : i - k ≡ suc (i - suc k) = omega arith in
          rw (step, there) (nth_group-find name (suc k) names texts {i = i} tail)
    ]

find_group-text :
    (name : String) (names texts : List (Option String)) {i : ℕ}
    → find_group name (named_from 0 names) ≡ some i
    → nth_group i texts ≡ text_named name names texts
find_group-text name names texts {i} h =
    let start : i - 0 ≡ i = omega arith in rw start at (nth_group-find name 0 names texts {i = i} h)

abbrev ok_of : {E A : Type 0} → A → Result E A → A
ok_of d (ok a) = a
ok_of d (err e) = d

ok_inj : {E A : Type 0} {a b : A} → (let r : Result E A = ok a in r ≡ ok b) → a ≡ b
ok_inj {a} h = ap (ok_of a) h

filters_pass-compile :
    (rule : String) (names texts : List (Option String)) (more : Map String (List String))
    {filters : List (ℕ × List String)}
    → compile_filters rule (named_from 0 names) more ≡ ok filters
    → filters_pass texts filters ≡ values_allowed more names texts
unfolding compile_filters filters_pass values_allowed
filters_pass-compile rule names texts [] h = rw (← ok_inj h) refl
filters_pass-compile rule names texts ((group, []) ∷ more) h = absurd (ground arith)
filters_pass-compile rule names texts ((group, v ∷ values) ∷ more) {filters} h =
    elim (Option-cases (find_group group (named_from 0 names))) [
      | inl missing ↦ absurd (ground (arith, rw (missing, compile_filters) at h))
      | inr (index, found) ↦ elim (Result-cases (compile_filters rule (named_from 0 names) more)) [
        | inr (e, failed) ↦ absurd (ground (arith, rw (found, failed, compile_filters) at h))
        | inl (rest, compiled) ↦
            let same = ok_inj (rw (found, compiled, compile_filters) at h) in
            let tail = filters_pass-compile rule names texts more {filters = rest} compiled in
            let text : nth_group index texts ≡ text_named group names texts =
              find_group-text group names texts {i = index} found in
            rw (← same) (rw (text, filters_pass) (ground (arith, tail)))
      ]
    ]

module _ {Dfa Regex : Type 0} (engine : RegexEngine Dfa Regex) where
  -- What the configuration asks for: the address that the text of the group `ip_group` spells, if
  -- every group of `group_values` has one of its values.
  abbrev pub address_named :
      RuleConfig → List (Option String) → List (Option String) → Option IpAddr
  address_named config names texts =
      if values_allowed config.group_values names texts
      then elim (text_named config.ip_group names texts) [
        | none ↦ none
        | some text ↦ engine.parse_ip text
      ]
      else none

  match_groups-compile :
      (config : RuleConfig) (fast : Dfa) (regex : Regex) (texts : List (Option String))
      {rule : CompiledRule Dfa Regex}
      → compile_groups engine config fast regex ≡ ok rule
      → match_groups engine rule texts
        ≡ address_named config (engine.capture_names rule.regex) texts
  unfolding compile_groups match_groups
  match_groups-compile config fast regex texts {rule} h =
      let names = engine.capture_names regex in
      elim (Option-cases (find_group config.ip_group (named_from 0 names))) [
        | inl missing ↦ absurd (ground (arith, rw (missing, compile_groups) at h))
        | inr (index, found) ↦
            elim (Result-cases
              (compile_filters config.name (named_from 0 names) config.group_values)) [
                | inr (e, failed) ↦ absurd (ground (arith, rw (found, failed, compile_groups) at h))
                | inl (filters, compiled) ↦
                    let same = ok_inj (rw (found, compiled, compile_groups) at h) in
                    let tests =
                      filters_pass-compile config.name names texts config.group_values
                        {filters = filters} compiled in
                    let text : nth_group index texts ≡ text_named config.ip_group names texts =
                      find_group-text config.ip_group names texts {i = index} found in
                    rw (← same) (rw (tests, text) refl)
              ]
      ]

  -- A rule that compiles matches as its configuration says: where the automaton finds the pattern in
  -- the line and the pattern captures its groups, the answer of `match_line` is the address that
  -- the text of the group `ip_group` spells, if every group of `group_values` has one of its values,
  -- and no address otherwise.
  pub match_line-compile :
      (config : RuleConfig) (dfa_cache_bytes regex_size_limit_bytes : ℕ) (line : String)
      {rule : CompiledRule Dfa Regex} {end : ℕ} {texts : List (Option String)}
      → compile engine config dfa_cache_bytes regex_size_limit_bytes ≡ ok rule
      → engine.try_search_fwd rule.fast line ≡ ok (some end)
      → engine.captures rule.regex line ≡ some texts
      → match_line engine rule line
        ≡ ok (address_named config (engine.capture_names rule.regex) texts)
  unfolding compile match_line
  match_line-compile config c r line {rule} {end} {texts} h found captured =
      elim (Bool-cases (is_blank config.name)) [
        | inl blank ↦ absurd (ground (arith, rw (blank, compile) at h))
        | inr named ↦ elim (Bool-cases (nat_beq config.weight 0)) [
          | inl weightless ↦ absurd (ground (arith, rw (named, weightless, compile) at h))
          | inr weighted ↦ elim (Result-cases (engine.build_dfa c config.regex)) [
            | inr (m, failed) ↦ absurd (ground (arith, rw (named, weighted, failed, compile) at h))
            | inl (fast, built) ↦ elim (Result-cases (engine.build_regex r c config.regex)) [
              | inr (m, failed) ↦
                  absurd (ground (arith, rw (named, weighted, built, failed, compile) at h))
              | inl (regex, done) ↦
                  let groups = rw (named, weighted, built, done, compile) at h in
                  rw (found, captured, match_line)
                    (ap ok (match_groups-compile config fast regex texts {rule = rule} groups))
            ]
          ]
        ]
      ]
