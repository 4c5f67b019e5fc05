-- ===== src/Examples/Kernels.antt =====
-- src/ban_attack/backend.rs: the theorems on the backend that runs commands, at concrete inputs.
use router_hub.Common.{
  ℕ, suc, ◌&&◌, ◌||◌, String, ◌≡◌, refl, ◌⊎◌, inr, Bool, true, false, List, [], ◌∷◌, Option, none,
  some, length, filterb, if◌then◌else◌, ◌==◌, string_eq, ok, Result, Ends,
}
use router_hub.BanAttack.Net.{net_eq}
use router_hub.BanAttack.Backend.{ip, subnet, BackendError, message}
use router_hub.BanAttack.IpSet.{
  Tools, CommandIpSet, Invocation, Output, simulated_output, restore_text, in_family, hook_rule,
  input_chain, forward_chain,
}
use router_hub.BanAttack.IpSet.Backend.{restore_lines, restore_family}
use router_hub.BanAttack.IpSet.Backend.Staged.{IpsetLaws, restore_family-IsWhole}
use router_hub.BanAttack.IpSet.Backend.Quiet.{hook_call, HoldsAfter, command_backend-HoldsAfter}
use router_hub.Examples.Fixtures.{Network, networks, attacker, attackers_net}

-- The tools around a way to run a program.
abbrev tools_of :
    {K : Type 0} → (Invocation ℕ → K → Result BackendError Output × K) → Tools Network ℕ K
tools_of execute = record {
  execute = execute;
  exited = λ _ _. message "exited";
  incompatible = λ _. message "incompatible";
  conflict = λ _. message "conflict";
  restore_failed = λ _ _. message "restore failed";
  entry = λ _. "192.0.2.0/24";
  show = λ _. "100";
  contains = λ _ _. true;
  byte_len = λ _. 10;
}

abbrev pub ipset_with : Bool → CommandIpSet ℕ
ipset_with observe_only = record {
  config = record { command = 3; v4_set = "live4"; v6_set = "live6"; max_entries = 100 };
  firewall = record {
    enabled = true;
    observe_only = observe_only;
    iptables_command = 1;
    ip6tables_command = 2;
    protect_input = true;
    protect_forward = true;
    reverify_interval_seconds = 60;
    command_timeout_seconds = 5;
  };
  test_mode = false;
}

-- A kernel with one live set and its stage, each of which holds the text that filled it.
record TwoSets : Type 0 where
  live : String
  stage : String

abbrev stage_name : String
stage_name = "router_hub_stage4"

abbrev text_or_empty : Option String → String
text_or_empty none = ""
text_or_empty (some text) = text

abbrev interpret : List String → Option String → TwoSets → TwoSets
interpret [] stdin k = k
interpret (verb ∷ rest) stdin k =
    if verb == "swap"
    then record { live = k.stage; stage = k.live }
    else if verb == "create"
    then record k { stage = "" }
    else if verb == "restore"
    then record k { stage = text_or_empty stdin }
    else k

abbrev staging : Tools Network ℕ TwoSets
staging = tools_of (λ call k. (ok simulated_output, interpret call.args call.stdin k))

abbrev content : String → TwoSets → String
content name k = if name == stage_name then k.stage else k.live

abbrev filled : List (String × Bool) → String
filled lines = restore_text staging (ipset_with false) stage_name lines

staging-IpsetLaws : IpsetLaws staging (ipset_with false) content filled "live4" stage_name
unfolding restore_text
staging-IpsetLaws = record {
  destroy_keeps = λ k. refl;
  create_keeps = λ v4 k. refl;
  created = λ v4 k out e good. refl;
  restore_keeps = λ lines k. refl;
  restored = λ lines k out new e good. refl;
  swapped_or_not = λ k. inr refl;
  swapped = λ k out e good. refl;
}

restore_family-IsWhole_example :
    let kernel : TwoSets = record { live = "old"; stage = "" } in
    let ts = ip attacker ∷ subnet attackers_net ∷ [] in
    let lines = restore_lines staging (ipset_with false) true ts [] in
    Ends
      (λ n k.
        (n ≡ length (filterb (in_family staging (ipset_with false) true) ts))
        × (content "live4" k ≡ filled lines))
      (λ k. (content "live4" k ≡ "old") ⊎ (content "live4" k ≡ filled lines))
      (restore_family staging (ipset_with false) "live4" stage_name true ts [] kernel)
restore_family-IsWhole_example =
    restore_family-IsWhole staging (ipset_with false) refl "live4" stage_name true
      (ip attacker ∷ subnet attackers_net ∷ []) [] (record { live = "old"; stage = "" })
      staging-IpsetLaws

abbrev is_rule : List String → List String → Bool
is_rule [] [] = true
is_rule (x ∷ xs) (y ∷ ys) = x == y && is_rule xs ys
is_rule xs ys = false

-- A kernel that counts the commands other than questions for a hook of the backend and deletions.
abbrev is_hook_call : List String → Bool
is_hook_call (verb ∷ parent ∷ rule) =
    (verb == "-C" || verb == "-D")
    && ((parent == "INPUT" && is_rule rule (hook_rule input_chain))
        || (parent == "FORWARD" && is_rule rule (hook_rule forward_chain)))
is_hook_call args = false

abbrev counting : Tools Network ℕ ℕ
counting = tools_of (λ call k. (ok simulated_output, if is_hook_call call.args then k else suc k))

uncounted :
    (delete v6 forward : Bool) (k : ℕ)
    → k ≡ 0
    → (counting.execute (hook_call (ipset_with true) delete v6 forward) k).1 ≡ 0
uncounted false v6 false k zero_yet = zero_yet
uncounted false v6 true k zero_yet = zero_yet
uncounted true v6 false k zero_yet = zero_yet
uncounted true v6 true k zero_yet = zero_yet

command_backend-HoldsAfter_example :
    HoldsAfter counting (ipset_with true) (λ k. k ≡ 0) uncounted ([], 0)
command_backend-HoldsAfter_example =
    command_backend-HoldsAfter counting (ipset_with true) (λ k. k ≡ 0) uncounted ([], 0) refl refl
