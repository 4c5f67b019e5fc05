-- ===== src/BanAttack/IpSet.antt =====
-- src/ban_attack/backend.rs: `CommandIpSet`, the backend that runs `ipset` and `iptables`. The state
-- `K` is the kernel's, with its sets and chains.
pub mod Backend
use Prim.Native.String.{◌++◌}
use router_hub.Common.{
  ℕ, ◌*◌, String, Bool, true, false, not, ◌&&◌, ◌||◌, List, [], ◌∷◌, Option, none, some, ltb,
  if◌then◌else◌, filterb, length, ok, err, Result, M, ◌>>=◌, ◌>>◌, pure, throw,
}
use router_hub.BanAttack.Net.{Externs, is_ipv4}
use router_hub.BanAttack.Config.{FirewallConfig, IpSetConfig}
use router_hub.BanAttack.Backend.{BanTarget, subnet, BackendError, message, target_is_ipv4}

pub record Invocation (FilePath : Type 0) : Type 0 where
  pub program : FilePath
  pub args : List String
  pub stdin : Option String

pub record Output : Type 0 where
  pub success : Bool
  pub stdout : String
  pub stderr : String

-- What the source takes from outside. `execute` starts the program, feeds it, waits for it until its
-- deadline and collects what it writes; `exited` and `conflict` are the texts of two errors, `entry`
-- is the text of a target, `show` that of a number, and `byte_len` the length of a text in bytes.
pub record Tools (Net FilePath K : Type 0) : Type 0 where
  pub execute : Invocation FilePath → K → Result BackendError Output × K
  pub exited : FilePath → Output → BackendError
  pub incompatible : String → BackendError
  pub conflict : Net → BackendError
  pub restore_failed : String → Output → BackendError
  pub entry : BanTarget Net → String
  pub show : ℕ → String
  pub contains : String → String → Bool
  pub byte_len : String → ℕ

pub record CommandIpSet (FilePath : Type 0) : Type 0 where
  pub config : IpSetConfig FilePath
  pub firewall : FirewallConfig FilePath
  pub test_mode : Bool

abbrev pub input_chain : String
input_chain = "ROUTER_HUB_INPUT"

abbrev pub forward_chain : String
forward_chain = "ROUTER_HUB_FORWARD"

abbrev pub rule_comment : String
rule_comment = "router-hub:ban-attack"

abbrev pub max_restore_bytes : ℕ
max_restore_bytes = 2 * 1024 * 1024

abbrev pub simulated_output : Output
simulated_output = record { success = true; stdout = ""; stderr = "" }

-- The rule of an owned chain, and the hook that leads to it.
abbrev pub drop_rule : String → List String
drop_rule set_name =
    "-m" ∷ "set" ∷ "--match-set" ∷ set_name ∷ "src" ∷ "-m" ∷ "comment" ∷ "--comment" ∷ rule_comment
    ∷ "-j" ∷ "DROP" ∷ []

abbrev pub hook_rule : String → List String
hook_rule owned = "-m" ∷ "comment" ∷ "--comment" ∷ rule_comment ∷ "-j" ∷ owned ∷ []

abbrev pub family_of : Bool → String
family_of v4 = if v4 then "inet" else "inet6"

module _ {Net FilePath K : Type 0} ⦃o : Externs Net⦄ (tools : Tools Net FilePath K)
    (ipset : CommandIpSet FilePath) where
  abbrev pub Run : Type 0 → Type 0
  Run A = M BackendError K A

  unfoldable pub is_too_long : Option String → Bool
  is_too_long none = false
  is_too_long (some text) = ltb max_restore_bytes (tools.byte_len text)

  -- `run_output`, around the run of the program.
  unfoldable pub run_output : FilePath → List String → Option String → Run Output
  run_output program args stdin k =
      if ipset.test_mode
      then (ok simulated_output, k)
      else if is_too_long stdin
      then (err (message "bounded command stdin exceeded"), k)
      else tools.execute (record { program = program; args = args; stdin = stdin }) k

  abbrev pub check_exit : FilePath → Output → Run (Unit {0})
  check_exit program output k =
      if output.success then (ok tt, k) else (err (tools.exited program output), k)

  unfoldable pub run_cmd : FilePath → List String → Run (Unit {0})
  run_cmd program args k =
      let rest : Run (Unit {0}) = run_output program args none >>= check_exit program in
      if ipset.test_mode then (ok tt, k) else rest k

  unfoldable pub command_succeeds : FilePath → List String → Run Bool
  command_succeeds program args = run_output program args none >>= λ output. pure output.success

  unfoldable pub run_ipset : List String → Run (Unit {0})
  run_ipset args = run_cmd ipset.config.command args

  unfoldable pub set_for : BanTarget Net → String
  set_for target = if target_is_ipv4 target then ipset.config.v4_set else ipset.config.v6_set

  abbrev pub create_args : String → String → List String
  create_args name family =
      "create"
      ∷ name
      ∷ "hash:net"
      ∷ "family"
      ∷ family
      ∷ "maxelem"
      ∷ tools.show ipset.config.max_entries
      ∷ []

  -- The check of the set that is there.
  abbrev pub check_set : String → String → Output → Run (Unit {0})
  check_set name family output k =
      if not output.success
        || not (tools.contains output.stdout "Type: hash:net")
        || not (tools.contains output.stdout ("family " ++ family))
        || not (tools.contains output.stdout ("maxelem " ++ tools.show ipset.config.max_entries))
      then (err (tools.incompatible name), k)
      else (ok tt, k)

  abbrev pub describe_set : String → String → Run (Unit {0})
  describe_set name family k =
      let rest : Run (Unit {0}) =
        run_output ipset.config.command ("list" ∷ name ∷ []) none >>= check_set name family in
      if ipset.test_mode then (ok tt, k) else rest k

  unfoldable pub ensure_set : String → String → Run (Unit {0})
  ensure_set name family = do
    run_ipset ("-exist" ∷ create_args name family)
    describe_set name family

  -- `if command_succeeds(check)? == wanted { run_cmd(args)?; }`.
  unfoldable pub run_if : Bool → FilePath → List String → List String → Run (Unit {0})
  run_if wanted program check args = command_succeeds program check >>= λ found k.
      if (if wanted then found else not found) then run_cmd program args k else (ok tt, k)

  unfoldable pub install_chain : FilePath → String → String → String → Run (Unit {0})
  install_chain command parent owned set_name = do
    run_if false command ("-nL" ∷ owned ∷ []) ("-N" ∷ owned ∷ [])
    run_if false command ("-C" ∷ owned ∷ drop_rule set_name)
        ("-I" ∷ owned ∷ "1" ∷ drop_rule set_name)
    run_if true command ("-C" ∷ parent ∷ hook_rule owned) ("-D" ∷ parent ∷ hook_rule owned)
    run_cmd command ("-I" ∷ parent ∷ "1" ∷ hook_rule owned)

  unfoldable pub ensure_owned_chain : FilePath → String → String → String → Run (Unit {0})
  ensure_owned_chain command parent owned set_name k =
      if ipset.test_mode then (ok tt, k) else install_chain command parent owned set_name k

  unfoldable pub remove_hook : FilePath → String → String → Run (Unit {0})
  remove_hook command parent owned k =
      if ipset.test_mode
      then (ok tt, k)
      else run_if true command ("-C" ∷ parent ∷ hook_rule owned) ("-D" ∷ parent ∷ hook_rule owned) k

  abbrev pub test_args : Net → List String
  test_args network =
      "test" ∷ set_for (subnet network) ∷ tools.entry (subnet network) ∷ "nomatch" ∷ []

  abbrev pub test_exception : Net → Run (Unit {0})
  test_exception network = run_output ipset.config.command (test_args network) none >>= λ output k.
      if output.success then (ok tt, k) else (err (tools.conflict network), k)

  unfoldable pub set_exception : Net → Run (Unit {0})
  set_exception network =
      let test : Run (Unit {0}) =
        λ k. if ipset.test_mode then (ok tt, k) else test_exception network k in
      run_ipset (
        "-exist" ∷ "add" ∷ set_for (subnet network) ∷ tools.entry (subnet network) ∷ "nomatch" ∷ [])
      >> test

  abbrev pub delete_entry : Net → Run (Unit {0})
  delete_entry network = run_output ipset.config.command (test_args network) none >>= λ output k.
      if output.success
      then run_ipset
          ("-exist" ∷ "del" ∷ set_for (subnet network) ∷ tools.entry (subnet network) ∷ []) k
      else (ok tt, k)

  unfoldable pub remove_exception : Net → Run (Unit {0})
  remove_exception network k = if ipset.test_mode then (ok tt, k) else delete_entry network k

  -- The lines of the restored text: the bans, then the exceptions.
  abbrev pub restore_line : String → String × Bool → String
  restore_line stage (entry, nomatch) =
      "add " ++ stage ++ " " ++ entry ++ (if nomatch then " nomatch\n" else "\n")

  unfoldable pub restore_text : String → List (String × Bool) → String
  restore_text stage [] = ""
  restore_text stage (line ∷ lines) = restore_line stage line ++ restore_text stage lines

  abbrev pub in_family : Bool → BanTarget Net → Bool
  in_family v4 target = if v4 then target_is_ipv4 target else not (target_is_ipv4 target)
