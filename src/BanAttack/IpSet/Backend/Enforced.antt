-- ===== src/BanAttack/IpSet/Backend/Enforced.antt =====
-- src/ban_attack/backend.rs: the exceptions that the kernel holds, against those that the backend keeps.
use router_hub.Common.{◌≡◌, Bool, true, false, ◌&&◌, List, has}
use router_hub.BanAttack.Net.{Externs, net_eq}
use router_hub.BanAttack.IpSet.{Tools, CommandIpSet}
use router_hub.BanAttack.IpSet.Backend.{Guarded}
use router_hub.BanAttack.IpSet.Backend.Exceptions.{IsBetween}
use router_hub.BanAttack.IpSet.Backend.Excepted.{ExceptionLaws}

module _ {Net FilePath K : Type 0} ⦃o : Externs Net⦄ (tools : Tools Net FilePath K)
    (ipset : CommandIpSet FilePath) (held : Net → K → Bool) where
  module _ (laws : ExceptionLaws tools ipset held) (real : ipset.test_mode ≡ false) where
    -- The kernel's exceptions and the backend's are the same.
    abbrev pub Agrees : Guarded tools ipset → Type 0
    Agrees w = (n : Net) → held n w.1 ≡ has n w.0

    -- What the backend keeps, the kernel holds, the listed networks apart.
    abbrev Backs : List Net → Guarded tools ipset → Type 0
    Backs ns w = (n : Net) → has n ns ≡ false → has n w.0 ≡ true → held n w.1 ≡ true

    -- After an error the kernel still holds what it held and was to keep, and the networks that the
    -- backend has noted.
    pub record IsStopped (before wanted : List Net) (w : Guarded tools ipset) : Type 0 where
      pub between : IsBetween tools ipset before wanted w
      pub backed : (n : Net) → (has n w.0 && has n wanted) ≡ true → held n w.1 ≡ true
