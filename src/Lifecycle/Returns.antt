-- ===== src/Lifecycle/Returns.antt =====
-- ttp/commands/lifecycle.py: when `do_stop` returns.
use transparent_tor_proxy.Base.{Bool, true, false}
use transparent_tor_proxy.Firewall.Runner.{returned, Ending}
use transparent_tor_proxy.Session.World.{World}
use transparent_tor_proxy.Lifecycle.{Keys, Outside}
use transparent_tor_proxy.Lifecycle.Passes.{Passes}

module _ (had : Bool) (keys : Keys) (a : Outside) where
  abbrev is_returned : Ending → Bool
  is_returned returned = true
  is_returned _ = false
