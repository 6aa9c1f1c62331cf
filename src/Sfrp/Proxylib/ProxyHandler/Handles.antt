-- ===== src/Sfrp/Proxylib/ProxyHandler/Handles.antt =====
-- About `handle_event` as a whole.
use switchflow.Sfrp.Proxylib.ProxyHandler.World.{World}
use switchflow.Sfrp.Proxylib.ProxyHandler.HandleEvent.{Result, minus_one, zero_result, no_return}
use switchflow.Sfrp.Proxylib.ProxyHandler.Contract.{Environment}
use switchflow.Sfrp.Proxylib.ProxyHandler.Invariant.{Plan, IsProxy}
use switchflow.Sfrp.Proxylib.ProxyHandler.Ends.{IsEnded, AsksForEvent}

module _ {H S Addr : Type 0} (e : Environment H S Addr) where
  open e use {os, sockets, lib, handler, streams}

  -- The call goes on without a result where the proxy is still in use.
  abbrev pub Handled : Plan → Result × World H S Addr → Type 0
  Handled plan (no_return, w) = IsProxy e plan w × AsksForEvent e w
  Handled plan (minus_one, w) = IsEnded e plan w
  Handled plan (zero_result, w) = IsEnded e plan w
