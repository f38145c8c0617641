-- ===== src/Mem/Ports.antt =====
-- Ports of the in-memory switch: Capabilities to PortCounters of internal/nosd/mem/mem.go.
use nosaic_switch.Base.{ℕ, ◌+◌, Bool, true, false, List, [], ◌∷◌, Text, text_eq, nat_eq}
use nosaic_switch.Base.Int.{ℤ, pos, int_eq}
use nosaic_switch.Base.Exec.{ok, pure, reads, modify, refuse_if, ◌>>=◌, ◌>>◌}
use nosaic_switch.SwitchApi.Address.{prefix_eq}
use nosaic_switch.SwitchApi.Types.{Capabilities, Port, PortStatus, Counters, gateway_eq}
use nosaic_switch.SwitchApi.Errors.{Feature, Error}
use nosaic_switch.SwitchApi.Limits.{outside}
use nosaic_switch.Mem.State.{Switch, Op, need, lookup_port, update_port}

unfoldable pub capabilities : Switch → Capabilities
capabilities s = s.cfg.caps

unfoldable pub start : Op Unit
start = modify (λ s. record s { started = true })

unfoldable pub close : Op Unit
close = modify (λ s. record s { started = false })

numbered : ℕ → List Text → List Port
numbered i [] = []
numbered i (n ∷ ns) = record { name = n; index = i } ∷ numbered (i + 1) ns

unfoldable pub ports : Op (List Port)
unfolding numbered
ports = reads (λ s. ok (numbered 0 s.ports))

-- A simulated port carries no cable, so oper follows admin.
unfoldable pub port_status : Text → Op PortStatus
port_status name = do
  p ← lookup_port name
  pure (record {
    name = p.name;
    admin_up = p.admin_up;
    oper_up = p.admin_up;
    speed_mbps = pos 10000;
    full_duplex = true;
    mtu = p.mtu;
  })

unfoldable pub set_port_admin : Text → Bool → Op Unit
set_port_admin name up = do lookup_port name; update_port name (λ p. record p { admin_up = up })

unfoldable pub set_port_mtu : Text → ℤ → Op Unit
set_port_mtu name mtu = do
  lookup_port name
  refuse_if (outside mtu 68 9216) (Error.mtu_out_of_range mtu)
  update_port name (λ p. record p { mtu = mtu })

abbrev zero_counters : Counters
zero_counters = record {
  rx_packets = 0;
  tx_packets = 0;
  rx_bytes = 0;
  tx_bytes = 0;
  rx_errors = 0;
  tx_errors = 0;
  rx_drops = 0;
  tx_drops = 0;
}

unfoldable pub port_counters : Text → Op Counters
port_counters name = do
  need (λ c. c.counters) Feature.counters
  lookup_port name
  pure zero_counters
