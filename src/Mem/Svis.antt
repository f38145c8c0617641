-- ===== src/Mem/Svis.antt =====
-- Routed VLAN interfaces, addresses and virtual gateways: AddSVI, DelSVI, l3lookup, AddAddress and
-- DelAddress of internal/nosd/mem/mem.go, and gateway.go.
use nosaic_switch.Base.{
  ℕ, Bool, true, false, not, ◌&&◌, ◌||◌, Option, none, some, List, [], ◌∷◌, if◌then◌else◌, ◌==◌,
  Text, text_eq, nat_eq,
}
use nosaic_switch.Base.Int.{ℤ, int_eq}
use nosaic_switch.Base.Map.{Map, insert, delete, adjust, has, keys}
use nosaic_switch.Base.Exec.{Result, ok, err, lift, reads, modify, refuse_when, ◌>>=◌, ◌>>◌}
use nosaic_switch.Base.Sort.{sort, text_le}
use nosaic_switch.SwitchApi.Address.{Prefix, prefix_eq, is6}
use nosaic_switch.SwitchApi.Types.{VirtualGateway, gateway_eq, default_virtual_mac}
use nosaic_switch.SwitchApi.Names.{svi_name}
use nosaic_switch.SwitchApi.Errors.{Feature, Error}
use nosaic_switch.SwitchApi.Limits.{valid_virtual_mac, valid_virtual_gateway}
use nosaic_switch.Mem.State.{PortState, Switch, Op, new_port, get_flag, need}

unfoldable pub add_svi : ℤ → Op Unit
add_svi vid = do
  need (λ c. c.svis) Feature.svis
  refuse_when (λ s. not (get_flag vid s.vlans)) (Error.no_such_vlan vid)
  modify (λ s. record s {
    svis = if has vid s.svis then s.svis else insert vid (new_port (svi_name vid)) s.svis;
  })

-- `for g in s.gws { if g.SVI == name { delete(s.gws, g) } }`
unfoldable pub drop_gateways : Text → Map VirtualGateway Bool → Map VirtualGateway Bool
drop_gateways name [] = []
drop_gateways name ((g, b) ∷ m) =
    let rest = drop_gateways name m in if g.svi == name then rest else (g, b) ∷ rest

unfoldable pub del_svi : ℤ → Op Unit
del_svi vid = do
  need (λ c. c.svis) Feature.svis
  modify (λ s. record s { svis = delete vid s.svis; gws = drop_gateways (svi_name vid) s.gws })

-- Where an address goes: `*port` of a port or LAG, or of an SVI.
pub data Place : Type 0 where
  at_port : Text → Place
  at_svi : ℤ → Place

unfoldable pub svi_named : Text → Map ℤ PortState → Option ℤ
svi_named name [] = none
svi_named name ((vid, p) ∷ m) = if p.name == name then some vid else svi_named name m

unfoldable pub place_of : Text → Switch → Result Error Place
unfolding svi_named
place_of name s = if has name s.by_name then ok (at_port name) else elim (svi_named name s.svis) [
  | none ↦ err (Error.no_such_l3 name)
  | some vid ↦ ok (at_svi vid)
]

unfoldable pub l3lookup : Text → Op Place
unfolding place_of
l3lookup name = reads (place_of name)

unfoldable pub write_at : Place → (PortState → PortState) → Switch → Switch
write_at (at_port name) f s = record s { by_name = adjust name f s.by_name }
write_at (at_svi vid) f s = record s { svis = adjust vid f s.svis }

unfoldable pub update_at : Place → (PortState → PortState) → Op Unit
unfolding write_at
update_at place f = modify (write_at place f)

unfoldable pub add_address : Text → Prefix → Op Unit
add_address name addr = do
  need (λ c. c.l3) Feature.l3
  place ← l3lookup name
  update_at place (λ p. record p { addrs = insert addr true p.addrs })

unfoldable pub del_address : Text → Prefix → Op Unit
del_address name addr = do
  need (λ c. c.l3) Feature.l3
  place ← l3lookup name
  update_at place (λ p. record p { addrs = delete addr p.addrs })

unfoldable pub virtual_mac : Switch → Text
virtual_mac s = if s.vmac == [] then default_virtual_mac else s.vmac

-- `parse_mac` is net.ParseMAC.
unfoldable pub set_virtual_mac : (Text → Option (List ℕ)) → Text → Op Unit
set_virtual_mac parse_mac mac = do
  need (λ c. c.virtual_gateway) Feature.virtual_gateway
  lift (valid_virtual_mac parse_mac mac)
  modify (λ s. record s { vmac = mac })

unfoldable pub names_svi : Text → List ℤ → Bool
names_svi name [] = false
names_svi name (vid ∷ vids) = svi_name vid == name || names_svi name vids

abbrev pub gateway_key : Text → Prefix → VirtualGateway
gateway_key svi addr = record { svi = svi; address = addr; mac = [] }

unfoldable pub add_virtual_gateway : Text → Prefix → Op Unit
add_virtual_gateway svi addr = do
  need (λ c. c.virtual_gateway) Feature.virtual_gateway
  lift (valid_virtual_gateway addr)
  refuse_when (λ s. is6 addr.addr && not s.cfg.caps.virtual_gateway6)
      (Error.unsupported Feature.virtual_gateway6)
  refuse_when (λ s. not (names_svi svi (keys s.svis))) (Error.not_an_svi svi)
  modify (λ s. record s { gws = insert (gateway_key svi addr) true s.gws })

unfoldable pub del_virtual_gateway : Text → Prefix → Op Unit
del_virtual_gateway svi addr = do
  need (λ c. c.virtual_gateway) Feature.virtual_gateway
  modify (λ s. record s { gws = delete (gateway_key svi addr) s.gws })

with_mac : Text → List VirtualGateway → List VirtualGateway
with_mac mac [] = []
with_mac mac (g ∷ gs) = record g { mac = mac } ∷ with_mac mac gs

-- By SVI, then by the address's text; `prefix_text` is Prefix.String.
gateway_le : (Prefix → Text) → VirtualGateway → VirtualGateway → Bool
gateway_le prefix_text g h =
    if g.svi == h.svi
    then text_le (prefix_text g.address) (prefix_text h.address)
    else text_le g.svi h.svi

unfoldable pub virtual_gateways : (Prefix → Text) → Op (List VirtualGateway)
unfolding with_mac gateway_le
virtual_gateways prefix_text = do
  need (λ c. c.virtual_gateway) Feature.virtual_gateway
  reads (λ s. ok (sort (gateway_le prefix_text) (with_mac (virtual_mac s) (keys s.gws))))
