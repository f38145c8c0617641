-- ===== src/Mem/Routes.antt =====
-- Routes and the forwarding database of the in-memory switch (internal/nosd/mem/mem.go).
use nosaic_switch.Base.{Bool, not, ◌&&◌, List, [], ◌∷◌, ◌==◌, Text, length, text_eq, nat_eq}
use nosaic_switch.Base.Int.{pos, int_eq, ltb_ℤ}
use nosaic_switch.Base.Map.{Map, insert, delete}
use nosaic_switch.Base.Exec.{ok, pure, reads, modify, refuse_if, refuse_when, ◌>>◌}
use nosaic_switch.Base.Sort.{sort, text_le}
use nosaic_switch.SwitchApi.Address.{Prefix, prefix_eq}
use nosaic_switch.SwitchApi.Types.{supports_ecmp, Route, gateway_eq, FdbEntry}
use nosaic_switch.SwitchApi.Errors.{Feature, Error}
use nosaic_switch.Mem.State.{Switch, Op, need}

unfoldable pub fdb : Op (List FdbEntry)
fdb = do need (λ c. c.l2_learning) Feature.l2_learning; pure []

-- More next-hops than the capabilities admit, and no permission to take them anyway.
unfoldable pub too_many_paths : Route → Switch → Bool
too_many_paths r s =
    let n = pos (length r.next_hops) in
    ltb_ℤ (pos 1) n && not (supports_ecmp s.cfg.caps n) && not s.cfg.allow_ecmp_anyway

-- Refused rather than silently installed with one path.
unfoldable pub add_route : Route → Op Unit
add_route r = do
  need (λ c. c.l3) Feature.l3
  refuse_if (length r.next_hops == 0) (Error.no_next_hops r.prefix)
  refuse_when (too_many_paths r) (Error.unsupported (Feature.multipath (length r.next_hops)))
  modify (λ s. record s { routes = insert r.prefix r s.routes })

unfoldable pub del_route : Prefix → Op Unit
del_route p = do need (λ c. c.l3) Feature.l3; modify (λ s. record s { routes = delete p s.routes })

unfoldable pub values : {K V : Type 0} → Map K V → List V
values [] = []
values ((k, v) ∷ m) = v ∷ values m

-- By the prefix's text; `prefix_text` is Prefix.String.
unfoldable pub route_le : (Prefix → Text) → Route → Route → Bool
route_le prefix_text q r = text_le (prefix_text q.prefix) (prefix_text r.prefix)

unfoldable pub routes : (Prefix → Text) → Op (List Route)
routes prefix_text = do
  need (λ c. c.l3) Feature.l3
  reads (λ s. ok (sort (route_le prefix_text) (values s.routes)))
