-- ===== src/Mem/Acls.antt =====
-- Access lists of the in-memory switch, held rather than enforced (internal/nosd/mem/mem.go).
use nosaic_switch.Base.{Bool, true, not, ◌&&◌, none, some, List, [], ◌∷◌, ◌==◌, text_eq, nat_eq}
use nosaic_switch.Base.Int.{ℤ, pos, int_eq, leb_ℤ}
use nosaic_switch.Base.Map.{Map, lookup, insert, delete, has, keys}
use nosaic_switch.Base.Exec.{ok, reads, modify, refuse_when, ◌>>◌}
use nosaic_switch.Base.Sort.{sort}
use nosaic_switch.SwitchApi.Address.{prefix_eq}
use nosaic_switch.SwitchApi.Types.{Capabilities, gateway_eq}
use nosaic_switch.SwitchApi.Errors.{Feature, Error}
use nosaic_switch.SwitchApi.Acl.{AclRule, AclEntry, validate}
use nosaic_switch.Mem.State.{Op}

abbrev entry : ℤ → AclRule → AclEntry
entry seq r = record { seq = seq; rule = r; parsed = true; installed = true; packets = 0 }

entries : Map ℤ AclRule → List ℤ → List AclEntry
entries m [] = []
entries m (seq ∷ seqs) = elim (lookup seq m) [
  | none ↦ entries m seqs
  | some r ↦ entry seq r ∷ entries m seqs
]

abbrev no_acl : Capabilities → Bool
no_acl c = not c.acl && not c.acl6

unfoldable pub acls : Op (List AclEntry)
unfolding entries
acls = do
  refuse_when (λ s. no_acl s.cfg.caps) (Error.unsupported Feature.acl)
  reads (λ s. ok (entries s.acls (sort leb_ℤ (keys s.acls))))

unfoldable pub set_acl : AclRule → Op Unit
set_acl r = do
  refuse_when (λ s. r.family == pos 6 && not s.cfg.caps.acl6) (Error.unsupported Feature.acl6)
  refuse_when (λ s. not (r.family == pos 6) && not s.cfg.caps.acl) (Error.unsupported Feature.acl)
  reads (λ s. validate r (some (λ name. has name s.by_name)))
  modify (λ s. record s { acls = insert r.seq r s.acls })

unfoldable pub del_acl : ℤ → Op Unit
del_acl seq = do
  refuse_when (λ s. no_acl s.cfg.caps) (Error.unsupported Feature.acl)
  refuse_when (λ s. not (has seq s.acls)) (Error.no_such_rule seq)
  modify (λ s. record s { acls = delete seq s.acls })
