-- ===== src/Upgrade/Files.antt =====
-- The files of the boot state (internal/upgrade/filebacked.go) behind a write.
use nosaic_switch.Base.{[], if◌then◌else◌, ◌==◌, Text, text_eq, ◌≡◌, arith}
use nosaic_switch.Base.Map.{Map, insert, delete, lookup-insert, lookup-delete}
use nosaic_switch.Upgrade.{content_of}

pub content-insert :
    (k j c : Text) (m : Map Text Text)
    → content_of j (insert k c m) ≡ (if k == j then c else content_of j m)
unfolding content_of
content-insert k j c m = ground (arith, lookup-insert k j c m)

pub content-delete :
    (k j : Text) (m : Map Text Text)
    → content_of j (delete k m) ≡ (if k == j then [] else content_of j m)
unfolding content_of
content-delete k j m = ground (arith, lookup-delete k j m)
