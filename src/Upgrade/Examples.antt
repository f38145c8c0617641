-- ===== src/Upgrade/Examples.antt =====
-- A switch that runs slot a, with slot b on trial or to be installed.
use nosaic_switch.Base.{
  nat_eq, ℕ_discrete, Text-discrete, true, false, some, List, [], ◌∷◌, if◌then◌else◌, ◌==◌, Text,
  text, text_eq, All, ◌≡◌, refl,
}
use nosaic_switch.Base.Int.{ℤ-discrete, int_eq, pos}
use nosaic_switch.Base.Map.{Map, lookup}
use nosaic_switch.Base.Exec.{ok}
use nosaic_switch.Upgrade.{
  Answers, Write, put, remove, write_state, content_of, trial_of, nth, mark_trial,
  install_partition, install_disk, slot_index, disk_written, overlay_cleared, state_written,
  apply_all, status, inactive, install, commit,
}
use nosaic_switch.Upgrade.Commit.{IsKept, cuts, commit-All}

-- TrimSpace on files of one line.
unfoldable first_line : Text → Text
first_line [] = []
first_line (c ∷ s) = let rest = first_line s in if c == 10 then [] else c ∷ rest

abbrev on_trial : Map Text Text
on_trial =
    (text "active", b'a' ∷ 10 ∷ [])
    ∷ (text "trial", b'b' ∷ 10 ∷ [])
    ∷ (text "tries", b'1' ∷ 10 ∷ [])
    ∷ []

abbrev fresh : Map Text Text
fresh = (text "active", b'a' ∷ 10 ∷ []) ∷ []

abbrev disk : Answers
disk = record {
  state = ok fresh;
  squashfs = ok tt;
  file_backed = false;
  slot_file = ok tt;
  parts = ok (
      record { start = pos 2048; size = pos 8192 }
      ∷ record { start = pos 10240; size = pos 4096 }
      ∷ record { start = pos 14336; size = pos 4096 }
      ∷ []);
  image_size = ok (pos 1000000);
  root_start = some (pos 10240);
  copied = ok tt;
  data_given = true;
  has_overlay = true;
  overlay = ok tt;
  pointer = ok tt;
}

the_other : inactive first_line on_trial ≡ text "b"
unfolding inactive status content_of lookup first_line Text-discrete ℕ_discrete
the_other = refl

installs_b : install first_line disk (text "b") ≡ (
  ok tt,
  disk_written (pos 7340032) (pos 1000000)
      ∷ overlay_cleared (text "b")
      ∷ state_written (trial_of (text "b"))
      ∷ [],
)
unfolding install status content_of lookup first_line slot_index install_disk nth install_partition
    mark_trial Text-discrete ℤ-discrete ℕ_discrete
installs_b = refl

abbrev commit_writes_b : List Write
commit_writes_b =
    put (text "active") (b'b' ∷ 10 ∷ []) ∷ remove (text "trial") ∷ remove (text "tries") ∷ []

commit-All_example :
    All
      (λ m. IsKept first_line (status first_line on_trial) (text "b") (status first_line m))
      (cuts commit_writes_b on_trial)
    × (status first_line (apply_all commit_writes_b on_trial)
        ≡ record { active = text "b"; trial = []; tries = pos 0 })
unfolding commit status content_of lookup write_state first_line Text-discrete ℕ_discrete
commit-All_example = commit-All first_line false on_trial (text "b") commit_writes_b refl refl refl
