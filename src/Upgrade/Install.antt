-- ===== src/Upgrade/Install.antt =====
-- What Install (internal/upgrade/upgrade.go) writes.
use nosaic_switch.Base.{nat_eq, ℕ, some, List, [], ◌∷◌, ◌++◌, Text, text, text_eq, ◌≡◌, ◌≢◌}
use nosaic_switch.Base.Int.{ℤ, pos, int_eq, ◌*ℤ◌, ◌≤ℤ◌}
use nosaic_switch.Base.Map.{Map}
use nosaic_switch.Base.Exec.{Result, ok}
use nosaic_switch.Upgrade.{
  State, Partition, Error, slot_index, nth, Answers, Step, slot_written, disk_written,
  overlay_cleared, state_written, Write, apply_all, content_of,
}

abbrev Same : Map Text Text → Map Text Text → Type 0
Same x y = let o : Result Error (Map Text Text) = ok x in o ≡ ok y

module _ (a : Answers) (slot : Text) (st : State) where
  -- The bytes lie in the partition of the slot, and the system does not run from there.
  pub record IsInSlot (from len : ℤ) : Type 0 where
    pub parts : List Partition
    pub idx : ℕ
    pub partition : Partition
    pub listed : a.parts ≡ ok parts
    pub of_slot : slot_index slot ≡ ok idx
    pub there : nth idx parts ≡ some partition
    pub at_start : from ≡ partition.start *ℤ pos 512
    pub fits : len ≤ℤ partition.size *ℤ pos 512
    pub not_root : a.root_start ≢ some partition.start

  -- What the writes leave of the pointer's files, whatever was there: the active slot as it was, the
  -- slot that was asked for as the trial, and no tries.
  pub record IsTrial (ws : List Write) : Type 0 where
    pub active :
        (m : Map Text Text)
        → content_of (text "active") (apply_all ws m) ≡ content_of (text "active") m
    pub trial : (m : Map Text Text) → content_of (text "trial") (apply_all ws m) ≡ slot ++ (10 ∷ [])
    pub tries : (m : Map Text Text) → content_of (text "tries") (apply_all ws m) ≡ b'0' ∷ 10 ∷ []

  -- A step is on the slot that was asked for, which is not the active one; the pointer is given the
  -- trial only.
  abbrev pub IsSafe : Step → Type 0
  IsSafe (slot_written s) = (s ≡ slot) × (slot ≢ st.active)
  IsSafe (disk_written from len) = IsInSlot from len × (slot ≢ st.active)
  IsSafe (overlay_cleared s) = (s ≡ slot) × (slot ≢ st.active)
  IsSafe (state_written ws) = IsTrial ws × (slot ≢ st.active)
