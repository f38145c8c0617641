-- ===== src/Upgrade.antt =====
-- The A/B slots and the boot pointer (internal/upgrade: upgrade.go, and the state files of
-- filebacked.go). What the disk and the kernel answer is an argument. A file that is written is a step,
-- listed where it is attempted; the steps are what a power cut cuts off.
pub mod Files
pub mod Install
pub mod Commit
pub mod Examples
use nosaic_switch.Base.{
  ℕ, ◌-◌, ◌&&◌, ◌||◌, Bool, false, Option, none, some, List, [], ◌∷◌, ◌++◌, if◌then◌else◌, ◌==◌,
  Text, text, text_eq, nat_eq,
}
use nosaic_switch.Base.Int.{ℤ, pos, int_eq, ltb_ℤ, ◌*ℤ◌}
use nosaic_switch.Base.Map.{Map, lookup, insert, delete}
use nosaic_switch.Base.Exec.{Result, ok, err, Check}
use nosaic_switch.Vercmp.{atoi}

-- The boot pointer.
pub record State : Type 0 where
  pub active : Text
  pub trial : Text
  pub tries : ℤ

pub record Partition : Type 0 where
  pub start : ℤ
  pub size : ℤ

-- `io` is an error of the system, by its text.
pub data Error : Type 0 where
  io : Text → Error
  unknown_slot active_slot no_slot : Text → Error
  running_from : Text → ℤ → Error
  too_large : Text → ℤ → ℤ → Error
  no_trial : Text → Error

-- One file of the boot state.
pub data Write : Type 0 where
  put : Text → Text → Write
  remove : Text → Write

unfoldable pub apply : Write → Map Text Text → Map Text Text
apply (put name content) files = insert name content files
apply (remove name) files = delete name files

unfoldable pub apply_all : List Write → Map Text Text → Map Text Text
unfolding apply
apply_all [] files = files
apply_all (w ∷ ws) files = apply_all ws (apply w files)

-- writeState: an empty value means "clear this".
unfoldable pub write_state : List (Text × Text) → List Write
write_state [] = []
write_state ((name, content) ∷ rest) =
    (if content == [] then remove name else put name (content ++ (10 ∷ []))) ∷ write_state rest

-- slotIndex
unfoldable pub slot_index : Text → Result Error ℕ
slot_index slot =
    if slot == text "a" then ok 1 else if slot == text "b" then ok 2 else err (unknown_slot slot)

-- files[name], which is "" where there is none.
unfoldable pub content_of : Text → Map Text Text → Text
content_of name files = elim (lookup name files) [ none ↦ [] | some t ↦ t ]

unfoldable pub nth : ℕ → List Partition → Option Partition
nth n [] = none
nth n (p ∷ ps) = let later = nth (n - 1) ps in if n == 0 then some p else later

-- What the disk and the system answer in an install, in the order in which it asks. `data_given`: the
-- caller named the data directory; `has_overlay`: the slot has a directory in it.
pub record Answers : Type 0 where
  pub state : Result Error (Map Text Text)
  pub squashfs : Check Error
  pub file_backed : Bool
  pub slot_file : Check Error
  pub parts : Result Error (List Partition)
  pub image_size : Result Error ℤ
  pub root_start : Option ℤ
  pub copied : Check Error
  pub data_given : Bool
  pub has_overlay : Bool
  pub overlay : Check Error
  pub pointer : Check Error

-- What is written: the slot's file, or bytes of the disk from one offset on; the overlay; the pointer.
pub data Step : Type 0 where
  slot_written : Text → Step
  disk_written : ℤ → ℤ → Step
  overlay_cleared : Text → Step
  state_written : List Write → Step

-- `if err := step(); err != nil { return err }`
abbrev pub then_do : Check Error → Step → Check Error × List Step → Check Error × List Step
then_do (err e) s rest = (err e, s ∷ [])
then_do (ok _) s rest = (rest.0, s ∷ rest.1)

abbrev pub trial_of : Text → List Write
trial_of slot = write_state ((text "trial", slot) ∷ (text "tries", text "0") ∷ [])

-- clearSlotOverlay, and what follows it. Nothing is cleared where the data directory is not known to be
-- that of the disk, and where the slot has none.
abbrev pub clear_overlay : Answers → Text → Check Error × List Step → Check Error × List Step
clear_overlay a slot rest =
    if (a.file_backed || a.data_given) && a.has_overlay
    then then_do a.overlay (overlay_cleared slot) rest
    else rest

-- The end of both layouts: the overlay, and the mark of a trial.
unfoldable pub mark_trial : Answers → Text → Check Error × List Step
mark_trial a slot =
    clear_overlay a slot (then_do a.pointer (state_written (trial_of slot)) (ok tt, []))

unfoldable pub install_file : Answers → Text → Check Error × List Step
unfolding mark_trial
install_file a slot = then_do a.slot_file (slot_written slot) (mark_trial a slot)

abbrev pub is_root : Option ℤ → Partition → Bool
is_root none p = false
is_root (some start) p = start == p.start

unfoldable pub install_partition : Answers → Text → Partition → ℤ → Check Error × List Step
unfolding mark_trial
install_partition a slot p size =
    if is_root a.root_start p
    then (err (running_from slot p.start), [])
    else if ltb_ℤ (p.size *ℤ pos 512) size
    then (err (too_large slot size (p.size *ℤ pos 512)), [])
    else then_do a.copied (disk_written (p.start *ℤ pos 512) size) (mark_trial a slot)

-- `v, err := answer; if err != nil { return err }`
abbrev pub or_stop :
    {A : Type 0} → Result Error A → (A → Check Error × List Step) → Check Error × List Step
or_stop (err e) f = (err e, [])
or_stop (ok v) f = f v

-- The slot's partition.
abbrev pub partition_of : Text → ℕ → List Partition → Result Error Partition
partition_of slot idx parts = elim (nth idx parts) [ none ↦ err (no_slot slot) | some p ↦ ok p ]

unfoldable pub install_disk : Answers → Text → ℕ → Check Error × List Step
unfolding install_partition nth
install_disk a slot idx = or_stop a.parts λ parts.
    or_stop (partition_of slot idx parts)
      λ p. or_stop a.image_size λ size. install_partition a slot p size

-- Where the file holds no number, the zero value stays.
abbrev pub tries_of : Option ℤ → ℤ
tries_of none = pos 0
tries_of (some n) = n

module _ (trim_space : Text → Text) where
  -- Status, of the files that were read.
  unfoldable pub status : Map Text Text → State
  unfolding content_of
  status files =
      let v = trim_space (content_of (text "active") files) in
      record {
        active = if v == [] then text "a" else v;
        trial = trim_space (content_of (text "trial") files);
        tries = tries_of (atoi (trim_space (content_of (text "tries") files)));
      }

  -- Inactive
  unfoldable pub inactive : Map Text Text → Text
  unfolding status
  inactive files = if (status files).active == text "b" then text "a" else text "b"

  -- Install
  -- The slot that is asked for, and the refusal of the active one.
  abbrev pub target_slot : Text → Map Text Text → Result Error ℕ
  target_slot slot files =
      let idx = slot_index slot in
      if slot == (status files).active then err (active_slot slot) else idx

  unfoldable pub install : Answers → Text → Check Error × List Step
  unfolding status slot_index install_file install_disk
  install a slot = or_stop a.state λ files. or_stop (target_slot slot files) λ idx.
      or_stop a.squashfs λ _. if a.file_backed then install_file a slot else install_disk a slot idx

  -- Commit, where no write fails. A map's order is the system's choice: `tries_first` for the two files
  -- that are cleared.
  unfoldable pub commit : Bool → Map Text Text → Result Error (Text × List Write)
  unfolding status
  commit tries_first files =
      let st = status files in
      if st.trial == []
      then err (no_trial st.active)
      else ok (
        st.trial,
        write_state ((text "active", st.trial) ∷ [])
            ++ write_state (
                if tries_first
                then (text "tries", []) ∷ (text "trial", []) ∷ []
                else (text "trial", []) ∷ (text "tries", []) ∷ []),
      )
