-- ===== src/Upgrade/Commit.antt =====
-- A power cut between the writes of Commit (internal/upgrade/upgrade.go). A write of one file is taken
-- as whole.
use nosaic_switch.Base.{
  nat_eq, ℕ_discrete, Text-discrete, Bool, true, false, List, [], ◌∷◌, ◌++◌, if◌then◌else◌, ◌==◌,
  Text, text, text_eq, All, ◌≡◌, ◌≢◌, refl, sym, ap, ◌∙◌, subst, ◌⊎◌, inl, inr, arith, Bool-cases,
  ==_iff, ==_refl,
}
use nosaic_switch.Base.Int.{ℤ, pos, int_eq}
use nosaic_switch.Base.Map.{Map, insert, delete}
use nosaic_switch.Base.Exec.{Result, ok, err}
use nosaic_switch.Vercmp.{atoi}
use nosaic_switch.Upgrade.Files.{content-insert, content-delete}
use nosaic_switch.Upgrade.{
  State, Error, no_trial, Write, put, remove, apply, apply_all, write_state, content_of, tries_of,
  status, commit,
}

abbrev Same : Text × List Write → Text × List Write → Type 0
Same x y = let o : Result Error (Text × List Write) = ok x in o ≡ ok y

ok-inj : {x y : Text × List Write} → Same x y → x ≡ y
ok-inj e = cc

-- The files after each number of the writes, none and all included.
abbrev pub cuts : List Write → Map Text Text → List (Map Text Text)
cuts [] files = files ∷ []
cuts (w ∷ ws) files = files ∷ cuts ws (apply w files)

gone : (k : Text) (m : Map Text Text) → content_of k (delete k m) ≡ []
gone k m = content-delete k k m ∙ ap (λ x. if x then [] else content_of k m) (==_refl k)

still_gone : (k j : Text) (m : Map Text Text) → content_of j m ≡ [] → content_of j (delete k m) ≡ []
still_gone k j m e = content-delete k j m ∙ either (k == j) e
  where
    either : (x : Bool) {t : Text} → t ≡ [] → (if x then [] else t) ≡ []
    either true e = refl
    either false e = e

module _ (trim_space : Text → Text) where
  -- The slot on trial is still on trial beside the slot that was active, or it is active.
  abbrev pub IsKept : State → Text → State → Type 0
  IsKept old slot st = ((st.active ≡ old.active) × (st.trial ≡ slot)) ⊎ (st.active ≡ slot)

  active_lem :
      (m : Map Text Text) (slot : Text)
      → slot ≢ []
      → trim_space (content_of (text "active") m) ≡ slot
      → (status trim_space m).active ≡ slot
  unfolding status
  active_lem m slot h e =
      ap (λ v. if v == [] then text "a" else v) e
      ∙ (let f : (slot == []) ≡ false = filled slot h in ap (λ b. if b then text "a" else slot) f)
    where
      filled : (s : Text) → s ≢ [] → (s == []) ≡ false
      filled s h = elim (Bool-cases (s == [])) [
        | inr e ↦ e
        | inl e ↦ absurd (h ((==_iff s []).0 e))
      ]

  -- The writes of a commit, in either order of the last two.
  abbrev writes : Bool → Text → List Write
  writes true slot =
      put (text "active") (slot ++ (10 ∷ [])) ∷ remove (text "tries") ∷ remove (text "trial") ∷ []
  writes false slot =
      put (text "active") (slot ++ (10 ∷ [])) ∷ remove (text "trial") ∷ remove (text "tries") ∷ []

  commit-writes :
      (b : Bool) (files : Map Text Text) (slot : Text) (ws : List Write)
      → commit trim_space b files ≡ ok (slot, ws)
      → (slot ≡ (status trim_space files).trial) × (slot ≢ []) × (ws ≡ writes b slot)
  unfolding commit write_state Text-discrete ℕ_discrete
  commit-writes b files slot ws e = tested (t == []) b refl e
    where
      t : Text
      t = (status trim_space files).trial

      tail_writes : Bool → List Write
      tail_writes b = write_state (
          if b
          then (text "tries", []) ∷ (text "trial", []) ∷ []
          else (text "trial", []) ∷ (text "tries", []) ∷ [])

      filled : (t == []) ≡ false → t ≢ []
      filled n k = let y : (t == []) ≡ true = (==_iff t []).1 k in ground (arith, n, y)

      answer : Bool → Bool → Result Error (Text × List Write)
      answer x c =
          if x
          then err (no_trial (status trim_space files).active)
          else ok (
            t,
            (if x then remove (text "active") else put (text "active") (t ++ (10 ∷ [])))
                ∷ tail_writes c,
          )

      result :
          (c : Bool)
          → t ≢ []
          → Same (t, writes c t) (slot, ws)
          → (slot ≡ t) × (slot ≢ []) × (ws ≡ writes c slot)
      result c n k =
          let pair : (t, writes c t) ≡ (slot, ws) = ok-inj k in
          let same : t ≡ slot = ap (λ (x : Text × List Write). x.0) pair in
          (
            sym same,
            subst (λ x. x ≢ []) same n,
            sym (ap (λ (x : Text × List Write). x.1) pair) ∙ ap (writes c) same,
          )

      tested :
          (x c : Bool)
          → (t == []) ≡ x
          → answer x c ≡ ok (slot, ws)
          → (slot ≡ t) × (slot ≢ []) × (ws ≡ writes c slot)
      tested true c n k = absurd (ground (arith, k))
      tested false true n k = result true (filled n) k
      tested false false n k = result false (filled n) k

  module _ (files : Map Text Text) (slot : Text) (h : slot ≢ [])
      (line : trim_space (slot ++ (10 ∷ [])) ≡ slot) where
    written : Map Text Text
    written = insert (text "active") (slot ++ (10 ∷ [])) files

    active_written : trim_space (content_of (text "active") written) ≡ slot
    unfolding written Text-discrete ℕ_discrete
    active_written =
        ap trim_space (content-insert (text "active") (text "active") (slot ++ (10 ∷ [])) files)
        ∙ line

    active_after :
        (k : Text) (m : Map Text Text)
        → (k == text "active") ≡ false
        → trim_space (content_of (text "active") m) ≡ slot
        → trim_space (content_of (text "active") (delete k m)) ≡ slot
    active_after k m other e =
        ap trim_space (
          content-delete k (text "active") m
          ∙ ap (λ x. if x then [] else content_of (text "active") m) other)
        ∙ e

    two_removed :
        (x y : Text)
        → (x == text "active") ≡ false
        → (y == text "active") ≡ false
        → slot ≡ (status trim_space files).trial
        → All
            (λ m. IsKept (status trim_space files) slot (status trim_space m))
            (cuts (put (text "active") (slot ++ (10 ∷ [])) ∷ remove x ∷ remove y ∷ []) files)
    unfolding apply written
    two_removed x y p q e =
        let one = active_after x written p active_written in
        let two = active_after y (delete x written) q one in
        (
          inl (refl, sym e),
          (
            inr (active_lem written slot h active_written),
            (
              inr (active_lem (delete x written) slot h one),
              (inr (active_lem (delete y (delete x written)) slot h two), tt),
            ),
          ),
        )

    -- Both files are gone, and the slot is active.
    settled :
        (x y : Text)
        → (x == text "active") ≡ false
        → (y == text "active") ≡ false
        → content_of (text "trial") (delete y (delete x written)) ≡ []
        → content_of (text "tries") (delete y (delete x written)) ≡ []
        → trim_space [] ≡ []
        → status trim_space (delete y (delete x written))
          ≡ record { active = slot; trial = []; tries = pos 0 }
    unfolding status
    settled x y p q trial tries nothing =
        let two = active_after y (delete x written) q (active_after x written p active_written) in
        let is_trial : trim_space (content_of (text "trial") (delete y (delete x written))) ≡ [] =
          ap trim_space trial ∙ nothing in
        let is_tries : tries_of
              (atoi (trim_space (content_of (text "tries") (delete y (delete x written)))))
            ≡ pos 0 =
          ap (λ t. tries_of (atoi t)) (ap trim_space tries ∙ nothing) ∙ none_read in
        together (delete y (delete x written)) (active_lem (delete y (delete x written)) slot h two)
          is_trial is_tries
      where
        none_read : tries_of (atoi []) ≡ pos 0
        none_read = unfold atoi in refl

        together :
            (m : Map Text Text) {a t : Text} {n : ℤ}
            → (status trim_space m).active ≡ a
            → trim_space (content_of (text "trial") m) ≡ t
            → tries_of (atoi (trim_space (content_of (text "tries") m))) ≡ n
            → status trim_space m ≡ record { active = a; trial = t; tries = n }
        together m {a} {t} {n} p q r =
            ap
              (λ x. record {
                active = x;
                trial = trim_space (content_of (text "trial") m);
                tries = tries_of (atoi (trim_space (content_of (text "tries") m)));
              })
              p
            ∙ ap
                (λ x. record {
                  active = a;
                  trial = x;
                  tries = tries_of (atoi (trim_space (content_of (text "tries") m)));
                })
                q
            ∙ ap (λ x. record { active = a; trial = t; tries = x }) r

  -- Between any two writes of a commit, in whichever order the files of the trial are cleared, the slot
  -- is active or still on trial beside the slot that was active; behind the last it is active, and no
  -- trial is left. The slot's name is one that TrimSpace takes off its line again.
  pub commit-All :
      (b : Bool) (files : Map Text Text) (slot : Text) (ws : List Write)
      → commit trim_space b files ≡ ok (slot, ws)
      → trim_space (slot ++ (10 ∷ [])) ≡ slot
      → trim_space [] ≡ []
      → All (λ m. IsKept (status trim_space files) slot (status trim_space m)) (cuts ws files)
        × (status trim_space (apply_all ws files)
            ≡ record { active = slot; trial = []; tries = pos 0 })
  unfolding apply_all apply written Text-discrete ℕ_discrete
  commit-All b files slot ws e line nothing =
      let (same, h, w) = commit-writes b files slot ws e in
      subst
        (λ vs.
          All (λ m. IsKept (status trim_space files) slot (status trim_space m)) (cuts vs files)
          × (status trim_space (apply_all vs files)
              ≡ record { active = slot; trial = []; tries = pos 0 }))
        (sym w) (ordered b h same)
    where
      ordered :
          (c : Bool)
          → slot ≢ []
          → slot ≡ (status trim_space files).trial
          → All
              (λ m. IsKept (status trim_space files) slot (status trim_space m))
              (cuts (writes c slot) files)
            × (status trim_space (apply_all (writes c slot) files)
                ≡ record { active = slot; trial = []; tries = pos 0 })
      ordered true h same = (
        two_removed files slot h line (text "tries") (text "trial") refl refl same,
        settled files slot h line (text "tries") (text "trial") refl refl (gone _ _)
            (still_gone _ _ _ (gone _ _)) nothing,
      )
      ordered false h same = (
        two_removed files slot h line (text "trial") (text "tries") refl refl same,
        settled files slot h line (text "trial") (text "tries") refl refl
            (still_gone _ _ _ (gone _ _)) (gone _ _) nothing,
      )
