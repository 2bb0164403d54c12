-- ===== src/Trajectory/Matchers/Repeats/Duplicates.antt =====
-- When `unique_action` reports, and when it raises.
use proofstep.Prelude.{
  String, ◌≡◌, refl, ◌∙◌, ◌↔◌, inl, inr, Bool, true, false, ◌||◌, none, List, [], ◌∷◌, arith,
  Bool-cases, Option-cases, is_some, any, all, filter,
}
use proofstep.Prelude.{any-or, any_congr, any-false}
use proofstep.Types.Value.{hashable}
use proofstep.Prelude.Result.{ok, type_error, Result-cases}
use proofstep.Trajectory.Events.{TrajectoryEvent, key}
use proofstep.Trajectory.Schema.{Rule}
use proofstep.Trajectory.Normalized.{Normalized}
use proofstep.Trajectory.Matchers.Presence.Scan.{is_occurrence, visible-of}
use proofstep.Trajectory.Matchers.Repeats.{Key, same_key, find_key, repeats, unique_action}

-- The composite identity can be hashed.
abbrev pub has_hash : List String → TrajectoryEvent → Bool
has_hash parts e = all hashable (key e parts)

-- No event has the identity of an earlier one.
abbrev pub AreUnique : List String → List TrajectoryEvent → Type 0
AreUnique parts [] = Unit
AreUnique parts (e ∷ es) =
    (any (λ f. same_key (key e parts) (key f parts)) es ≡ false) × AreUnique parts es

-- The event's identity has been seen.
abbrev is_seen : List String → List (Key × TrajectoryEvent) → TrajectoryEvent → Bool
is_seen parts seen e = is_some (find_key (key e parts) seen)

seen-cons :
    (parts : List String) (seen : List (Key × TrajectoryEvent)) (e : TrajectoryEvent)
    (es : List TrajectoryEvent)
    → any (is_seen parts ((key e parts, e) ∷ seen)) es
      ≡ (any (λ f. same_key (key e parts) (key f parts)) es || any (is_seen parts seen) es)
unfolding find_key
seen-cons parts seen e es =
    any_congr _ _ (λ f. ground arith) es
    ∙ any-or (λ f. same_key (key e parts) (key f parts)) (is_seen parts seen) es

nothing_seen : (parts : List String) (es : List TrajectoryEvent) → any (is_seen parts []) es ≡ false
unfolding find_key
nothing_seen parts es = any-false es

module _ (rule : Rule) (action : String) (parts : List String) where
  repeats_sound :
      (seen : List (Key × TrajectoryEvent)) (es : List TrajectoryEvent)
      → repeats rule action parts seen es ≡ ok []
      → (all (has_hash parts) es ≡ true)
        × (any (is_seen parts seen) es ≡ false)
        × AreUnique parts es
  unfolding repeats
  repeats_sound seen [] h = (refl, refl, tt)
  repeats_sound seen (e ∷ es) h = elim (Bool-cases (has_hash parts e)) [
    | inl fine ↦ elim (Option-cases (find_key (key e parts) seen)) [
      | inl fresh ↦
          let (hashed, unseen, unique) =
            repeats_sound ((key e parts, e) ∷ seen) es (rw (fine, fresh, repeats) at h) in
          let split = seen-cons parts seen e es in
          (rw (fine, hashed), ground arith, (ground arith, unique))
      | inr (earlier, old) ↦
          let h' = rw (fine, old, repeats) at h in
          elim (Result-cases (repeats rule action parts seen es)) [
            | inl bad ↦ let h'' = rw bad at h' in cc
            | inr (fs, good) ↦ let h'' = rw good at h' in cc
          ]
    ]
    | inr bad ↦ let h' = rw (bad, repeats) at h in cc
  ]

  repeats_complete :
      (seen : List (Key × TrajectoryEvent)) (es : List TrajectoryEvent)
      → all (has_hash parts) es ≡ true
      → any (is_seen parts seen) es ≡ false
      → AreUnique parts es
      → repeats rule action parts seen es ≡ ok []
  unfolding repeats
  repeats_complete seen [] hashed unseen unique = refl
  repeats_complete seen (e ∷ es) hashed unseen unique =
      let split = seen-cons parts seen e es in
      let fine : has_hash parts e ≡ true = ground arith in
      let fresh : find_key (key e parts) seen ≡ none = ground arith in
      rw (fine, fresh, repeats)
        (repeats_complete ((key e parts, e) ∷ seen) es (ground arith) (ground arith) unique.1)

  -- It raises exactly when some identity cannot be hashed.
  repeats_raises :
      (seen : List (Key × TrajectoryEvent)) (es : List TrajectoryEvent)
      → (repeats rule action parts seen es ≡ type_error) ↔ (all (has_hash parts) es ≡ false)
  unfolding repeats
  repeats_raises seen [] = (λ h. cc, λ h. cc)
  repeats_raises seen (e ∷ es) = elim (Bool-cases (has_hash parts e)) [
    | inl fine ↦ elim (Option-cases (find_key (key e parts) seen)) [
      | inl fresh ↦ rw (fine, fresh, repeats) (repeats_raises ((key e parts, e) ∷ seen) es)
      | inr (earlier, old) ↦
          let ih = repeats_raises seen es in
          rw (fine, old, repeats)
            (
              λ h. elim (Result-cases (repeats rule action parts seen es)) [
                | inl bad ↦ ih.0 bad
                | inr (fs, good) ↦ let h' = rw good at h in cc
              ],
              λ h. rw (ih.1 h),
            )
    ]
    | inr bad ↦ rw (bad, repeats) (λ h. refl, λ h. refl)
  ]

  -- A `unique_action` rule reports no failure exactly when the identity of every visible event of
  -- the action can be hashed and differs from that of each earlier one.
  pub unique_action_iff :
      (norm : Normalized)
      → (unique_action rule action parts norm ≡ ok []) ↔ (
          (all (has_hash parts) (filter (is_occurrence rule action) norm.events) ≡ true)
          × AreUnique parts (filter (is_occurrence rule action) norm.events))
  unfolding unique_action
  unique_action_iff norm = rw (visible-of rule action norm) (
    λ h. let (hashed, unseen, unique) = repeats_sound [] _ h in (hashed, unique),
    λ (hashed, unique). repeats_complete [] _ hashed (nothing_seen parts _) unique,
  )

  -- A `unique_action` rule raises a `TypeError` exactly when a visible event of the action has a
  -- list or a dict in its composite identity.
  pub unique_action_raises :
      (norm : Normalized)
      → (unique_action rule action parts norm ≡ type_error)
        ↔ (all (has_hash parts) (filter (is_occurrence rule action) norm.events) ≡ false)
  unfolding unique_action
  unique_action_raises norm = rw (visible-of rule action norm) (repeats_raises [] _)
