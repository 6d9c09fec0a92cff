-- ===== src/Incidents/Recalculation/Precedence.antt =====
-- The order in which the conditions of an edge decide its status.
use smart_logistics_accessib.Base.{
  ◌≡◌, ◌↔◌, ◌⊎◌, inl, inr, refl, ap, ◌∙◌, arith, String, Bool, true, false, ◌&&◌, ◌||◌, not, Option,
  List, [], ◌∷◌, Uuid, any, select, if◌then◌else◌, Bool-cases,
}
use smart_logistics_accessib.Network.Enums.{
  AccessibilityStatus, open_road, restricted, blocked, provisional_caution,
}
use smart_logistics_accessib.Reporting.Enums.{ReportSeverity, low, medium, high, critical}
use smart_logistics_accessib.Incidents.Recalculation.{
  ActiveIncidentCondition, is_open, blocks, restricts, is_critical, is_high_or_medium, is_nonempty,
  given, effective_status, recalculate_effective_edge_status,
}

abbrev pub blocks_openly : ActiveIncidentCondition → Bool
blocks_openly i = is_open i && blocks i

abbrev pub verdict : Bool → Bool → Bool → Bool → AccessibilityStatus
verdict b o n c =
    if b
    then blocked
    else if o || n
    then restricted
    else if c
    then provisional_caution
    else open_road

-- An open incident that does not block restricts.
one_of_two :
    (full : Bool) (s : ReportSeverity)
    → ((full || is_critical s) || (is_high_or_medium s || not full)) ≡ true
one_of_two true s = refl
one_of_two false low = refl
one_of_two false medium = refl
one_of_two false high = refl
one_of_two false critical = refl

both_tests : (i : ActiveIncidentCondition) → (blocks i || restricts i) ≡ true
both_tests i = one_of_two i.is_full_closure i.severity

any-blocks :
    (is : List ActiveIncidentCondition) → any blocks (select is_open is) ≡ any blocks_openly is
any-blocks [] = refl
any-blocks (i ∷ is) = elim (Bool-cases (is_open i)) [
  | inl hit ↦ rw hit (ap (λ b. blocks i || b) (any-blocks is))
  | inr miss ↦ rw miss (any-blocks is)
]

or_swap : (a b c d o : Bool) → (a || b) ≡ true → (c || d) ≡ o → ((a || c) || (b || d)) ≡ true
or_swap a b c d o h k = ground (arith, h, k)

any-open :
    (is : List ActiveIncidentCondition)
    → (any blocks (select is_open is) || any restricts (select is_open is)) ≡ any is_open is
any-open [] = refl
any-open (i ∷ is) = elim (Bool-cases (is_open i)) [
  | inl hit ↦ rw hit (or_swap (blocks i) (restricts i) _ _ _ (both_tests i) (any-open is))
  | inr miss ↦ rw miss (any-open is)
]

same_verdict : (b r o n c : Bool) → (b || r) ≡ o → verdict b r n c ≡ verdict b o n c
same_verdict true r o n c h = refl
same_verdict false r o n c h = rw h refl

verdict-first :
    {X : Type 0} (b r n c : Bool) (x y z w : X)
    → (if◌then◌else◌ {A = AccessibilityStatus × X} b
        (blocked, x)
        (if r || n
          then (restricted, y)
          else if c
          then (provisional_caution, z)
          else (open_road, w))).0
      ≡ verdict b r n c
verdict-first true r n c x y z w = refl
verdict-first false true n c x y z w = refl
verdict-first false false true c x y z w = refl
verdict-first false false false true x y z w = refl
verdict-first false false false false x y z w = refl

status-verdict :
    (show_uuid : Uuid → String) (is : List ActiveIncidentCondition) (rs : Option (List String))
    (c : Bool)
    → (recalculate_effective_edge_status show_uuid is rs c).0
      ≡ verdict (any blocks_openly is) (any is_open is) (is_nonempty (given rs)) c
unfolding recalculate_effective_edge_status effective_status
status-verdict show_uuid is rs c =
    verdict-first (any blocks (select is_open is)) (any restricts (select is_open is))
      (is_nonempty (given rs)) c _ _ _ _
    ∙ same_verdict (any blocks (select is_open is)) (any restricts (select is_open is)) _ _ c
        (any-open is)
    ∙ ap (λ b. verdict b (any is_open is) (is_nonempty (given rs)) c) (any-blocks is)

verdict_iff :
    (b o n c : Bool)
    → ((verdict b o n c ≡ blocked) ↔ (b ≡ true))
      × ((verdict b o n c ≡ restricted) ↔ ((b ≡ false) × ((o ≡ true) ⊎ (n ≡ true))))
      × ((verdict b o n c ≡ provisional_caution)
          ↔ ((b ≡ false) × (o ≡ false) × (n ≡ false) × (c ≡ true)))
      × ((verdict b o n c ≡ open_road) ↔ ((b ≡ false) × (o ≡ false) × (n ≡ false) × (c ≡ false)))
verdict_iff b o n c = (
  ((λ h. ground arith), (λ h. ground arith)),
  ((λ h. ground arith), (λ h. ground arith)),
  ((λ h. ground arith), (λ h. ground arith)),
  ((λ h. ground arith), (λ h. ground arith)),
)

-- The status of an edge. Blocked: some open incident closes it fully or is critical. Restricted: none
-- does, and there is an open incident or a restriction. Provisional caution: no open incident, no
-- restriction, and a caution. Open: none of these. An incident is open when it is active or
-- monitored.
pub recalculation_precedence :
    (show_uuid : Uuid → String) (is : List ActiveIncidentCondition) (rs : Option (List String))
    (c : Bool)
    → (((recalculate_effective_edge_status show_uuid is rs c).0 ≡ blocked)
        ↔ (any blocks_openly is ≡ true))
      × (((recalculate_effective_edge_status show_uuid is rs c).0 ≡ restricted) ↔ (
          (any blocks_openly is ≡ false)
          × ((any is_open is ≡ true) ⊎ (is_nonempty (given rs) ≡ true))))
      × (((recalculate_effective_edge_status show_uuid is rs c).0 ≡ provisional_caution) ↔ (
          (any blocks_openly is ≡ false)
          × (any is_open is ≡ false)
          × (is_nonempty (given rs) ≡ false)
          × (c ≡ true)))
      × (((recalculate_effective_edge_status show_uuid is rs c).0 ≡ open_road) ↔ (
          (any blocks_openly is ≡ false)
          × (any is_open is ≡ false)
          × (is_nonempty (given rs) ≡ false)
          × (c ≡ false)))
recalculation_precedence show_uuid is rs c =
    rw (status-verdict show_uuid is rs c)
      (verdict_iff (any blocks_openly is) (any is_open is) (is_nonempty (given rs)) c)
