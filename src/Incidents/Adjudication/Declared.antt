-- ===== src/Incidents/Adjudication/Declared.antt =====
-- The edge status decisions of a loop over edges.
use mathlib.Core.List.{append-nil, append_assoc}
use smart_logistics_accessib.Network.Status.Projection.{declare_edge_status_lem, declare-other}
use smart_logistics_accessib.Base.{
  ◌≡◌, refl, ap, sym, ◌∙◌, some, List, [], ◌∷◌, ◌++◌, Uuid, ℕ, ◌+◌, Result, ok, err, >>=-eq-ok,
  ok-injective, DateTime, inl, inr, In, here, there, Bool-cases, ◌==◌, ==_iff,
}
use smart_logistics_accessib.Network.Enums.{AccessibilityStatus}
use smart_logistics_accessib.Network.Entities.{EdgeStatusEvent, EdgeStatusCurrent}
use smart_logistics_accessib.Network.Status.{
  StatusStore, NetworkError, Declaration, event_of, declare_edge_status, get_current_status,
}
use smart_logistics_accessib.Incidents.Adjudication.{declare_all, declared}

-- The events of the edges, from a place on.
abbrev pub events_of :
    {A : Type 0}
    → (A → Declaration)
    → (ℕ → DateTime)
    → (ℕ → Uuid)
    → ℕ
    → List A
    → List EdgeStatusEvent
events_of d at ids n [] = []
events_of d at ids n (e ∷ es) = event_of (d e) (at n) (ids n) ∷ events_of d at ids (n + 1) es

declared-ok :
    (r : Result NetworkError (EdgeStatusCurrent × StatusStore)) {s' : StatusStore}
    → declared r ≡ ok s'
    → (c : EdgeStatusCurrent) × (r ≡ ok (c, s'))
declared-ok (ok (c, s)) h = (c, ap (λ x. ok (c, x)) (ok-injective h))
declared-ok (err e) h = cc

declared-events :
    (d : Declaration) (now : DateTime) (id : Uuid) (s : StatusStore) {s' : StatusStore}
    → declared (declare_edge_status d now id s) ≡ ok s'
    → s'.edge_status_events ≡ s.edge_status_events ++ event_of d now id ∷ []
declared-events d now id s h =
    let (c, got) = declared-ok (declare_edge_status d now id s) h in
    (declare_edge_status_lem d now id s _ c got).0

pub declare_all-events :
    {A : Type 0} (d : A → Declaration) (at : ℕ → DateTime) (ids : ℕ → Uuid) (n : ℕ) (es : List A)
    (s : StatusStore) {s' : StatusStore}
    → declare_all d at ids n es s ≡ ok s'
    → s'.edge_status_events ≡ s.edge_status_events ++ events_of d at ids n es
declare_all-events d at ids n [] s h = rw (← ok-injective h) (sym (append-nil s.edge_status_events))
declare_all-events d at ids n (e ∷ es) s h =
    let (s1, first, rest) = >>=-eq-ok (declared (declare_edge_status (d e) (at n) (ids n) s)) _ h in
    let one = declared-events (d e) (at n) (ids n) s first in
    let more = declare_all-events d at ids (n + 1) es s1 rest in
    rw one at more ∙ append_assoc s.edge_status_events _ _

-- The current status of an edge.
abbrev pub Stands : Uuid → AccessibilityStatus → StatusStore → Type 0
Stands edge_id status s =
    (c : EdgeStatusCurrent) × (get_current_status edge_id s ≡ some c) × (c.status ≡ status)

module _ {A : Type 0} (d : A → Declaration) (at : ℕ → DateTime) (ids : ℕ → Uuid) where
  -- A later declaration of the edge gives the same status, one of another edge leaves it.
  one-Stands :
      (edge_id : Uuid) (status : AccessibilityStatus) (x : A) (n : ℕ) (s : StatusStore)
      {s' : StatusStore}
      → declared (declare_edge_status (d x) (at n) (ids n) s) ≡ ok s'
      → ((d x).edge_id ≡ edge_id → (d x).status ≡ status)
      → Stands edge_id status s
      → Stands edge_id status s'
  one-Stands edge_id status x n s h same (c, found, is) =
      let (k, got) = declared-ok (declare_edge_status (d x) (at n) (ids n) s) h in
      elim (Bool-cases ((d x).edge_id == edge_id)) [
        | inl hit ↦
            let e = (==_iff (d x).edge_id edge_id).0 hit in
            let (_, row, gives) = declare_edge_status_lem (d x) (at n) (ids n) s _ k got in
            (k, rw e at row, gives ∙ same e)
        | inr miss ↦ (c, declare-other (d x) (at n) (ids n) s _ k edge_id got miss ∙ found, is)
      ]

  all-Stands :
      (edge_id : Uuid) (status : AccessibilityStatus) (n : ℕ) (es : List A) (s : StatusStore)
      {s' : StatusStore}
      → declare_all d at ids n es s ≡ ok s'
      → ((x : A) → In x es → (d x).edge_id ≡ edge_id → (d x).status ≡ status)
      → Stands edge_id status s
      → Stands edge_id status s'
  all-Stands edge_id status n [] s h same st = rw (← ok-injective h) st
  all-Stands edge_id status n (x ∷ es) s h same st =
      let (s1, first, rest) =
        >>=-eq-ok (declared (declare_edge_status (d x) (at n) (ids n) s)) _ h in
      all-Stands edge_id status (n + 1) es s1 rest (λ y m. same y (there m))
        (one-Stands edge_id status x n s first (same x (here refl)) st)

  -- An edge among those that are declared has the status that was declared for it.
  pub declare_all-Stands :
      (edge_id : Uuid) (status : AccessibilityStatus) (n : ℕ) (es : List A) (s : StatusStore)
      {s' : StatusStore} (x : A)
      → declare_all d at ids n es s ≡ ok s'
      → ((y : A) → In y es → (d y).edge_id ≡ edge_id → (d y).status ≡ status)
      → In x es
      → (d x).edge_id ≡ edge_id
      → Stands edge_id status s'
  declare_all-Stands edge_id status n [] s x h same m e = elim m [ ]
  declare_all-Stands edge_id status n (y ∷ es) s x h same m e =
      let (s1, first, rest) =
        >>=-eq-ok (declared (declare_edge_status (d y) (at n) (ids n) s)) _ h in
      elim m [
        | here q ↦
            let (k, got) = declared-ok (declare_edge_status (d y) (at n) (ids n) s) first in
            let (_, row, gives) = declare_edge_status_lem (d y) (at n) (ids n) s _ k got in
            let own : (d y).edge_id ≡ edge_id = rw q at e in
            all-Stands edge_id status (n + 1) es s1 rest (λ z k'. same z (there k'))
              (k, rw own at row, gives ∙ same y (here refl) own)
        | there k ↦
            declare_all-Stands edge_id status (n + 1) es s1 x rest (λ z k'. same z (there k')) k e
      ]
