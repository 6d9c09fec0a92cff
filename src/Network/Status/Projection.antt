-- ===== src/Network/Status/Projection.antt =====
-- The current status of an edge is what a replay of its log gives from the row it started with.
use smart_logistics_accessib.Base.{
  ◌≡◌, refl, ap, ◌∙◌, Bool, false, Option, none, some, List, [], ◌∷◌, ◌++◌, map, Uuid, DateTime, ℕ,
  ◌+◌, ◌==◌, ==_iff, if◌then◌else◌, inl, inr, Bool-cases, Option-cases, arith, find, update_where,
  find-append_new, ok, err, ltb, >>=-eq-ok, ok-injective, ◌⊎◌,
}
use smart_logistics_accessib.Network.Enums.{AccessibilityStatus}
use smart_logistics_accessib.Network.Entities.{RoadEdge, EdgeStatusEvent, EdgeStatusCurrent}
use smart_logistics_accessib.Network.Status.{
  StatusStore, Declaration, get_current_status, get_edge_by_id, put_current, next_version, event_of,
  current_of, append_status_event_and_update_current, known_edge, declare_edge_status,
  get_global_status_version, edge_not_found, next_status_version, NetworkVersionRow,
  max_status_version, greatest,
}

-- What the log says of an edge: its last decision, the event of it, and how many there were.
pub record Standing : Type 0 where
  pub status : AccessibilityStatus
  pub source_event_id : Option Uuid
  pub status_version : ℕ

abbrev pub count_up : Option Standing → EdgeStatusEvent → Standing
count_up none e = record { status = e.status; source_event_id = some e.id; status_version = 1 }
count_up (some x) e = record {
  status = e.status;
  source_event_id = some e.id;
  status_version = x.status_version + 1;
}

abbrev pub replay : Uuid → Option Standing → List EdgeStatusEvent → Option Standing
replay edge_id x [] = x
replay edge_id x (e ∷ es) =
    replay edge_id (if e.edge_id == edge_id then some (count_up x e) else x) es

abbrev pub standing_of : EdgeStatusCurrent → Standing
standing_of c = record {
  status = c.status;
  source_event_id = c.source_event_id;
  status_version = c.status_version;
}

abbrev pub standing : Option EdgeStatusCurrent → Option Standing
standing none = none
standing (some c) = some (standing_of c)

-- Every edge's row is what the log makes of the row that the edge started with.
abbrev pub Projected : (Uuid → Option Standing) → StatusStore → Type 0
Projected start s =
    (edge_id : Uuid)
    → standing (get_current_status edge_id s) ≡ replay edge_id (start edge_id) s.edge_status_events

replay-append :
    (edge_id : Uuid) (x : Option Standing) (es : List EdgeStatusEvent) (e : EdgeStatusEvent)
    → replay edge_id x (es ++ e ∷ []) ≡ (
        if e.edge_id == edge_id
        then some (count_up (replay edge_id x es) e)
        else replay edge_id x es)
replay-append id x [] e = refl
replay-append id x (d ∷ es) e =
    replay-append id (if d.edge_id == id then some (count_up x d) else x) es e

module _ (c : EdgeStatusCurrent) where
  abbrev about : Uuid → EdgeStatusCurrent → Bool
  about id x = x.edge_id == id

  abbrev replaced : List EdgeStatusCurrent → List EdgeStatusCurrent
  replaced cs = update_where (about c.edge_id) (λ _. c) cs

  find-replaced :
      (old : EdgeStatusCurrent) (cs : List EdgeStatusCurrent)
      → find (about c.edge_id) cs ≡ some old
      → find (about c.edge_id) (replaced cs) ≡ some c
  find-replaced old [] h = cc
  find-replaced old (x ∷ xs) h = elim (Bool-cases (x.edge_id == c.edge_id)) [
    | inl hit ↦ rw (hit, (==_iff c.edge_id c.edge_id).1 refl) refl
    | inr miss ↦ rw (miss, miss) (find-replaced old xs (rw miss at h))
  ]

  other :
      (x : EdgeStatusCurrent) (id : Uuid) (xs : List EdgeStatusCurrent)
      → find (about id) (replaced xs) ≡ find (about id) xs
      → (c.edge_id == id) ≡ false
      → find (about id) (replaced (x ∷ xs)) ≡ find (about id) (x ∷ xs)
  other x id xs rest h = elim (Bool-cases (x.edge_id == c.edge_id)) [
    | inl hit ↦
        let gone : (x.edge_id == id) ≡ false = rw ((==_iff x.edge_id c.edge_id).0 hit) h in
        rw (hit, h, gone) rest
    | inr miss ↦ rw miss (ap (λ o. if x.edge_id == id then some x else o) rest)
  ]

  find-other :
      (id : Uuid) (cs : List EdgeStatusCurrent)
      → (c.edge_id == id) ≡ false
      → (find (about id) (cs ++ c ∷ []) ≡ find (about id) cs)
        × (find (about id) (replaced cs) ≡ find (about id) cs)
  find-other id [] h = (rw h refl, refl)
  find-other id (x ∷ xs) h =
      let (a, b) = find-other id xs h in
      (ap (λ o. if x.edge_id == id then some x else o) a, other x id xs b h)

-- The row that is put in is the one that is found, whether there was one or not.
put-same :
    (c : EdgeStatusCurrent) (cs : List EdgeStatusCurrent)
    → find (λ x. x.edge_id == c.edge_id) (put_current c (find (λ x. x.edge_id == c.edge_id) cs) cs)
      ≡ some c
put-same c cs = elim (Option-cases (find (λ x. x.edge_id == c.edge_id) cs)) [
  | inl missing ↦ rw missing (find-append_new _ cs c missing ((==_iff c.edge_id c.edge_id).1 refl))
  | inr (old, found) ↦ rw found (find-replaced c old cs found)
]

put-other :
    (c : EdgeStatusCurrent) (id : Uuid) (o : Option EdgeStatusCurrent) (cs : List EdgeStatusCurrent)
    → (c.edge_id == id) ≡ false
    → find (λ x. x.edge_id == id) (put_current c o cs) ≡ find (λ x. x.edge_id == id) cs
put-other c id none cs h = (find-other c id cs h).0
put-other c id (some old) cs h = (find-other c id cs h).1

counted :
    (d : Declaration) (now : DateTime) (event_id : Uuid) (o : Option EdgeStatusCurrent)
    → standing_of (current_of d now event_id (next_version o))
      ≡ count_up (standing o) (event_of d now event_id)
counted d now event_id none = refl
counted d now event_id (some c) = refl

recorded :
    (d : Declaration) (now : DateTime) (event_id : Uuid) (s : StatusStore) (id : Uuid)
    (start : Uuid → Option Standing)
    → Projected start s
    → standing (
        find
          (λ x. x.edge_id == id)
          (put_current
            (current_of d now event_id (next_version (get_current_status d.edge_id s)))
            (find (λ x. x.edge_id == d.edge_id) s.edge_status_current)
            s.edge_status_current))
      ≡ replay id (start id) (s.edge_status_events ++ event_of d now event_id ∷ [])
unfolding get_current_status
recorded d now event_id s id start p = elim (Bool-cases (d.edge_id == id)) [
  | inl hit ↦
      rw
        (
          replay-append id (start id) s.edge_status_events (event_of d now event_id),
          hit,
          ← (==_iff d.edge_id id).0 hit,
        )
        (ap standing (put-same _ s.edge_status_current)
          ∙ ap some (
              counted d now event_id (get_current_status d.edge_id s)
              ∙ ap (λ x. count_up x (event_of d now event_id)) (p d.edge_id)))
  | inr miss ↦
      rw (replay-append id (start id) s.edge_status_events (event_of d now event_id), miss)
        (ap standing (put-other _ id _ s.edge_status_current miss) ∙ p id)
]

-- The rows of the current statuses are the projection of the log from the rows that the edges started
-- with, such as the imported ones, which have version 1 and no event: a decision that is recorded
-- keeps each edge's row what its starting row and the replay of its decisions give, that is the last
-- decision, its event, and a version that rises by one with every decision.
pub declare-Projected :
    (start : Uuid → Option Standing) (d : Declaration) (now : DateTime) (event_id : Uuid)
    (s s' : StatusStore) (c : EdgeStatusCurrent)
    → Projected start s
    → declare_edge_status d now event_id s ≡ ok (c, s')
    → Projected start s'
unfolding declare_edge_status append_status_event_and_update_current get_current_status
declare-Projected start d now event_id s s' c p h = λ id.
    let (e, _, h1) = >>=-eq-ok (known_edge (get_edge_by_id d.edge_id s)) _ h in
    let store = ap (λ (r : EdgeStatusCurrent × StatusStore). r.1) (ok-injective h1) in
    rw (← store) (recorded d now event_id s id start p)

max_suc :
    (m n : ℕ) → (if ltb (m + 1) (n + 1) then n + 1 else m + 1) ≡ (if ltb m n then n else m) + 1
max_suc m n = ground arith

greatest-map :
    (m : ℕ) (vs : List NetworkVersionRow)
    → greatest (m + 1) (map next_status_version vs) ≡ greatest m vs + 1
greatest-map m [] = refl
greatest-map m (v ∷ vs) =
    ap (λ x. greatest x (map next_status_version vs)) (max_suc m v.status_version)
    ∙ (greatest-map (if ltb m v.status_version then v.status_version else m) vs)

version_moves :
    (vs : List NetworkVersionRow)
    → (vs ≡ [])
      ⊎ (elim (max_status_version (map next_status_version vs)) [ none ↦ 1 | some v ↦ v ]
          ≡ elim (max_status_version vs) [ none ↦ 1 | some v ↦ v ] + 1)
version_moves [] = inl refl
version_moves (v ∷ vs) = inr (greatest-map v.status_version vs)

-- A decision leaves the rows of the other edges.
pub declare-other :
    (d : Declaration) (now : DateTime) (event_id : Uuid) (s s' : StatusStore)
    (c : EdgeStatusCurrent) (id : Uuid)
    → declare_edge_status d now event_id s ≡ ok (c, s')
    → (d.edge_id == id) ≡ false
    → get_current_status id s' ≡ get_current_status id s
unfolding declare_edge_status append_status_event_and_update_current get_current_status
declare-other d now event_id s s' c id h apart =
    let (e, _, h1) = >>=-eq-ok (known_edge (get_edge_by_id d.edge_id s)) _ h in
    let store = ap (λ (r : EdgeStatusCurrent × StatusStore). r.1) (ok-injective h1) in
    rw (← store) (put-other _ id _ s.edge_status_current apart)

-- What becomes of a decision on an edge that does not exist, or that does.
abbrev pub Records : Declaration → DateTime → Uuid → StatusStore → Option RoadEdge → Type 0
Records d now event_id s none = declare_edge_status d now event_id s ≡ err edge_not_found
Records d now event_id s (some e) =
    (c : EdgeStatusCurrent) × (s' : StatusStore) × (declare_edge_status d now event_id s
      ≡ ok (c, s'))
    × (s'.edge_status_events ≡ s.edge_status_events ++ event_of d now event_id ∷ [])
    × ((s.network_versions ≡ []) ⊎ (get_global_status_version s' ≡ get_global_status_version s + 1))

declare-Records :
    (d : Declaration) (now : DateTime) (event_id : Uuid) (s : StatusStore) (o : Option RoadEdge)
    → get_edge_by_id d.edge_id s ≡ o
    → Records d now event_id s o
unfolding declare_edge_status append_status_event_and_update_current get_global_status_version
declare-Records d now event_id s none h = rw h refl
declare-Records d now event_id s (some e) h =
    rw h (_, _, refl, refl, version_moves s.network_versions)

-- A decision on an edge that exists is recorded, on any other edge it is an error. When it is
-- recorded, the event is appended to the log, nothing of the log is lost, and the network's status
-- version is one more, if there is a network version.
pub declare_recorded :
    (d : Declaration) (now : DateTime) (event_id : Uuid) (s : StatusStore)
    → Records d now event_id s (get_edge_by_id d.edge_id s)
declare_recorded d now event_id s =
    declare-Records d now event_id s (get_edge_by_id d.edge_id s) refl

-- What a recorded decision appends and what row it leaves.
pub declare_edge_status_lem :
    (d : Declaration) (now : DateTime) (event_id : Uuid) (s s' : StatusStore)
    (c : EdgeStatusCurrent)
    → declare_edge_status d now event_id s ≡ ok (c, s')
    → (s'.edge_status_events ≡ s.edge_status_events ++ event_of d now event_id ∷ [])
      × (get_current_status d.edge_id s' ≡ some c)
      × (c.status ≡ d.status)
unfolding declare_edge_status append_status_event_and_update_current get_current_status
declare_edge_status_lem d now event_id s s' c h =
    let (e, _, h1) = >>=-eq-ok (known_edge (get_edge_by_id d.edge_id s)) _ h in
    let both = ok-injective h1 in
    let store = ap (λ (r : EdgeStatusCurrent × StatusStore). r.1) both in
    let row = ap (λ (r : EdgeStatusCurrent × StatusStore). r.0) both in
    (
      rw (← store) refl,
      rw (← store) (put-same _ s.edge_status_current ∙ ap some row),
      rw (← row) refl,
    )
