-- ===== src/Logistics/Dispatch/Checked.antt =====
-- What a dispatch that goes through has checked.
use smart_logistics_accessib.Base.{
  ◌≡◌, Float, float, lt_float, Bool, true, false, ◌&&◌, not, Option, none, some, List, [], ◌∷◌,
  Uuid, arith, ap, sym, ◌∙◌, ok, raise_if-ok, ok-injective, >>=-eq-ok, In, here, there,
}
use smart_logistics_accessib.Logistics.Enums.{CargoCategory, oxygen_cylinders, cold_chain_vaccines}
use smart_logistics_accessib.Logistics.Entities.{Vehicle, Driver, DeliveryCommitment, Trip}
use smart_logistics_accessib.Logistics.Store.{
  LogisticsStore, get_vehicle_by_id, get_driver_by_id, get_commitment_by_id, is_vehicle_dispatched,
  is_driver_dispatched, save_trip,
}
use smart_logistics_accessib.Logistics.Dispatch.{
  DispatchRequest, Surroundings, Load, active_vehicle, active_driver, add_cargo, known_commitment,
  gather, empty_load, build_trip, dispatch_trip,
}

-- The commitments that the identifiers name, in order.
abbrev pub Names : LogisticsStore → List Uuid → List DeliveryCommitment → Type 0
Names s [] [] = Unit
Names s (id ∷ ids) (c ∷ cs) = (get_commitment_by_id id s ≡ some c) × Names s ids cs
Names s _ _ = ⊥

-- Their weights, added in order.
abbrev pub add_weights : (Float → Float → Float) → Float → List DeliveryCommitment → Float
add_weights plus w [] = w
add_weights plus w (c ∷ cs) = add_weights plus (plus w c.consigned_weight_kg) cs

-- The vehicle may carry each of the goods.
pub record Carries (v : Vehicle) (c : DeliveryCommitment) : Type 0 where
  pub oxygen : c.cargo_category ≡ oxygen_cylinders → v.is_hazmat_capable ≡ true
  pub vaccines : c.cargo_category ≡ cold_chain_vaccines → v.is_refrigerated ≡ true

pub record Cleared (env : Surroundings) (req : DispatchRequest) (s : LogisticsStore) : Type 0 where
  pub vehicle : Vehicle
  pub vehicle_found : get_vehicle_by_id req.vehicle_id s ≡ some vehicle
  pub vehicle_active : vehicle.is_active ≡ true
  pub driver : Driver
  pub driver_found : get_driver_by_id req.driver_id s ≡ some driver
  pub driver_active : driver.is_active ≡ true
  pub vehicle_free : is_vehicle_dispatched req.vehicle_id s ≡ false
  pub driver_free : is_driver_dispatched req.driver_id s ≡ false
  pub goods : List DeliveryCommitment
  pub goods_named : Names s req.commitment_ids goods
  pub within_capacity :
      lt_float vehicle.max_weight_kg (add_weights env.plus (float 0) goods) ≡ false
  pub carries : (c : DeliveryCommitment) → In c goods → Carries vehicle c

-- What the gathered load says of the goods.
pub record Gathered (plus : Float → Float → Float) (s : LogisticsStore) (ids : List Uuid)
    (l l' : Load) : Type 0 where
  pub goods : List DeliveryCommitment
  pub named : Names s ids goods
  pub weight : l'.total_weight ≡ add_weights plus l.total_weight goods
  pub keeps_hazmat : l.has_hazmat ≡ true → l'.has_hazmat ≡ true
  pub keeps_cold : l.has_cold_chain ≡ true → l'.has_cold_chain ≡ true
  pub hazmat :
      (c : DeliveryCommitment)
      → In c goods
      → c.cargo_category ≡ oxygen_cylinders
      → l'.has_hazmat ≡ true
  pub cold :
      (c : DeliveryCommitment)
      → In c goods
      → c.cargo_category ≡ cold_chain_vaccines
      → l'.has_cold_chain ≡ true

known-ok :
    (o : Option DeliveryCommitment) {c : DeliveryCommitment}
    → known_commitment o ≡ ok c
    → o ≡ some c
known-ok none h = cc
known-ok (some x) h = cc

-- One commitment added to a load.
module _ (plus : Float → Float → Float) (k : CargoCategory) (w : Float) (l : Load) where
  add_cargo-weight : (add_cargo plus k w l).total_weight ≡ plus l.total_weight w
  unfolding add_cargo
  add_cargo-weight = ground arith

  add_cargo-flags :
      (l.has_hazmat ≡ true → (add_cargo plus k w l).has_hazmat ≡ true)
      × (l.has_cold_chain ≡ true → (add_cargo plus k w l).has_cold_chain ≡ true)
      × (k ≡ oxygen_cylinders → (add_cargo plus k w l).has_hazmat ≡ true)
      × (k ≡ cold_chain_vaccines → (add_cargo plus k w l).has_cold_chain ≡ true)
  unfolding add_cargo
  add_cargo-flags =
      ((λ h. ground arith), (λ h. ground arith), (λ h. ground arith), (λ h. ground arith))

-- A flag that the first of the goods raises and that the others raise.
from_first :
    {k : CargoCategory} {b : Bool} {c : DeliveryCommitment} {cs : List DeliveryCommitment}
    → ((x : DeliveryCommitment) → In x cs → x.cargo_category ≡ k → b ≡ true)
    → (c.cargo_category ≡ k → b ≡ true)
    → (x : DeliveryCommitment) → In x (c ∷ cs)
    → x.cargo_category ≡ k
    → b ≡ true
from_first others first x (here e) h =
    first (sym (ap (λ (c : DeliveryCommitment). c.cargo_category) e) ∙ h)
from_first others first x (there m) h = others x m h

gather-ok :
    (plus : Float → Float → Float) (s : LogisticsStore) (ids : List Uuid) (l : Load) (l' : Load)
    → gather plus s ids l ≡ ok l'
    → Gathered plus s ids l l'
unfolding gather
gather-ok plus s [] l l' h = record {
  goods = [];
  named = tt;
  weight = ground arith;
  keeps_hazmat = λ e. ground arith;
  keeps_cold = λ e. ground arith;
  hazmat = λ c m. elim m [ ];
  cold = λ c m. elim m [ ];
}
gather-ok plus s (id ∷ ids) l l' h =
    let (c, found, rest) = >>=-eq-ok (known_commitment (get_commitment_by_id id s)) _ h in
    let g =
      gather-ok plus s ids (add_cargo plus c.cargo_category c.consigned_weight_kg l) l' rest in
    let (kh, kc, oh, oc) = add_cargo-flags plus c.cargo_category c.consigned_weight_kg l in
    record {
      goods = c ∷ g.goods;
      named = (known-ok _ found, g.named);
      weight =
          g.weight
          ∙ ap (λ w. add_weights plus w g.goods)
              (add_cargo-weight plus c.cargo_category c.consigned_weight_kg l);
      keeps_hazmat = λ e. g.keeps_hazmat (kh e);
      keeps_cold = λ e. g.keeps_cold (kc e);
      hazmat = λ x m e. from_first g.hazmat (λ o. g.keeps_hazmat (oh o)) x m e;
      cold = λ x m e. from_first g.cold (λ o. g.keeps_cold (oc o)) x m e;
    }

active_of :
    (x : Vehicle) {v : Vehicle}
    → not x.is_active ≡ false
    → x ≡ v
    → (some x ≡ some v) × (v.is_active ≡ true)
active_of x a e = (ap some e, rw (← e) (ground arith))

driver_of :
    (x : Driver) {d : Driver}
    → not x.is_active ≡ false
    → x ≡ d
    → (some x ≡ some d) × (d.is_active ≡ true)
driver_of x a e = (ap some e, rw (← e) (ground arith))

active_vehicle-ok :
    (o : Option Vehicle) {v : Vehicle}
    → active_vehicle o ≡ ok v
    → (o ≡ some v) × (v.is_active ≡ true)
active_vehicle-ok none h = cc
active_vehicle-ok (some x) h =
    let (a, e) = raise_if-ok (not x.is_active) _ _ h in active_of _ a (ok-injective e)

active_driver-ok :
    (o : Option Driver) {d : Driver} → active_driver o ≡ ok d → (o ≡ some d) × (d.is_active ≡ true)
active_driver-ok none h = cc
active_driver-ok (some x) h =
    let (a, e) = raise_if-ok (not x.is_active) _ _ h in driver_of _ a (ok-injective e)

implied : (a b : Bool) → (a && not b) ≡ false → a ≡ true → b ≡ true
implied a b h e = ground arith

-- A dispatch that returns has found an active vehicle and an active driver, neither on an active
-- trip, and every commitment. Their weights, added in order, are not above the vehicle's capacity,
-- and the vehicle may carry oxygen and vaccines where one of them is that. The new trip is in
-- dispatched state and the tables are the old ones with that trip saved.
pub dispatch_sound :
    (env : Surroundings) (req : DispatchRequest) (s : LogisticsStore) (t : Trip)
    (s' : LogisticsStore)
    → dispatch_trip env req s ≡ ok (t, s')
    → Cleared env req s × (t ≡ build_trip env req) × (s' ≡ save_trip t s)
unfolding dispatch_trip
dispatch_sound env req s t s' h =
    let (v, fv, h1) = >>=-eq-ok (active_vehicle (get_vehicle_by_id req.vehicle_id s)) _ h in
    let (d, fd, h2) = >>=-eq-ok (active_driver (get_driver_by_id req.driver_id s)) _ h1 in
    let (vehicle_free, h3) = raise_if-ok _ _ _ h2 in
    let (driver_free, h4) = raise_if-ok _ _ _ h3 in
    let (l, gathered, h5) = >>=-eq-ok (gather env.plus s req.commitment_ids empty_load) _ h4 in
    let (light, h6) = raise_if-ok _ _ _ h5 in
    let (hazmat, h7) = raise_if-ok _ _ _ h6 in
    let (cold, h8) = raise_if-ok _ _ _ h7 in
    let (found_v, active_v) = active_vehicle-ok _ fv in
    let (found_d, active_d) = active_driver-ok _ fd in
    let g = gather-ok env.plus s req.commitment_ids empty_load l gathered in
    (
      record {
        vehicle = v;
        vehicle_found = found_v;
        vehicle_active = active_v;
        driver = d;
        driver_found = found_d;
        driver_active = active_d;
        vehicle_free = vehicle_free;
        driver_free = driver_free;
        goods = g.goods;
        goods_named = g.named;
        within_capacity = sym (ap (λ w. lt_float v.max_weight_kg w) g.weight) ∙ light;
        carries = λ c m. record {
          oxygen = λ e. implied _ _ hazmat (g.hazmat c m e);
          vaccines = λ e. implied _ _ cold (g.cold c m e);
        };
      },
      ap (λ (r : Trip × LogisticsStore). r.0) (sym (ok-injective h8)),
      ap (λ (r : Trip × LogisticsStore). r.1) (sym (ok-injective h8))
          ∙ ap (λ u. save_trip u s) (ap (λ (r : Trip × LogisticsStore). r.0) (ok-injective h8)),
    )
