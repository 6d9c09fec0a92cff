-- ===== src/Impact/Enums.antt =====
-- backend/app/modules/impact/domain/enums.py
pub data ImpactType : Type 0 where
  blocked_route restricted_delay bridge_incompatible curfew_conflict : ImpactType

pub data ImpactSeverity : Type 0 where
  critical high moderate low : ImpactSeverity

pub data RecommendedAction : Type 0 where
  reroute_mandatory reroute_advisory hold_at_facility proceed_with_caution : RecommendedAction

pub data ReachabilityState : Type 0 where
  reachable restricted_reachable no_feasible_path insufficient_data : ReachabilityState
