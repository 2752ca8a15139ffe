-- ===== src/Nodes/Rank/Loops.antt =====
-- app/nodes/agent_nodes.py: what the loops over the answers of the rules raise.

use map_service_agent.Prelude.{◌≡◌, ◌⊎◌, refl, Bool, true, false, List, [], inl, inr}
use map_service_agent.Value.{Json, truthy}
use map_service_agent.Failure.{type_error, returned, raised}
use map_service_agent.Nodes.Rank.{is_rule_error, not_iterable, iterated}

-- The exceptions that a loop over the hub's answer raises.
not_iterable-cases :
    (b : Bool) → (not_iterable b ≡ returned []) ⊎ (not_iterable b ≡ raised type_error)
unfolding not_iterable
not_iterable-cases true = inr refl
not_iterable-cases false = inl refl

pub iterated-cases :
    (v : Json) → ((cs : List Json) × (iterated v ≡ returned cs)) ⊎ (iterated v ≡ raised type_error)
unfolding iterated
iterated-cases (Json.arr vs) = inl (_, refl)
iterated-cases (Json.obj fs) = inl (_, refl)
iterated-cases (Json.str s) = inl (_, refl)
iterated-cases v = elim (not_iterable-cases (truthy v)) [ inl e ↦ inl ([], e) | inr e ↦ inr e ]

pub type_error-escapes : is_rule_error type_error ≡ false
unfolding is_rule_error
type_error-escapes = refl
