-- ===== src/DemandAggregator/History.antt =====
-- The demand that a history of starts and stops leaves.
use esp32_dust_extraction.Common.{
  ◌≡◌, ◌↔◌, refl, Bool, true, false, not, List, [], ◌∷◌, Text, text_eq, text_eq_iff, text_eq_refl,
  arith, if◌then◌else◌, ap, sym, ◌∙◌,
}
use esp32_dust_extraction.DemandAggregator.{
  DemandAggregator, new, contains, erase, start, stop, has_demand, is_active, is_empty,
}

pub data Call : Type 0 where
  starts stops : Text → Call

unfoldable pub run : List Call → DemandAggregator → DemandAggregator
run [] d = d
run (starts u ∷ calls) d = run calls (start u d).1
run (stops u ∷ calls) d = run calls (stop u d).1

-- Whether the last call that names `unit` starts it; `before`, if none does.
unfoldable pub last_call : Text → Bool → List Call → Bool
last_call unit before [] = before
last_call unit before (starts u ∷ calls) =
    last_call unit (if text_eq u unit then true else before) calls
last_call unit before (stops u ∷ calls) =
    last_call unit (if text_eq u unit then false else before) calls

text_eq_swap : (s t u : Text) → text_eq s t ≡ true → text_eq s u ≡ text_eq t u
text_eq_swap s t u h = ap (λ x. text_eq x u) ((text_eq_iff s t).0 h)

contains_same :
    (u v : Text) (active : List Text) → text_eq u v ≡ true → contains u active ≡ contains v active
contains_same u v active h = ap (λ x. contains x active) ((text_eq_iff u v).0 h)

contains-erase :
    (u v : Text) (active : List Text)
    → contains v (erase u active) ≡ (if text_eq u v then false else contains v active)
unfolding contains erase
contains-erase u v [] = ground arith
contains-erase u v (a ∷ active) = ground (
  arith,
  contains-erase u v active,
  text_eq_swap a u v,
  text_eq_iff a u,
  text_eq_iff a v,
  text_eq_iff u v,
)

is_active-start :
    (u v : Text) (d : DemandAggregator)
    → is_active v (start u d).1 ≡ (if text_eq u v then true else is_active v d)
unfolding is_active start contains
is_active-start u v d = ground (arith, contains_same u v d.active)

is_active-stop :
    (u v : Text) (d : DemandAggregator)
    → is_active v (stop u d).1 ≡ (if text_eq u v then false else is_active v d)
unfolding is_active stop
is_active-stop u v d = ground (arith, contains_same u v d.active, contains-erase u v d.active)

-- A unit is active after a history of starts and stops if and only if the last call that names it
-- is a start, or if none names it and it was active before.
pub is_active-run :
    (unit : Text) (calls : List Call) (d : DemandAggregator)
    → is_active unit (run calls d) ≡ last_call unit (is_active unit d) calls
unfolding run last_call
is_active-run unit [] d = refl
is_active-run unit (starts u ∷ calls) d =
    is_active-run unit calls (start u d).1
    ∙ ap (λ b. last_call unit b calls) (is_active-start u unit d)
is_active-run unit (stops u ∷ calls) d =
    is_active-run unit calls (stop u d).1
    ∙ ap (λ b. last_call unit b calls) (is_active-stop u unit d)

some_unit :
    (active : List Text) → not (is_empty active) ≡ true → (u : Text) × (contains u active ≡ true)
unfolding contains
some_unit [] h = absurd (ground (arith, h))
some_unit (a ∷ active) h = (a, ground (arith, text_eq_refl a))

no_unit : (active : List Text) (u : Text) → contains u active ≡ true → not (is_empty active) ≡ true
unfolding contains
no_unit [] u h = absurd (ground (arith, h))
no_unit (a ∷ active) u h = refl

-- After a history of starts and stops of a new aggregator there is demand if the last call that
-- names some unit is a start, and only then.
pub has_demand-run :
    (calls : List Call)
    → (has_demand (run calls new) ≡ true) ↔ ((unit : Text) × (last_call unit false calls ≡ true))
unfolding has_demand is_active contains
has_demand-run calls = (
  λ h.
      let (unit, e) = some_unit (run calls new).active h in
      (unit, sym (is_active-run unit calls new) ∙ e),
  λ (unit, e). no_unit (run calls new).active unit (is_active-run unit calls new ∙ e),
)
