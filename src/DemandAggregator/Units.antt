-- ===== src/DemandAggregator/Units.antt =====
-- The aggregator as a set of units: a quotient that forgets the order of the list, in which the
-- operations of the class and its observers are those of the set.
use mathlib.Core.Quot
use mathlib.Core.Quot.{Quot, Quot-set}
use native.Mathlib.Nat.{ℕ_set}
use esp32_dust_extraction.Common.{
  ℕ, suc, ◌+◌, ◌≤◌, ◌<◌, ◌≡◌, ◌≢◌, refl, sym, ap, ◌∙◌, false, not, ◌&&◌, List, [], ◌∷◌, Text,
  text_eq, text_eq_iff, text_eq_refl, length, arith, ◌==◌, if◌then◌else◌,
}
use esp32_dust_extraction.DemandAggregator.{
  DemandAggregator, new, contains, erase, start, stop, has_demand, active_count, is_active,
  is_empty,
}
use esp32_dust_extraction.DemandAggregator.History.{
  Call, starts, stops, run, last_call, is_active-run,
}

unfoldable pub count : Text → List Text → ℕ
count unit [] = 0
count unit (a ∷ active) = (if text_eq a unit then 1 else 0) + count unit active

-- The same units, as often.
abbrev pub SameUnits : DemandAggregator → DemandAggregator → Type 0
SameUnits d e = (unit : Text) → count unit d.active ≡ count unit e.active

abbrev pub Units : Type 0
Units = Quot SameUnits

contains-count :
    (unit : Text) (active : List Text) → contains unit active ≡ not (count unit active == 0)
unfolding contains count
contains-count unit [] = refl
contains-count unit (a ∷ active) = ground (arith, contains-count unit active)

-- One copy of a unit less.
remove : Text → List Text → List Text
remove unit [] = []
remove unit (a ∷ active) =
    let rest = a ∷ remove unit active in if text_eq a unit then active else rest

length-remove :
    (unit : Text) (active : List Text)
    → 0 < count unit active
    → length active ≡ suc (length (remove unit active))
unfolding remove count
length-remove unit [] h = absurd (omega arith)
length-remove unit (a ∷ active) h = ground (arith, length-remove unit active)

count-remove :
    (unit v : Text) (active : List Text)
    → 0 < count unit active
    → count v active ≡ (if text_eq unit v then 1 else 0) + count v (remove unit active)
unfolding remove count
count-remove unit v [] h = absurd (omega arith)
count-remove unit v (a ∷ active) h =
    ground
      (arith, count-remove unit v active, text_eq_iff a unit, text_eq_iff a v, text_eq_iff unit v)

length-count :
    (xs ys : List Text) → ((unit : Text) → count unit xs ≡ count unit ys) → length xs ≡ length ys
unfolding count
length-count [] [] h = refl
length-count [] (y ∷ ys) h = absurd (ground (arith, h y, text_eq_refl y))
length-count (x ∷ xs) ys h =
    let found : 0 < count x ys = ground (arith, h x, text_eq_refl x) in
    let rest = length-count xs (remove x ys) (λ v. omega (arith, h v, count-remove x v ys found)) in
    omega (arith, rest, length-remove x ys found)

count-erase :
    (unit v : Text) (active : List Text)
    → count v (erase unit active) ≡ (if text_eq unit v then 0 else count v active)
unfolding count erase
count-erase unit v [] = ground arith
count-erase unit v (a ∷ active) =
    ground
      (arith, count-erase unit v active, text_eq_iff a unit, text_eq_iff a v, text_eq_iff unit v)

count-start :
    (unit v : Text) (d : DemandAggregator)
    → count v (start unit d).1.active
      ≡ (if count unit d.active == 0 && text_eq unit v then 1 else 0) + count v d.active
unfolding start count
count-start unit v d = ground (arith, contains-count unit d.active)

count-stop :
    (unit v : Text) (d : DemandAggregator)
    → count v (stop unit d).1.active ≡ (if text_eq unit v then 0 else count v d.active)
unfolding stop
count-stop unit v d =
    ground (arith, contains-count unit d.active, count-erase unit v d.active, text_eq_iff unit v)

-- The operations and the observers on sets of units.
pub starting : Text → Units → Units
starting unit =
    Quot.lift Quot-set (λ d. Quot.mk (start unit d).1)
      (λ d e h.
        Quot.sound
          (λ v. count-start unit v d ∙ ground (arith, h unit, h v) ∙ sym (count-start unit v e)))

pub stopping : Text → Units → Units
stopping unit =
    Quot.lift Quot-set (λ d. Quot.mk (stop unit d).1)
      (λ d e h.
        Quot.sound (λ v. count-stop unit v d ∙ ground (arith, h v) ∙ sym (count-stop unit v e)))

pub size : Units → ℕ
unfolding active_count
size = Quot.lift ℕ_set active_count (λ d e h. length-count d.active e.active h)

-- No unit is there twice.
abbrev Single : DemandAggregator → Type 0
Single d = (unit : Text) → count unit d.active ≤ 1

run-Single : (calls : List Call) (d : DemandAggregator) → Single d → Single (run calls d)
unfolding run
run-Single [] d h = h
run-Single (starts u ∷ calls) d h =
    run-Single calls (start u d).1 (λ v. ground (arith, h v, count-start u v d, text_eq_iff u v))
run-Single (stops u ∷ calls) d h =
    run-Single calls (stop u d).1 (λ v. ground (arith, h v, count-stop u v d))

count-run :
    (unit : Text) (calls : List Call)
    → count unit (run calls new).active ≡ (if last_call unit false calls then 1 else 0)
unfolding is_active contains
count-run unit calls =
    let single : Single (run calls new) = run-Single calls new (λ v. unfold count in omega arith) in
    ground
      (arith, single unit, contains-count unit (run calls new).active, is_active-run unit calls new)

has_demand-size : (d : DemandAggregator) → has_demand d ≡ not (active_count d == 0)
unfolding has_demand active_count
has_demand-size d = go d.active
  where
    go : (active : List Text) → not (is_empty active) ≡ not (length active == 0)
    go [] = refl
    go (a ∷ active) = ground arith

-- Sets of units: the order of independent calls is an equation.
pub starting_comm : (u v : Text) (q : Units) → starting u (starting v q) ≡ starting v (starting u q)
unfolding starting
starting_comm u v =
    Quot.ind (λ q. Quot-set _ _)
      (λ d. Quot.sound (λ w. ground (
        arith,
        count-start u w (start v d).1,
        count-start v w d,
        count-start v u d,
        count-start v w (start u d).1,
        count-start u w d,
        count-start u v d,
        text_eq_iff u v,
        text_eq_iff v u,
        text_eq_iff u w,
        text_eq_iff v w,
      )))

pub stopping_comm : (u v : Text) (q : Units) → stopping u (stopping v q) ≡ stopping v (stopping u q)
unfolding stopping
stopping_comm u v =
    Quot.ind (λ q. Quot-set _ _)
      (λ d. Quot.sound (λ w. ground (
        arith,
        count-stop u w (stop v d).1,
        count-stop v w d,
        count-stop v w (stop u d).1,
        count-stop u w d,
      )))

pub starting-stopping :
    (u v : Text) → u ≢ v → (q : Units) → starting u (stopping v q) ≡ stopping v (starting u q)
unfolding starting stopping
starting-stopping u v apart =
    Quot.ind (λ q. Quot-set _ _)
      (λ d. Quot.sound (λ w. ground (
        arith,
        count-start u w (stop v d).1,
        count-stop v w d,
        count-stop v u d,
        count-stop v w (start u d).1,
        count-start u w d,
        text_eq_iff u v,
        text_eq_iff v u,
        text_eq_iff u w,
        text_eq_iff v w,
      )))

-- Two histories of a new aggregator that end alike for every unit, with a start or not, leave the
-- same set of units, in whatever order they came: the same element of the quotient, the same count
-- and the same demand.
pub run-Units :
    (xs ys : List Call)
    → ((unit : Text) → last_call unit false xs ≡ last_call unit false ys)
    → (◌≡◌ {A = Units} (Quot.mk (run xs new)) (Quot.mk (run ys new)))
      × (active_count (run xs new) ≡ active_count (run ys new))
      × (has_demand (run xs new) ≡ has_demand (run ys new))
unfolding size
run-Units xs ys h =
    let same : ◌≡◌ {A = Units} (Quot.mk (run xs new)) (Quot.mk (run ys new)) =
      Quot.sound (λ u. count-run u xs ∙ rw (h u) (sym (count-run u ys))) in
    let counted : active_count (run xs new) ≡ active_count (run ys new) = ap size same in
    (same, counted, has_demand-size (run xs new) ∙ rw counted (sym (has_demand-size (run ys new))))
