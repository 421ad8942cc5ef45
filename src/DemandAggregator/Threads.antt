-- ===== src/DemandAggregator/Threads.antt =====
-- Threads that start and stop units at the same time. The lock makes every call one step, so that
-- what happens is an interleaving of the threads' calls.
use esp32_dust_extraction.Common.{
  ◌≡◌, refl, ◌∙◌, Bool, true, false, not, List, [], ◌∷◌, Text, text_eq, all, if◌then◌else◌, arith,
}
use esp32_dust_extraction.DemandAggregator.{DemandAggregator, is_active}
use esp32_dust_extraction.DemandAggregator.History.{
  Call, starts, stops, run, last_call, is_active-run,
}

-- The third list is an interleaving of the first two.
pub data Shuffle : List Call → List Call → List Call → Type 0 where
  ended : Shuffle [] [] []
  left : {xs ys zs : List Call} (c : Call) → Shuffle xs ys zs → Shuffle (c ∷ xs) ys (c ∷ zs)
  right : {xs ys zs : List Call} (c : Call) → Shuffle xs ys zs → Shuffle xs (c ∷ ys) (c ∷ zs)

abbrev pub unit_of : Call → Text
unit_of (starts u) = u
unit_of (stops u) = u

-- None of the calls names the unit.
abbrev pub Spares : Text → List Call → Type 0
Spares unit calls = all (λ c. not (text_eq (unit_of c) unit)) calls ≡ true

last_call-Shuffle :
    {xs ys zs : List Call} (unit : Text) (before : Bool)
    → Shuffle xs ys zs
    → Spares unit ys
    → last_call unit before zs ≡ last_call unit before xs
unfolding last_call
last_call-Shuffle unit before ended h = refl
last_call-Shuffle unit before (left (starts u) s) h =
    last_call-Shuffle unit (if text_eq u unit then true else before) s h
last_call-Shuffle unit before (left (stops u) s) h =
    last_call-Shuffle unit (if text_eq u unit then false else before) s h
last_call-Shuffle unit before (right (starts u) s) h =
    ground (arith, last_call-Shuffle unit before s)
last_call-Shuffle unit before (right (stops u) s) h =
    ground (arith, last_call-Shuffle unit before s)

-- However the calls of a thread are interleaved with calls of other threads that do not name a
-- unit, the unit ends as the thread's own calls leave it: active if the last of them that names it
-- is a start, or if none does and it was active before, and only then.
pub is_active-Shuffle :
    {xs ys zs : List Call} (unit : Text) (d : DemandAggregator)
    → Shuffle xs ys zs
    → Spares unit ys
    → is_active unit (run zs d) ≡ last_call unit (is_active unit d) xs
is_active-Shuffle {zs = zs} unit d s h =
    is_active-run unit zs d ∙ last_call-Shuffle unit (is_active unit d) s h
