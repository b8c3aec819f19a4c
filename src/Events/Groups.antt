-- ===== src/Events/Groups.antt =====
-- src/async_events/event_manager.py: the dictionary of groups, when a subscriber leaves and when empty
-- groups are dropped.
use async_task_worker.Base.{
  String, ◌≡◌, refl, false, Option, none, some, [], ◌∷◌, arith, Option-cases, inl, inr,
}
use async_task_worker.Base.Dict
use async_task_worker.Base.Dict.{Dict, Set, contains, IsUnique}
use async_task_worker.Events.{leave_groups, drop_empty}

pub lookup-leave_groups :
    (s g : String) (groups : Dict Set)
    → Dict.lookup g (leave_groups s groups)
      ≡ elim (Dict.lookup g groups) [ none ↦ none | some ms ↦ some (Dict.delete s ms) ]
unfolding leave_groups Dict.lookup
lookup-leave_groups s g [] = refl
lookup-leave_groups s g ((i, ms) ∷ rest) = ground (arith, lookup-leave_groups s g rest)

pub contains-leave_groups :
    (s g : String) (groups : Dict Set) → contains g (leave_groups s groups) ≡ contains g groups
contains-leave_groups s g groups = elim (Option-cases (Dict.lookup g groups)) [
  | inl e ↦ ground (arith, e, lookup-leave_groups s g groups)
  | inr (ms, e) ↦ ground (arith, e, lookup-leave_groups s g groups)
]

pub leave_groups-IsUnique :
    (s : String) (groups : Dict Set) → IsUnique groups → IsUnique (leave_groups s groups)
unfolding leave_groups
leave_groups-IsUnique s [] u = tt
leave_groups-IsUnique s ((g, ms) ∷ rest) u =
    (ground (arith, u.0, contains-leave_groups s g rest), leave_groups-IsUnique s rest u.1)

-- An absent group stays absent.
pub absent-drop_empty :
    (g : String) (groups : Dict Set)
    → contains g groups ≡ false
    → contains g (drop_empty groups) ≡ false
unfolding drop_empty Dict.lookup
absent-drop_empty g [] h = h
absent-drop_empty g ((i, []) ∷ rest) h = ground (arith, h, absent-drop_empty g rest)
absent-drop_empty g ((i, x ∷ xs) ∷ rest) h = ground (arith, h, absent-drop_empty g rest)

pub drop_empty-IsUnique : (groups : Dict Set) → IsUnique groups → IsUnique (drop_empty groups)
unfolding drop_empty
drop_empty-IsUnique [] u = tt
drop_empty-IsUnique ((g, []) ∷ rest) u = drop_empty-IsUnique rest u.1
drop_empty-IsUnique ((g, x ∷ xs) ∷ rest) u =
    (absent-drop_empty g rest u.0, drop_empty-IsUnique rest u.1)

abbrev pub set_of : Option Set → Set
set_of none = []
set_of (some s) = s

pub set_of-drop_empty :
    (g : String) (groups : Dict Set)
    → IsUnique groups
    → set_of (Dict.lookup g (drop_empty groups)) ≡ set_of (Dict.lookup g groups)
unfolding drop_empty Dict.lookup
set_of-drop_empty g [] u = refl
set_of-drop_empty g ((i, []) ∷ rest) u =
    ground (arith, set_of-drop_empty g rest u.1, absent-drop_empty g rest, u.0)
set_of-drop_empty g ((i, x ∷ xs) ∷ rest) u = ground (arith, set_of-drop_empty g rest u.1)
