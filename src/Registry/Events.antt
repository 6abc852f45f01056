-- ===== src/Registry/Events.antt =====
-- server/session-registry.ts: its calls, timers and settled promises as events, and what a history of
-- them has unregistered.
use bored_manager.Base.{
  ℕ, suc, String, Bool, true, false, List, [], ◌∷◌, ◌==◌, nat_key, ◌&&◌, is_some, leb,
  if◌then◌else◌,
}
use bored_manager.Base.Dict
use bored_manager.Base.Dict.{Dict, get-insert, get-erase}
use bored_manager.Registry.{
  Registry, create_registry, RegistryState, active, register, unregister, dispose, dispose_all,
  resume, expire, close, settle, finalize,
}

pub data Event : Type 0 where
  registers : String → Event
  unregisters : ℕ → Event
  disposes : ℕ → Event
  shuts_down : Bool → Event
  resumes : Bool → Event
  expires : Event
  closes : Event
  settles : ℕ → Event
  finalizes : ℕ → Event

unfoldable pub step : Event → Registry → Registry
unfolding register unregister dispose dispose_all resume close
step (registers name) r = register name r
step (unregisters id) r = unregister id r
step (disposes id) r = dispose id r
step (shuts_down is_late) r = dispose_all is_late r
step (resumes is_late) r = resume is_late r
step expires r = expire r
step closes r = close r
step (settles id) r = settle id r
step (finalizes id) r = finalize id r

-- The newest event comes first.
unfoldable pub registry_after : List Event → Registry
unfolding step
registry_after [] = create_registry
registry_after (e ∷ before) = step e (registry_after before)

abbrev pub count : ℕ → List ℕ → ℕ
count id [] = 0
count id (j ∷ ids) = let rest = count id ids in if j == id then suc rest else rest

-- The ids that were unregistered while they were held.
abbrev pub unregistered : List Event → List ℕ
unregistered [] = []
unregistered (unregisters id ∷ before) =
    let rest = unregistered before in
    if is_some (Dict.get id (registry_after before).items) then id ∷ rest else rest
unregistered (e ∷ before) = unregistered before

abbrev pub is_held : ℕ → Registry → ℕ
is_held id r = if is_some (Dict.get id r.items) then 1 else 0

abbrev pub is_active : RegistryState → Bool
is_active active = true
is_active _ = false

abbrev pub was_registered : ℕ → Registry → ℕ
was_registered id r = if leb 1 id && leb id r.counter then 1 else 0
