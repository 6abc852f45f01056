-- ===== src/Registry.antt =====
-- server/session-registry.ts: what the app has spawned and must dispose of when it closes. An id,
-- `name#counter`, is its counter here. A call of `dispose` is recorded when it is made; its promise
-- settles in an event of its own, and what a disposer does itself, such as a registration, is an
-- event that follows. disposeAll guards on its promise, which is set once its
-- first synchronous part has run; the model guards on the state, which that part sets.
pub mod Events
pub mod Accounts
use bored_manager.Base.{
  ℕ, suc, ◌+◌, String, Option, none, some, Bool, true, false, List, [], ◌∷◌, ◌++◌, ◌==◌, nat_key,
  not, ◌&&◌, any, every, keep, map, is_some, if◌then◌else◌,
}
use bored_manager.Base.Dict
use bored_manager.Base.Dict.{Dict}

pub data RegistryState : Type 0 where
  active shutting_down disposed : RegistryState

-- Where `drain` is: not called; in `settleWithin` with some work; at `await Promise.resolve()`;
-- returned, with the `finally` of `disposeAll` to come; and that has run.
pub data Drain : Type 0 where
  idle : Drain
  settling : List ℕ → Drain
  pausing : Drain
  returned : Drain
  over : Drain

pub record Registry : Type 0 where
  pub items : Dict ℕ String
  pub late_disposals : List ℕ
  pub counter : ℕ
  pub state : RegistryState
  pub drain : Drain
  -- the calls of `dispose` on items, the last one first, and those whose promise is not settled
  pub calls : List ℕ
  pub running : List ℕ

abbrev pub create_registry : Registry
create_registry = record {
  items = [];
  late_disposals = [];
  counter = 0;
  state = active;
  drain = idle;
  calls = [];
  running = [];
}

abbrev pub keys : Dict ℕ String → List ℕ
keys items = map (λ e. e.0) items

-- `disposeItem`
abbrev pub dispose_item : ℕ → Registry → Registry
dispose_item id r = record r { calls = id ∷ r.calls; running = id ∷ r.running }

unfoldable pub register : String → Registry → Registry
register name r =
    let id = suc r.counter in
    let counted : Registry = record r { counter = id } in
    elim r.state [
      | active ↦ record counted { items = Dict.insert id name r.items }
      | shutting_down ↦ dispose_item id (record counted { late_disposals = id ∷ r.late_disposals })
      | disposed ↦ dispose_item id counted
    ]

unfoldable pub unregister : ℕ → Registry → Registry
unregister id r = record r { items = Dict.erase id r.items }

unfoldable pub dispose : ℕ → Registry → Registry
dispose id r =
    if is_some (Dict.get id r.items)
    then dispose_item id (record r { items = Dict.erase id r.items })
    else r

-- A round of the loop of `drain`; `is_late` says that no time remains.
unfoldable pub round : Bool → Registry → Registry
round is_late r =
    let ids = keys r.items in
    let work = ids ++ r.late_disposals in
    record r {
      items = [];
      calls = ids ++ r.calls;
      running = ids ++ r.running;
      drain = elim work [
        | [] ↦ pausing
        | id ∷ more ↦ if is_late then returned else settling (id ∷ more)
      ];
    }

unfoldable pub dispose_all : Bool → Registry → Registry
unfolding round
dispose_all is_late r = elim r.state [
  | active ↦ round is_late (record r { state = shutting_down })
  | _ ↦ r
]

abbrev pub is_settled : List ℕ → ℕ → Bool
is_settled running id = not (any (λ j. j == id) running)

abbrev pub nothing_left : Registry → Bool
nothing_left r = elim (keys r.items ++ r.late_disposals) [ [] ↦ true | id ∷ more ↦ false ]

-- `drain` goes on: from its work when all of it has settled, from its pause at once.
unfoldable pub resume : Bool → Registry → Registry
unfolding round
resume is_late r = elim r.drain [
  | settling work ↦ if every (is_settled r.running) work then round is_late r else r
  | pausing ↦ if nothing_left r then record r { drain = returned } else round is_late r
  | _ ↦ r
]

-- The timer of `settleWithin` fires.
abbrev pub expire : Registry → Registry
expire r = elim r.drain [ settling work ↦ record r { drain = returned } | _ ↦ r ]

-- The `finally` of `disposeAll`.
unfoldable pub close : Registry → Registry
close r = elim r.drain [
  | returned ↦ record r { drain = over; state = disposed; items = [] }
  | _ ↦ r
]

-- The promise of a call of `dispose` settles; the `finally` of a late disposal runs.
abbrev pub settle : ℕ → Registry → Registry
settle id r = record r { running = keep (λ j. not (j == id)) r.running }

abbrev pub finalize : ℕ → Registry → Registry
finalize id r =
    if is_settled r.running id
    then record r { late_disposals = keep (λ j. not (j == id)) r.late_disposals }
    else r
