-- ===== src/Coordinator.antt =====
-- server/resource-coordinator.ts: the mutex by which the mutations that name a resource are served
-- one at a time. `tails` chains the promises of the calls of `acquire` with one name: a call waits
-- for the gates of all earlier calls with that name. The model keeps the gates that are still
-- closed, the oldest first; the promise `previous` of a call is settled when no earlier gate of its
-- name is left, and the deletion of a settled tail changes nothing here.
pub mod Order
pub mod Invariant
pub mod Progress
pub mod Asked
use bored_manager.Base.{
  ℕ, suc, ◌+◌, Option, none, some, Bool, true, false, List, [], ◌∷◌, ◌++◌, ◌≡◌, refl, ap, sym, ◌∙◌,
  ltb, eqb, ◌==◌, nat_key, Key, any, keep, total, length, not, ◌&&◌, is_some, if◌then◌else◌,
  eqb_iff,
}
use bored_manager.Base.Dict
use bored_manager.Base.Dict.{Dict}

pub data Resource : Type 0 where
  connection settings users packages modules update : Resource

-- The place in the order of `sort()`, which is that of the texts.
abbrev pub rank : Resource → ℕ
rank connection = 0
rank modules = 1
rank packages = 2
rank settings = 3
rank update = 4
rank users = 5

abbrev pub of_rank : ℕ → Resource
of_rank k =
    if k == 0
    then connection
    else if k == 1
    then modules
    else if k == 2
    then packages
    else if k == 3
    then settings
    else if k == 4
    then update
    else users

pub of_rank-rank : (n : Resource) → of_rank (rank n) ≡ n
of_rank-rank connection = refl
of_rank-rank settings = refl
of_rank-rank users = refl
of_rank-rank packages = refl
of_rank-rank modules = refl
of_rank-rank update = refl

instance abbrev pub resource_key : Key Resource
resource_key = record {
  equal = λ n m. eqb (rank n) (rank m);
  equal_iff = λ n m. (
    λ e. sym (of_rank-rank n) ∙ ap of_rank ((eqb_iff (rank n) (rank m)).0 e) ∙ of_rank-rank m,
    λ e. (eqb_iff (rank n) (rank m)).1 (ap rank e),
  );
}

-- `[...new Set(resources)].sort()`
abbrev pub insert_name : Resource → List Resource → List Resource
insert_name n [] = n ∷ []
insert_name n (m ∷ ms) =
    let later = insert_name n ms in
    if ltb (rank n) (rank m) then n ∷ m ∷ ms else if n == m then m ∷ ms else m ∷ later

abbrev pub sorted_names : List Resource → List Resource
sorted_names [] = []
sorted_names (n ∷ ns) = insert_name n (sorted_names ns)

-- A closed gate, and the call of `run` whose release opens it.
pub record Gate : Type 0 where
  pub name : Resource
  pub run : ℕ

-- Where a call of `run` is: it awaits `acquire(name)` with the names before it acquired and those
-- after it to come, or its operation runs.
pub data Phase : Type 0 where
  waiting : List Resource → Resource → List Resource → Phase
  working : List Resource → Phase

pub record Coordinator : Type 0 where
  pub gates : List Gate
  pub runs : Dict ℕ Phase

abbrev pub create_coordinator : Coordinator
create_coordinator = record { gates = []; runs = [] }

-- No gate of the name is closed before that of the run: its `previous` is settled.
abbrev pub is_first : Resource → ℕ → List Gate → Bool
is_first n r [] = false
is_first n r (g ∷ gates) = if g.name == n then g.run == r else is_first n r gates

-- The loop over the names, up to the next `await` or the start of the operation.
unfoldable pub enter : ℕ → List Resource → List Resource → Coordinator → Coordinator
enter r held [] c = record c { runs = Dict.insert r (working held) c.runs }
enter r held (n ∷ rest) c = record c {
  gates = c.gates ++ (record { name = n; run = r } ∷ []);
  runs = Dict.insert r (waiting held n rest) c.runs;
}

-- `releases.reverse()`: every release opens its gate, in the same turn.
abbrev pub release : ℕ → List Resource → List Gate → List Gate
release r held gates = keep (λ g. not (g.run == r && any (λ n. n == g.name) held)) gates

-- `run` is called; a run's promise `previous` is settled and it goes on; its operation has settled.
pub data Event : Type 0 where
  called : ℕ → List Resource → Event
  passed : ℕ → Event
  settled : ℕ → Event

abbrev go_on : ℕ → Phase → Coordinator → Coordinator
unfolding enter
go_on r (waiting held n rest) c =
    if is_first n r c.gates then enter r (held ++ (n ∷ [])) rest c else c
go_on r (working held) c = c

abbrev leave : ℕ → Phase → Coordinator → Coordinator
leave r (waiting held n rest) c = c
leave r (working held) c = record { gates = release r held c.gates; runs = Dict.erase r c.runs }

-- An event that cannot happen in a state leaves it; a call has a number of its own.
unfoldable pub happens : Event → Coordinator → Coordinator
unfolding enter
happens (called r resources) c =
    if is_some (Dict.get r c.runs) then c else enter r [] (sorted_names resources) c
happens (passed r) c = elim (Dict.get r c.runs) [ none ↦ c | some p ↦ go_on r p c ]
happens (settled r) c = elim (Dict.get r c.runs) [ none ↦ c | some p ↦ leave r p c ]

-- The state after some events, the first one first.
unfoldable pub after : List Event → Coordinator → Coordinator
after [] c = c
after (e ∷ es) c = after es (happens e c)
