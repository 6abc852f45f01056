-- ===== src/Lifecycle.antt =====
-- server/lifecycle.ts: the requests that a shutdown waits for, and the PID file that one server
-- holds. A request and a caller of `drain` are numbers. The PID file is none or its content; the
-- file system's answers to one server are read off it, and `alive` stands for `isAlive`. The process
-- id is one that passes the check at the start of acquirePidFile, a positive safe integer, as
-- process.pid is.
pub mod Drained
pub mod Lease
use bored_manager.Base.{
  ℕ, zero, suc, ◌+◌, ◌-◌, Option, none, some, Bool, true, false, List, [], ◌∷◌, ◌++◌, ◌==◌, nat_key,
  leb, ltb, ◌&&◌, every, length, is_digit, is_some, if◌then◌else◌, Units, decimal, decimal_text,
  trim,
}
use bored_manager.Base.Dict
use bored_manager.Base.Dict.{Dict}

-- A request's `finished` is false until its response has finished or closed.
pub record Tracker : Type 0 where
  pub accepting : Bool
  pub active : ℕ
  pub waiters : List ℕ
  pub requests : Dict ℕ Bool
  -- the promises of `drain` that are resolved
  pub resolved : List ℕ

abbrev pub create_tracker : Tracker
create_tracker = record { accepting = true; active = 0; waiters = []; requests = []; resolved = [] }

-- `middleware`: the tracker, and whether the request goes on; a refused one is answered 503.
unfoldable pub middleware : ℕ → Tracker → Tracker × Bool
middleware id t =
    if t.accepting
    then (record t { active = suc t.active; requests = Dict.insert id false t.requests }, true)
    else (t, false)

abbrev count_down : ℕ → Tracker → Tracker
count_down id t =
    let left = t.active - 1 in
    let counted : Tracker = record t { active = left; requests = Dict.insert id true t.requests } in
    if left == 0
    then record counted { resolved = t.resolved ++ t.waiters; waiters = [] }
    else counted

-- `finish`, on the response's `finish` or `close`
unfoldable pub finish : ℕ → Tracker → Tracker
finish id t = elim (Dict.get id t.requests) [
  | none ↦ t
  | some finished ↦ if finished then t else count_down id t
]

abbrev pub stop_accepting : Tracker → Tracker
stop_accepting t = record t { accepting = false }

unfoldable pub drain : ℕ → Tracker → Tracker
drain caller t =
    if t.active == 0
    then record t { resolved = t.resolved ++ (caller ∷ []) }
    else record t { waiters = t.waiters ++ (caller ∷ []) }

-- The PID file.
abbrev pub max_safe_integer : ℕ
max_safe_integer = 9007199254740991

-- The owner that a content names: `/^\d+$/` and a safe, positive integer.
unfoldable pub owner_of : Units → Option ℕ
owner_of content =
    let raw = trim content in
    let owner = decimal 0 raw in
    if leb 1 (length raw) && every is_digit raw && leb 1 owner && leb owner max_safe_integer
    then some owner
    else none

-- Where a call of `acquirePidFile` is: before the `writeFileSync`, the read or the unlink of an
-- attempt, with so many attempts left after it; it holds the lease; or it has thrown.
pub data Claim : Type 0 where
  writing reading removing : ℕ → Claim
  holding : Claim
  already_running : ℕ → Claim
  gave_up : Claim

abbrev pub next_attempt : ℕ → Claim
next_attempt zero = gave_up
next_attempt (suc left) = writing left

abbrev pub judge : (ℕ → Bool) → Option ℕ → ℕ → Claim
judge alive none left = removing left
judge alive (some owner) left = if alive owner then already_running owner else removing left

-- One call on the file system: the file and the claim after it.
unfoldable pub advance : (ℕ → Bool) → ℕ → Option Units → Claim → Option Units × Claim
unfolding owner_of
advance alive pid none (writing left) = (some (decimal_text pid), holding)
advance alive pid (some content) (writing left) = (some content, reading left)
advance alive pid none (reading left) = (none, next_attempt left)
advance alive pid (some content) (reading left) =
    (some content, judge alive (owner_of content) left)
advance alive pid file (removing left) = (none, next_attempt left)
advance alive pid file claim = (file, claim)

-- So many calls in a row.
unfoldable pub advances : ℕ → (ℕ → Bool) → ℕ → Option Units → Claim → Option Units × Claim
unfolding advance
advances zero alive pid file claim = (file, claim)
advances (suc n) alive pid file claim =
    let next = advance alive pid file claim in advances n alive pid next.0 next.1

abbrev same : Units → Units → Bool
same [] [] = true
same (c ∷ s) (d ∷ t) = c == d && same s t
same _ _ = false

-- The lease's `release`
unfoldable pub release : ℕ → Option Units → Option Units
release pid none = none
release pid (some content) = if same (trim content) (decimal_text pid) then none else some content
