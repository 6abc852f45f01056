-- ===== src/Tests/Server.antt =====
-- The theorems on the server's mutex, registry, sessions and the cache at concrete inputs.
use bored_manager.Base.{
  ℕ, Units, codes, decimal_text, ◌+◌, ◌≤◌, ◌≡◌, ◌⊎◌, refl, none, some, true, false, List, [], ◌∷◌,
  ◌==◌, string_key, nat_key, ◌&&◌, ◌||◌, not, any, keep, map, arith, length,
}
use bored_manager.Base.Dict
use bored_manager.Base.Dict.{Dict}
use bored_manager.Coordinator.{
  Event, Resource, resource_key, called, passed, connection, users, working, after,
  create_coordinator, happens, enter,
}
use bored_manager.Coordinator.Progress.{one_holder, all_runs_end, remaining, AreProgress}
use bored_manager.Coordinator.Asked.{Was, works_with_all}
use bored_manager.Cache
use bored_manager.Cache.{request, loaded}
use bored_manager.Cache.History.{
  Happening, asked, resolved, cleared, cache_after, stored, is_live, step, starts,
}
use bored_manager.Cache.Answers.{cached_value, get-stored, get-shares, overtaken_load_unstored}
use bored_manager.Base.{Option, Bool}
use bored_manager.Lifecycle.{Claim, writing, holding, already_running, advance, advances, release}
use bored_manager.Lifecycle.Drained
use bored_manager.Lifecycle.Drained.{
  tracker_after, unfinished, is_heard, callers, drain_never_stuck,
}
use bored_manager.Lifecycle.Lease.{lease_kept}
use bored_manager.Sessions
use bored_manager.Sessions.{
  SessionData, Entry, remember_revoked, revoke_username, is_refused, must_go,
}
use bored_manager.Sessions.Revoked.{remember_all, revoked_stays_refused, revoke_username_exact}
use bored_manager.Registry.Events
use bored_manager.Registry.Events.{
  registers, shuts_down, registry_after, unregistered, count, is_held, is_active,
}
use bored_manager.Registry.Accounts.{times_disposed, resource_accounted}

-- resource-coordinator.ts: the first run works with both names, the second waits for one
abbrev calls : List Event
calls = called 1 (users ∷ connection ∷ []) ∷ passed 1 ∷ called 2 (users ∷ []) ∷ passed 1 ∷ []

abbrev first_run : ℕ
first_run = 1

one_holder_example : first_run ≡ first_run
unfolding after happens enter Dict.get Dict.insert
one_holder_example =
    one_holder calls first_run first_run (working (connection ∷ users ∷ []))
      (working (connection ∷ users ∷ [])) users refl refl refl refl

all_runs_end_example :
    let c = after calls create_coordinator in
    (more : List Event) × AreProgress more
    × (length more ≤ remaining c)
    × ((after more c).runs ≡ [])
all_runs_end_example = all_runs_end calls

works_with_all_example :
    (resources : List Resource) × Was (called 1 resources) calls
    × (any (λ k. k == users) (connection ∷ users ∷ []) ≡ any (λ k. k == users) resources)
unfolding after happens enter Dict.get Dict.insert
works_with_all_example = works_with_all calls 1 (connection ∷ users ∷ []) users refl

-- cache.ts
abbrev loads : List (Happening ℕ)
loads = asked "k" 10 ∷ []

abbrev answered : List (Happening ℕ)
answered = resolved 0 7 1000 50 ∷ loads

get-stored_example : cached_value (Cache.get "k" 60 (cache_after answered)).1 ≡ some 7
unfolding stored is_live starts cache_after step Cache.get Dict.get
get-stored_example = get-stored answered "k" 60

get-shares_example :
    let r = Cache.get "k" 20 (cache_after loads) in
    (r.1 ≡ request 0) × (r.0.requests ≡ (cache_after loads).requests)
unfolding stored is_live starts cache_after step Cache.get Dict.get
get-shares_example = get-shares loads 0 "k" 20 refl refl

overtaken_load_unstored_example :
    let c = cache_after (cleared (some "k") ∷ loads) in
    Dict.get "k" (loaded 0 7 1000 50 c).values ≡ Dict.get "k" c.values
unfolding cache_after step Cache.get Dict.get Dict.insert
overtaken_load_unstored_example =
    overtaken_load_unstored [] loads (some "k") 0 "k" 7 1000 50 refl (omega arith)

-- sessions.ts
abbrev ann : SessionData
ann = record { username = some "ann" }

abbrev found : List Entry
found =
    record { sid = "s1"; existing = none; read = some (some ann); destroys = true }
    ∷ record { sid = "s2"; existing = none; read = none; destroys = false }
    ∷ record {
      sid = "s3";
      existing = none;
      read = some (some (record { username = some "bob" }));
      destroys = true;
    }
    ∷ []

revoked_stays_refused_example :
    Sessions.get "s1"
      (some (some ann))
      (remember_all ("s2" ∷ []) (remember_revoked "s1" ("s0" ∷ [])))
    ≡ some none
revoked_stays_refused_example =
    revoked_stays_refused "s1" ("s0" ∷ []) ("s2" ∷ []) (some (some ann)) refl (omega arith)

revoke_username_exact_example :
    let r = revoke_username "ann" found ("s0" ∷ []) in
    (is_refused "s2" r.revoked
      ≡ (is_refused "s2" ("s0" ∷ []) || any (λ e. must_go "ann" e && e.sid == "s2") found))
    × (r.destroyed ≡ map (λ e. e.sid) (keep (must_go "ann") found))
    × (r.failures ≡ map (λ e. e.sid) (keep (λ e. must_go "ann" e && not e.destroys) found))
revoke_username_exact_example = revoke_username_exact "ann" "s2" found ("s0" ∷ []) (omega arith)

-- session-registry.ts
abbrev session : List Events.Event
session = registers "stream" ∷ shuts_down false ∷ registers "terminal" ∷ []

resource_accounted_example :
    (is_held 2 (registry_after session) + times_disposed 2 session + count 2 (unregistered session)
      ≡ 1)
    × ((is_active (registry_after session).state ≡ true) ⊎ (is_held 2 (registry_after session) ≡ 0))
unfolding registry_after Events.step
resource_accounted_example = resource_accounted session 2 (omega arith) (omega arith)

-- lifecycle.ts
abbrev traffic : List Drained.Event
traffic =
    Drained.ends 1 ∷ Drained.drains 7 ∷ Drained.ends 2 ∷ Drained.arrives 2 ∷ Drained.arrives 1 ∷ []

drain_never_stuck_example :
    let t = tracker_after traffic in
    (t.active ≡ unfinished t)
    × (is_heard 7 t ≡ any (λ k. k == 7) (callers traffic))
    × ((t.waiters ≡ []) ⊎ (1 ≤ unfinished t))
drain_never_stuck_example = drain_never_stuck traffic 7

lease_kept_example :
    let file = some (decimal_text 100) in
    (advances 4 (λ p. true) 200 file (writing 3) ≡ (file, already_running 100))
    × (advances 4 (λ p. true) 200 (release 100 file) (writing 3)
        ≡ (some (decimal_text 200), holding))
lease_kept_example = lease_kept (λ p. true) 100 200 (omega arith) (omega arith) refl

-- Two servers that start at once over a file that names no live process, each move one call on the
-- file system; only the processes 1 and 2 live.
abbrev Race : Type 0
Race = Option Units × Claim × Claim

abbrev both_live : ℕ → Bool
both_live p = p == 1 || p == 2

abbrev first_moves : Race → Race
first_moves (file, one, two) = let r = advance both_live 1 file one in (r.0, r.1, two)

abbrev second_moves : Race → Race
second_moves (file, one, two) = let r = advance both_live 2 file two in (r.0, one, r.1)

abbrev over_stale : Race
over_stale = (some (codes "99"), writing 3, writing 3)

-- The second server reclaims the file between the first one's read and its unlink: both hold it.
race_lost :
    first_moves (
      first_moves (
        second_moves
          (second_moves (second_moves (second_moves (first_moves (first_moves over_stale)))))))
    ≡ (some (decimal_text 1), holding, holding)
unfolding advance decimal_text
race_lost = refl
