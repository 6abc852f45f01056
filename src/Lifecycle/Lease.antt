-- ===== src/Lifecycle/Lease.antt =====
-- server/lifecycle.ts `acquirePidFile`: what one server does to the PID file while no other touches
-- it.
use bored_manager.Base.{
  ℕ, zero, suc, ◌≤◌, Option, none, some, Bool, true, [], ◌∷◌, ◌≡◌, refl, nat_key, every, is_digit,
  arith, Bool-cases, Option-cases, inl, inr, if◌then◌else◌, Units, decimal, decimal_text, trim,
  decimal-decimal_text, trim-decimal_text, decimal_text-AreDigits, AreDigits,
}
use bored_manager.Lifecycle.{
  max_safe_integer, owner_of, Claim, writing, removing, holding, already_running, advances, release,
  same,
}

-- The file and the claim that `acquirePidFile` promises: a live owner keeps the file, anything else
-- is replaced.
abbrev pub promised_of : (ℕ → Bool) → ℕ → Units → Option ℕ → Option Units × Claim
promised_of alive pid content none = (some (decimal_text pid), holding)
promised_of alive pid content (some owner) =
    if alive owner
    then (some content, already_running owner)
    else (some (decimal_text pid), holding)

abbrev pub promised : (ℕ → Bool) → ℕ → Option Units → Option Units × Claim
promised alive pid none = (some (decimal_text pid), holding)
promised alive pid (some content) = promised_of alive pid content (owner_of content)

advances-holding :
    (n : ℕ) (alive : ℕ → Bool) (pid : ℕ) (file : Option Units)
    → advances n alive pid file holding ≡ (file, holding)
unfolding advances
advances-holding zero alive pid file = refl
advances-holding (suc n) alive pid none = advances-holding n alive pid none
advances-holding (suc n) alive pid (some content) = advances-holding n alive pid (some content)

advances-already_running :
    (n : ℕ) (alive : ℕ → Bool) (pid owner : ℕ) (content : Units)
    → advances n alive pid (some content) (already_running owner)
      ≡ (some content, already_running owner)
unfolding advances
advances-already_running zero alive pid owner content = refl
advances-already_running (suc n) alive pid owner content =
    advances-already_running n alive pid owner content

advances-removing :
    (n : ℕ) (alive : ℕ → Bool) (pid : ℕ) (content : Units)
    → advances (suc (suc n)) alive pid (some content) (removing 3)
      ≡ (some (decimal_text pid), holding)
unfolding advances
advances-removing n alive pid content = advances-holding n alive pid (some (decimal_text pid))

-- While no other server touches the file, four calls on the file system decide, and no number of
-- further calls changes the outcome: the file is the server's own when there was none or it named
-- no live process; otherwise it is left as it was and its owner is reported.
pub advances-promised :
    (alive : ℕ → Bool) (pid more : ℕ) (file : Option Units)
    → advances (suc (suc (suc (suc more)))) alive pid file (writing 3) ≡ promised alive pid file
unfolding advances
advances-promised alive pid more none =
    advances-holding (suc (suc (suc more))) alive pid (some (decimal_text pid))
advances-promised alive pid more (some content) = elim (Option-cases (owner_of content)) [
  | inl e ↦ rw e (advances-removing more alive pid content)
  | inr (owner, e) ↦ elim (Bool-cases (alive owner)) [
    | inl live ↦ rw (e, live) (advances-already_running (suc (suc more)) alive pid owner content)
    | inr dead ↦ rw (e, dead) (advances-removing more alive pid content)
  ]
]

same_refl : (s : Units) → same s s ≡ true
same_refl [] = refl
same_refl (c ∷ s) = ground (arith, same_refl s)

every-digits : (s : Units) → AreDigits s → every is_digit s ≡ true
every-digits [] h = refl
every-digits (c ∷ s) h = ground (arith, h, every-digits s h.1)

-- A content that is digits names their number.
owner_of-digits :
    (s : Units) (n : ℕ)
    → trim s ≡ s
    → AreDigits s
    → decimal 0 s ≡ n
    → 1 ≤ n
    → n ≤ max_safe_integer
    → owner_of s ≡ some n
unfolding owner_of
owner_of-digits [] n t d e low high = absurd (omega (arith, e))
owner_of-digits (c ∷ s) n t d e low high = rw (t, e, every-digits (c ∷ s) d) (ground (arith))

owner_of-decimal_text :
    (pid : ℕ) → 1 ≤ pid → pid ≤ max_safe_integer → owner_of (decimal_text pid) ≡ some pid
owner_of-decimal_text pid low high =
    owner_of-digits (decimal_text pid) pid (trim-decimal_text pid) (decimal_text-AreDigits pid)
      (decimal-decimal_text pid (omega arith)) low high

-- A server that holds the file and lives keeps it: another server that starts, and does not race
-- with it, reports the holder and leaves the file alone; after the holder's release the file is
-- gone and the next server gets it.
pub lease_kept :
    (alive : ℕ → Bool) (holder other : ℕ)
    → 1 ≤ holder
    → holder ≤ max_safe_integer
    → alive holder ≡ true
    → let file = some (decimal_text holder) in
      (advances 4 alive other file (writing 3) ≡ (file, already_running holder))
      × (advances 4 alive other (release holder file) (writing 3)
          ≡ (some (decimal_text other), holding))
unfolding release
lease_kept alive holder other low high live = (
  rw
      (
        advances-promised alive other 0 (some (decimal_text holder)),
        owner_of-decimal_text holder low high,
        live,
      )
      refl,
  rw (trim-decimal_text holder, same_refl (decimal_text holder))
      (advances-promised alive other 0 none),
)
