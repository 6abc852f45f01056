-- ===== src/Cache/Faithful.antt =====
-- shared/cache.ts: every call and every settled promise keeps the state what the history says.
pub mod Reads
use bored_manager.Base.{
  ℕ, suc, ◌+◌, ◌≤◌, ◌<◌, String, Option, none, some, Bool, true, false, List, [], ◌∷◌, ◌==◌, ◌≡◌,
  refl, string_key, nat_key, ltb, not, ◌&&◌, ◌||◌, if◌then◌else◌, or_else, arith, Bool-cases,
  Option-cases, eq_iff, eqb_iff, inl, inr, is_none,
}
use bored_manager.Base.Dict
use bored_manager.Base.Dict.{Dict, get-insert, get-erase, get-insert_self}
use bored_manager.Cache
use bored_manager.Cache.{
  Cache, Stored, Loading, create_ttl_cache, Answer, cached, request, loaded, failed, finish, clear,
  revision_of, is_fresh, is_current, join_or_load, same_request, close,
}
use bored_manager.Cache.History.{
  Happening, asked, resolved, rejected, finished, cleared, step, cache_after, covers, starts,
  stored, is_live,
}

-- The state's own account of a live request.
abbrev pub matches_of : Option Loading → String → ℕ → Dict String ℕ → Bool
matches_of none key global revisions = false
matches_of (some l) key global revisions =
    l.key == key && (l.global == global && l.revision == or_else (Dict.get l.key revisions) 0)

module _ {T : Type 0} where
  abbrev pub matches : ℕ → String → Cache T → Bool
  matches id key c = matches_of (Dict.get id c.loading) key c.global_revision c.revisions

  pub record IsFaithful (h : List (Happening T)) (c : Cache T) : Type 0 where
    pub live : (id : ℕ) (key : String) → is_live id key h ≡ matches id key c
    pub kept : (key : String) → Dict.get key c.values ≡ stored key h
    pub known :
        (id : ℕ) (l : Loading)
        → Dict.get id c.loading ≡ some l
        → (id < c.requests) × (l.global ≤ c.global_revision) × (l.revision ≤ revision_of l.key c)
    pub shared :
        (id : ℕ) (key : String) → matches id key c ≡ true → Dict.get key c.pending ≡ some id
    pub closed :
        (id : ℕ) (key : String)
        → Dict.get id c.closing ≡ some key
        → (id < c.requests) × (Dict.get id c.loading ≡ none)

  clear_all-IsFaithful :
      (h : List (Happening T)) (c : Cache T)
      → IsFaithful h c
      → IsFaithful (cleared none ∷ h) (clear none c)
  unfolding clear is_live stored Dict.get
  clear_all-IsFaithful h c f = record {
    live = λ id key. elim (Option-cases (Dict.get id c.loading)) [
      | inl e ↦ rw e refl
      | inr (l, e) ↦ rw e (ground (arith, f.known id l e))
    ];
    kept = λ key. refl;
    known = λ id l e. let k = f.known id l e in (k.0, omega (arith, k.1), k.2);
    shared = λ id key m. elim (Option-cases (Dict.get id c.loading)) [
      | inl e ↦ absurd (ground (arith, e, m))
      | inr (l, e) ↦ absurd (ground (arith, f.known id l e, e, m))
    ];
    closed = f.closed;
  }

  clear_key-IsFaithful :
      (h : List (Happening T)) (k : String) (c : Cache T)
      → IsFaithful h c
      → IsFaithful (cleared (some k) ∷ h) (clear (some k) c)
  unfolding clear is_live stored
  clear_key-IsFaithful h k c f =
      let moved = (λ (key : String). get-insert k key (suc (revision_of k c)) c.revisions) in
      record {
        live = λ id key. elim (Option-cases (Dict.get id c.loading)) [
          | inl e ↦ rw e (ground (arith, f.live id key, e))
          | inr (l, e) ↦ rw e (
              ground (
                arith,
                f.known id l e,
                f.live id key,
                e,
                moved l.key,
                eq_iff k l.key,
                eq_iff l.key key,
                eq_iff k key,
              ))
        ];
        kept = λ key. ground (arith, get-erase k key c.values, f.kept key);
        known = λ id l e. ground (arith, f.known id l e, moved l.key, eq_iff k l.key);
        shared = λ id key m. elim (Option-cases (Dict.get id c.loading)) [
          | inl e ↦ absurd (ground (arith, e, m))
          | inr (l, e) ↦ ground (
            arith,
            f.known id l e,
            f.shared id key,
            e,
            m,
            moved l.key,
            eq_iff k l.key,
            eq_iff l.key key,
            get-erase k key c.pending,
          )
        ];
        closed = f.closed;
      }

  finished-IsFaithful :
      (h : List (Happening T)) (i : ℕ) (c : Cache T)
      → IsFaithful h c
      → IsFaithful (finished i ∷ h) (finish i c)
  unfolding finish is_live stored
  finished-IsFaithful h i c f = elim (Option-cases (Dict.get i c.closing)) [
    | inl e ↦
        rw (e, finish)
          (record {
            live = f.live;
            kept = f.kept;
            known = f.known;
            shared = f.shared;
            closed = f.closed;
          })
    | inr (k, e) ↦
        rw (e, finish)
          (record {
            live = f.live;
            kept = f.kept;
            known = f.known;
            shared = λ id key m. ground (
              arith,
              f.shared id key m,
              f.closed i k e,
              get-erase k key c.pending,
              eq_iff k key,
              m,
              eqb_iff id i,
            );
            closed = λ id key d. ground (arith, f.closed id key, d, get-erase i id c.closing);
          })
  ]

  -- A request that no longer loads.
  close-IsFaithful :
      (h : List (Happening T)) (e : Happening T) (i : ℕ) (l : Loading) (c : Cache T)
      (values : Dict String (Stored T))
      → Dict.get i c.loading ≡ some l
      → ((id : ℕ) (key : String) → is_live id key (e ∷ h) ≡ (not (i == id) && is_live id key h))
      → ((key : String) → Dict.get key values ≡ stored key (e ∷ h))
      → IsFaithful h c
      → IsFaithful (e ∷ h) (close i l (record c { values = values }))
  close-IsFaithful h e i l c values at_ live kept f = record {
    live = λ id key. ground (arith, live id key, f.live id key, get-erase i id c.loading);
    kept = kept;
    known = λ id m d. ground (arith, f.known id m, d, get-erase i id c.loading);
    shared = λ id key m. ground (arith, f.shared id key, m, get-erase i id c.loading);
    closed = λ id key d. ground (
      arith,
      f.closed id key,
      d,
      get-insert i id l.key c.closing,
      get-erase i id c.loading,
      f.known i l at_,
      eqb_iff i id,
    );
  }

  loaded-IsFaithful :
      (h : List (Happening T)) (i : ℕ) (value : T) (duration now : ℕ) (c : Cache T)
      → IsFaithful h c
      → IsFaithful (resolved i value duration now ∷ h) (loaded i value duration now c)
  unfolding loaded is_live stored
  loaded-IsFaithful h i value duration now c f = elim (Option-cases (Dict.get i c.loading)) [
    | inl e ↦
        rw (e, loaded)
          (record {
            live = λ id key. ground (arith, f.live id key, e, eqb_iff i id);
            kept = λ key. ground (arith, f.kept key, f.live i key, e);
            known = f.known;
            shared = f.shared;
            closed = f.closed;
          })
    | inr (l, e) ↦ elim (Bool-cases (ltb 0 duration && is_current l c)) [
      | inl good ↦
          rw (e, loaded, good)
            (close-IsFaithful h (resolved i value duration now) i l c
              (Dict.insert l.key (record { value = value; expires_at = now + duration }) c.values) e
              (λ id key. refl)
              (λ key. ground (
                arith,
                f.kept key,
                f.live i key,
                e,
                get-insert l.key key (record { value = value; expires_at = now + duration })
                    c.values,
              ))
              f)
      | inr bad ↦
          rw (e, loaded, bad)
            (close-IsFaithful h (resolved i value duration now) i l c c.values e (λ id key. refl)
              (λ key. ground (arith, f.kept key, f.live i key, e)) f)
    ]
  ]

  failed-IsFaithful :
      (h : List (Happening T)) (i : ℕ) (c : Cache T)
      → IsFaithful h c
      → IsFaithful (rejected i ∷ h) (failed i c)
  unfolding failed is_live stored
  failed-IsFaithful h i c f = elim (Option-cases (Dict.get i c.loading)) [
    | inl e ↦
        rw (e, failed)
          (record {
            live = λ id key. ground (arith, f.live id key, e, eqb_iff i id);
            kept = f.kept;
            known = f.known;
            shared = f.shared;
            closed = f.closed;
          })
    | inr (l, e) ↦
        rw (e, failed) (close-IsFaithful h (rejected i) i l c c.values e (λ id key. refl) f.kept f)
  ]
