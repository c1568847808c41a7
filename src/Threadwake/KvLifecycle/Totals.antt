-- ===== src/Threadwake/KvLifecycle/Totals.antt =====
-- whooshd/runtime/threadwake/kv_lifecycle.py: the observer after any number of events.
use Prim.Native.Nat.{◌%◌}
use native.Mathlib.Nat.{zero-mod}
use whooshd.Base.{
  lookup, Dict, Option, none, some, truthy, ◌&&◌, inl, inr, same_cases, same_refl, lookup-insert,
  Bool-cases, one_if, append_assoc, append_nil, same→eq, ℕ, suc, ◌+◌, ◌≤◌, ◌<◌, ◌≡◌, refl, sym, ap,
  ◌∙◌, max, String, Bool, true, false, List, [], ◌∷◌, ◌++◌, ltb, if◌then◌else◌, length, one_if,
  same→eq, length-append, subst, arith, same, count, count-append,
}
use whooshd.Threadwake.KvLifecycle.{
  KvEvent, KvLifecycleObserver, record_event, write, new, no_stats, update_stats, handles_after,
  plus_if, set_at, or_zero, bump, bump_backend,
}
use whooshd.Threadwake.KvLifecycle.Window.{IsRotated, take_last, ring_write}

unfoldable pub record_all : List KvEvent → KvLifecycleObserver → KvLifecycleObserver
record_all [] o = o
record_all (e ∷ es) o = record_all es (record_event e o)

abbrev pub is_of : String → KvEvent → Bool
is_of t e = same e.event_type t

abbrev pub is_from : String → KvEvent → Bool
is_from b e = elim e.backend [ none ↦ false | some x ↦ truthy x && same x b ]

abbrev pub last_time : List KvEvent → Option ℕ
last_time [] = none
last_time (e ∷ es) = elim (last_time es) [ none ↦ some e.timestamp | some t ↦ some t ]

-- The observer of a history of events.
abbrev pub Observes : ℕ → List KvEvent → KvLifecycleObserver → Type 0
Observes m h o =
    (o.enabled ≡ true)
    × (o.max_events ≡ m)
    × (o.cursor ≡ length h)
    × IsRotated (length h % m) o.events (take_last m h)
    × (o.stats.events_total ≡ length h)
    × (o.stats.last_event_at ≡ last_time h)
    × ((t : String) → or_zero (lookup t o.stats.events_by_type) ≡ count (is_of t) h)
    × ((b : String) → or_zero (lookup b o.stats.events_by_backend) ≡ count (is_from b) h)
    × (o.stats.reused_total ≡ count (is_of "kv_reused") h)
    × (o.stats.invalidated_total ≡ count (is_of "kv_invalidated") h)
    × (o.stats.errors_total ≡ count (is_of "kv_error") h)
    × (o.stats.created_total ≡ count (is_of "kv_created") h)
    × (o.stats.cloned_total ≡ count (is_of "kv_cloned") h)
    × (o.stats.released_total ≡ count (is_of "kv_released") h)
    × (o.stats.evicted_total ≡ count (is_of "kv_evicted") h)
    × (o.stats.active_handles_estimate ≡ o.active_handles)
    × (o.active_handles ≤ o.stats.created_total + o.stats.cloned_total)
    × (o.stats.created_total + o.stats.cloned_total
        ≤ o.active_handles + (o.stats.released_total + o.stats.evicted_total))

length-snoc : {A : Type 0} (h : List A) (x : A) → length (h ++ (x ∷ [])) ≡ suc (length h)
length-snoc h x = omega (arith, length-append h (x ∷ []))

count-snoc :
    (p : KvEvent → Bool) (h : List KvEvent) (e : KvEvent)
    → count p (h ++ (e ∷ [])) ≡ count p h + one_if (p e)
unfolding count
count-snoc p h e = omega (arith, count-append p h (e ∷ []))

last_time-snoc : (h : List KvEvent) (e : KvEvent) → last_time (h ++ (e ∷ [])) ≡ some e.timestamp
last_time-snoc [] e = refl
last_time-snoc (x ∷ h) e = rw (last_time-snoc h e) refl

bump-lookup :
    (k t : String) (d : Dict ℕ)
    → or_zero (lookup t (bump k d)) ≡ or_zero (lookup t d) + one_if (same k t)
unfolding bump
bump-lookup k t d = elim (same_cases k t) [
  | inl e ↦ rw (e, lookup-insert t t (or_zero (lookup t d) + 1) d, same_refl t) (omega arith)
  | inr f ↦ rw (lookup-insert k t (or_zero (lookup k d) + 1) d, f) (omega arith)
]

bump_backend-lookup :
    (x : Option String) (b : String) (d : Dict ℕ)
    → or_zero (lookup b (bump_backend x d))
      ≡ or_zero (lookup b d) + one_if (elim x [ none ↦ false | some y ↦ truthy y && same y b ])
bump_backend-lookup none b d = omega arith
bump_backend-lookup (some y) b d = elim (Bool-cases (truthy y)) [
  | inl t ↦ rw t (bump-lookup y b d)
  | inr f ↦ rw f (omega arith)
]

created-not-cloned : (t : String) → same t "kv_created" ≡ true → same t "kv_cloned" ≡ false
unfolding same
created-not-cloned t h = rw (same→eq t "kv_created" h) refl

plus : (b : Bool) (n : ℕ) → plus_if b n ≡ n + one_if b
plus true n = refl
plus false n = omega arith

module _ (m : ℕ) (h : List KvEvent) (o : KvLifecycleObserver) (e : KvEvent) (p : 0 < m) where
  abbrev written : KvLifecycleObserver
  written = record o { events = write e o; cursor = o.cursor + 1 }

  handles_after-bounds :
      (n created cloned released evicted : ℕ)
      → n ≤ created + cloned
      → created + cloned ≤ n + (released + evicted)
      → (handles_after e.event_type n
          ≤ (created + one_if (is_of "kv_created" e)) + (cloned + one_if (is_of "kv_cloned" e)))
        × ((created + one_if (is_of "kv_created" e)) + (cloned + one_if (is_of "kv_cloned" e))
            ≤ handles_after e.event_type n
              + ((released + one_if (is_of "kv_released" e))
                  + (evicted + one_if (is_of "kv_evicted" e))))
  unfolding handles_after
  handles_after-bounds n c d r v up low = ground (arith, created-not-cloned e.event_type)

  total :
      (t : String) (n : ℕ)
      → n ≡ count (is_of t) h
      → plus_if (is_of t e) n ≡ count (is_of t) (h ++ (e ∷ []))
  total t n s =
      plus (is_of t e) n ∙ ap (λ x. x + one_if (is_of t e)) s ∙ sym (count-snoc (is_of t) h e)

  write-IsRotated :
      o.max_events ≡ m
      → o.cursor ≡ length h
      → IsRotated (length h % m) o.events (take_last m h)
      → IsRotated (length (h ++ (e ∷ [])) % m) (write e o) (take_last m (h ++ (e ∷ [])))
  unfolding write
  write-IsRotated mx cu ring =
      let w : write e o ≡ (
          if ltb (length o.events) m
          then o.events ++ (e ∷ [])
          else set_at (length h % m) e o.events) =
        rw (write, mx, cu) refl in
      rw (w, length-snoc h e) (ring_write m e p o.events h ring)

  update_stats-Observes : Observes m h o → Observes m (h ++ (e ∷ [])) (update_stats e written)
  unfolding update_stats
  update_stats-Observes
        (on, mx, cu, ring, tot, last, types, backs, re, inv, er, cr, cl, rl, ev, est, up, low) =
      let (up', low') = handles_after-bounds o.active_handles _ _ _ _ up low in
      let c = plus (is_of "kv_created" e) o.stats.created_total in
      let d = plus (is_of "kv_cloned" e) o.stats.cloned_total in
      let r = plus (is_of "kv_released" e) o.stats.released_total in
      let v = plus (is_of "kv_evicted" e) o.stats.evicted_total in
      (
        on,
        mx,
        omega (arith, length-snoc h e),
        write-IsRotated mx cu ring,
        omega (arith, length-snoc h e),
        sym (last_time-snoc h e),
        λ t.
            bump-lookup e.event_type t _
            ∙ ap (λ x. x + one_if (is_of t e)) (types t)
            ∙ sym (count-snoc (is_of t) h e),
        λ b.
            bump_backend-lookup e.backend b _
            ∙ ap (λ x. x + one_if (is_from b e)) (backs b)
            ∙ sym (count-snoc (is_from b) h e),
        total "kv_reused" _ re,
        total "kv_invalidated" _ inv,
        total "kv_error" _ er,
        total "kv_created" _ cr,
        total "kv_cloned" _ cl,
        total "kv_released" _ rl,
        total "kv_evicted" _ ev,
        refl,
        omega (arith, up', c, d),
        omega (arith, low', c, d, r, v),
      )

  record_event-Observes : Observes m h o → Observes m (h ++ (e ∷ [])) (record_event e o)
  unfolding record_event
  record_event-Observes s =
      let enabled_run : record_event e o ≡ update_stats e written = rw (s.0, record_event) refl in
      subst (Observes m (h ++ (e ∷ []))) (sym enabled_run) (update_stats-Observes s)

record_all-from :
    (m : ℕ) (es h : List KvEvent) (o : KvLifecycleObserver)
    → 0 < m
    → Observes m h o
    → Observes m (h ++ es) (record_all es o)
unfolding record_all
record_all-from m [] h o p s = rw (append_nil h) s
record_all-from m (e ∷ es) h o p s =
    rw (← append_assoc h (e ∷ []) es) (
      record_all-from m es (h ++ (e ∷ [])) (record_event e o) p (record_event-Observes m h o e p s))

-- An enabled observer that has recorded any number of events holds the latest `max(max_events, 1)`
-- of them, turned so that the place of the next write stands first; its totals count the events
-- that were created, cloned, reused, released, invalidated, evicted and in error, each by its kind,
-- and all of them; its tables count the events of every type and of every backend with a name; it
-- knows the time of the last event; and its estimate of the active handles is at most the handles created and cloned, and
-- misses of them no more than were released and evicted.
pub record_all-Observes :
    (max_events : ℕ) (es : List KvEvent)
    → Observes (max max_events 1) es (record_all es (new true max_events))
unfolding new no_stats count take_last lookup
record_all-Observes max_events es =
    record_all-from (max max_events 1) es [] (new true max_events) (omega arith) (
      refl,
      refl,
      refl,
      ([], [], refl, mod_zero, refl),
      refl,
      refl,
      λ t. refl,
      λ b. refl,
      refl,
      refl,
      refl,
      refl,
      refl,
      refl,
      refl,
      refl,
      omega arith,
      omega arith,
    )
  where
    mod_zero : 0 ≡ 0 % max max_events 1
    mod_zero = sym (zero-mod (max max_events 1))
