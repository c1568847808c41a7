-- ===== src/Queue/Entries.antt =====
-- queue.py: a queue in which no request is listed twice.
use whooshd.Base.{
  subst, Option-cases, ◌≡◌, refl, ◌⊎◌, inl, inr, String, true, false, none, some, List, [], ◌∷◌,
  ◌++◌, arith, All, In, In-All, same, same_refl, same_sym, same→eq, eq→same, same_cases, Bool-cases,
}
use whooshd.Scheduler.{remove_request}
use whooshd.Queue.{QueueEntry, RequestQueue, find, delete, by_id, remove}

abbrev pub Differs : QueueEntry → QueueEntry → Type 0
Differs e d = same d.request_id e.request_id ≡ false

abbrev pub IsOnce : List QueueEntry → Type 0
IsOnce [] = Unit
IsOnce (e ∷ es) = All (λ d. Differs e d) es × IsOnce es

pub find_absent :
    (e : QueueEntry) (es : List QueueEntry)
    → All (λ d. Differs e d) es
    → find e.request_id es ≡ none
unfolding find
find_absent e [] h = refl
find_absent e (d ∷ es) h = ground (arith, find_absent e es h.1)

by_id_absent :
    (e : QueueEntry) (es : List QueueEntry)
    → All (λ d. Differs e d) es
    → by_id es e.request_id ≡ none
unfolding by_id
by_id_absent e [] h = refl
by_id_absent e (d ∷ es) h = ground (arith, by_id_absent e es h.1)

pub find_own :
    (e : QueueEntry) (es : List QueueEntry) → IsOnce es → In e es → find e.request_id es ≡ some e
unfolding find
find_own e [] u m = absurd m
find_own e (d ∷ es) u (inl h) = ground (arith, same_refl d.request_id)
find_own e (d ∷ es) u (inr m) = ground (
  arith,
  same_sym e.request_id d.request_id,
  In-All (λ x. Differs d x) es m u.0,
  find_own e es u.1 m,
)

pub by_id_own :
    (e : QueueEntry) (es : List QueueEntry) → IsOnce es → In e es → by_id es e.request_id ≡ some e
unfolding by_id
by_id_own e [] u m = absurd m
by_id_own e (d ∷ es) u (inl h) = ground (arith, same_refl d.request_id, by_id_absent d es u.0)
by_id_own e (d ∷ es) u (inr m) = ground (arith, by_id_own e es u.1 m)

pub find-In :
    (rid : String) (es : List QueueEntry) {e : QueueEntry}
    → find rid es ≡ some e
    → In e es × (same e.request_id rid ≡ true)
unfolding find
find-In rid [] h = cc
find-In rid (d ∷ es) {e} h = elim (Bool-cases (same d.request_id rid)) [
  | inl t ↦ (inl (ground arith), ground arith)
  | inr f ↦ let rest = find-In rid es (rw f at h) in (inr rest.0, rest.1)
]

append-All :
    (P : QueueEntry → Type 0) (es : List QueueEntry) (d : QueueEntry)
    → All P es
    → P d
    → All P (es ++ (d ∷ []))
append-All P [] d h p = (p, tt)
append-All P (e ∷ es) d h p = (h.0, append-All P es d h.1 p)

delete-All :
    (P : QueueEntry → Type 0) (rid : String) (es : List QueueEntry)
    → All P es
    → All P (delete rid es)
unfolding delete
delete-All P rid [] h = tt
delete-All P rid (e ∷ es) h = elim (Bool-cases (same e.request_id rid)) [
  | inl t ↦ rw t h.1
  | inr f ↦ rw f (h.0, delete-All P rid es h.1)
]

pub delete-IsOnce : (rid : String) (es : List QueueEntry) → IsOnce es → IsOnce (delete rid es)
unfolding delete
delete-IsOnce rid [] u = tt
delete-IsOnce rid (e ∷ es) u = elim (Bool-cases (same e.request_id rid)) [
  | inl t ↦ rw t (u.1)
  | inr f ↦ rw f (delete-All (λ d. Differs e d) rid es u.0, delete-IsOnce rid es u.1)
]

pub find-delete_self :
    (rid : String) (es : List QueueEntry) → IsOnce es → find rid (delete rid es) ≡ none
unfolding find delete
find-delete_self rid [] u = refl
find-delete_self rid (e ∷ es) u = elim (same_cases e.request_id rid) [
  | inl h ↦ ground (arith, eq→same e.request_id rid, find_absent e es u.0)
  | inr f ↦ ground (arith, find-delete_self rid es u.1)
]

pub find-delete_ne :
    (rid other : String) (es : List QueueEntry)
    → same rid other ≡ false
    → find rid (delete other es) ≡ find rid es
unfolding find delete
find-delete_ne rid other [] n = refl
find-delete_ne rid other (e ∷ es) n = elim (same_cases e.request_id rid) [
  | inl h ↦ ground (arith, eq→same e.request_id rid)
  | inr f ↦ ground (arith, find-delete_ne rid other es n)
]

pub remove_found :
    (q : RequestQueue) (rid : String) {e : QueueEntry}
    → find rid q.entries ≡ some e
    → remove q rid ≡ (
      record q { entries = delete rid q.entries; scheduler = remove_request q.scheduler rid },
      some e,
    )
unfolding remove
remove_found q rid h = rw (h, remove)

pub remove_missing :
    (q : RequestQueue) (rid : String) → find rid q.entries ≡ none → remove q rid ≡ (q, none)
unfolding remove
remove_missing q rid h = rw (h, remove)

pub In-delete_ne :
    (rid : String) (e : QueueEntry) (es : List QueueEntry)
    → In e es
    → same e.request_id rid ≡ false
    → In e (delete rid es)
unfolding delete
In-delete_ne rid e [] m n = absurd m
In-delete_ne rid e (d ∷ es) (inl h) n =
    let f : same d.request_id rid ≡ false = subst (λ x. same x.request_id rid ≡ false) h n in
    rw f (inl h)
In-delete_ne rid e (d ∷ es) (inr m) n = elim (Bool-cases (same d.request_id rid)) [
  | inl t ↦ rw t m
  | inr f ↦ rw f (inr (In-delete_ne rid e es m n))
]

-- An entry is the only one of its request.
pub same_entry :
    (es : List QueueEntry) (d e : QueueEntry)
    → IsOnce es
    → In d es
    → In e es
    → same d.request_id e.request_id ≡ true
    → d ≡ e
same_entry es d e u md me h =
    let own : find e.request_id es ≡ some d =
      subst (λ x. find x es ≡ some d) (same→eq d.request_id e.request_id h) (find_own d es u md) in
    ground (arith, own, find_own e es u me)

pub remove_gone :
    (q : RequestQueue) (rid : String) → IsOnce q.entries → find rid (remove q rid).0.entries ≡ none
unfolding remove
remove_gone q rid u = elim (Option-cases (find rid q.entries)) [
  | inl h ↦ rw (h, remove, h)
  | inr (e, h) ↦ rw (h, remove) (find-delete_self rid q.entries u)
]

pub remove-IsOnce :
    (q : RequestQueue) (rid : String) → IsOnce q.entries → IsOnce (remove q rid).0.entries
unfolding remove
remove-IsOnce q rid u = elim (Option-cases (find rid q.entries)) [
  | inl h ↦ rw (h, remove) u
  | inr (e, h) ↦ rw (h, remove) (delete-IsOnce rid q.entries u)
]

pub remove-find_ne :
    (q : RequestQueue) (rid other : String)
    → same rid other ≡ false
    → find rid (remove q other).0.entries ≡ find rid q.entries
unfolding remove
remove-find_ne q rid other n = elim (Option-cases (find other q.entries)) [
  | inl h ↦ rw (h, remove)
  | inr (e, h) ↦ rw (h, remove) (find-delete_ne rid other q.entries n)
]

pub remove-In_ne :
    (q : RequestQueue) (other : String) (e : QueueEntry)
    → In e q.entries
    → same e.request_id other ≡ false
    → In e (remove q other).0.entries
unfolding remove
remove-In_ne q other e m n = elim (Option-cases (find other q.entries)) [
  | inl h ↦ rw (h, remove) m
  | inr (d, h) ↦ rw (h, remove) (In-delete_ne other e q.entries m n)
]

pub remove-granted : (q : RequestQueue) (rid : String) → (remove q rid).0.granted ≡ q.granted
unfolding remove
remove-granted q rid = ground arith

pub delete-fewer :
    (rid : String) (d : QueueEntry) (es : List QueueEntry) → In d (delete rid es) → In d es
unfolding delete
delete-fewer rid d [] m = absurd m
delete-fewer rid d (e ∷ es) m = elim (Bool-cases (same e.request_id rid)) [
  | inl t ↦ inr (rw (t, delete) at m)
  | inr f ↦
      let m' : (d ≡ e) ⊎ In d (delete rid es) = rw (f, delete) at m in
      elim m' [ inl h ↦ inl h | inr later ↦ inr (delete-fewer rid d es later) ]
]

pub remove-fewer :
    (q : RequestQueue) (rid : String) (d : QueueEntry)
    → In d (remove q rid).0.entries
    → In d q.entries
remove-fewer q rid d m = elim (Option-cases (find rid q.entries)) [
  | inl h ↦ subst (λ x. In d x.0.entries) (remove_missing q rid h) m
  | inr (e, h) ↦
      delete-fewer rid d q.entries (subst (λ x. In d x.0.entries) (remove_found q rid h) m)
]

pub append-IsOnce :
    (es : List QueueEntry) (d : QueueEntry)
    → IsOnce es
    → All (λ e. Differs e d) es
    → IsOnce (es ++ (d ∷ []))
append-IsOnce [] d u h = (tt, tt)
append-IsOnce (e ∷ es) d u h =
    (append-All (λ x. Differs e x) es d u.0 h.0, append-IsOnce es d u.1 h.1)
