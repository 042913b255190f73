-- ===== src/Timer/Clock.antt =====
-- add_timer and del_timer of src/timer_queue.cc: the heap, and the time that the timerfd is set to.

use native.Mathlib.Bridge.{le_prop}
use easy_reactor.Base.{
  sym, ap, ◌∙◌, Bool-cases, ℕ, ◌+◌, ◌*◌, ◌/◌, ◌%◌, ◌≤◌, ◌<◌, ◌≡◌, inl, inr, refl, List, ◌∷◌, Perm,
  ◌⊎◌, Mem, arith, ltb, ◌==◌, if◌then◌else◌, not, length-perm, none, Option-cases,
}
use easy_reactor.Base.Lists.Nth.{Each-cons, Each-perm, Each, nth, nth-Mem, forall_of_nth}
use easy_reactor.Base.Run.{Gives, gives, Gives-bind}
use easy_reactor.Timer.{TimerEvent, TimerQueue, no_pioneer, reset_timo, add_timer}
use easy_reactor.Timer.Order.{null_event, ts_at, IsHeap, IsIndexed, event_at-ok, root_least}
use easy_reactor.Timer.Rise.{heap_add_correct}

-- The value that the timerfd must be given for a deadline in milliseconds.
abbrev pub armed_for : ℕ → ℕ × ℕ
armed_for ms = if not (ms == no_pioneer) then (ms / 1000, ms % 1000 * 1000000) else (0, 0)

-- The index is right, ids are below the next one, and the timerfd is set for `_pioneer`.
pub record IsValid (q : TimerQueue) : Type 0 where
  pub indexed : IsIndexed q
  pub fresh : Each (λ t. t.timer_id < q.next_timer_id) q.event_lst
  pub aimed : q.armed ≡ armed_for q.pioneer

-- The list is a heap, and `_pioneer` is not after any deadline.
pub record IsTimely (q : TimerQueue) : Type 0 where
  pub heap : IsHeap q.event_lst
  pub early : Each (λ t. q.pioneer ≤ t.ts) q.event_lst

pub least_of_heap : (l : List TimerEvent) → IsHeap l → (t : TimerEvent) → Mem t l → ts_at l 0 ≤ t.ts
least_of_heap l h =
    forall_of_nth (λ t. ts_at l 0 ≤ t.ts) (λ t. le_prop) null_event l (λ i p. root_least l i h p)

-- An id that is not below the next one is not in the map.
pub position_fresh : (q : TimerQueue) → IsValid q → q.position q.next_timer_id ≡ none
position_fresh q v = elim (Option-cases (q.position q.next_timer_id)) [
  | inl e ↦ e
  | inr (i, e) ↦
      let at = v.indexed.found q.next_timer_id i e in
      absurd (
        omega
          (arith, v.fresh (nth null_event q.event_lst i) (nth-Mem null_event q.event_lst i at.0)))
]

-- The timer as add_timer stores it.
abbrev pub stamped : TimerQueue → TimerEvent → TimerEvent
stamped q te = record te { timer_id = q.next_timer_id }

-- The end of add_timer.
unfoldable pub aim : TimerQueue → TimerEvent → TimerQueue
aim r root = if ltb root.ts r.pioneer then reset_timo (record r { pioneer = root.ts }) else r

pub record Scheduled (q : TimerQueue) (te : TimerEvent) (r : ℕ × TimerQueue) : Type 0 where
  pub id : r.0 ≡ q.next_timer_id
  pub next : r.1.next_timer_id ≡ q.next_timer_id + 1
  pub perm : Perm r.1.event_lst (stamped q te ∷ q.event_lst)
  pub valid : IsValid r.1
  pub timely : IsTimely q → IsTimely r.1
  pub pioneer : (r.1.pioneer ≡ q.pioneer) ⊎ (r.1.pioneer ≡ ts_at r.1.event_lst 0)

-- The ids of the grown queue are below its next one.
Added-fresh :
    (q : TimerQueue) (te : TimerEvent) (r : TimerQueue)
    → IsValid q
    → Perm r.event_lst (stamped q te ∷ q.event_lst)
    → r.next_timer_id ≡ q.next_timer_id + 1
    → Each (λ t. t.timer_id < r.next_timer_id) r.event_lst
Added-fresh q te r v perm next = Each-perm _ perm (
    Each-cons _ (λ t. le_prop) (stamped q te) q.event_lst (omega (arith, next))
      (λ t m. omega (arith, next, v.fresh t m)))

pub aim-IsValid :
    (r : TimerQueue) (root : TimerEvent)
    → IsIndexed r
    → Each (λ t. t.timer_id < r.next_timer_id) r.event_lst
    → r.armed ≡ armed_for r.pioneer
    → IsValid (aim r root)
unfolding aim reset_timo
aim-IsValid r root v fresh aimed = elim (Bool-cases (ltb root.ts r.pioneer)) [
  | inl e ↦
      rw (e, aim)
        (record {
          indexed = record { sized = v.sized; placed = v.placed; found = v.found };
          fresh = fresh;
          aimed = refl;
        })
  | inr e ↦ rw (e, aim) (record { indexed = v; fresh = fresh; aimed = aimed })
]

pub aim-IsTimely :
    (r : TimerQueue) → IsHeap r.event_lst → IsTimely (aim r (nth null_event r.event_lst 0))
unfolding aim reset_timo
aim-IsTimely r h =
    let root = nth null_event r.event_lst 0 in
    elim (Bool-cases (ltb root.ts r.pioneer)) [
      | inl e ↦ rw (e, aim) (record { heap = h; early = least_of_heap r.event_lst h })
      | inr e ↦
          rw (e, aim)
            (record { heap = h; early = λ t m. ground (arith, least_of_heap r.event_lst h t m) })
    ]

pub aim_fields :
    (r : TimerQueue) (root : TimerEvent)
    → ((aim r root).event_lst ≡ r.event_lst)
      × ((aim r root).next_timer_id ≡ r.next_timer_id)
      × ((aim r root).position ≡ r.position)
unfolding aim reset_timo
aim_fields r root = elim (Bool-cases (ltb root.ts r.pioneer)) [
  | inl e ↦ rw (e, aim) (refl, refl, refl)
  | inr e ↦ rw (e, aim) (refl, refl, refl)
]

aim_pioneer :
    (r : TimerQueue) (root : TimerEvent)
    → ((aim r root).pioneer ≡ r.pioneer) ⊎ ((aim r root).pioneer ≡ root.ts)
unfolding aim reset_timo
aim_pioneer r root = elim (Bool-cases (ltb root.ts r.pioneer)) [
  | inl e ↦ rw (e, aim) (inr refl)
  | inr e ↦ rw (e, aim) (inl refl)
]

pub add_timer_runs :
    (q : TimerQueue) (te : TimerEvent) → IsValid q → Gives (Scheduled q te) (add_timer q te)
unfolding add_timer aim
add_timer_runs q te v =
    let counted = record q { next_timer_id = q.next_timer_id + 1 } in
    let indexed : IsIndexed counted = record {
      sized = v.indexed.sized;
      placed = v.indexed.placed;
      found = v.indexed.found;
    } in
    Gives-bind (heap_add_correct counted (stamped q te) indexed (position_fresh q v)) λ r a.
      let root = nth null_event r.event_lst 0 in
      let (list, next, pos) = aim_fields r root in
      rw (event_at-ok r.event_lst 0 (omega (arith, length-perm a.perm))) (
        gives (record {
          id = refl;
          next = next ∙ a.clock.ids;
          perm = rw list a.perm;
          valid =
              aim-IsValid r root a.indexed (Added-fresh q te r v a.perm a.clock.ids)
                (a.clock.armed ∙ v.aimed ∙ ap armed_for (sym a.clock.pioneer));
          timely = λ t. aim-IsTimely r (a.heap t.heap);
          pioneer = elim (aim_pioneer r root) [
            | inl same ↦ inl (same ∙ a.clock.pioneer)
            | inr least ↦ inr (least ∙ sym (ap (λ l. ts_at l 0) list))
          ];
        }))
