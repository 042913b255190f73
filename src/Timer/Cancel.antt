-- ===== src/Timer/Cancel.antt =====
-- del_timer of src/timer_queue.cc.
use mathlib.Core.List.Perm
use mathlib.Core.List.{mem-cons_of_mem}
use easy_reactor.Base.{
  nil_of_length, ℕ, ◌<◌, ◌≡◌, refl, ◌∙◌, ap, sym, ◌∷◌, Perm, arith, ◌==◌, length, none, some,
}
use easy_reactor.Base.Lists.Nth.{nth, Each, Each-nil}
use easy_reactor.Base.Run.{ok, Gives, gives, Gives-if, Gives-bind}
use easy_reactor.Timer.{TimerQueue, reset_timo, retarget, del_timer}
use easy_reactor.Timer.Order.{id_at, null_event, event_at-ok}
use easy_reactor.Timer.Remove.{Removed, FitsBelow, heap_del_correct}
use easy_reactor.Timer.Clock.{
  armed_for, IsValid, IsTimely, aim, aim-IsValid, aim-IsTimely, aim_fields,
}

-- What is left when the timer at index `i` is gone, and no longer in the map.
pub record Cancelled (q : TimerQueue) (i : ℕ) (r : TimerQueue) : Type 0 where
  pub perm : Perm (nth null_event q.event_lst i ∷ r.event_lst) q.event_lst
  pub valid : IsValid r
  pub next : r.next_timer_id ≡ q.next_timer_id
  pub gone : r.position (id_at q.event_lst i) ≡ none
  pub timely : IsTimely q → FitsBelow q.event_lst i → IsTimely r

Removed-fresh :
    (q : TimerQueue) (i : ℕ) (r : TimerQueue)
    → Removed q i r
    → IsValid q
    → Each (λ t. t.timer_id < r.next_timer_id) r.event_lst
Removed-fresh q i r d v t m =
    omega (arith, d.clock.ids, v.fresh t ((Perm.mem_iff d.perm).0 (mem-cons_of_mem _ m)))

retarget-Cancelled :
    (q : TimerQueue) (i : ℕ) (r : TimerQueue)
    → IsValid q
    → Removed q i r
    → Gives (Cancelled q i) (retarget r)
unfolding retarget reset_timo aim
retarget-Cancelled q i r v d =
    let fresh = Removed-fresh q i r d v in
    Gives-if (r.count == 0)
      (λ e.
        let none_left : length r.event_lst ≡ 0 = ground (arith, d.indexed.sized) in
        gives (record {
          perm = d.perm;
          valid = record {
            indexed = record {
              sized = d.indexed.sized;
              placed = d.indexed.placed;
              found = d.indexed.found;
            };
            fresh = fresh;
            aimed = refl;
          };
          next = d.clock.ids;
          gone = d.gone;
          timely = λ t fits. record {
            heap = d.heap t.heap fits;
            early = rw (nil_of_length r.event_lst none_left) (Each-nil _);
          };
        }))
      (λ e.
        let some_left : 0 < length r.event_lst = ground (arith, d.indexed.sized) in
        let root = nth null_event r.event_lst 0 in
        let (list, next, pos) = aim_fields r root in
        rw (event_at-ok r.event_lst 0 some_left) (
          gives (record {
            perm = rw list d.perm;
            valid =
                aim-IsValid r root d.indexed fresh
                  (d.clock.armed ∙ v.aimed ∙ ap armed_for (sym d.clock.pioneer));
            next = next ∙ d.clock.ids;
            gone = rw pos d.gone;
            timely = λ t fits. aim-IsTimely r (d.heap t.heap fits);
          })))

pub del_timer_runs :
    (q : TimerQueue) (id i : ℕ)
    → IsValid q
    → q.position id ≡ some i
    → Gives (Cancelled q i) (del_timer q id)
unfolding del_timer
del_timer_runs q id i v e =
    rw (e, del_timer)
      (Gives-bind (heap_del_correct q i v.indexed (v.indexed.found id i e).0)
        λ r d. retarget-Cancelled q i r v d)

-- An id that the map does not have changes nothing.
pub del_timer_unknown : (q : TimerQueue) (id : ℕ) → q.position id ≡ none → del_timer q id ≡ ok q
unfolding del_timer
del_timer_unknown q id e = rw (e, del_timer)
