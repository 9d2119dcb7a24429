-- ===== src/Waitlist/Entries.antt =====
-- What the loops of a waitlist leave in its array, entry by entry.
use ko_rtos.Base.{
  ℕ, zero, suc, ◌+◌, ◌-◌, ◌≤◌, ◌<◌, ◌≡◌, Option, none, ltb, leb, ◌&&◌, if◌then◌else◌, update, arith,
}
use ko_rtos.Types.{Waitlist, os_max_tasks}
use ko_rtos.Waitlist.{clear_entries, shift_down, waitlist_remove_task}

shift_down-at :
    (n i : ℕ) (a : ℕ → Option ℕ) (j : ℕ)
    → shift_down n i a j ≡ (if leb i j && ltb j (i + n) then a (suc j) else a j)
unfolding shift_down
shift_down-at zero i a j = ground arith
shift_down-at (suc n) i a j = ground (arith, shift_down-at n (suc i) (update a i (a (suc i))) j)

-- The entries below the removed one stay, those above it move down by one.
pub remove-entry :
    (w : Waitlist) (i j : ℕ)
    → i < w.wait_count
    → suc j < w.wait_count
    → (waitlist_remove_task w i).task_waitlist j
      ≡ (if ltb j i then w.task_waitlist j else w.task_waitlist (suc j))
unfolding waitlist_remove_task
remove-entry w i j h l =
    ground (arith, shift_down-at (w.wait_count - 1 - i) i (update w.task_waitlist i none) j)

-- The entry past the new end is NULL.
pub remove-end :
    (w : Waitlist) (i : ℕ)
    → i < w.wait_count
    → (waitlist_remove_task w i).task_waitlist (w.wait_count - 1) ≡ none
unfolding waitlist_remove_task
remove-end w i h = ground arith

pub remove-count :
    (w : Waitlist) (i : ℕ)
    → i < w.wait_count
    → w.wait_count ≤ os_max_tasks
    → suc (waitlist_remove_task w i).wait_count ≡ w.wait_count
unfolding waitlist_remove_task
remove-count w i h l = omega arith

clear_entries-at :
    (n i : ℕ) (a : ℕ → Option ℕ) (j : ℕ)
    → clear_entries n i a j ≡ (if leb i j && ltb j (i + n) then none else a j)
unfolding clear_entries
clear_entries-at zero i a j = ground arith
clear_entries-at (suc n) i a j = ground (arith, clear_entries-at n (suc i) (update a i none) j)
