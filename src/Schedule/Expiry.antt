-- ===== src/Schedule/Expiry.antt =====
-- schedule.c: the end of a block: what `update_schedule` completes and what `remove_block` takes out of the
-- queues.
use epri_client.LinkedList.{find_by_data, list_remove}
use epri_client.LinkedList.Sets.{Distinct}
use epri_client.Prelude.{
  ◌||◌, ℕ, ◌≤◌, ◌<◌, ◌≡◌, refl, ap, ◌∙◌, arith, Bool, true, false, not, ◌&&◌, List, [], ◌∷◌, ◌++◌,
  All, leb, ◌==◌, if◌then◌else◌, Bool-cases, inl, inr, leb→le, leb-false→lt,
}
use epri_client.Schedule.{Schedule, Env, active_status, completed_status, event_completed}
use epri_client.Schedule.Controls.{device_response_same}
use epri_client.Schedule.Update.{complete_block, complete_expired, remove_block}

complete_block_block :
    (env : Env) (s : Schedule) (id k : ℕ)
    → (complete_block env s id).block k
      ≡ (if k == id then record (s.block id) { status = 6 } else s.block k)
unfolding complete_block
complete_block_block env s id k = elim (Bool-cases ((s.block id).status == active_status)) [
  | inl running ↦ rw (running, (device_response_same env s id event_completed).0) refl
  | inr waiting ↦ rw waiting refl
]

-- The first block stays, since its end lies in the future.
abbrev pub FirstLater : Env → Schedule → List ℕ → Type 0
FirstLater env s [] = Unit
FirstLater env s (id ∷ _) = env.time < (s.block id).end

-- What `complete_expired` comes to: the blocks `done` in front of the rest.
pub record Completed (env : Env) (s : Schedule) (ids done rest : List ℕ) (t : Schedule)
    : Type 0 where
  pub split : ids ≡ done ++ rest
  pub expired : All (λ id. (s.block id).end ≤ env.time) done
  pub later : FirstLater env s rest
  pub blocks :
      (k : ℕ)
      → t.block k ≡ (
          if find_by_data done k
          then record (s.block k) { status = completed_status }
          else s.block k)

end_kept :
    (env : Env) (id : ℕ) (s : Schedule) (k : ℕ)
    → ((complete_block env s id).block k).end ≡ (s.block k).end
end_kept env id s k = rw (complete_block_block env s id k) (end_of (k == id) refl)
  where
    end_of :
        (same : Bool)
        → (k == id) ≡ same
        → (if k == id then record (s.block id) { status = 6 } else s.block k).end ≡ (s.block k).end
    end_of same e = ground arith

All-kept :
    (env : Env) (s t : Schedule) (ids : List ℕ)
    → ((k : ℕ) → (t.block k).end ≡ (s.block k).end)
    → All (λ id. (t.block id).end ≤ env.time) ids
    → All (λ id. (s.block id).end ≤ env.time) ids
All-kept env s t [] same h = tt
All-kept env s t (x ∷ ids) same (p, h) = (omega (arith, same x), All-kept env s t ids same h)

FirstLater-kept :
    (env : Env) (s t : Schedule) (ids : List ℕ)
    → ((k : ℕ) → (t.block k).end ≡ (s.block k).end)
    → FirstLater env t ids
    → FirstLater env s ids
FirstLater-kept env s t [] same h = tt
FirstLater-kept env s t (x ∷ ids) same h = omega (arith, same x)

blocks_step :
    (env : Env) (s : Schedule) (id k : ℕ) (done : List ℕ)
    → (if find_by_data done k
        then record ((complete_block env s id).block k) { status = completed_status }
        else (complete_block env s id).block k)
      ≡ (if find_by_data (id ∷ done) k
          then record (s.block k) { status = completed_status }
          else s.block k)
unfolding find_by_data
blocks_step env s id k done = rw (complete_block_block env s id k) (elim (Bool-cases (k == id)) [
  | inl same ↦
      let e : k ≡ id = ground arith in
      let e' : (id == id) ≡ true = ground arith in
      rw (e, e')
        (elim (Bool-cases (find_by_data done id)) [
          | inl found ↦ rw found refl
          | inr new ↦ rw new refl
        ])
  | inr other ↦ let other' : (id == k) ≡ false = ground arith in rw (other, other') refl
])

-- The first loop of `update_schedule` completes the blocks at the front of the active queue whose
-- end has passed, down to the first whose end lies in the future. Their status is Completed, and
-- nothing else of a block changes.
pub complete_expired-Completed :
    (env : Env) (ids : List ℕ) (s : Schedule)
    → (done : List ℕ) × Completed env s ids done
        (complete_expired env ids s).0
        (complete_expired env ids s).1
unfolding complete_expired
complete_expired-Completed env [] s = (
  [],
  record { split = refl; expired = tt; later = tt; blocks = λ k. unfold find_by_data in refl },
)
complete_expired-Completed env (id ∷ next) s = elim (Bool-cases (leb (s.block id).end env.time)) [
  | inl over ↦
      let s' = complete_block env s id in
      let (done, c) = complete_expired-Completed env next s' in
      rw over (
        id ∷ done,
        record {
          split = ap (λ l. id ∷ l) c.split;
          expired = (leb→le _ _ over, All-kept env s s' done (end_kept env id s) c.expired);
          later = FirstLater-kept env s s' _ (end_kept env id s) c.later;
          blocks = λ k. c.blocks k ∙ blocks_step env s id k done;
        },
      )
  | inr later ↦ rw later (
    [],
    record {
      split = refl;
      expired = tt;
      later = leb-false→lt _ _ later;
      blocks = λ k. unfold find_by_data in refl;
    },
  )
]

find-list_remove_lem :
    (l : List ℕ) (x k : ℕ)
    → Distinct l
    → find_by_data (list_remove l x) k ≡ (find_by_data l k && not (x == k))
unfolding list_remove find_by_data
find-list_remove_lem [] x k d = refl
find-list_remove_lem (y ∷ l) x k d = ground (arith, find-list_remove_lem l x k d.1)

absent_without :
    (l : List ℕ) (x k : ℕ)
    → find_by_data l x ≡ false
    → find_by_data l k ≡ (find_by_data l k && not (x == k))
absent_without l x k absent = elim (Bool-cases (x == k)) [
  | inl same ↦ let e : k ≡ x = ground arith in rw (e, absent) refl
  | inr other ↦ ground arith
]

-- The block stands in the queue that its status names and in no other.
pub record IsQueued (s : Schedule) (id : ℕ) : Type 0 where
  pub scheduled_once : Distinct s.scheduled
  pub active_once : Distinct s.active
  pub superseded_once : Distinct s.superseded
  pub in_scheduled : find_by_data s.scheduled id ≡ ((s.block id).status == 0)
  pub in_active : find_by_data s.active id ≡ ((s.block id).status == 1 || (s.block id).status == 7)
  pub in_superseded : find_by_data s.superseded id ≡ ((s.block id).status == 8)

-- Each queue of `t` is the queue of `s` without the block.
abbrev pub Without : Schedule → Schedule → ℕ → Type 0
Without s t id =
    (k : ℕ)
    → (find_by_data t.scheduled k ≡ (find_by_data s.scheduled k && not (id == k)))
      × (find_by_data t.active k ≡ (find_by_data s.active k && not (id == k)))
      × (find_by_data t.superseded k ≡ (find_by_data s.superseded k && not (id == k)))

-- `remove_block` takes the block out of every queue and leaves the other blocks where they are, if
-- the block stood in the queue that its status names.
pub remove_block-Without :
    (env : Env) (s : Schedule) (id : ℕ) → IsQueued s id → Without s (remove_block env s id) id
unfolding remove_block
remove_block-Without env s id q k = ground (
  arith,
  find-list_remove_lem s.scheduled id k q.scheduled_once,
  find-list_remove_lem s.active id k q.active_once,
  find-list_remove_lem s.superseded id k q.superseded_once,
  absent_without s.scheduled id k,
  absent_without s.active id k,
  absent_without s.superseded id k,
)
