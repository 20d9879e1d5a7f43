-- ===== src/Retrieve/Graph.antt =====
-- The retrieval state of the graph: completion, updates and polling. The walks over the dependents
-- take fuel, as a graph with a cycle makes them run for ever; `none` is fuel used up.
use epri_client.Prelude.{
  ℕ, zero, suc, ◌+◌, Bool, true, false, not, ◌&&◌, Option, none, some, List, [], ◌∷◌, leb, ◌==◌,
  if◌then◌else◌, bit_or, length,
}
use epri_client.Prelude.Int.{ℤ, pos, negsuc}
use epri_client.LinkedList.{insert_unique, list_delete, list_subtract}
use epri_client.Schedule.{clear_bits}
use epri_client.Retrieve.{
  Store, Env, completion, resource_poll, put_stub, emit, is_negative, is_zero, is_null, set_reqs,
  set_list, set_flags, set_complete, remove_reqs, insert_stub, get_seq,
}

unfoldable pub enter_req_as : Env → Store → ℕ → ℕ → Option ℕ → Store × Bool
enter_req_as env st s d (some info) =
    let reqs = insert_stub env st (st.stub d).reqs s info in
    (set_reqs st d reqs, length reqs == (st.stub d).all)
enter_req_as env st s d none =
    let flags = clear_bits (st.stub d).flags (st.stub s).flag in
    (set_flags (set_reqs st d (insert_unique (st.stub d).reqs s)) d flags, flags == 0)

-- What `dep_complete` enters in the dependent `d`, and whether that makes `d` complete.
unfoldable pub enter_req : Env → Store → ℕ → ℕ → Store × Bool
enter_req env st s d = enter_req_as env st s d (st.stub d).info

-- The requirements that an update did not find again.
unfoldable pub drop_old : Store → ℕ → Store
drop_old st d =
    let b = st.stub d in
    if is_null b.list then st else set_list (remove_reqs st d (list_subtract b.list b.reqs)) d []

unfoldable pub complete_one : (Store → ℕ → Option Store) → ℕ → Store × Bool → Option Store
complete_one recurse d (st, false) = some st
complete_one recurse d (st, true) = recurse (drop_old st d) d

-- The links behind the one of `d`, where the list has it. No list of dependents has a stub twice, so
-- that the stub tells the link.
unfoldable pub links_behind : List ℕ → ℕ → Option (List ℕ)
links_behind [] d = none
links_behind (e ∷ rest) d = let later = links_behind rest d in if e == d then some rest else later

-- The loop over the dependents from a link on, with `dep_complete` as `recurse`. The next link is the
-- one that the list of `s` has then, behind what the round changed; `none` is also a step from a link
-- that the round deleted, which C leaves undefined.
unfoldable pub complete_deps :
    ℕ → (Store → ℕ → Option Store) → Env → ℕ → List ℕ → Store → Option Store
complete_deps rounds recurse env s [] st = some st
complete_deps zero recurse env s (d ∷ rest) st = none
complete_deps (suc rounds) recurse env s (d ∷ rest) st =
    elim (complete_one recurse d (enter_req env st s d)) [
      | none ↦ none
      | some st' ↦ elim (links_behind (st'.stub s).deps d) [
        | none ↦ none
        | some rest' ↦ complete_deps rounds recurse env s rest' st'
      ]
    ]

-- The completion routine, a parameter, runs when the stub was not complete before.
unfoldable pub mark_complete : Env → Store → ℕ → Store
mark_complete env st s =
    let b = st.stub s in
    let ran = env.on_complete (emit st (completion s)) s in
    set_complete (if b.has_completion && not b.complete then ran else st) s true

-- With fuel for the depth of the calls, and a number of rounds that no loop exceeds.
unfoldable pub dep_complete : ℕ → ℕ → Env → Store → ℕ → Option Store
dep_complete zero rounds env st s = none
dep_complete (suc fuel) rounds env st s =
    let st' = mark_complete env st s in
    complete_deps rounds (dep_complete fuel rounds env) env s (st'.stub s).deps st'

unfoldable pub leave_req_as : Store → ℕ → ℕ → Option ℕ → Store
leave_req_as st s d (some info) = set_reqs st d (list_delete (st.stub d).reqs s)
leave_req_as st s d none = set_flags st d (bit_or (st.stub d).flags (st.stub s).flag)

unfoldable pub leave_req : Store → ℕ → ℕ → Store
leave_req st s d = leave_req_as st s d (st.stub d).info

unfoldable pub reset_deps : (Store → ℕ → Option Store) → ℕ → List ℕ → Store → Option Store
reset_deps recurse s [] st = some st
reset_deps recurse s (d ∷ rest) st = elim (recurse (leave_req st s d) d) [
  | none ↦ none
  | some st' ↦ reset_deps recurse s rest st'
]

unfoldable pub dep_reset : ℕ → Store → ℕ → Option Store
dep_reset zero st s = none
dep_reset (suc fuel) st s =
    let st' = set_complete st s false in reset_deps (dep_reset fuel) s (st'.stub s).deps st'

-- The requirements become the old ones, until the update finds them again.
abbrev pub begin_update : Store → ℕ → Store
begin_update st s =
    let b = st.stub s in
    put_stub st s
      (record b { offset = if b.all == 0 then b.offset else 0; list = b.reqs; reqs = [] })

abbrev pub request_update : Env → ℕ → Store → Store
request_update env s st =
    let st' = put_stub st s (record (st.stub s) { status = negsuc 0 }) in
    get_seq env st' s 0 (st'.stub s).all

unfoldable pub update_resource : ℕ → Env → Store → ℕ → Option Store
update_resource fuel env st s =
    let b = st.stub s in
    let st' = begin_update st s in
    if is_negative b.status
    then some st
    else if not (is_zero b.status) && not (env.is_event b.type)
    then elim (dep_reset fuel st' s) [ none ↦ none | some st'' ↦ some (request_update env s st'') ]
    else some (request_update env s (set_complete st' s false))

-- The type of a requirement as a number of the schema.
abbrev pub has_type : ℤ → ℕ → Bool
has_type (pos n) type = n == type
has_type (negsuc n) type = false

abbrev pub moved_or : Option ℕ → ℕ → ℕ
moved_or none t = t
moved_or (some u) t = u

unfoldable pub subordinate_loop : Store → List ℕ → ℕ → Option ℕ
subordinate_loop st [] type = none
subordinate_loop st (t ∷ rest) type =
    let later = subordinate_loop st rest type in
    if has_type (st.stub t).type type then some (moved_or (st.stub t).moved t) else later

unfoldable pub get_subordinate : Store → ℕ → ℕ → Option ℕ
get_subordinate st s type = subordinate_loop st (st.stub s).reqs type

-- An event is not polled when it ends before the next poll.
unfoldable pub poll_resource : Env → Store → ℕ → Store
poll_resource env st s =
    let b = st.stub s in
    let next = env.se_time + b.poll_rate in
    let polled = emit (put_stub st s (record b { poll_next = next })) (resource_poll s next) in
    if env.is_event b.type && leb (env.event_end s) next
    then st
    else if leb b.poll_next env.se_time
    then polled
    else st
