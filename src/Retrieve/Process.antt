-- ===== src/Retrieve/Process.antt =====
-- The responses of a server: the objects that were retrieved, redirects and failures. `none` is a
-- call that does not end, or one that reads through a null pointer.
use epri_client.Prelude.{
  ℕ, zero, suc, ◌+◌, Bool, true, false, not, ◌||◌, Option, none, some, List, [], ◌∷◌, ltb, ◌==◌,
  if◌then◌else◌,
}
use epri_client.Prelude.Int.{ℤ, pos, negsuc, sub_ℕ}
use epri_client.Util.{Bytes, streq}
use epri_client.Retrieve.{
  Store, Env, retrieve_fail, put, put_stub, emit, is_negative, is_zero, find_stub, get_stub,
  add_dep, remove_req, delete_reqs, remove_stub, get_seq,
}
use epri_client.Retrieve.Graph.{has_type, dep_complete, update_resource}

-- What is read of an object that was retrieved: `all`, `results` and the items of a list, the `href`
-- of a resource, and the current status of an event.
pub record Objects : Type 0 where
  pub all : ℕ → ℕ
  pub results : ℕ → ℕ
  pub items : ℕ → List ℕ
  pub href : ℕ → Option Bytes

-- `resource_data` replaced by the new object. Of an event only the EventStatus is replaced, so that
-- the old object stays; which status it has is not kept here.
unfoldable pub store_object : Env → Store → ℕ → ℕ → Store
store_object env st s obj = elim (st.stub s).object [
  | none ↦ put_stub st s (record (st.stub s) { object = some obj })
  | some old ↦
      if env.is_event (st.stub s).type
      then put_stub st s (record (st.stub s) { complete = false })
      else put_stub st s (record (st.stub s) { object = some obj })
]

-- The number of the items that are still needed; below 0 where the server sent more than there are.
unfoldable pub list_seq : Objects → Store → ℕ → ℕ → ℤ × Store
list_seq objects st s obj =
    let offset = (st.stub s).offset + objects.results obj in
    (
      sub_ℕ (objects.all obj) offset,
      put_stub st s (record (st.stub s) { all = objects.all obj; offset = offset }),
    )

unfoldable pub object_path : Env → Objects → ℕ → ℕ → Option Bytes
object_path env objects conn obj = elim (objects.href obj) [
  | none ↦ none
  | some href ↦ elim (env.resolve conn href) [ none ↦ none | some target ↦ some target.1 ]
]

-- `dep` is the dependency function of the client, which may fail to end as well.
-- What `process_http` reads of a response: its status and method, the context of the request, the
-- path of the request, the body with its type, and the `Location` header.
pub data Method : Type 0 where
  http_get http_post http_put http_delete other_method : Method

pub record Response : Type 0 where
  pub conn : ℕ
  pub status : ℕ
  pub method : Method
  pub context : Option ℕ
  pub path : Bytes
  pub body : Option (ℕ × ℕ)
  pub location : Option Bytes

abbrev pub is_get : Method → Bool
is_get http_get = true
is_get _ = false

unfoldable pub process_failure : Store → Response → Store
process_failure st r = elim (find_stub st r.path r.conn) [
  | none ↦ st
  | some s ↦
      if is_get r.method
      then emit (put_stub st s (record (st.stub s) { status = pos r.status })) (retrieve_fail s)
      else st
]

module _ (fuel : ℕ) (env : Env) (objects : Objects) (dep : Store → ℕ → Option Store) where
  unfoldable pub update_existing : Store → ℕ → ℕ → Option Store
  update_existing st s obj = elim (dep (store_object env st s obj) s) [
    | none ↦ none
    | some st' ↦ if (st'.stub s).flags == 0 then dep_complete fuel fuel env st' s else some st'
  ]

  -- The items of a list; one with no path is freed.
  unfoldable pub update_items : ℕ → ℕ → List ℕ → Store → Option Store
  update_items s type [] st = some st
  update_items s type (item ∷ rest) st = elim (object_path env objects (st.stub s).conn item) [
    | none ↦ update_items s type rest st
    | some path ↦
        let (d, st') = get_stub env st path (pos type) (st.stub s).conn in
        elim (update_existing (add_dep st' s d) d item) [
          | none ↦ none
          | some st'' ↦ update_items s type rest st''
        ]
  ]

  -- The next page, or the completion of an empty list.
  unfoldable pub finish_list : ℕ → ℤ → Store → Option Store
  finish_list s (pos (suc n)) st = some (get_seq env st s (st.stub s).offset (suc n))
  finish_list s (pos zero) st =
      if (st.stub s).all == 0 then dep_complete fuel fuel env st s else some st
  finish_list s (negsuc n) st =
      if (st.stub s).all == 0 then dep_complete fuel fuel env st s else some st

  unfoldable pub list_object : ℕ → Store → ℕ → ℕ → Option (ℤ × Store)
  list_object type st s obj =
      let (count, st₁) = list_seq objects st s obj in
      let st₂ = put_stub st₁ s (record (st₁.stub s) { object = some obj }) in
      elim (dep st₂ s) [
        | none ↦ none
        | some st₃ ↦ elim (update_items s type (objects.items obj) st₃) [
          | none ↦ none
          | some st₄ ↦ elim (finish_list s count st₄) [ none ↦ none | some st₅ ↦ some (count, st₅) ]
        ]
      ]

  -- The stub with the time of the response, updated by the object; its status is the status of the
  -- response unless pages of a list are missing.
  unfoldable pub retrieved : Store → ℕ → ℕ → ℕ → Option Store
  retrieved st s obj status =
      let st' = put_stub st s (record (st.stub s) { time = env.now }) in
      let settled = λ (t : Store). put_stub t s (record (t.stub s) { status = pos status }) in
      elim (st'.stub s).info [
        | none ↦ elim (update_existing st' s obj) [ none ↦ none | some t ↦ some (settled t) ]
        | some type ↦ elim (list_object type st' s obj) [
          | none ↦ none
          | some (count, t) ↦ some (if is_zero count then settled t else t)
        ]
      ]

  unfoldable pub get_resource : Store → ℕ → ℤ → Bytes → ℕ → Option (Option ℕ × Store)
  get_resource st conn type href count = elim (env.resolve conn href) [
    | none ↦ some (none, st)
    | some (conn', path) ↦
        let (s, st') = get_stub env st path type conn' in
        let asked = put_stub st' s (record (st'.stub s) { all = count }) in
        elim (ltb ((st'.stub s).time + (st'.stub s).poll_rate) env.now) [
          | false ↦ some (some s, st')
          | true ↦ elim (update_resource fuel env asked s) [
            | none ↦ none
            | some st'' ↦ some (some s, st'')
          ]
        ]
  ]

  unfoldable pub put_resource : Store → ℕ → ℤ → Bytes → Option ℕ × Store
  put_resource st conn type href = elim (env.resolve conn href) [
    | none ↦ (none, st)
    | some (conn', path) ↦
        let (s, st') = get_stub env st path type conn' in (some s, emit st' (put conn href))
  ]

  -- The requirement on the place that the resource moved to replaces the one on the place before.
  unfoldable pub link_moved : Store → ℕ → ℕ → Store
  link_moved st s t =
      let released : Store = elim (st.stub s).moved [
        | none ↦ st
        | some old ↦ if old == t then st else remove_req st s old
      ] in
      let st' = add_dep released s t in put_stub st' s (record (st'.stub s) { moved = some t })

  unfoldable pub get_moved : Store → ℕ → Option Bytes → Option Store
  get_moved st s none = some (delete_reqs st s)
  get_moved st s (some location) =
      elim (get_resource st (st.stub s).conn (st.stub s).type location (st.stub s).all) [
        | none ↦ none
        | some (none, st') ↦ some (delete_reqs st' s)
        | some (some t, st') ↦ some (delete_reqs (link_moved st' s t) s)
      ]

  -- The stub of the request, if the object is at its path and of its type.
  unfoldable pub match_request : Store → ℕ → ℕ → ℕ → ℕ → Option ℕ × Store
  match_request st s conn obj type = elim (object_path env objects conn obj) [
    | none ↦ (none, st)
    | some path ↦
        let typed = put_stub st s (record (st.stub s) { type = pos type }) in
        if not (streq (st.stub s).name path)
        then (none, st)
        else if is_negative (st.stub s).type
        then (some s, typed)
        else if has_type (st.stub s).type type
        then (some s, st)
        else (none, st)
  ]

  unfoldable pub answer_get : Store → Response → Option ℕ → Option (ℕ × ℕ) → Option Store
  answer_get st r none none = some st
  answer_get st r none (some (obj, type)) = elim (object_path env objects r.conn obj) [
    | none ↦ some st
    | some path ↦ none
  ]
  answer_get st r (some s) none = some st
  answer_get st r (some s) (some (obj, type)) =
      let (matched, st') = match_request st s r.conn obj type in
      elim matched [ none ↦ some st' | some t ↦ retrieved st' t obj r.status ]

  abbrev pub mark_subscribed : Store → Option ℕ → Store
  mark_subscribed st none = st
  mark_subscribed st (some s) = put_stub st s (record (st.stub s) { subscribed = true })

  -- A list gets the resource that was created in it as a requirement.
  unfoldable pub answer_post : Store → Response → Option ℕ → Option Store
  answer_post st r none = some st
  answer_post st r (some s) = elim (st.stub s).info [
    | none ↦ some st
    | some type ↦ elim r.location [
      | none ↦ some st
      | some location ↦ elim (get_resource st r.conn (pos type) location 0) [
        | none ↦ none
        | some (none, st') ↦ none
        | some (some created, st') ↦ some (add_dep st' s created)
      ]
    ]
  ]

  unfoldable pub answer_put : Store → Option ℕ → Option Store
  answer_put st none = some st
  answer_put st (some s) = elim (st.stub s).object [
    | none ↦ update_resource fuel env st s
    | some obj ↦ some st
  ]

  unfoldable pub answer_delete : Store → Option ℕ → Option Store
  answer_delete st none = none
  answer_delete st (some s) = some (remove_stub st s)

  unfoldable pub process_response : Store → Response → Option Store
  process_response st r = elim r.method [
    | http_get ↦ answer_get st r r.context r.body
    | http_post ↦
        let st' = mark_subscribed st r.context in answer_post st' r (find_stub st' r.path r.conn)
    | http_put ↦ answer_put st (find_stub st r.path r.conn)
    | http_delete ↦ answer_delete st r.context
    | other_method ↦ some st
  ]

  unfoldable pub process_redirect : Store → Response → Option Store
  process_redirect st r = elim (find_stub st r.path r.conn) [
    | none ↦ some st
    | some s ↦ elim (get_moved st s r.location) [
      | none ↦ none
      | some st' ↦ some (put_stub st' s (record (st'.stub s) { status = pos r.status }))
    ]
  ]

  -- The number that is returned, the status of a good response or 0. `none` is a message that is no
  -- response.
  unfoldable pub process_http : Store → Option Response → Option (ℕ × Store)
  process_http st none = some (0, st)
  process_http st (some r) =
      let good = r.status == 200 || r.status == 201 || r.status == 204 in
      let moved = r.status == 300 || r.status == 301 in
      let answered : Option (ℕ × Store) = elim (process_response st r) [
        | none ↦ none
        | some st' ↦ some (r.status, st')
      ] in
      let redirected : Option (ℕ × Store) = elim (process_redirect st r) [
        | none ↦ none
        | some st' ↦ some (0, st')
      ] in
      if good then answered else if moved then redirected else some (0, process_failure st r)

-- The stubs of the GET requests that are still queued are removed.
unfoldable pub cleanup_http : Store → List (Bool × ℕ) → Store
cleanup_http st [] = st
cleanup_http st ((gets, s) ∷ rest) = cleanup_http (if gets then remove_stub st s else st) rest
