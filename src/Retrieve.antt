-- ===== src/Retrieve.antt =====
-- retrieve.c and resource.c: the stubs of the resources of a server, which require one another.
-- A stub is named by a number, and the store holds what the stub of each name holds. The resource
-- table maps a name to the chain of the stubs of this name, the first of which is in the hash table.
-- What the module asks of others is appended to `calls`, the newest first.
use epri_client.Prelude.{
  ℕ, zero, suc, ◌+◌, ◌-◌, ◌≤◌, Bool, true, false, not, ◌&&◌, ◌||◌, Option, none, some, List, [],
  ◌∷◌, ◌++◌, ltb, leb, ◌==◌, if◌then◌else◌, bit_and, bit_or, min, length,
}
use epri_client.Prelude.Int.{ℤ, pos, negsuc}
use epri_client.Util.{Bytes, streq}
use epri_client.LinkedList.{find_by_data, insert_unique, list_delete, list_remove, list_subtract}
use epri_client.Schedule.{clear_bits}
pub mod Graph
pub mod Process
pub mod Reset
pub mod Errors
pub mod Progress
pub mod Complete

-- Resource and Stub. `info` is the type of the items of a list resource, and `object` the object that
-- `data` points to. The type is -1 for a resource of a type that is not known yet.
pub record Stub : Type 0 where
  pub name : Bytes
  pub type : ℤ
  pub info : Option ℕ
  pub object : Option ℕ
  pub time : ℕ
  pub conn : ℕ
  pub status : ℤ
  pub poll_next : ℕ
  pub poll_rate : ℕ
  pub complete : Bool
  pub subscribed : Bool
  pub flag : ℕ
  pub flags : ℕ
  pub offset : ℕ
  pub all : ℕ
  pub moved : Option ℕ
  pub list : List ℕ
  pub deps : List ℕ
  pub reqs : List ℕ
  pub has_completion : Bool
  pub is_freed : Bool

-- `http_get`, `http_delete` and `se_put` on a connection, `set_request_context`, the events for the
-- main loop, `remove_event`, and the completion routine of a stub.
pub data Call : Type 0 where
  get put delete : ℕ → Bytes → Call
  request_context : ℕ → ℕ → Call
  resource_remove retrieve_fail : ℕ → Call
  resource_poll : ℕ → ℕ → Call
  remove_events completion : ℕ → Call

pub record Store : Type 0 where
  pub next : ℕ
  pub stub : ℕ → Stub
  pub chain : Bytes → List ℕ
  pub calls : List Call

-- What is read of the objects and of their types. `before` is `compare_keys < 0` for objects of a
-- list, `is_subscribable`, `is_list` and `is_event` ask the schema, and `find_list_info` its table.
-- `resolve` is `http_parse_uri` with the connection that `se_connect_uri` gives for a host, and
-- `print` is what `%d` prints. `on_complete` is the completion routine of a stub: what it makes of the
-- store, in which it may change stubs by the functions of this module.
pub record Env : Type 0 where
  pub is_list : ℤ → Bool
  pub is_event : ℤ → Bool
  pub find_list_info : ℤ → Option ℕ
  pub before : ℕ → Option ℕ → Option ℕ → Bool
  pub resolve : ℕ → Bytes → Option (ℕ × Bytes)
  pub print : ℕ → Bytes
  pub now : ℕ
  pub se_time : ℕ
  pub event_end : ℕ → ℕ
  pub on_complete : Store → ℕ → Store

abbrev pub update_stub : (ℕ → Stub) → ℕ → Stub → ℕ → Stub
update_stub f k v j = if j == k then v else f j

abbrev pub put_stub : Store → ℕ → Stub → Store
put_stub st k v = record st { stub = update_stub st.stub k v }

abbrev pub emit : Store → Call → Store
emit st c = record st { calls = c ∷ st.calls }

abbrev pub is_negative : ℤ → Bool
is_negative (pos n) = false
is_negative (negsuc n) = true

abbrev pub is_zero : ℤ → Bool
is_zero (pos n) = n == 0
is_zero (negsuc n) = false

abbrev pub is_null {ℓ} : {A : Type ℓ} → List A → Bool
is_null [] = true
is_null (x ∷ xs) = false

abbrev pub set_deps : Store → ℕ → List ℕ → Store
set_deps st k l = put_stub st k (record (st.stub k) { deps = l })

abbrev pub set_reqs : Store → ℕ → List ℕ → Store
set_reqs st k l = put_stub st k (record (st.stub k) { reqs = l })

abbrev pub set_list : Store → ℕ → List ℕ → Store
set_list st k l = put_stub st k (record (st.stub k) { list = l })

abbrev pub set_flags : Store → ℕ → ℕ → Store
set_flags st k n = put_stub st k (record (st.stub k) { flags = n })

abbrev pub set_complete : Store → ℕ → Bool → Store
set_complete st k b = put_stub st k (record (st.stub k) { complete = b })

unfoldable pub subscribed_loop : Env → Store → List ℕ → Bool
subscribed_loop env st [] = false
subscribed_loop env st (t ∷ rest) =
    let more = subscribed_loop env st rest in
    if env.is_list (st.stub t).type then (if (st.stub t).subscribed then true else more) else false

unfoldable pub is_subscribed : Env → Store → ℕ → Bool
is_subscribed env st s =
    if (st.stub s).subscribed then true else subscribed_loop env st (st.stub s).deps

-- `"%s?s=%d&l=%d"`, `"%s?l=%d"` or the name alone.
unfoldable pub seq_uri : Env → Bytes → ℕ → ℕ → Bytes
seq_uri env name offset count =
    let limit = if ltb 255 count then 255 else count in
    if count == 0
    then name
    else if offset == 0
    then name ++ (b'?' ∷ b'l' ∷ b'=' ∷ env.print limit)
    else name ++ (b'?' ∷ b's' ∷ b'=' ∷ (env.print offset ++ (b'&' ∷ b'l' ∷ b'=' ∷ env.print limit)))

unfoldable pub get_seq : Env → Store → ℕ → ℕ → ℕ → Store
get_seq env st s offset count =
    let t = st.stub s in
    emit (emit st (get t.conn (seq_uri env t.name offset count))) (request_context t.conn s)

unfoldable pub add_dep : Store → ℕ → ℕ → Store
add_dep st r d =
    let b = st.stub d in
    let linked = record b {
      deps = insert_unique b.deps r;
      poll_rate = min b.poll_rate (st.stub r).poll_rate;
    } in
    set_complete (put_stub st d linked) r false

unfoldable pub new_dep : Store → ℕ → Option ℕ → ℕ → Store
new_dep st r none flag = st
new_dep st r (some d) flag =
    let st' = add_dep st r d in
    let flagged = put_stub st' d (record (st'.stub d) { flag = flag }) in
    set_flags flagged r (bit_or (flagged.stub r).flags flag)

unfoldable pub remove_req : Store → ℕ → ℕ → Store
remove_req st s r =
    let deps = list_delete (st.stub r).deps s in
    let st' = set_deps st r deps in if is_null deps then emit st' (resource_remove r) else st'

unfoldable pub remove_reqs : Store → ℕ → List ℕ → Store
remove_reqs st s [] = st
remove_reqs st s (r ∷ rest) = remove_reqs (remove_req st s r) s rest

unfoldable pub remove_dep : Store → ℕ → ℕ → Store
remove_dep st s t =
    let b = st.stub t in
    if is_negative b.status
    then set_list st t (list_delete b.list s)
    else set_reqs st t (list_delete b.reqs s)

unfoldable pub remove_deps : Store → ℕ → List ℕ → Store
remove_deps st s [] = st
remove_deps st s (t ∷ rest) = remove_deps (remove_dep st s t) s rest

-- The stub of the chain on this connection.
unfoldable pub find_conn_stub : Store → ℕ → List ℕ → Option ℕ
find_conn_stub st conn [] = none
find_conn_stub st conn (s ∷ rest) =
    let later = find_conn_stub st conn rest in if (st.stub s).conn == conn then some s else later

unfoldable pub find_stub : Store → Bytes → ℕ → Option ℕ
find_stub st name conn = find_conn_stub st conn (st.chain name)

abbrev pub set_chain : Store → Bytes → List ℕ → Store
set_chain st name l = record st { chain = λ n. if streq n name then l else st.chain n }

-- `calloc` and the fields that `new_resource` and `get_stub` set.
abbrev pub new_stub : Env → Bytes → ℤ → ℕ → Stub
new_stub env name type conn = record {
  name = name;
  type = type;
  info = env.find_list_info type;
  object = none;
  time = 0;
  conn = conn;
  status = pos 0;
  poll_next = 0;
  poll_rate = 900;
  complete = false;
  subscribed = false;
  flag = 0;
  flags = 0;
  offset = 0;
  all = 0;
  moved = none;
  list = [];
  deps = [];
  reqs = [];
  has_completion = false;
  is_freed = false;
}

-- A new stub goes behind the head of the chain, or becomes the chain.
abbrev pub link_second : List ℕ → ℕ → List ℕ
link_second [] s = s ∷ []
link_second (head ∷ rest) s = head ∷ s ∷ rest

unfoldable pub get_stub : Env → Store → Bytes → ℤ → ℕ → ℕ × Store
get_stub env st name type conn = elim (find_stub st name conn) [
  | some s ↦ (s, st)
  | none ↦
      let s = st.next in
      let st' = put_stub (record st { next = s + 1 }) s (new_stub env name type conn) in
      (s, set_chain st' name (link_second (st.chain name) s))
]

unfoldable pub delete_reqs : Store → ℕ → Store
delete_reqs st s =
    let st' = remove_reqs (remove_reqs st s (st.stub s).reqs) s (st.stub s).list in
    put_stub st' s (record (st'.stub s) { reqs = []; list = [] })

-- `delete_resource (head)` hands over the stub where a name is asked for. The first bytes of the stub
-- are its pointer to the next one, which is NULL, so that the name is the empty one.
unfoldable pub unlink_stub : Store → ℕ → Store
unlink_stub st s =
    let rest = list_remove (st.chain (st.stub s).name) s in
    if is_null rest then set_chain st [] [] else set_chain st (st.stub s).name rest

unfoldable pub release_reqs : Store → ℕ → Option ℕ → Store
release_reqs st s none = delete_reqs st s
release_reqs st s (some t) = remove_req st s t

unfoldable pub remove_stub : Store → ℕ → Store
remove_stub st s =
    let st₁ = unlink_stub st s in
    let st₂ = release_reqs st₁ s (st₁.stub s).moved in
    let st₃ = emit (remove_deps st₂ s (st₂.stub s).deps) (remove_events s) in
    put_stub st₃ s (record (st₃.stub s) { is_freed = true })

-- The stub goes in front of the first one with a greater key.
unfoldable pub insert_before : Env → Store → ℕ → List ℕ → ℕ → List ℕ
insert_before env st info [] s = s ∷ []
insert_before env st info (l ∷ rest) s =
    let more = insert_before env st info rest s in
    if env.before info (st.stub s).object (st.stub l).object then s ∷ l ∷ rest else l ∷ more

unfoldable pub insert_stub : Env → Store → List ℕ → ℕ → ℕ → List ℕ
insert_stub env st list s info =
    if find_by_data list s then list else insert_before env st info list s

unfoldable pub delete_stub : Store → ℕ → Store
delete_stub st s =
    emit (emit st (delete (st.stub s).conn (st.stub s).name)) (request_context (st.stub s).conn s)
